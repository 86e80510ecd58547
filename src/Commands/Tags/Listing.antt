-- ===== src/Commands/Tags/Listing.antt =====
-- What `show` and `list` print, and when they write past their buffers.
use nav.Base.{
  ℕ, ◌+◌, ◌-◌, ◌≡◌, refl, sym, ap, ◌∙◌, true, false, ◌≤◌, ◌<◌, List, [], ◌∷◌, ◌++◌, append_assoc,
  append-nil, take, take-append_self, replicate, some, ℤ, length, length-append, Bytes, arith, ltb,
  if◌then◌else◌, Bool-cases, inl, inr,
}
use nav.Run.{ok, fault}
use nav.CString.Bounds.{sprintf-fits, sprintf-overflows, take-snprintf}
use nav.Tag.{Tag}
use nav.Commands.Tags.{
  space, list_size, list_loop, list_payload, show_size, show_line, show_loop, cmd_list, cmd_show,
}
use nav.Shell.{Shell}
use nav.World.{World, Os, sendto}
use nav.Commands.Replies.{Args, get_shell}

-- every name with a space behind it
unfoldable pub tag_names : List Tag → Bytes
tag_names [] = []
tag_names (t ∷ ts) = (t.tag ++ space) ++ tag_names ts

-- every tag on its line
unfoldable pub show_text : List Tag → Bytes
show_text [] = []
show_text (t ∷ ts) = show_line t ++ show_text ts

list_loop-fits :
    (ts : List Tag) (out : Bytes)
    → length out + length (tag_names ts) < list_size
    → list_loop ts out ≡ ok (out ++ tag_names ts)
unfolding list_loop tag_names
list_loop-fits [] out h = ap ok (sym (append-nil out))
list_loop-fits (t ∷ ts) out h =
    let name = t.tag ++ space in
    let total = length-append name (tag_names ts) in
    rw (sprintf-fits list_size out name (omega (arith, total))) (
      list_loop-fits ts (out ++ name) (omega (arith, total, length-append out name))
      ∙ ap ok (append_assoc out name (tag_names ts)))

list_loop-overflows :
    (ts : List Tag) (out : Bytes)
    → length out < list_size
    → list_size ≤ length out + length (tag_names ts)
    → list_loop ts out ≡ fault
unfolding list_loop tag_names
list_loop-overflows [] out small h = absurd (omega arith)
list_loop-overflows (t ∷ ts) out small h =
    let name = t.tag ++ space in
    let total = length-append name (tag_names ts) in
    elim (Bool-cases (ltb (length out + length name) list_size)) [
      | inl e ↦
          let fits : length out + length name < list_size = ground arith in
          rw (sprintf-fits list_size out name fits) (
            list_loop-overflows ts (out ++ name) (omega (arith, length-append out name, fits))
              (omega (arith, total, length-append out name)))
      | inr e ↦
          let over : list_size ≤ length out + length name = ground arith in
          rw (sprintf-overflows list_size out name over)
    ]

-- `list` prints the names if they leave room for the NUL, and otherwise writes past the buffer.
pub list_loop_lem :
    (ts : List Tag)
    → list_loop ts [] ≡ (if ltb (length (tag_names ts)) list_size then ok (tag_names ts) else fault)
list_loop_lem ts = elim (Bool-cases (ltb (length (tag_names ts)) list_size)) [
  | inl e ↦ rw e (list_loop-fits ts [] (ground arith))
  | inr e ↦ rw e (list_loop-overflows ts [] (omega arith) (ground arith))
]

-- `done` is the text of the tags before; a NUL is kept for the end of the buffer
show_loop-fits :
    (done : Bytes) (ts : List Tag)
    → length done + length (show_text ts) ≤ show_size
    → show_loop ts (length done) (take 2047 done) ≡ ok (take 2047 (done ++ show_text ts))
unfolding show_loop show_text
show_loop-fits done [] h = rw (append-nil done)
show_loop-fits done (t ∷ ts) h =
    let line = show_line t in
    let total = length-append line (show_text ts) in
    let inside : ltb show_size (length done) ≡ false = ground (arith, total) in
    rw
      (
        inside,
        take-snprintf 2047 done line (omega arith),
        sym (length-append done line),
        sym (append_assoc done line (show_text ts)),
      )
      (show_loop-fits (done ++ line) ts (omega (arith, total, length-append done line)))

-- If the lines take at most the size of the buffer, `show` prints what fits before the final NUL.
pub show_loop-shown :
    (ts : List Tag)
    → length (show_text ts) ≤ show_size
    → show_loop ts 0 [] ≡ ok (take 2047 (show_text ts))
show_loop-shown ts h = show_loop-fits [] ts (omega (arith, h))

show_loop-overflows :
    (offset : ℕ) (ts rest : List Tag) (t : Tag) (out : Bytes)
    → show_size < offset + length (show_text ts)
    → show_loop (ts ++ t ∷ rest) offset out ≡ fault
unfolding show_loop show_text
show_loop-overflows offset [] rest t out h =
    let outside : ltb show_size offset ≡ true = ground arith in rw outside
show_loop-overflows offset (u ∷ ts) rest t out h =
    let line = show_line u in
    elim (Bool-cases (ltb show_size offset)) [
      | inl e ↦ rw e
      | inr e ↦ rw e (
          show_loop-overflows (offset + length line) ts rest t _
            (omega (arith, length-append line (show_text ts))))
    ]

-- the names with a space between each two
unfoldable pub spaced : List Tag → Bytes
spaced [] = []
spaced (t ∷ []) = t.tag
spaced (t ∷ u ∷ ts) = t.tag ++ space ++ spaced (u ∷ ts)

pub tag_names-spaced : (t : Tag) (ts : List Tag) → tag_names (t ∷ ts) ≡ spaced (t ∷ ts) ++ space
unfolding tag_names spaced
tag_names-spaced t [] = append-nil (t.tag ++ space)
tag_names-spaced t (u ∷ ts) =
    ap (λ l. (t.tag ++ space) ++ l) (tag_names-spaced u ts) ∙ simp append_assoc

payload-spaced :
    (ts : List Tag)
    → list_payload (tag_names ts) ≡ spaced ts ++ replicate (list_size - length (spaced ts)) 0
unfolding list_payload
payload-spaced [] = unfold tag_names spaced in refl
payload-spaced (t ∷ ts) =
    let text = spaced (t ∷ ts) in
    let shorter : length (text ++ space) - 1 ≡ length text =
      omega (arith, length-append text space) in
    rw (tag_names-spaced t ts, shorter, take-append_self text space)

module _ (os : Os) (w : World) (pid : ℤ) (args : Args) (s : Shell)
    (e : get_shell w pid ≡ some s) where
  -- `list` sends a registered shell the names of all tags, in order, with a space between each two and NULs up
  -- to 256 bytes, if the names with a space behind each take less than 256 bytes; otherwise it writes
  -- past its buffer.
  pub list-spaced : cmd_list os w pid args ≡ (
      if ltb (length (tag_names w.tags.items)) 256
      then ok (
          sendto w s.sun_path
            (spaced w.tags.items ++ replicate (256 - length (spaced w.tags.items)) 0))
      else fault)
  unfolding cmd_list
  list-spaced =
      rw (e, list_loop_lem w.tags.items)
        (elim (Bool-cases (ltb (length (tag_names w.tags.items)) 256)) [
          | inl fits ↦ rw (fits, payload-spaced w.tags.items)
          | inr over ↦ rw over
        ])

  -- `show` sends a registered shell the lines of all tags, in order, cut to 2047 bytes, if they take at most 2048
  -- bytes.
  pub show-shown :
      length (show_text w.tags.items) ≤ 2048
      → cmd_show os w pid args ≡ ok (sendto w s.sun_path (take 2047 (show_text w.tags.items)))
  unfolding cmd_show
  show-shown h = rw (e, show_loop-shown w.tags.items h)

  -- If the lines before some tag take more than 2048 bytes, `show` for a registered shell takes a
  -- pointer out of its buffer.
  pub show-overflows :
      (ts rest : List Tag) (t : Tag)
      → w.tags.items ≡ ts ++ t ∷ rest
      → 2048 < length (show_text ts)
      → cmd_show os w pid args ≡ fault
  unfolding cmd_show
  show-overflows ts rest t split h =
      rw (e, split, show_loop-overflows 0 ts rest t [] (omega (arith, h)))
