-- ===== src/Loop/Buffer/Lines.antt =====
-- The receive buffer of the loop in src/daemon/main.c over datagrams that end with a newline: one stays
-- right before the NUL that ends what was received.
use nav.Base.{
  ℕ, zero, suc, ◌+◌, ◌-◌, ◌≡◌, refl, sym, ap, ◌∙◌, ◌≤◌, ltb, Option, none, some, [], ◌∷◌, ◌++◌,
  append_assoc, Bytes, ℤ, drop, length, length-append, replicate, ◌==◌, Bool-cases, inl, inr, arith,
}
use nav.Run.{Run, ok, fault, hang}
use nav.CString.{Token, is_delim, strtok_r, cut_token, cut_then}
use nav.Utils.Terminated.{IsInLine, IsTerminated, line-IsTerminated}
use nav.World.{World}
use nav.Commands.Tags.{space}
use nav.Loop.{recv, buf_size, strtol, to_int}
use nav.Loop.Arguments.{recv-whole}
use nav.Loop.Buffer.{cut_args, command_calls, cut_command, cut_pid, cut_line, left}
use nav.Loop.Buffer.Clear.{drop_past}
use nav.Loop.Buffer.Keeps.{StopsAtNul, cut_args-StopsAtNul, cut_pid-StopsAtNul}

-- writes nothing from a newline on that stands right before a NUL
abbrev pub KeepsLine : (Bytes → Bytes) → Type 0
KeepsLine f =
    (s m : Bytes)
    → (s' : Bytes) × (length s' ≡ length s) × (f (s ++ b'\n' ∷ 0 ∷ m) ≡ s' ++ b'\n' ∷ 0 ∷ m)

empty_front : (s m : Bytes) → length s ≡ 0 → s ++ m ≡ m
empty_front [] m h = refl
empty_front (c ∷ s) m h = absurd (omega arith)

module _ (ds : Bytes) (further : Bytes → Bytes) (stops : StopsAtNul further)
    (keeps : KeepsLine further) (in_line : IsInLine ds) where
  cut_token-KeepsLine : KeepsLine (cut_token ds further)
  unfolding cut_token
  cut_token-KeepsLine [] m =
      let (s', long, same) = stops [] m in
      rw in_line.1 ([], refl, ap (λ l. b'\n' ∷ l) (same ∙ empty_front s' (0 ∷ m) long))
  cut_token-KeepsLine (c ∷ s) m = elim (Bool-cases (c == 0)) [
    | inl z ↦ rw z (keeps (c ∷ s) m)
    | inr z ↦ elim (Bool-cases (is_delim ds c)) [
      | inl d ↦
          let (s', long, same) = keeps s m in rw (z, d) (0 ∷ s', ap suc long, ap (λ l. 0 ∷ l) same)
      | inr d ↦
          let (s', long, same) = cut_token-KeepsLine s m in
          rw (z, d) (c ∷ s', ap suc long, ap (λ l. c ∷ l) same)
    ]
  ]

  cut_then-KeepsLine : KeepsLine (cut_then ds further)
  unfolding cut_then
  cut_then-KeepsLine [] m =
      let (s', long, same) = cut_token-KeepsLine [] m in
      (s', long, rw in_line.1 (rw in_line.1 at same))
  cut_then-KeepsLine (c ∷ s) m = elim (Bool-cases (is_delim ds c)) [
    | inl d ↦
        let (s', long, same) = cut_then-KeepsLine s m in
        rw d (c ∷ s', ap suc long, ap (λ l. c ∷ l) same)
    | inr d ↦
        let (s', long, same) = cut_token-KeepsLine (c ∷ s) m in (s', long, rw d (rw d at same))
  ]

same-KeepsLine : KeepsLine (λ m. m)
same-KeepsLine s m = (s, refl, refl)

cut_args-KeepsLine : (n : ℕ) → KeepsLine (cut_args n)
unfolding cut_args
cut_args-KeepsLine zero = same-KeepsLine
cut_args-KeepsLine (suc n) =
    cut_then-KeepsLine space (cut_args n) (cut_args-StopsAtNul n) (cut_args-KeepsLine n)
      (refl, refl)

cut_command-KeepsLine : (w : World) (pid : ℤ) → KeepsLine (cut_command w pid)
unfolding cut_command
cut_command-KeepsLine w pid s m =
    let n = command_calls w pid (strtok_r (some (s ++ b'\n' ∷ 0 ∷ m)) space) in
    cut_then-KeepsLine space (cut_args n) (cut_args-StopsAtNul n) (cut_args-KeepsLine n)
      (refl, refl) s m

cut_pid-KeepsLine : (w : World) (n : Option ℤ) → KeepsLine (cut_pid w n)
unfolding cut_pid
cut_pid-KeepsLine w none = same-KeepsLine
cut_pid-KeepsLine w (some n) = cut_command-KeepsLine w (to_int n)

cut_line-KeepsLine : (w : World) (t : Run (Option Token)) → KeepsLine (cut_line w t)
unfolding cut_line
cut_line-KeepsLine w (ok (some t)) =
    let n = strtol t.text in
    cut_then-KeepsLine space (cut_pid w n) (cut_pid-StopsAtNul w n) (cut_pid-KeepsLine w n)
      (refl, refl)
cut_line-KeepsLine w (ok none) = same-KeepsLine
cut_line-KeepsLine w fault = same-KeepsLine
cut_line-KeepsLine w hang = same-KeepsLine

abbrev pub last_byte : ℕ → Bytes → ℕ
last_byte d [] = d
last_byte d (c ∷ s) = last_byte c s

-- empty, or with a newline as its last byte
abbrev pub EndsLine : Bytes → Type 0
EndsLine s = last_byte b'\n' s ≡ b'\n'

last_byte-append : (d : ℕ) (s t : Bytes) → last_byte d (s ++ t) ≡ last_byte (last_byte d s) t
last_byte-append d [] t = refl
last_byte-append d (c ∷ s) t = last_byte-append c s t

EndsLine-append : (s t : Bytes) → EndsLine s → EndsLine t → EndsLine (s ++ t)
EndsLine-append s t hs ht = rw (last_byte-append b'\n' s t, hs) ht

line_parts : (c : ℕ) (s : Bytes) → last_byte c s ≡ b'\n' → (l : Bytes) × (c ∷ s ≡ l ++ b'\n' ∷ [])
line_parts c [] h = ([], ap (λ d. d ∷ []) h)
line_parts c (d ∷ s) h = let (l, same) = line_parts d s h in (c ∷ l, ap (λ t. c ∷ t) same)

EndsLine-suffix : (d : ℕ) (s : Bytes) → last_byte d s ≡ b'\n' → EndsLine s
EndsLine-suffix d [] h = refl
EndsLine-suffix d (c ∷ s) h = h

-- `n` bytes less in front
drop_line :
    (s m : Bytes) (n : ℕ)
    → n ≤ length s
    → EndsLine s
    → (s' : Bytes) × (n + length s' ≡ length s) × EndsLine s' × (drop n (s ++ m) ≡ s' ++ m)
drop_line s m zero le h = (s, omega arith, h, refl)
drop_line [] m (suc n) le h = absurd (omega arith)
drop_line (c ∷ s) m (suc n) le h =
    let (s', long, h', same) = drop_line s m n (omega arith) (EndsLine-suffix c s h) in
    (s', omega (arith, long), h', same)

-- what was received, which ends with a newline, and zeros, at least one, up to the end of the buffer
abbrev pub IsLined : Bytes → Bytes → Type 0
IsLined behind buf =
    (s : Bytes) × (j : ℕ) × (length s + suc j ≡ buf_size)
    × EndsLine s
    × (buf ≡ s ++ 0 ∷ (replicate j 0 ++ behind))

pub zeros-IsLined : (behind : Bytes) → IsLined behind (replicate buf_size 0 ++ behind)
zeros-IsLined behind = ([], 99, refl, refl, refl)

module _ (behind old : Bytes) (c : ℕ) (d : Bytes) (lined : IsLined behind old)
    (short : length (c ∷ d) ≤ 99) (ends : EndsLine (c ∷ d)) where
  -- the buffer behind `recv` begins with the datagram
  received_line :
      (s : Bytes) × (j : ℕ) × (length (c ∷ d) + length s + suc j ≡ buf_size)
      × EndsLine s
      × (recv (c ∷ d) old ≡ (c ∷ d) ++ (s ++ 0 ∷ (replicate j 0 ++ behind)))
  received_line =
      let n = length (c ∷ d) in
      let (s, j, full, h, same) = lined in
      let rest = 0 ∷ (replicate j 0 ++ behind) in
      elim (Bool-cases (ltb (length s) n)) [
        | inl longer ↦
            let tail = drop_past s n (suc (99 - n)) (suc j) behind (ground arith) (omega arith) in
            (
              [],
              99 - n,
              omega arith,
              refl,
              recv-whole (c ∷ d) old (0 ∷ (replicate (99 - n) 0 ++ behind)) (omega arith)
                  (ap (drop n) same ∙ tail),
            )
        | inr shorter ↦
            let (s', long, h', tail) = drop_line s rest n (ground arith) h in
            (
              s',
              j,
              omega (arith, long),
              h',
              recv-whole (c ∷ d) old (s' ++ rest) (omega arith) (ap (drop n) same ∙ tail),
            )
      ]

  -- so that it ends with a newline and a NUL
  received_newline :
      (l : Bytes) × (j : ℕ) × (length l + suc (suc j) ≡ buf_size)
      × (recv (c ∷ d) old ≡ l ++ b'\n' ∷ 0 ∷ (replicate j 0 ++ behind))
  received_newline =
      let (s, j, full, h, same) = received_line in
      let (l, line) = line_parts c (d ++ s) (EndsLine-append (c ∷ d) s ends h) in
      let m = replicate j 0 ++ behind in
      let size : length d + length s ≡ length l + 0 =
        omega (arith, ap length line, length-append d s, length-append l (b'\n' ∷ [])) in
      (
        l,
        j,
        omega (arith, full, size),
        same
            ∙ sym (append_assoc (c ∷ d) s (0 ∷ m))
            ∙ ap (λ t. t ++ 0 ∷ m) line
            ∙ append_assoc l (b'\n' ∷ []) (0 ∷ m),
      )

  -- and every scan stays in it
  pub recv-IsTerminated : IsTerminated (recv (c ∷ d) old)
  recv-IsTerminated =
      let (l, j, full, same) = received_newline in
      rw same (line-IsTerminated l (replicate j 0 ++ behind))

  -- what a round leaves of it
  pub left-IsLined : (w : World) → IsLined behind (left w old (c ∷ d))
  unfolding left
  left-IsLined w =
      let (l, j, full, same) = received_newline in
      let m = replicate j 0 ++ behind in
      let line = strtok_r (some (recv (c ∷ d) old)) space in
      let (l', long, same') = cut_line-KeepsLine w line l m in
      (
        l' ++ b'\n' ∷ [],
        j,
        omega (arith, full, long, length-append l' (b'\n' ∷ [])),
        rw (last_byte-append b'\n' l' (b'\n' ∷ [])) refl,
        ap (cut_line w line) same ∙ same' ∙ sym (append_assoc l' (b'\n' ∷ []) (0 ∷ m)),
      )
