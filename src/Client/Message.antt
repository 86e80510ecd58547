-- ===== src/Client/Message.antt =====
-- The two buffers of `process_command` in src/client/main.c: the message and the reply.
use nav.Base.{
  ℕ, suc, ◌+◌, ◌-◌, ◌≡◌, refl, ◌∙◌, ◌≢◌, ◌≤◌, ◌<◌, false, List, [], ◌∷◌, ◌++◌, append-nil,
  append_assoc, All, All-take, length-take, Bool-cases, inl, inr, lt→ltb, Bytes, length,
  length-append, take, take_all, replicate, ltb, ◌==◌, if◌then◌else◌, arith,
}
use native.Mathlib.Nat.{min-eq_left}
use nav.Run.{ok, fault}
use nav.CString.{sprintf, cstr}
use nav.Loop.Message.{sentence}
use nav.Client.{message_size, print_args, received, print_buf}

print_args-from :
    (buf : Bytes) (argv : List Bytes)
    → length buf < message_size
    → print_args buf argv ≡ (
        if ltb (length (buf ++ sentence argv)) message_size
        then ok (buf ++ sentence argv)
        else fault)
unfolding print_args sentence sprintf
print_args-from buf [] h = rw (append-nil buf, lt→ltb (length buf) message_size h) refl
print_args-from buf (arg ∷ argv) h =
    let front = length-append buf (arg ++ b' ' ∷ []) in
    let whole : buf ++ (arg ++ b' ' ∷ sentence argv)
        ≡ (buf ++ (arg ++ b' ' ∷ [])) ++ sentence argv =
      simp append_assoc in
    let size = length-append (buf ++ (arg ++ b' ' ∷ [])) (sentence argv) in
    elim (Bool-cases (ltb (length buf + length (arg ++ b' ' ∷ [])) message_size)) [
      | inl fits ↦
          let small : length (buf ++ (arg ++ b' ' ∷ [])) < message_size =
            ground (arith, fits, front) in
          rw (whole, fits) (print_args-from (buf ++ (arg ++ b' ' ∷ [])) argv small)
      | inr over ↦
          let long : ltb (length ((buf ++ (arg ++ b' ' ∷ [])) ++ sentence argv)) message_size
              ≡ false =
            ground (arith, over, front, size) in
          rw (whole, over, long) refl
    ]

-- The message of the client is its arguments with a space behind each, if these are fewer than 1024
-- bytes; if they are more, `sprintf` writes past the end of the buffer.
pub print_args-sentence :
    (argv : List Bytes)
    → print_args [] argv
      ≡ (if ltb (length (sentence argv)) message_size then ok (sentence argv) else fault)
print_args-sentence argv = print_args-from [] argv (omega arith)

print_buf-cstr : (s m : Bytes) → print_buf (s ++ 0 ∷ m) ≡ ok (cstr s)
unfolding print_buf cstr
print_buf-cstr [] m = refl
print_buf-cstr (c ∷ s) m =
    rw (print_buf-cstr s m) (elim (Bool-cases (c == 0)) [ inl e ↦ rw e refl | inr e ↦ rw e refl ])

print_buf-unterminated : (s : Bytes) → All (λ c. c ≢ 0) s → print_buf s ≡ fault
unfolding print_buf
print_buf-unterminated [] h = refl
print_buf-unterminated (c ∷ s) h = rw (print_buf-unterminated s h.1) (ground (arith, h.0))

pad : (n : ℕ) → n < message_size → (k : ℕ) × (message_size - n ≡ suc k)
pad n h = (1023 - n, omega (arith, h))

-- The client prints a reply of fewer than 1024 bytes up to its first NUL, or all of it without one; of
-- a longer reply without NUL it reads past the end of its buffer.
pub print-received :
    (datagram : Bytes)
    → (length datagram < message_size → print_buf (received datagram) ≡ ok (cstr datagram))
      × (message_size ≤ length datagram
          → All (λ c. c ≢ 0) datagram
          → print_buf (received datagram) ≡ fault)
unfolding received
print-received datagram = (
  λ short.
      let (k, more) = pad (length datagram) short in
      rw (take_all message_size datagram (omega arith), more)
        (print_buf-cstr datagram (replicate k 0)),
  λ long h.
      let full : length (take message_size datagram) ≡ message_size =
        length-take message_size datagram ∙ min-eq_left long in
      rw (full, append-nil (take message_size datagram))
        (print_buf-unterminated (take message_size datagram)
          (All-take (λ c. c ≢ 0) message_size datagram h)),
)
