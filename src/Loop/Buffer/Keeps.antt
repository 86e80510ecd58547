-- ===== src/Loop/Buffer/Keeps.antt =====
-- What the loop in src/daemon/main.c leaves of its receive buffer.
use nav.Base.{
  ℕ, zero, suc, ◌≡◌, refl, false, Option, none, some, [], ◌∷◌, ◌++◌, Bytes, ℤ, length, ◌==◌,
  Bool-cases, inl, inr, ap,
}
use nav.Run.{Run, ok, fault, hang}
use nav.CString.{Token, is_delim, strtok_r, cut_token, cut_then}
use nav.World.{World}
use nav.Commands.Tags.{space}
use nav.Loop.{strtol, to_int}
use nav.Loop.Buffer.{cut_args, command_calls, cut_command, cut_pid, cut_line}

-- writes nothing from a NUL on
abbrev pub StopsAtNul : (Bytes → Bytes) → Type 0
StopsAtNul f =
    (s m : Bytes) → (s' : Bytes) × (length s' ≡ length s) × (f (s ++ 0 ∷ m) ≡ s' ++ 0 ∷ m)

module _ (ds : Bytes) (further : Bytes → Bytes) (stops : StopsAtNul further)
    (nul : is_delim ds 0 ≡ false) where
  cut_token-StopsAtNul : StopsAtNul (cut_token ds further)
  unfolding cut_token
  cut_token-StopsAtNul [] m = stops [] m
  cut_token-StopsAtNul (c ∷ s) m = elim (Bool-cases (c == 0)) [
    | inl z ↦ rw z (stops (c ∷ s) m)
    | inr z ↦ elim (Bool-cases (is_delim ds c)) [
      | inl d ↦
          let (s', long, same) = stops s m in rw (z, d) (0 ∷ s', ap suc long, ap (λ l. 0 ∷ l) same)
      | inr d ↦
          let (s', long, same) = cut_token-StopsAtNul s m in
          rw (z, d) (c ∷ s', ap suc long, ap (λ l. c ∷ l) same)
    ]
  ]

  cut_then-StopsAtNul : StopsAtNul (cut_then ds further)
  unfolding cut_then
  cut_then-StopsAtNul [] m = rw nul (cut_token-StopsAtNul [] m)
  cut_then-StopsAtNul (c ∷ s) m = elim (Bool-cases (is_delim ds c)) [
    | inl d ↦
        let (s', long, same) = cut_then-StopsAtNul s m in
        rw d (c ∷ s', ap suc long, ap (λ l. c ∷ l) same)
    | inr d ↦
        let (s', long, same) = cut_token-StopsAtNul (c ∷ s) m in (s', long, rw d (rw d at same))
  ]

same-StopsAtNul : StopsAtNul (λ m. m)
same-StopsAtNul s m = (s, refl, refl)

pub cut_args-StopsAtNul : (n : ℕ) → StopsAtNul (cut_args n)
unfolding cut_args
cut_args-StopsAtNul zero = same-StopsAtNul
cut_args-StopsAtNul (suc n) = cut_then-StopsAtNul space (cut_args n) (cut_args-StopsAtNul n) refl

cut_command-StopsAtNul : (w : World) (pid : ℤ) → StopsAtNul (cut_command w pid)
unfolding cut_command
cut_command-StopsAtNul w pid s m =
    let n = command_calls w pid (strtok_r (some (s ++ 0 ∷ m)) space) in
    cut_then-StopsAtNul space (cut_args n) (cut_args-StopsAtNul n) refl s m

pub cut_pid-StopsAtNul : (w : World) (n : Option ℤ) → StopsAtNul (cut_pid w n)
unfolding cut_pid
cut_pid-StopsAtNul w none = same-StopsAtNul
cut_pid-StopsAtNul w (some n) = cut_command-StopsAtNul w (to_int n)

pub cut_line-StopsAtNul : (w : World) (t : Run (Option Token)) → StopsAtNul (cut_line w t)
unfolding cut_line
cut_line-StopsAtNul w (ok (some t)) =
    cut_then-StopsAtNul space (cut_pid w (strtol t.text)) (cut_pid-StopsAtNul w (strtol t.text))
      refl
cut_line-StopsAtNul w (ok none) = same-StopsAtNul
cut_line-StopsAtNul w fault = same-StopsAtNul
cut_line-StopsAtNul w hang = same-StopsAtNul
