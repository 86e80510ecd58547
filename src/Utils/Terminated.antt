-- ===== src/Utils/Terminated.antt =====
-- Memory in which the tokenizer and the whitespace scan stay: a NUL ends the text, and a newline stands
-- right before it, or a newline or a space lies behind it.
use nav.Base.{
  ℕ, ◌≡◌, refl, Bool, true, false, ◌&&◌, ◌||◌, Option, none, some, [], ◌∷◌, ◌++◌, Bytes, arith,
  ◌==◌, if◌then◌else◌, Bool-cases, inl, inr,
}
use nav.Run.Ensures.{Returns, Returns-bind}
use nav.CString.{is_delim, Token, mem, skip_delims, scan_token, token_at, strtok_r}
use nav.Utils.{dup_word}
use nav.Utils.Words.{
  IsWord, has_blank, or_true, dup_word-first_word, first_word-IsWord, has_blank-suffix,
}

unfoldable pub starts_nul : Bytes → Bool
starts_nul [] = false
starts_nul (c ∷ m) = c == 0

unfoldable pub terminated : Bytes → Bool
unfolding starts_nul
terminated [] = false
terminated (c ∷ m) = if c == 0 then has_blank m else terminated m || ((c == b'\n') && starts_nul m)

abbrev pub IsTerminated : Bytes → Type 0
IsTerminated m = terminated m ≡ true

-- where a further call of the tokenizer stays: such memory, or the NUL that ends the text
abbrev pub IsRest : Bytes → Type 0
IsRest m = (starts_nul m || terminated m) ≡ true

-- what a token of such memory is like
abbrev pub IsSafe : Token → Type 0
IsSafe t = IsTerminated (mem t) × IsRest t.save

pub IsTerminated-IsRest : (m : Bytes) → IsTerminated m → IsRest m
IsTerminated-IsRest m h = rw h (or_true (starts_nul m))

pub has_blank-IsTerminated : (m : Bytes) → IsTerminated m → has_blank m ≡ true
unfolding terminated has_blank
has_blank-IsTerminated [] h = cc
has_blank-IsTerminated (c ∷ m) h = ground (arith, has_blank-IsTerminated m)

-- a NUL lies in the memory
unfoldable pub has_nul : Bytes → Bool
has_nul [] = false
has_nul (c ∷ m) = (c == 0) || has_nul m

starts_nul-has_nul : (m : Bytes) → starts_nul m ≡ true → has_nul m ≡ true
unfolding starts_nul has_nul
starts_nul-has_nul [] h = h
starts_nul-has_nul (c ∷ m) h = ground arith

pub IsTerminated-has_nul : (m : Bytes) → IsTerminated m → has_nul m ≡ true
unfolding terminated has_nul
IsTerminated-has_nul [] h = h
IsTerminated-has_nul (c ∷ m) h = ground (arith, IsTerminated-has_nul m, starts_nul-has_nul m)

pub has_nul-append : (s m : Bytes) → has_nul m ≡ true → has_nul (s ++ m) ≡ true
unfolding has_nul
has_nul-append [] m h = h
has_nul-append (c ∷ s) m h = ground (arith, has_nul-append s m h)

-- delimiters among which no NUL and no newline is
abbrev pub IsInLine : Bytes → Type 0
IsInLine ds = (is_delim ds 0 ≡ false) × (is_delim ds b'\n' ≡ false)

not_delim : (ds : Bytes) (c d : ℕ) → is_delim ds d ≡ false → is_delim ds c ≡ true → (c == d) ≡ false
not_delim ds c d nd e = elim (Bool-cases (c == d)) [
  | inr z ↦ z
  | inl z ↦ let same : c ≡ d = ground arith in absurd (cc (nd, e, same))
]

-- a delimiter may be left out in front
behind_delim :
    (ds m : Bytes) (c : ℕ)
    → IsInLine ds
    → is_delim ds c ≡ true
    → IsTerminated (c ∷ m)
    → IsTerminated m
unfolding terminated
behind_delim ds m c nd e h =
    let nul = not_delim ds c 0 nd.0 e in
    let newline = not_delim ds c b'\n' nd.1 e in ground (arith, nul, newline)

skip-Returns :
    (ds m : Bytes) → IsInLine ds → IsTerminated m → Returns IsTerminated (skip_delims ds m)
unfolding skip_delims
skip-Returns ds [] nd h = absurd (unfold terminated in cc h)
skip-Returns ds (c ∷ m) nd h = elim (Bool-cases (is_delim ds c)) [
  | inr e ↦ rw (e, Returns) h
  | inl e ↦ rw (e, Returns) (skip-Returns ds m nd (behind_delim ds m c nd e h))
]

-- a newline right before the NUL
scan-newline :
    (ds m : Bytes) → IsInLine ds → starts_nul m ≡ true → Returns IsSafe (scan_token ds (b'\n' ∷ m))
unfolding scan_token starts_nul terminated
scan-newline ds [] nd h = absurd (cc h)
scan-newline ds (c ∷ m) nd h = rw (h, nd.1) ((ground arith), refl)

pub scan-Returns : (ds m : Bytes) → IsInLine ds → IsTerminated m → Returns IsSafe (scan_token ds m)
unfolding scan_token terminated has_blank
scan-Returns ds [] nd h = absurd (cc h)
scan-Returns ds (c ∷ m) nd h = elim (Bool-cases (c == 0)) [
  | inl z ↦ rw (z, Returns) (rw z at h, refl)
  | inr z ↦ elim (Bool-cases (is_delim ds c)) [
    | inl e ↦
        let h' = behind_delim ds m c nd e h in
        rw (z, e, Returns) (has_blank-IsTerminated m h', IsTerminated-IsRest m h')
    | inr e ↦ elim (Bool-cases (terminated m)) [
      | inl further ↦
          rw (z, e)
            (Returns-bind IsSafe IsSafe (scan_token ds m) _ (scan-Returns ds m nd further)
              λ t (b, s). (ground arith, s))
      | inr last ↦
          let newline : c ≡ b'\n' = ground arith in
          let nul : starts_nul m ≡ true = ground arith in rw newline (scan-newline ds m nd nul)
    ]
  ]
]

-- what `strtok_r` gives for such memory
abbrev pub NoneOrSafe : Option Token → Type 0
NoneOrSafe none = Unit
NoneOrSafe (some t) = IsSafe t

token-Returns : (ds m : Bytes) → IsInLine ds → IsTerminated m → Returns NoneOrSafe (token_at ds m)
unfolding token_at
token-Returns ds [] nd h = absurd (unfold terminated in cc h)
token-Returns ds (c ∷ m) nd h = elim (Bool-cases (c == 0)) [
  | inl z ↦ rw (z, Returns) tt
  | inr z ↦ rw z (
      Returns-bind IsSafe NoneOrSafe (scan_token ds (c ∷ m)) _ (scan-Returns ds (c ∷ m) nd h)
        λ t s. s)
]

-- at the NUL there is no token
strtok-at_nul :
    (ds m : Bytes) → IsInLine ds → starts_nul m ≡ true → Returns NoneOrSafe (strtok_r (some m) ds)
unfolding strtok_r skip_delims token_at starts_nul
strtok-at_nul ds [] nd h = absurd (cc h)
strtok-at_nul ds (c ∷ m) nd h = let nul : c ≡ 0 = ground arith in rw (nul, nd.0) tt

-- On such memory `strtok_r` stays in it, and so do the scan of the token and the next call.
pub strtok_r-Returns :
    (m ds : Bytes) → IsInLine ds → IsRest m → Returns NoneOrSafe (strtok_r (some m) ds)
strtok_r-Returns m ds nd h = elim (Bool-cases (starts_nul m)) [
  | inl nul ↦ strtok-at_nul ds m nd nul
  | inr more ↦
      let h' : IsTerminated m = rw more at h in
      unfold strtok_r in
      Returns-bind IsTerminated NoneOrSafe (skip_delims ds m) _ (skip-Returns ds m nd h')
        λ q h''. token-Returns ds q nd h''
]

pub dup_word-Returns : (m : Bytes) → IsTerminated m → Returns IsWord (dup_word m)
dup_word-Returns m h = rw (dup_word-first_word m (has_blank-IsTerminated m h)) (first_word-IsWord m)

-- a text that ends with a newline, before its NUL
pub line-IsTerminated : (s m : Bytes) → IsTerminated (s ++ b'\n' ∷ 0 ∷ m)
unfolding terminated has_blank
line-IsTerminated [] m = or_true (has_blank m)
line-IsTerminated (c ∷ s) m =
    let blank : has_blank (b'\n' ∷ 0 ∷ m) ≡ true = refl in
    let later = has_blank-suffix s (b'\n' ∷ 0 ∷ m) blank in
    ground (arith, later, line-IsTerminated s m)

pub append-IsTerminated : (s m : Bytes) → IsTerminated m → IsTerminated (s ++ m)
unfolding terminated
append-IsTerminated [] m h = h
append-IsTerminated (c ∷ s) m h =
    let later = has_blank-suffix s m (has_blank-IsTerminated m h) in
    ground (arith, later, append-IsTerminated s m h)

pub nul-IsTerminated : (s m : Bytes) → has_blank m ≡ true → IsTerminated (s ++ 0 ∷ m)
nul-IsTerminated s m h = append-IsTerminated s (0 ∷ m) (unfold terminated in h)
