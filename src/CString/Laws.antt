-- ===== src/CString/Laws.antt =====
-- Laws of strcmp, strncmp and strtok_r.
use nav.Base.{
  ℕ, ◌≡◌, ◌≢◌, ◌↔◌, true, false, Option, none, some, ltb, ◌+◌, Bool-cases, inl, inr, [], ◌∷◌, ◌++◌,
  length, All, Bytes, bytes_eq_iff, arith, ◌==◌,
}
use nav.Run.{ok}
use nav.Run.Ensures.{Ensures, Ensures-bind}
use nav.CString.{strcmp, is_delim, skip_delims, scan_token, token_at, strtok_r, sprintf}

pub strcmp_iff : (s t : Bytes) → (strcmp s t ≡ 0) ↔ (s ≡ t)
unfolding strcmp
strcmp_iff s t = ground (arith, bytes_eq_iff s t)

-- no NUL and no delimiter
abbrev pub Plain : Bytes → Bytes → Type 0
Plain ds = All (λ c. (c ≢ 0) × (is_delim ds c ≡ false))

-- A token that ends at a delimiter: the next call starts behind it.
scan-delim :
    (ds s m : Bytes) (d : ℕ)
    → Plain ds s
    → d ≢ 0
    → is_delim ds d ≡ true
    → scan_token ds (s ++ d ∷ m) ≡ ok (record { text = s; after = m; save = m })
unfolding scan_token
scan-delim ds [] m d h nz e = ground arith
scan-delim ds (c ∷ s) m d h nz e = rw (scan-delim ds s m d h.1 nz e) (ground arith)

-- A token that ends with the text: the next call starts on the NUL.
scan-nul :
    (ds s m : Bytes)
    → Plain ds s
    → scan_token ds (s ++ 0 ∷ m) ≡ ok (record { text = s; after = m; save = 0 ∷ m })
unfolding scan_token
scan-nul ds [] m h = ground arith
scan-nul ds (c ∷ s) m h = rw (scan-nul ds s m h.1) (ground arith)

module _ (ds : Bytes) (c : ℕ) (s m : Bytes) (h : Plain ds (c ∷ s)) where
  pub strtok-delim :
      (d : ℕ)
      → d ≢ 0
      → is_delim ds d ≡ true
      → strtok_r (some (c ∷ s ++ d ∷ m)) ds
        ≡ ok (some (record { text = c ∷ s; after = m; save = m }))
  unfolding strtok_r
  strtok-delim d nz e = rw h.0.1 (rw (scan-delim ds (c ∷ s) m d h nz e) (ground arith))

  pub strtok-nul :
      strtok_r (some (c ∷ s ++ 0 ∷ m)) ds
      ≡ ok (some (record { text = c ∷ s; after = m; save = 0 ∷ m }))
  unfolding strtok_r
  strtok-nul = rw h.0.1 (rw (scan-nul ds (c ∷ s) m h) (ground arith))

skip-ends : (ds m : Bytes) → Ensures (λ _. Unit) (skip_delims ds m)
unfolding skip_delims
skip-ends ds [] = tt
skip-ends ds (c ∷ m) = elim (Bool-cases (is_delim ds c)) [
  | inl e ↦ rw (e, Ensures) (skip-ends ds m)
  | inr e ↦ rw (e, Ensures) tt
]

scan-ends : (ds m : Bytes) → Ensures (λ _. Unit) (scan_token ds m)
unfolding scan_token
scan-ends ds [] = tt
scan-ends ds (c ∷ m) = elim (Bool-cases (c == 0)) [
  | inl z ↦ rw (z, Ensures) tt
  | inr z ↦ elim (Bool-cases (is_delim ds c)) [
    | inl e ↦ rw (z, e, Ensures) tt
    | inr e ↦
        rw (z, e) (Ensures-bind (λ _. Unit) _ (scan_token ds m) _ (scan-ends ds m) (λ _ _. tt))
  ]
]

token-ends : (ds m : Bytes) → Ensures (λ _. Unit) (token_at ds m)
unfolding token_at
token-ends ds [] = tt
token-ends ds (c ∷ m) = elim (Bool-cases (c == 0)) [
  | inl z ↦ rw (z, Ensures) tt
  | inr z ↦
      rw z (Ensures-bind (λ _. Unit) _ (scan_token ds (c ∷ m)) _ (scan-ends ds (c ∷ m)) (λ _ _. tt))
]

pub strtok_r-ends : (p : Option Bytes) (ds : Bytes) → Ensures (λ _. Unit) (strtok_r p ds)
unfolding strtok_r
strtok_r-ends none ds = tt
strtok_r-ends (some p) ds =
    Ensures-bind (λ _. Unit) _ (skip_delims ds p) _ (skip-ends ds p) (λ q _. token-ends ds q)

pub sprintf-ends : (size : ℕ) (out s : Bytes) → Ensures (λ _. Unit) (sprintf size out s)
unfolding sprintf
sprintf-ends size out s = elim (Bool-cases (ltb (length out + length s) size)) [
  | inl e ↦ rw (e, Ensures) tt
  | inr e ↦ rw (e, Ensures) tt
]
