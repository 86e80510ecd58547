-- ===== src/Loop/Decimal.antt =====
-- Reading back a printed process id: `strtol` of src/daemon/main.c and `%d` of the client.
use nav.Base.{
  ℕ, zero, suc, ◌+◌, ◌-◌, ◌*◌, ◌/◌, ◌%◌, ◌^◌, ◌≡◌, refl, ◌∙◌, ◌≢◌, ◌<◌, true, false, some, [], ◌∷◌,
  Bytes, All, All-mono, pos, arith, ltb, ◌==◌, Bool-cases, inl, inr,
}
use nav.CString.{digits, print_nat}
use nav.Utils.{is_blank}
use nav.Commands.Tags.Parse.{IsName}
use nav.Loop.{is_digit, is_space, digits_value, skip_space, signed_value, strtol, to_int}

-- digits, and at least one
abbrev pub IsNumeral : Bytes → Type 0
IsNumeral [] = ⊥
IsNumeral (c ∷ s) = All (λ d. is_digit d ≡ true) (c ∷ s)

digit-is_digit : (d : ℕ) → d < 10 → is_digit (b'0' + d) ≡ true
digit-is_digit d h = ground arith

push_digit :
    (d : ℕ) (s : Bytes) → d < 10 → All (λ c. is_digit c ≡ true) s → IsNumeral ((b'0' + d) ∷ s)
push_digit d s h hs = (digit-is_digit d h, hs)

pub digits-last :
    (f n : ℕ) (out : Bytes) → ltb n 10 ≡ true → digits (suc f) n out ≡ (b'0' + n) ∷ out
unfolding digits
digits-last f n out e = rw (e, digits)

pub digits-more :
    (f n : ℕ) (out : Bytes)
    → ltb n 10 ≡ false
    → digits (suc f) n out ≡ digits f (n / 10) ((b'0' + n % 10) ∷ out)
unfolding digits
digits-more f n out e = rw (e, digits)

digits-IsNumeral : (f n : ℕ) (out : Bytes) → IsNumeral out → IsNumeral (digits f n out)
unfolding digits
digits-IsNumeral f n [] h = absurd h
digits-IsNumeral zero n (c ∷ s) h = h
digits-IsNumeral (suc f) n (c ∷ s) h = elim (Bool-cases (ltb n 10)) [
  | inl e ↦ rw (digits-last f n (c ∷ s) e) (push_digit n (c ∷ s) (ground arith) h)
  | inr e ↦ rw (digits-more f n (c ∷ s) e) (
      digits-IsNumeral f (n / 10) ((b'0' + n % 10) ∷ c ∷ s)
        (push_digit (n % 10) (c ∷ s) (omega arith) h))
]

first-IsNumeral : (f n : ℕ) → IsNumeral (digits (suc f) n [])
unfolding digits
first-IsNumeral f n = elim (Bool-cases (ltb n 10)) [
  | inl e ↦ rw (digits-last f n [] e) (push_digit n [] (ground arith) tt)
  | inr e ↦
      rw (digits-more f n [] e) (
        digits-IsNumeral f (n / 10) ((b'0' + n % 10) ∷ [])
          (push_digit (n % 10) [] (omega arith) tt))
]

pub print_nat-IsNumeral : (n : ℕ) → IsNumeral (print_nat n)
unfolding print_nat
print_nat-IsNumeral n = rw (let next : n + 1 ≡ suc n = omega arith in next) (first-IsNumeral n n)

value-digit :
    (acc d : ℕ) (s : Bytes)
    → d < 10
    → digits_value acc ((b'0' + d) ∷ s) ≡ digits_value (acc * 10 + d) s
unfolding digits_value
value-digit acc d s h =
    let back : b'0' + d - b'0' ≡ d = omega arith in rw (digit-is_digit d h, back)

-- the digits of `n` in front stand for `n`
pub value-digits :
    (f n : ℕ) (out : Bytes) → n < f → digits_value 0 (digits f n out) ≡ digits_value n out
unfolding digits
value-digits zero n out h = absurd (omega arith)
value-digits (suc f) n out h = elim (Bool-cases (ltb n 10)) [
  | inl e ↦ rw (digits-last f n out e) (
      value-digit 0 n out (ground arith)
      ∙ rw (let none_before : 0 * 10 + n ≡ n = omega arith in none_before))
  | inr e ↦
      let whole : n / 10 * 10 + n % 10 ≡ n = omega arith in
      rw (digits-more f n out e) (
        value-digits f (n / 10) ((b'0' + n % 10) ∷ out) (ground arith)
        ∙ value-digit (n / 10) (n % 10) out (omega arith)
        ∙ rw whole)
]

pub digit_value : (n : ℕ) → digits_value 0 (print_nat n) ≡ n
unfolding print_nat
digit_value n = value-digits (n + 1) n [] (omega arith) ∙ unfold digits_value in refl

pub IsNumeral-IsName : (s : Bytes) → IsNumeral s → IsName s
IsNumeral-IsName [] h = absurd h
IsNumeral-IsName (c ∷ s) h =
    All-mono (λ d. is_digit d ≡ true) (λ d. (d ≢ 0) × (is_blank d ≡ false)) (c ∷ s)
      (λ d p. ground arith) h

-- `strtol` on digits
strtol-numeral :
    (s : Bytes) → IsNumeral s → digits_value 0 s < 2 ^ 63 → strtol s ≡ some (pos (digits_value 0 s))
unfolding strtol skip_space signed_value
strtol-numeral [] h small = absurd h
strtol-numeral (c ∷ s) h small =
    let no_space : is_space c ≡ false = ground (arith, h.0) in
    let no_minus : (c == b'-') ≡ false = ground (arith, h.0) in
    let no_plus : (c == b'+') ≡ false = ground (arith, h.0) in
    let fits : ltb (digits_value 0 (c ∷ s)) (2 ^ 63) ≡ true = ground arith in
    rw (no_space, no_minus, no_plus, fits)

-- A process id that is an `int` is read back as it was printed.
pub strtol-print_nat : (n : ℕ) → n < 2 ^ 31 → strtol (print_nat n) ≡ some (pos n)
strtol-print_nat n h =
    let v = digit_value n in
    let big : digits_value 0 (print_nat n) < 2 ^ 63 = omega (arith, v, h) in
    strtol-numeral (print_nat n) (print_nat-IsNumeral n) big ∙ rw v

pub to_int_id : (n : ℕ) → n < 2 ^ 31 → to_int (pos n) ≡ pos n
unfolding to_int
to_int_id n h =
    let same : n % 2 ^ 32 ≡ n = omega arith in
    let small : ltb n (2 ^ 31) ≡ true = ground arith in rw (same, small)
