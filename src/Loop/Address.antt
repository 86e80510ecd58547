-- ===== src/Loop/Address.antt =====
-- The socket paths of shells, src/daemon/commands.c: when they are whole, and when they differ.
use nav.Base.{
  ℕ, zero, suc, ◌+◌, ◌*◌, ◌/◌, ◌%◌, ◌≡◌, refl, sym, ap, ◌∙◌, ◌≤◌, ◌<◌, [], ◌∷◌, ◌++◌, append_assoc,
  Bytes, codes, length, length-append, take_all, pos, arith, ltb, Bool-cases, inl, inr,
}
use nav.CString.{digits, print_nat, print_int, snprintf}
use nav.Commands.Replies.{socket_path}
use nav.Loop.{digits_value}
use nav.Loop.Decimal.{digits-last, digits-more, value-digits}

-- numbers below `b` take at most `d` digits
abbrev Short : ℕ → ℕ → Type 0
Short b d = (f n : ℕ) (out : Bytes) → n < b → length (digits f n out) ≤ d + length out

Short-ten : Short 10 1
Short-ten zero n out h = unfold digits in omega arith
Short-ten (suc f) n out h = rw (digits-last f n out (ground arith)) (omega arith)

Short-more : (b d : ℕ) → Short b d → Short (10 * b) (suc d)
Short-more b d short zero n out h = unfold digits in omega arith
Short-more b d short (suc f) n out h = elim (Bool-cases (ltb n 10)) [
  | inl e ↦ rw (digits-last f n out e) (omega arith)
  | inr e ↦
      rw (digits-more f n out e)
        (omega (arith, short f (n / 10) ((b'0' + n % 10) ∷ out) (omega arith)))
]

short_id : (n : ℕ) → n < 10000000 → length (print_nat n) ≤ 7
unfolding print_nat
short_id n h =
    let six =
      Short-more 100000 5
        (Short-more 10000 4 (Short-more 1000 3 (Short-more 100 2 (Short-more 10 1 Short-ten)))) in
    omega (arith, Short-more 1000000 6 six (n + 1) n [] h)

digits-append : (f n : ℕ) (out rest : Bytes) → digits f n (out ++ rest) ≡ digits f n out ++ rest
digits-append zero n out rest = unfold digits in refl
digits-append (suc f) n out rest = elim (Bool-cases (ltb n 10)) [
  | inl e ↦ rw (digits-last f n out e, digits-last f n (out ++ rest) e)
  | inr e ↦
      rw (digits-more f n out e, digits-more f n (out ++ rest) e)
        (digits-append f (n / 10) ((b'0' + n % 10) ∷ out) rest)
]

-- the id is read back from the path's last part
value-sock : (n : ℕ) → digits_value 0 (print_nat n ++ codes ".sock") ≡ n
unfolding print_nat
value-sock n =
    ap (digits_value 0) (sym (digits-append (n + 1) n [] (codes ".sock")))
    ∙ value-digits (n + 1) n (codes ".sock") (omega arith)
    ∙ unfold digits_value in refl

drop_same : (xs ys zs : Bytes) → xs ++ ys ≡ xs ++ zs → ys ≡ zs
drop_same [] ys zs e = e
drop_same (x ∷ xs) ys zs e = drop_same xs ys zs cc

module _ (cache_dir : Bytes) (n : ℕ) (short : length cache_dir ≤ 94) (small : n < 10000000) where
  fits : length (cache_dir ++ b'/' ∷ print_nat n ++ codes ".sock") ≤ 107
  fits =
      let whole = length-append (cache_dir ++ b'/' ∷ print_nat n) (codes ".sock") in
      let front = length-append cache_dir (b'/' ∷ print_nat n) in
      rw (whole, front) (omega (arith, short, short_id n small))

  -- With a cache directory of at most 94 bytes and a process id of at most 7 digits, the socket path
  -- fits `sun_path`.
  pub socket_path_whole :
      socket_path cache_dir (pos n) ≡ cache_dir ++ b'/' ∷ print_nat n ++ codes ".sock"
  unfolding socket_path snprintf print_int
  socket_path_whole = take_all 107 (cache_dir ++ b'/' ∷ print_nat n ++ codes ".sock") fits

-- With a cache directory of at most 94 bytes, two process ids of at most 7 digits with the same socket
-- path are the same.
pub socket_path_injective :
    (cache_dir : Bytes) (n m : ℕ)
    → length cache_dir ≤ 94
    → n < 10000000
    → m < 10000000
    → socket_path cache_dir (pos n) ≡ socket_path cache_dir (pos m)
    → n ≡ m
socket_path_injective cache_dir n m short hn hm e =
    let join_n = append_assoc cache_dir (b'/' ∷ print_nat n) (codes ".sock") in
    let join_m = append_assoc cache_dir (b'/' ∷ print_nat m) (codes ".sock") in
    let parts =
      sym join_n
      ∙ sym (socket_path_whole cache_dir n short hn)
      ∙ e
      ∙ socket_path_whole cache_dir m short hm
      ∙ join_m in
    let tails =
      drop_same (b'/' ∷ []) (print_nat n ++ codes ".sock") (print_nat m ++ codes ".sock") (
        drop_same cache_dir (b'/' ∷ (print_nat n ++ codes ".sock"))
          (b'/' ∷ (print_nat m ++ codes ".sock")) parts) in
    sym (value-sock n) ∙ ap (digits_value 0) tails ∙ value-sock m
