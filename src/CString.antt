-- ===== src/CString.antt =====
-- What the daemon uses of <string.h> and <stdio.h>. A pointer into a buffer is the list of the bytes
-- from there to the end of the readable memory; the text of a string ends at the first NUL. A
-- function that would read past that memory gives `fault`.
pub mod Laws
pub mod Bounds
use nav.Base.{
  ℕ, zero, suc, ◌+◌, ◌-◌, ◌/◌, ◌%◌, Bool, true, false, ◌||◌, Option, none, some, List, [], ◌∷◌,
  ◌++◌, take, length, Bytes, bytes_eq, ◌==◌, if◌then◌else◌, ltb, ℤ, pos, negsuc,
}
use nav.Run.{Run, ok, fault, ◌>>=◌}

-- only whether the result is 0 is used
unfoldable pub strcmp : Bytes → Bytes → ℕ
strcmp s t = if bytes_eq s t then 0 else 1

-- the same, on the first `n` bytes
unfoldable pub strncmp : Bytes → Bytes → ℕ → ℕ
strncmp s t zero = 0
strncmp [] [] (suc n) = 0
strncmp [] (b ∷ t) (suc n) = 1
strncmp (a ∷ s) [] (suc n) = 1
strncmp (a ∷ s) (b ∷ t) (suc n) = if a == b then strncmp s t n else 1

-- the text from a pointer on
unfoldable pub cstr : Bytes → Bytes
cstr [] = []
cstr (c ∷ m) = if c == 0 then [] else c ∷ cstr m

-- `strndup(p, n)`: at most `n` bytes of the text at `p`
unfoldable pub strndup : Bytes → ℕ → Run Bytes
strndup m zero = ok []
strndup [] (suc n) = fault
strndup (c ∷ m) (suc n) = elim (c == 0) [ true ↦ ok [] | false ↦ do s ← strndup m n; ok (c ∷ s) ]

abbrev pub is_delim : Bytes → ℕ → Bool
is_delim [] c = false
is_delim (d ∷ ds) c = (d == c) || is_delim ds c

-- What `strtok_r` returns: the token's text, the memory behind the NUL that ends it, and where the
-- next call goes on.
pub record Token : Type 0 where
  pub text : Bytes
  pub after : Bytes
  pub save : Bytes

-- the memory at the token's pointer
abbrev pub mem : Token → Bytes
mem t = t.text ++ 0 ∷ t.after

unfoldable pub skip_delims : Bytes → Bytes → Run Bytes
skip_delims ds [] = fault
skip_delims ds (c ∷ m) = if is_delim ds c then skip_delims ds m else ok (c ∷ m)

-- at the NUL of the text the next call starts on that NUL, at a delimiter behind it
unfoldable pub scan_token : Bytes → Bytes → Run Token
scan_token ds [] = fault
scan_token ds (c ∷ m) =
    let more : Run Token = (do t ← scan_token ds m; ok (record t { text = c ∷ t.text })) in
    if c == 0
    then ok (record { text = []; after = m; save = 0 ∷ m })
    else if is_delim ds c
    then ok (record { text = []; after = m; save = m })
    else more

-- no token is left at the NUL
unfoldable pub token_at : Bytes → Bytes → Run (Option Token)
token_at ds [] = fault
token_at ds (c ∷ m) = if c == 0 then ok none else do t ← scan_token ds (c ∷ m); ok (some t)

-- `strtok_r` from the pointer `p`, which is the argument or, if that is null, the saved one; both
-- null is a null dereference
unfoldable pub strtok_r : Option Bytes → Bytes → Run (Option Token)
unfolding skip_delims token_at scan_token
strtok_r none ds = fault
strtok_r (some p) ds = do q ← skip_delims ds p; token_at ds q

-- behind the first byte of a token
unfoldable pub cut_token : Bytes → (Bytes → Bytes) → Bytes → Bytes
cut_token ds further [] = []
cut_token ds further (c ∷ m) =
    let rest = cut_token ds further m in
    if c == 0 then further (c ∷ m) else if is_delim ds c then 0 ∷ further m else c ∷ rest

-- the memory behind a call of `strtok_r`; `further` is what happens to it from where the next call starts
unfoldable pub cut_then : Bytes → (Bytes → Bytes) → Bytes → Bytes
unfolding cut_token
cut_then ds further [] = []
cut_then ds further (c ∷ m) =
    let rest = cut_then ds further m in
    if is_delim ds c then c ∷ rest else cut_token ds further (c ∷ m)

unfoldable pub digits : ℕ → ℕ → Bytes → Bytes
digits zero n out = out
digits (suc f) n out = elim (ltb n 10) [
  | true ↦ (b'0' + n) ∷ out
  | false ↦ digits f (n / 10) ((b'0' + n % 10) ∷ out)
]

-- `%d` of a number that is not negative
unfoldable pub print_nat : ℕ → Bytes
unfolding digits
print_nat n = digits (n + 1) n []

-- `%d`
unfoldable pub print_int : ℤ → Bytes
unfolding print_nat
print_int (pos n) = print_nat n
print_int (negsuc n) = b'-' ∷ print_nat (n + 1)

-- the text that `snprintf` leaves in a buffer of `size` bytes
unfoldable pub snprintf : ℕ → Bytes → Bytes
snprintf zero s = []
snprintf (suc n) s = take n s

-- `sprintf(buf + offset, …)` into a buffer of `size` bytes whose text is `out`: the text and its NUL
-- have to fit
unfoldable pub sprintf : ℕ → Bytes → Bytes → Run Bytes
sprintf size out s = if ltb (length out + length s) size then ok (out ++ s) else fault
