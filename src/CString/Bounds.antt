-- ===== src/CString/Bounds.antt =====
-- What a formatting loop leaves in a buffer, and when it writes past the end.
use nav.Base.{
  ℕ, zero, suc, ◌+◌, ◌-◌, ◌≡◌, refl, ap, ◌≤◌, ◌<◌, [], ◌∷◌, ◌++◌, take, length, Bytes, arith,
}
use nav.Run.{ok, fault}
use nav.CString.{snprintf, sprintf}

pub sprintf-fits :
    (size : ℕ) (out s : Bytes) → length out + length s < size → sprintf size out s ≡ ok (out ++ s)
unfolding sprintf
sprintf-fits size out s h = ground arith

pub sprintf-overflows :
    (size : ℕ) (out s : Bytes) → size ≤ length out + length s → sprintf size out s ≡ fault
unfolding sprintf
sprintf-overflows size out s h = ground arith

-- `snprintf` at the end of a text of `n` bytes, in a buffer of `suc size` bytes, keeps what fits of
-- the whole
pub take-snprintf :
    (size : ℕ) (a b : Bytes)
    → length a ≤ suc size
    → take size a ++ snprintf (suc size - length a) b ≡ take size (a ++ b)
unfolding snprintf
take-snprintf zero [] b h = refl
take-snprintf (suc size) [] b h =
    rw (let whole : suc (suc size) - 0 ≡ suc (suc size) = omega arith in whole)
take-snprintf zero (c ∷ a) b h = rw (let gone : 1 - suc (length a) ≡ 0 = omega arith in gone)
take-snprintf (suc size) (c ∷ a) b h =
    rw (let down : suc (suc size) - suc (length a) ≡ suc size - length a = omega arith in down)
      (ap (λ l. c ∷ l) (take-snprintf size a b (omega arith)))
