-- ===== src/Run.antt =====
-- The outcome of running C code: a value, undefined behaviour (a read or write outside an object, a
-- null dereference), or a loop that the given fuel did not finish.
pub mod Ensures
use nav.Base.{◌≡◌, refl}

pub data Run {ℓ} (A : Type ℓ) : Type ℓ where
  ok : A → Run A
  fault : Run A
  hang : Run A

module _ {ℓ κ} {A : Type ℓ} {B : Type κ} where
  infixl 5 ◌>>=◌
  abbrev pub ◌>>=◌ : Run A → (A → Run B) → Run B
  ok a >>= k = k a
  fault >>= k = fault
  hang >>= k = hang

  infixl 5 ◌>>◌
  abbrev pub ◌>>◌ : Run A → Run B → Run B
  m >> n = m >>= λ _. n

  -- a bind that returns has a first part that returns
  pub >>=-eq-ok :
      (m : Run A) (k : A → Run B) {b : B} → (m >>= k) ≡ ok b → (a : A) × (m ≡ ok a) × (k a ≡ ok b)
  >>=-eq-ok (ok a) k h = (a, refl, h)
  >>=-eq-ok fault k h = cc
  >>=-eq-ok hang k h = cc

-- the status of a program that exits
pub data Exit : Type 0 where
  exit_success exit_failure : Exit
