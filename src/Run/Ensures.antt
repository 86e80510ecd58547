-- ===== src/Run/Ensures.antt =====
-- Postconditions of runs. `Ensures P r`: the loops of `r` end, and a value that it returns has `P`;
-- `Returns P r`: it returns a value with `P`, so that there is no undefined behaviour either.
use nav.Base.{◌≡◌, refl, Bool, true, false, if◌then◌else◌}
use nav.Run.{Run, ok, fault, hang, ◌>>=◌}

module _ {A : Type 0} where
  abbrev pub Ensures : (A → Type 0) → Run A → Type 0
  Ensures P (ok a) = P a
  Ensures P fault = Unit
  Ensures P hang = ⊥

  abbrev pub Returns : (A → Type 0) → Run A → Type 0
  Returns P (ok a) = P a
  Returns P fault = ⊥
  Returns P hang = ⊥

  pub Returns-eq : {P : A → Type 0} (r : Run A) → Returns P r → (a : A) × (r ≡ ok a) × P a
  Returns-eq (ok a) h = (a, refl, h)
  Returns-eq fault h = absurd h
  Returns-eq hang h = absurd h

module _ {A B : Type 0} where
  pub Ensures-bind :
      (P : A → Type 0) (Q : B → Type 0) (m : Run A) (k : A → Run B)
      → Ensures P m
      → ((a : A) → P a → Ensures Q (k a))
      → Ensures Q (m >>= k)
  Ensures-bind P Q (ok a) k h next = next a h
  Ensures-bind P Q fault k h next = tt
  Ensures-bind P Q hang k h next = absurd h

  pub Returns-bind :
      (P : A → Type 0) (Q : B → Type 0) (m : Run A) (k : A → Run B)
      → Returns P m
      → ((a : A) → P a → Returns Q (k a))
      → Returns Q (m >>= k)
  Returns-bind P Q (ok a) k h next = next a h
  Returns-bind P Q fault k h next = absurd h
  Returns-bind P Q hang k h next = absurd h

pub Returns-mono :
    {A : Type 0} (P Q : A → Type 0) (m : Run A) → ((a : A) → P a → Q a) → Returns P m → Returns Q m
Returns-mono P Q (ok a) f h = f a h
Returns-mono P Q fault f h = h
Returns-mono P Q hang f h = h

pub Ensures-if :
    {A : Type 0} (P : A → Type 0) (b : Bool) (m n : Run A)
    → Ensures P m
    → Ensures P n
    → Ensures P (if b then m else n)
Ensures-if P true m n hm hn = hm
Ensures-if P false m n hm hn = hn

pub Returns-Ensures :
    {A : Type 0} (P : A → Type 0) (r : Run A) → Returns (λ _. Unit) r → Ensures P r → Returns P r
Returns-Ensures P (ok a) h e = e
Returns-Ensures P fault h e = h
Returns-Ensures P hang h e = h

pub Returns-if :
    {A : Type 0} (P : A → Type 0) (b : Bool) (m n : Run A)
    → Returns P m
    → Returns P n
    → Returns P (if b then m else n)
Returns-if P true m n hm hn = hm
Returns-if P false m n hm hn = hn

pub Ensures-mono :
    {A : Type 0} (P Q : A → Type 0) (m : Run A) → ((a : A) → P a → Q a) → Ensures P m → Ensures Q m
Ensures-mono P Q (ok a) f h = f a h
Ensures-mono P Q fault f h = h
Ensures-mono P Q hang f h = h
