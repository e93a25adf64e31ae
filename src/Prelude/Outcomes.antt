-- ===== src/Prelude/Outcomes.antt =====
-- What a call does: it returns, it waits for a latch that is held, or it stops at a failed
-- `assert` or at the use of a null pointer.

use mathlib.Core.Path.{◌≡◌, subst, ap}
use mathlib.Core.Bool.{Bool, true, false}

pub data Outcome {ℓ} (A : Type ℓ) : Type ℓ where
  done : A → Outcome A
  blocked : Outcome A
  fault : Outcome A

infixl 5 ◌>>=◌
abbrev pub ◌>>=◌ {ℓ κ} : {A : Type ℓ} {B : Type κ} → Outcome A → (A → Outcome B) → Outcome B
done a >>= f = f a
blocked >>= f = blocked
fault >>= f = fault

abbrev pub map_done {ℓ κ} : {A : Type ℓ} {B : Type κ} → (A → B) → Outcome A → Outcome B
map_done f (done a) = done (f a)
map_done f blocked = blocked
map_done f fault = fault

-- The call returns, and its result satisfies the predicate.
abbrev pub Ensures {ℓ} : {A : Type ℓ} → (A → Type 0) → Outcome A → Type 0
Ensures P (done a) = P a
Ensures P blocked = ⊥
Ensures P fault = ⊥

-- If the call returns, its result satisfies the predicate.
abbrev pub Allows {ℓ} : {A : Type ℓ} → (A → Type 0) → Outcome A → Type 0
Allows P (done a) = P a
Allows P blocked = Unit
Allows P fault = Unit

pub Allows->>= {ℓ κ} :
    {A : Type ℓ} {B : Type κ} (P : A → Type 0) (Q : B → Type 0) (m : Outcome A) (f : A → Outcome B)
    → Allows P m
    → ((a : A) → P a → Allows Q (f a))
    → Allows Q (m >>= f)
Allows->>= P Q (done a) f h k = k a h
Allows->>= P Q blocked f h k = tt
Allows->>= P Q fault f h k = tt

pub Ensures->>= {ℓ κ} :
    {A : Type ℓ} {B : Type κ} (P : A → Type 0) (Q : B → Type 0) (m : Outcome A) (f : A → Outcome B)
    → Ensures P m
    → ((a : A) → P a → Ensures Q (f a))
    → Ensures Q (m >>= f)
Ensures->>= P Q (done a) f h k = k a h
Ensures->>= P Q blocked f h k = h
Ensures->>= P Q fault f h k = h

-- A stronger predicate on the result entails a weaker one.
pub Ensures-mono {ℓ} :
    {A : Type ℓ} (P Q : A → Type 0) (m : Outcome A)
    → ((a : A) → P a → Q a)
    → Ensures P m
    → Ensures Q m
Ensures-mono P Q (done a) k h = k a h
Ensures-mono P Q blocked k h = h
Ensures-mono P Q fault k h = h

-- What is ensured of a call holds of the result that it has returned.
pub Ensures-done {ℓ} :
    {A : Type ℓ} (P : A → Type 0) (o : Outcome A) {a : A} → o ≡ done a → Ensures P o → P a
Ensures-done P o e h = subst (Ensures P) e h

-- Where the test holds the call returns, with the predicate; elsewhere its assertion fails.
abbrev pub Accepts : {A : Type 0} → Bool → (A → Type 0) → Outcome A → Type 0
Accepts true P o = Ensures P o
Accepts false P o = o ≡ fault

pub Accepts->>= :
    {A B : Type 0} (t : Bool) (P : A → Type 0) (Q : B → Type 0) (m : Outcome A) (f : A → Outcome B)
    → Accepts t P m
    → ((a : A) → P a → Ensures Q (f a))
    → Accepts t Q (m >>= f)
Accepts->>= true P Q m f h k = Ensures->>= P Q m f h k
Accepts->>= false P Q m f h k = ap (λ o. o >>= f) h

pub Accepts-mono :
    {A : Type 0} (t : Bool) (P Q : A → Type 0) (m : Outcome A)
    → ((a : A) → P a → Q a)
    → Accepts t P m
    → Accepts t Q m
Accepts-mono true P Q m k h = Ensures-mono P Q m k h
Accepts-mono false P Q m k h = h
