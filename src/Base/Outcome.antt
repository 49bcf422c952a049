-- ===== src/Base/Outcome.antt =====
-- How a piece of C code ends: with a value, at a point where C leaves the behaviour undefined (an
-- access outside an array, a shift by the width of the word or more), or not within the fuel given.
use mathlib.Core.Path.{◌≡◌, refl, fun_ext}
use mathlib.Core.Option.{Option, none, some}

pub data Run {ℓ} (A : Type ℓ) : Type ℓ where
  done : A → Run A
  undefined : Run A
  out_of_fuel : Run A

infixl 5 ◌>>=◌
abbrev pub ◌>>=◌ {ℓ κ} : {A : Type ℓ} {B : Type κ} → Run A → (A → Run B) → Run B
done a >>= f = f a
undefined >>= f = undefined
out_of_fuel >>= f = out_of_fuel

-- A read of an array cell.
abbrev pub load {ℓ} : {A : Type ℓ} → Option A → Run A
load none = undefined
load (some a) = done a

-- The run ends with a value that satisfies `P`.
abbrev pub Returns {ℓ} : {A : Type ℓ} → Run A → (A → Type 0) → Type 0
Returns (done a) P = P a
Returns undefined P = ⊥
Returns out_of_fuel P = ⊥

pub >>=-Returns {ℓ κ} :
    {A : Type ℓ} {B : Type κ} (m : Run A) (f : A → Run B) (P : A → Type 0) (Q : B → Type 0)
    → Returns m P
    → ((a : A) → P a → Returns (f a) Q)
    → Returns (m >>= f) Q
>>=-Returns (done a) f P Q h k = k a h
>>=-Returns undefined f P Q h k = h
>>=-Returns out_of_fuel f P Q h k = h

-- The value of a run that returns.
pub Returns-done {ℓ} :
    {A : Type ℓ} (m : Run A) (P : A → Type 0) → Returns m P → (a : A) × (m ≡ done a) × P a
Returns-done (done a) P h = (a, refl, h)
Returns-done undefined P h = absurd h
Returns-done out_of_fuel P h = absurd h

pub Returns-weaken {ℓ} :
    {A : Type ℓ} (m : Run A) (P Q : A → Type 0) → Returns m P → ((a : A) → P a → Q a) → Returns m Q
Returns-weaken (done a) P Q h k = k a h
Returns-weaken undefined P Q h k = absurd h
Returns-weaken out_of_fuel P Q h k = absurd h

-- Two runs that begin alike and go on alike are equal.
pub >>=-eq {ℓ κ} :
    {A : Type ℓ} {B : Type κ} (m n : Run A) (f g : A → Run B)
    → m ≡ n
    → ((a : A) → f a ≡ g a)
    → (m >>= f) ≡ (n >>= g)
>>=-eq m n f g e h = rw (e, fun_ext h)

-- The run does not use up its fuel, and a value that it ends with satisfies `P`.
abbrev pub Ends {ℓ} : {A : Type ℓ} → Run A → (A → Type 0) → Type 0
Ends (done a) P = P a
Ends undefined P = Unit
Ends out_of_fuel P = ⊥

pub >>=-Ends {ℓ κ} :
    {A : Type ℓ} {B : Type κ} (m : Run A) (f : A → Run B) (P : A → Type 0) (Q : B → Type 0)
    → Ends m P
    → ((a : A) → P a → Ends (f a) Q)
    → Ends (m >>= f) Q
>>=-Ends (done a) f P Q h k = k a h
>>=-Ends undefined f P Q h k = h
>>=-Ends out_of_fuel f P Q h k = h

pub Returns-Ends {ℓ} : {A : Type ℓ} (m : Run A) (P : A → Type 0) → Returns m P → Ends m P
Returns-Ends (done a) P h = h
Returns-Ends undefined P h = absurd h
Returns-Ends out_of_fuel P h = h

pub Ends-weaken {ℓ} :
    {A : Type ℓ} (m : Run A) (P Q : A → Type 0) → Ends m P → ((a : A) → P a → Q a) → Ends m Q
Ends-weaken (done a) P Q h k = k a h
Ends-weaken undefined P Q h k = h
Ends-weaken out_of_fuel P Q h k = h

-- A value that the run ends with satisfies `P`.
abbrev pub Whenever {ℓ} : {A : Type ℓ} → Run A → (A → Type 0) → Type 0
Whenever (done a) P = P a
Whenever undefined P = Unit
Whenever out_of_fuel P = Unit

pub >>=-Whenever {ℓ κ} :
    {A : Type ℓ} {B : Type κ} (m : Run A) (f : A → Run B) (P : A → Type 0) (Q : B → Type 0)
    → Whenever m P
    → ((a : A) → P a → Whenever (f a) Q)
    → Whenever (m >>= f) Q
>>=-Whenever (done a) f P Q h k = k a h
>>=-Whenever undefined f P Q h k = tt
>>=-Whenever out_of_fuel f P Q h k = tt

pub Whenever-Unit {ℓ} : {A : Type ℓ} (m : Run A) → Whenever m (λ a. Unit {0})
Whenever-Unit (done a) = tt
Whenever-Unit undefined = tt
Whenever-Unit out_of_fuel = tt

pub Ends-Whenever {ℓ} : {A : Type ℓ} (m : Run A) (P : A → Type 0) → Ends m P → Whenever m P
Ends-Whenever (done a) P h = h
Ends-Whenever undefined P h = tt
Ends-Whenever out_of_fuel P h = absurd h

pub Whenever-weaken {ℓ} :
    {A : Type ℓ} (m : Run A) (P Q : A → Type 0)
    → Whenever m P
    → ((a : A) → P a → Q a)
    → Whenever m Q
Whenever-weaken (done a) P Q h k = k a h
Whenever-weaken undefined P Q h k = tt
Whenever-weaken out_of_fuel P Q h k = tt

pub Whenever-both {ℓ} :
    {A : Type ℓ} (m : Run A) (P Q : A → Type 0)
    → Whenever m P
    → Whenever m Q
    → Whenever m (λ a. P a × Q a)
Whenever-both (done a) P Q h k = (h, k)
Whenever-both undefined P Q h k = tt
Whenever-both out_of_fuel P Q h k = tt

pub Returns-both {ℓ} :
    {A : Type ℓ} (m : Run A) (P Q : A → Type 0)
    → Returns m P
    → Returns m Q
    → Returns m (λ a. P a × Q a)
Returns-both (done a) P Q h k = (h, k)
Returns-both undefined P Q h k = absurd h
Returns-both out_of_fuel P Q h k = absurd h
