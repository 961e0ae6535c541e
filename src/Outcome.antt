-- ===== src/Outcome.antt =====
-- The result of a call: a value, a thrown exception, or undefined behaviour (a singular iterator or
-- a null pointer is used, a node is spliced out of a list that it is not in).
use resource_pool.Prelude.{◌≡◌, refl, Bool, true, false}
use resource_pool.Prelude.Int.{ℤ}

-- The exceptions of error.hpp: its three classes, and the `std::logic_error` that
-- `category::message` throws, with the number in its text.
pub data Exception : Type 0 where
  empty_handle unusable_handle zero_pool_capacity : Exception
  no_message : ℤ → Exception

pub data Outcome {ℓ} (A : Type ℓ) : Type ℓ where
  ok : A → Outcome A
  throws : Exception → Outcome A
  undefined : Outcome A

infixl 5 ◌>>=◌
abbrev pub ◌>>=◌ {κ ℓ} : {X : Type κ} {Y : Type ℓ} → Outcome X → (X → Outcome Y) → Outcome Y
undefined >>= next = undefined
throws problem >>= next = throws problem
ok x >>= next = next x

-- A precondition of the standard library: without it the behaviour is undefined.
abbrev pub require {ℓ} : {A : Type ℓ} → Bool → A → Outcome A
require true a = ok a
require false a = undefined

-- A chain that succeeds has a first call that does.
pub >>=-eq-ok {κ ℓ} :
    {X : Type κ} {Y : Type ℓ} (first : Outcome X) (next : X → Outcome Y) {y : Y}
    → (first >>= next) ≡ ok y
    → (x : X) × (first ≡ ok x) × (next x ≡ ok y)
>>=-eq-ok undefined next chain = cc
>>=-eq-ok (throws problem) next chain = cc
>>=-eq-ok (ok x) next chain = (x, refl, chain)

pub ok-injective {ℓ} : {A : Type ℓ} {a b : A} → ok a ≡ ok b → a ≡ b
ok-injective h = cc

-- A value that is paired with another and taken out again.
pub >>=-second {ℓ κ} :
    {A : Type ℓ} {B : Type κ} (b : B) (m : Outcome A)
    → ◌>>=◌ {X = B × A} (m >>= (λ a. ok (b, a))) (λ x. ok x.1) ≡ m
>>=-second b (ok a) = refl
>>=-second b (throws e) = refl
>>=-second b undefined = refl

pub >>=-ok {ℓ} : {A : Type ℓ} (m : Outcome A) → (m >>= λ a. ok a) ≡ m
>>=-ok (ok a) = refl
>>=-ok (throws e) = refl
>>=-ok undefined = refl
