-- ===== src/Prelude/Lists.antt =====
-- Lists over the native numbers: length, replication, and lists of node addresses as multisets,
-- read through `count`.
use resource_pool.Prelude.Tests.{ltb, ◌==◌, if◌then◌else◌}
use mathlib.Core.Option.{Option, none, some}
use Prim.Native.Nat.{ℕ, zero, suc, ◌+◌, ◌<◌}
use mathlib.Core.Path.{◌≡◌}
use mathlib.Core.Bool.{Bool, true, false}
use mathlib.Core.List.{List, [], ◌∷◌, ◌++◌}
use native.Mathlib.Omega.{arith}

module _ {ℓ} {A : Type ℓ} where
  abbrev pub length : List A → ℕ
  length [] = 0
  length (x ∷ xs) = suc (length xs)

  abbrev pub get_elem? : List A → ℕ → Option A
  get_elem? [] i = none
  get_elem? (x ∷ xs) zero = some x
  get_elem? (x ∷ xs) (suc i) = get_elem? xs i

  abbrev pub is_empty : List A → Bool
  is_empty [] = true
  is_empty (x ∷ xs) = false

  pub length-append : (xs ys : List A) → length (xs ++ ys) ≡ length xs + length ys
  length-append [] ys = omega arith
  length-append (x ∷ xs) ys = omega (arith, length-append xs ys)

-- How often an address stands in a list.
abbrev pub count : ℕ → List ℕ → ℕ
count c [] = 0
count c (x ∷ xs) = (if c == x then 1 else 0) + count c xs

pub count-append : (c : ℕ) (xs ys : List ℕ) → count c (xs ++ ys) ≡ count c xs + count c ys
count-append c [] ys = omega arith
count-append c (x ∷ xs) ys = omega (arith, count-append c xs ys)

abbrev pub contains : ℕ → List ℕ → Bool
contains c xs = ltb 0 (count c xs)

-- Takes the first occurrence of an address out of a list.
unfoldable pub erase : ℕ → List ℕ → List ℕ
erase c [] = []
erase c (x ∷ xs) = if c == x then xs else x ∷ erase c xs

pub count-erase :
    (d c : ℕ) (xs : List ℕ)
    → 0 < count c xs
    → count d xs ≡ (if d == c then 1 else 0) + count d (erase c xs)
unfolding erase
count-erase d c [] h = absurd (omega arith)
count-erase d c (x ∷ xs) h = ground (arith, count-erase d c xs)

pub length-erase : (c : ℕ) (xs : List ℕ) → 0 < count c xs → length xs ≡ suc (length (erase c xs))
unfolding erase
length-erase c [] h = absurd (omega arith)
length-erase c (x ∷ xs) h = ground (arith, length-erase c xs)
