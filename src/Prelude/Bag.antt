-- ===== src/Prelude/Bag.antt =====
-- Lists of addresses up to order, as a quotient: an abstract view of the cells that are in use.
use mathlib.Core.Quot
use mathlib.Core.Quot.{Quot, Quot-set}
use mathlib.Core.List.{Perm}
use mathlib.Core.List.Perm
use native.Mathlib.Nat.{ℕ_set}
use Prim.Native.Nat.{ℕ, ◌<◌}
use mathlib.Core.Path.{◌≡◌, refl}
use mathlib.Core.Logic.{inl, inr}
use mathlib.Core.List.{List, [], ◌∷◌, ◌++◌}
use native.Mathlib.Omega.{arith}
use resource_pool.Prelude.Tests.{◌==◌, Bool-cases}
use resource_pool.Prelude.Lists.{length, count, count-append, erase, count-erase, length-erase}

-- Two lists hold each address equally often.
abbrev pub SameCells : List ℕ → List ℕ → Type 0
SameCells xs ys = (c : ℕ) → count c xs ≡ count c ys

SameCells-erase : (x : ℕ) (xs ys : List ℕ) → SameCells (x ∷ xs) ys → SameCells xs (erase x ys)
SameCells-erase x xs ys h c = ground (arith, h c, h x, count-erase c x ys)

pub SameCells-length : (xs ys : List ℕ) → SameCells xs ys → length xs ≡ length ys
SameCells-length [] [] h = refl
SameCells-length [] (y ∷ ys) h = absurd (ground (arith, h y))
SameCells-length (x ∷ xs) ys h =
    let has : 0 < count x ys = ground (arith, h x) in
    let rest = SameCells-length xs (erase x ys) (SameCells-erase x xs ys h) in
    omega (arith, rest, length-erase x ys has)

erase-perm : (x : ℕ) (ys : List ℕ) → 0 < count x ys → Perm (x ∷ erase x ys) ys
unfolding erase
erase-perm x [] h = absurd (omega arith)
erase-perm x (y ∷ ys) h = elim (Bool-cases (x == y)) [
  | inl hit ↦ let e : x ≡ y = ground arith in rw (hit, e) (Perm.refl _)
  | inr miss ↦
      rw miss
        (Perm.trans (Perm.swap y x (erase x ys)) (Perm.cons y (erase-perm x ys (ground arith))))
]

-- Such lists are rearrangements of each other.
pub SameCells-perm : (xs ys : List ℕ) → SameCells xs ys → Perm xs ys
SameCells-perm [] [] h = Perm.refl []
SameCells-perm [] (y ∷ ys) h = absurd (ground (arith, h y))
SameCells-perm (x ∷ xs) ys h =
    let has : 0 < count x ys = ground (arith, h x) in
    Perm.trans (Perm.cons x (SameCells-perm xs (erase x ys) (SameCells-erase x xs ys h)))
      (erase-perm x ys has)

abbrev pub Bag : Type 0
Bag = Quot SameCells

abbrev pub of_list : List ℕ → Bag
of_list = Quot.mk

-- How often an address is in a bag, and how many there are in all.
unfoldable pub occurrences : ℕ → Bag → ℕ
occurrences c = Quot.lift ℕ_set (count c) λ xs ys h. h c

unfoldable pub size : Bag → ℕ
size = Quot.lift ℕ_set length SameCells-length

pub SameCells-cons : (x : ℕ) (xs ys : List ℕ) → SameCells xs ys → SameCells (x ∷ xs) (x ∷ ys)
SameCells-cons x xs ys h c = omega (arith, h c)

unfoldable pub put : ℕ → Bag → Bag
put x = Quot.lift Quot-set (λ xs. of_list (x ∷ xs)) λ xs ys h. Quot.sound (SameCells-cons x xs ys h)

-- An address behind a list, and one that is taken out of it.
pub put-last : (c : ℕ) (xs : List ℕ) → of_list (xs ++ c ∷ []) ≡ put c (of_list xs)
unfolding put
put-last c xs = Quot.sound λ d. omega (arith, count-append d xs (c ∷ []))

pub put-erase : (c : ℕ) (xs : List ℕ) → 0 < count c xs → of_list xs ≡ put c (of_list (erase c xs))
unfolding put
put-erase c xs h = Quot.sound λ d. ground (arith, count-erase d c xs h)
