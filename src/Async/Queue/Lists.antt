-- ===== src/Async/Queue/Lists.antt =====
-- queue.hpp: the multimap of expiry times as a sorted list of entries.
use resource_pool.Prelude.{
  ℕ, suc, ◌+◌, ◌<◌, ◌==◌, if◌then◌else◌, ◌≡◌, refl, true, false, Bool-cases, inl, inr, List, [],
  ◌∷◌, length, count, arith,
}
use resource_pool.Prelude.Int.{◌≤ℤ◌, leb_ℤ}
use resource_pool.TimeTraits.{TimePoint}
use resource_pool.Async.Queue.{insert, erase_entry, due, not_due}

abbrev pub Entries : Type 0
Entries = List (TimePoint × ℕ)

abbrev pub nodes_of : Entries → List ℕ
nodes_of [] = []
nodes_of ((k, n) ∷ l) = n ∷ nodes_of l

-- Keys rise along the entries, from a bound on.
abbrev pub SortedFrom : TimePoint → Entries → Type 0
SortedFrom b [] = Unit {0}
SortedFrom b ((k, n) ∷ l) = (b ≤ℤ k) × SortedFrom k l

abbrev pub Sorted : Entries → Type 0
Sorted [] = Unit {0}
Sorted ((k, n) ∷ l) = SortedFrom k l

-- Each entry's key is what its request says.
abbrev pub Keyed : (ℕ → TimePoint) → Entries → Type 0
Keyed key [] = Unit {0}
Keyed key ((k, n) ∷ l) = (key n ≡ k) × Keyed key l

pub count-insert :
    (d n : ℕ) (t : TimePoint) (l : Entries)
    → count d (nodes_of (insert t n l)) ≡ (if d == n then 1 else 0) + count d (nodes_of l)
unfolding insert
count-insert d n t [] = ground arith
count-insert d n t ((k, m) ∷ l) = ground (arith, count-insert d n t l)

pub length-insert : (n : ℕ) (t : TimePoint) (l : Entries) → length (insert t n l) ≡ suc (length l)
unfolding insert
length-insert n t [] = refl
length-insert n t ((k, m) ∷ l) = ground (arith, length-insert n t l)

pub insert-SortedFrom :
    (b t : TimePoint) (n : ℕ) (l : Entries) → b ≤ℤ t → SortedFrom b l → SortedFrom b (insert t n l)
unfolding insert
insert-SortedFrom b t n [] h s = (h, tt)
insert-SortedFrom b t n ((k, m) ∷ l) h s = elim (Bool-cases (leb_ℤ k t)) [
  | inl le ↦ rw le (s.0, insert-SortedFrom k t n l (ground arith) s.1)
  | inr gt ↦ rw gt (h, (ground arith, s.1))
]

pub insert-Sorted : (t : TimePoint) (n : ℕ) (l : Entries) → Sorted l → Sorted (insert t n l)
unfolding insert
insert-Sorted t n [] s = tt
insert-Sorted t n ((k, m) ∷ l) s = elim (Bool-cases (leb_ℤ k t)) [
  | inl le ↦ rw le (insert-SortedFrom k t n l (ground arith) s)
  | inr gt ↦ rw gt (ground arith, s)
]

pub insert-Keyed :
    (key : ℕ → TimePoint) (t : TimePoint) (n : ℕ) (l : Entries)
    → key n ≡ t
    → Keyed key l
    → Keyed key (insert t n l)
unfolding insert
insert-Keyed key t n [] e k = (e, tt)
insert-Keyed key t n ((j, m) ∷ l) e k = elim (Bool-cases (leb_ℤ j t)) [
  | inl le ↦ rw le (k.0, insert-Keyed key t n l e k.1)
  | inr gt ↦ rw gt (e, (k.0, k.1))
]

-- A change of keys at nodes that are not entered.
pub Keyed-change :
    (key key' : ℕ → TimePoint) (l : Entries)
    → ((m : ℕ) → 0 < count m (nodes_of l) → key' m ≡ key m)
    → Keyed key l
    → Keyed key' l
Keyed-change key key' [] same k = tt
Keyed-change key key' ((j, m) ∷ l) same k =
    (ground (arith, same m), Keyed-change key key' l (λ d h. same d (ground arith)) k.1)

pub count-erase_entry :
    (d n : ℕ) (l : Entries)
    → 0 < count n (nodes_of l)
    → count d (nodes_of l) ≡ (if d == n then 1 else 0) + count d (nodes_of (erase_entry n l))
unfolding erase_entry
count-erase_entry d n [] h = absurd (omega arith)
count-erase_entry d n ((k, m) ∷ l) h = ground (arith, count-erase_entry d n l)

pub length-erase_entry :
    (n : ℕ) (l : Entries) → 0 < count n (nodes_of l) → length l ≡ suc (length (erase_entry n l))
unfolding erase_entry
length-erase_entry n [] h = absurd (omega arith)
length-erase_entry n ((k, m) ∷ l) h = ground (arith, length-erase_entry n l)

SortedFrom-weaken : (b c : TimePoint) (l : Entries) → b ≤ℤ c → SortedFrom c l → SortedFrom b l
SortedFrom-weaken b c [] h s = tt
SortedFrom-weaken b c ((k, n) ∷ l) h s = (omega arith, s.1)

erase_entry-SortedFrom :
    (b : TimePoint) (n : ℕ) (l : Entries) → SortedFrom b l → SortedFrom b (erase_entry n l)
unfolding erase_entry
erase_entry-SortedFrom b n [] s = tt
erase_entry-SortedFrom b n ((k, m) ∷ l) s = elim (Bool-cases (n == m)) [
  | inl hit ↦ rw hit (SortedFrom-weaken b k l s.0 s.1)
  | inr miss ↦ rw miss (s.0, erase_entry-SortedFrom k n l s.1)
]

SortedFrom-forget : (b : TimePoint) (l : Entries) → SortedFrom b l → Sorted l
SortedFrom-forget b [] s = tt
SortedFrom-forget b ((k, n) ∷ l) s = s.1

pub erase_entry-Sorted : (n : ℕ) (l : Entries) → Sorted l → Sorted (erase_entry n l)
unfolding erase_entry
erase_entry-Sorted n [] s = tt
erase_entry-Sorted n ((k, m) ∷ l) s = elim (Bool-cases (n == m)) [
  | inl hit ↦ rw hit (SortedFrom-forget k l s)
  | inr miss ↦ rw miss (erase_entry-SortedFrom k n l s)
]

pub erase_entry-Keyed :
    (key : ℕ → TimePoint) (n : ℕ) (l : Entries) → Keyed key l → Keyed key (erase_entry n l)
unfolding erase_entry
erase_entry-Keyed key n [] k = tt
erase_entry-Keyed key n ((j, m) ∷ l) k = elim (Bool-cases (n == m)) [
  | inl hit ↦ rw hit k.1
  | inr miss ↦ rw miss (k.0, erase_entry-Keyed key n l k.1)
]

-- Every entry is due or not, and which it is its key tells.
pub count-due :
    (d : ℕ) (t : TimePoint) (l : Entries)
    → count d (nodes_of l) ≡ count d (nodes_of (due t l)) + count d (nodes_of (not_due t l))
unfolding due not_due
count-due d t [] = refl
count-due d t ((k, m) ∷ l) = ground (arith, count-due d t l)

pub length-due : (t : TimePoint) (l : Entries) → length l ≡ length (due t l) + length (not_due t l)
unfolding due not_due
length-due t [] = refl
length-due t ((k, m) ∷ l) = ground (arith, length-due t l)

pub due-key :
    (key : ℕ → TimePoint) (d : ℕ) (t : TimePoint) (l : Entries)
    → Keyed key l
    → 0 < count d (nodes_of (due t l))
    → leb_ℤ (key d) t ≡ true
unfolding due
due-key key d t [] k h = absurd (omega arith)
due-key key d t ((j, m) ∷ l) k h = elim (Bool-cases (d == m)) [
  | inl hit ↦ ground (arith, k.0, hit, h)
  | inr miss ↦ due-key key d t l k.1 (ground arith)
]

late-key :
    (key : ℕ → TimePoint) (d : ℕ) (b t : TimePoint) (l : Entries)
    → leb_ℤ b t ≡ false
    → SortedFrom b l
    → Keyed key l
    → 0 < count d (nodes_of l)
    → leb_ℤ (key d) t ≡ false
late-key key d b t [] late s k h = absurd (omega arith)
late-key key d b t ((j, m) ∷ l) late s k h = elim (Bool-cases (d == m)) [
  | inl hit ↦ ground (arith, k.0, s.0)
  | inr miss ↦ late-key key d b t l late (SortedFrom-weaken b j l s.0 s.1) k.1 (ground arith)
]

pub not_due-key :
    (key : ℕ → TimePoint) (d : ℕ) (t : TimePoint) (l : Entries)
    → Sorted l
    → Keyed key l
    → 0 < count d (nodes_of (not_due t l))
    → leb_ℤ (key d) t ≡ false
unfolding not_due
not_due-key key d t [] s k h = absurd (omega arith)
not_due-key key d t ((j, m) ∷ l) s k h = elim (Bool-cases (leb_ℤ j t)) [
  | inl le ↦ not_due-key key d t l (SortedFrom-forget j l s) k.1 (ground arith)
  | inr gt ↦ late-key key d j t ((j, m) ∷ l) gt (ground arith, s) k (ground arith)
]

pub not_due-Sorted : (t : TimePoint) (l : Entries) → Sorted l → Sorted (not_due t l)
unfolding not_due
not_due-Sorted t [] s = tt
not_due-Sorted t ((k, m) ∷ l) s = elim (Bool-cases (leb_ℤ k t)) [
  | inl le ↦ rw le (not_due-Sorted t l (SortedFrom-forget k l s))
  | inr gt ↦ rw gt s
]

pub not_due-Keyed :
    (key : ℕ → TimePoint) (t : TimePoint) (l : Entries) → Keyed key l → Keyed key (not_due t l)
unfolding not_due
not_due-Keyed key t [] k = tt
not_due-Keyed key t ((j, m) ∷ l) k = elim (Bool-cases (leb_ℤ j t)) [
  | inl le ↦ rw le (not_due-Keyed key t l k.1)
  | inr gt ↦ rw gt k
]
