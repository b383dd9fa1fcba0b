-- ===== src/Synch/Rwlock/Holders.antt =====
-- The array of a readers-writer lock's readers, as both loops leave it.
use prog.Synch.Rwlock.{find_free, find_holder}
use prog.Prelude.{
  ℕ, zero, suc, ◌-◌, ◌≤◌, ◌≡◌, ◌==◌, refl, ap, subst, List, [], ◌∷◌, Option, none, some, ret, arith,
  set, length, Bool-cases, inl, inr, replicate,
}

-- How many readers the array notes.
abbrev pub noted : List (Option ℕ) → ℕ
noted [] = 0
noted (none ∷ readers) = noted readers
noted (some c ∷ readers) = suc (noted readers)

pub noted_le : (readers : List (Option ℕ)) → noted readers ≤ length readers
noted_le [] = omega arith
noted_le (none ∷ readers) = omega (arith, noted_le readers)
noted_le (some c ∷ readers) = omega (arith, noted_le readers)

pub noted-replicate : (n : ℕ) → noted (replicate n none) ≡ 0
noted-replicate zero = refl
noted-replicate (suc n) = noted-replicate n

less_one : (i j : ℕ) → suc i ≤ j → j - i ≡ suc (j - suc i)
less_one i j h = omega arith

find_free_lem :
    (cpu : ℕ) (readers : List (Option ℕ)) (i j : ℕ)
    → find_free readers i ≡ ret j
    → (i ≤ j) × (noted (set readers (j - i) (some cpu)) ≡ suc (noted readers))
unfolding find_free
find_free_lem cpu [] i j h = cc
find_free_lem cpu (none ∷ readers) i j h =
    let e : i ≡ j = ground (arith, h) in
    let z : j - i ≡ 0 = omega (arith, e) in (omega (arith, e), rw z refl)
find_free_lem cpu (some c ∷ readers) i j h =
    let (le, more) = find_free_lem cpu readers (suc i) j h in
    (omega (arith, le), rw (less_one i j le) (ap suc more))

find_holder_lem :
    (cpu : ℕ) (readers : List (Option ℕ)) (i j : ℕ)
    → find_holder cpu readers i ≡ some j
    → (i ≤ j) × (suc (noted (set readers (j - i) none)) ≡ noted readers)
unfolding find_holder
find_holder_lem cpu [] i j h = cc
find_holder_lem cpu (none ∷ readers) i j h =
    let (le, less) = find_holder_lem cpu readers (suc i) j h in
    (omega (arith, le), rw (less_one i j le) less)
find_holder_lem cpu (some c ∷ readers) i j h = elim (Bool-cases (c == cpu)) [
  | inl here ↦
      let e : i ≡ j = ground (arith, h, here) in
      let z : j - i ≡ 0 = omega (arith, e) in (omega (arith, e), rw z refl)
  | inr other ↦
      let deeper : find_holder cpu readers (suc i) ≡ some j = ground (arith, h, other) in
      let (le, less) = find_holder_lem cpu readers (suc i) j deeper in
      (omega (arith, le), rw (less_one i j le) (ap suc less))
]

minus_zero : (j : ℕ) → j - 0 ≡ j
minus_zero j = omega arith

pub noted-find_free :
    (cpu : ℕ) (readers : List (Option ℕ)) (j : ℕ)
    → find_free readers 0 ≡ ret j
    → noted (set readers j (some cpu)) ≡ suc (noted readers)
noted-find_free cpu readers j h =
    subst (λ k. noted (set readers k (some cpu)) ≡ suc (noted readers)) (minus_zero j)
      (find_free_lem cpu readers 0 j h).1

pub noted-find_holder :
    (cpu : ℕ) (readers : List (Option ℕ)) (j : ℕ)
    → find_holder cpu readers 0 ≡ some j
    → suc (noted (set readers j none)) ≡ noted readers
noted-find_holder cpu readers j h =
    subst (λ k. suc (noted (set readers k none)) ≡ noted readers) (minus_zero j)
      (find_holder_lem cpu readers 0 j h).1
