-- ===== src/Kmalloc/Carve.antt =====
-- The loop that links the blocks of a new page.
use native.Mathlib.Nat.{suc-mul}
use prog.Kmalloc.{write, carve}
use prog.Kmalloc.Pages.{Link, IsSize, block_apart, block_inside}
use prog.Kmalloc.Take.{Link-frame}
use prog.Kmalloc.Invariant.{write_self, write_ne}
use prog.Prelude.{
  ℕ, zero, suc, ◌+◌, ◌-◌, ◌*◌, ◌/◌, ◌<◌, ◌≤◌, ◌≡◌, ◌⊎◌, inl, inr, refl, sym, ap, subst, ◌∙◌, ◌==◌,
  List, [], ◌∷◌, false, ret, arith, length, NotIn, Distinct, In, test_ne,
}

-- The blocks of a new page, in the order of its free list.
abbrev pub down : ℕ → List ℕ
down zero = []
down (suc n) = n ∷ down n

pub length-down : (n : ℕ) → length (down n) ≡ n
length-down zero = refl
length-down (suc n) = ap suc (length-down n)

pub down_below : (n k : ℕ) → In k (down n) → k < n
down_below zero k i = elim i [ ]
down_below (suc n) k (inl e) = omega arith
down_below (suc n) k (inr i) = omega (arith, down_below n k i)

pub NotIn-down : (n k : ℕ) → n ≤ k → NotIn k (down n)
NotIn-down zero k h = tt
NotIn-down (suc n) k h = (omega arith, NotIn-down n k (omega arith))

pub Distinct-down : (n : ℕ) → Distinct (down n)
Distinct-down zero = tt
Distinct-down (suc n) = (NotIn-down n n (omega arith), Distinct-down n)

module _ (page size : ℕ) (s : IsSize size) where
  linked_one :
      (mem : ℕ → ℕ) (j : ℕ)
      → Link mem page size (down (suc j)) (page + j * size)
      → Link
          (write mem (page + suc j * size) (page + j * size))
          page
          size
          (down (suc (suc j)))
          (page + suc j * size)
  linked_one mem j links =
      let mem' = write mem (page + suc j * size) (page + j * size) in
      (
        refl,
        subst (Link mem' page size (down (suc j)))
            (sym (write_self mem (page + suc j * size) (page + j * size)))
            (Link-frame mem mem' page size (down (suc j)) (page + j * size)
              (λ k i. write_ne mem (page + suc j * size) (page + k * size) (page + j * size) (
                let apart = block_apart s k (suc j) (down_below (suc j) k i) in
                omega (arith, apart, s.least)))
              links),
      )

  carve_step :
      (left j : ℕ) (mem : ℕ → ℕ)
      → carve page size (suc j) (suc left) mem
        ≡ carve page size (suc (suc j)) left (write mem (page + suc j * size) (page + j * size))
  unfolding carve
  carve_step left j mem =
      let prev : suc j - 1 ≡ j = omega arith in
      let next : suc j * size ≡ j * size + size = suc-mul j size in
      let differs : (page + suc j * size == page + j * size) ≡ false =
        test_ne (page + suc j * size) (page + j * size) (omega (arith, next, s.least)) in
      rw (prev, differs) refl

  -- The loop links the blocks below `n`, within the page.
  pub carve_lem :
      (left j n : ℕ) (mem : ℕ → ℕ)
      → n ≡ suc (j + left)
      → n ≤ 4096 / size
      → Link mem page size (down (suc j)) (page + j * size)
      → (mem' : ℕ → ℕ) × (carve page size (suc j) left mem ≡ ret mem')
        × Link mem' page size (down n) (page + (n - 1) * size)
        × ((x : ℕ) → (x < page) ⊎ (page + 4096 ≤ x) → mem' x ≡ mem x)
  unfolding carve
  carve_lem zero j n mem e top links =
      let n_j : n ≡ suc j = omega (arith, e) in
      let below : j ≡ n - 1 = omega (arith, e) in
      (
        mem,
        refl,
        subst (λ m. Link mem page size (down m) (page + (n - 1) * size)) (sym n_j)
            (subst (λ m. Link mem page size (down (suc j)) (page + m * size)) below links),
        λ x o. refl,
      )
  carve_lem (suc left) j n mem e top links =
      let mem1 = write mem (page + suc j * size) (page + j * size) in
      let (mem', run, done, frame) =
        carve_lem left (suc j) n mem1 (omega (arith, e)) top (linked_one mem j links) in
      let inside = block_inside s (suc j) (omega (arith, e, top)) in
      (
        mem',
        carve_step left j mem ∙ run,
        done,
        λ x o.
            frame x o
            ∙ write_ne mem (page + suc j * size) x (page + j * size)
                (omega (arith, o, inside, s.least)),
      )
