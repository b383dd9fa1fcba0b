-- ===== src/Syscall/Sbrk.antt =====
-- sys_sbrk: the heap's end is moved by a number of bytes, an int. Ints and addresses are words of
-- 32 bits; the int `inc` is given by its two's complement.
use prog.Vm.Addrspace.{Addrspace}
use prog.Prelude.Errno.{einval, enomem}
use prog.Prelude.{
  ℕ, ◌+◌, ◌-◌, ◌%◌, ◌^◌, ◌≤◌, ◌<◌, ltb, if◌then◌else◌, ◌≡◌, ◌⊎◌, Reply, ok, err, arith, Bool-cases,
  refl, subst, inl, inr,
}

-- inc += 4 - (inc % 4), where % takes the sign of inc.
unfoldable pub round_up : ℕ → ℕ
round_up inc =
    if ltb inc (2 ^ 31)
    then (inc + 4 - inc % 4) % 2 ^ 32
    else (inc + 4 + (2 ^ 32 - inc) % 4) % 2 ^ 32

unfoldable pub sys_sbrk : ℕ → Addrspace → Reply ℕ × Addrspace
sys_sbrk inc a =
    let heapend = (a.heapend + round_up inc) % 2 ^ 32 in
    if ltb a.stackpbase heapend
    then (err enomem, a)
    else if ltb heapend a.heapstart
    then (err einval, a)
    else (ok a.heapend, record a { heapend = heapend })

-- The heap's end lies between its start and the stack's pages, on a boundary of four bytes.
pub record IsValid (a : Addrspace) : Type 0 where
  pub above : a.heapstart ≤ a.heapend
  pub below : a.heapend ≤ a.stackpbase
  pub aligned : a.heapend % 4 ≡ 0

round_up-aligned : (inc : ℕ) → inc < 2 ^ 32 → round_up inc % 4 ≡ 0
unfolding round_up
round_up-aligned inc h = ground arith

-- An outcome of sys_sbrk, by its reply.
pub Moved : ℕ → Addrspace → Reply ℕ × Addrspace → Type 0
Moved inc a (err e, a') = (a' ≡ a) × ((e ≡ enomem) ⊎ (e ≡ einval))
Moved inc a (ok old, a') =
    (old ≡ a.heapend)
    × IsValid a'
    × (a'.heapend ≡ (a.heapend + round_up inc) % 2 ^ 32)
    × (a'.heapstart ≡ a.heapstart)
    × (a'.stackpbase ≡ a.stackpbase)

-- On every heap with valid bounds, and for every int, sys_sbrk either fails with ENOMEM or EINVAL and changes nothing,
-- or it hands back the heap's old end and moves it by `round_up inc`, within the bounds and still
-- on a boundary of four bytes.
pub sys_sbrk_lem :
    {a : Addrspace} → IsValid a → (inc : ℕ) → inc < 2 ^ 32 → Moved inc a (sys_sbrk inc a)
unfolding sys_sbrk Moved
sys_sbrk_lem {a = a} valid inc h =
    let end = (a.heapend + round_up inc) % 2 ^ 32 in
    elim (Bool-cases (ltb a.stackpbase end)) [
      | inl over ↦ rw over (refl, inl refl)
      | inr under ↦ elim (Bool-cases (ltb end a.heapstart)) [
        | inl low ↦ rw (under, low) (refl, inr refl)
        | inr high ↦
            rw (under, high)
              (
                refl,
                record {
                  above = ground (arith, high);
                  below = ground (arith, under);
                  aligned = omega (arith, round_up-aligned inc h, valid.aligned);
                },
                refl,
                refl,
                refl,
              )
      ]
    ]

-- On a heap with valid bounds whose addresses, with `inc` added, stay below 2 ^ 31, a call that
-- succeeds moves the heap's end by more than `inc` asked for, even where `inc` is zero
-- or a multiple of four: the end is not where it was, and not at `inc` bytes from there.
pub sys_sbrk_overshoots :
    {a : Addrspace}
    → IsValid a
    → (inc : ℕ) → a.stackpbase + inc + 4 < 2 ^ 31
    → (old : ℕ) (a' : Addrspace) → sys_sbrk inc a ≡ (ok old, a')
    → a.heapend + inc < a'.heapend
unfolding Moved round_up
sys_sbrk_overshoots {a = a} valid inc room old a' run =
    let (_, _, moved, _, _) : Moved inc a (ok old, a') =
      subst (Moved inc a) run (sys_sbrk_lem valid inc (omega arith)) in
    ground (arith, moved, valid.below)
