-- ===== src/Syscall/Files/Share.antt =====
-- The references that a fork adds in enter_forked_process.
use prog.Syscall.Files.{Fdesc, update, share}
use prog.Prelude.{
  ℕ, zero, suc, ◌+◌, ◌%◌, ◌^◌, ◌≡◌, ◌∙◌, refl, sym, ap, ◌==◌, if◌then◌else◌, List, [], ◌∷◌, Option,
  none, some, ret, arith, Bool-cases, inl, inr,
}

-- How many slots of the table point to `q`.
pub pointers : ℕ → List (Option ℕ) → ℕ
pointers q [] = 0
pointers q (none ∷ slots) = pointers q slots
pointers q (some p ∷ slots) = let rest = pointers q slots in if p == q then suc rest else rest

-- The descriptor with `n` references more, as an int wraps around.
pub referenced : ℕ → Option Fdesc → Option Fdesc
referenced zero o = o
referenced (suc n) none = none
referenced (suc n) (some d) = some (record d { refcount = (d.refcount + suc n) % 2 ^ 32 })

-- Every slot is empty or points to a descriptor of the heap.
unfoldable pub AllLive : List (Option ℕ) → (ℕ → Option Fdesc) → Type 0
AllLive [] heap = Unit {0}
AllLive (none ∷ slots) heap = AllLive slots heap
AllLive (some p ∷ slots) heap = ((d : Fdesc) × (heap p ≡ some d)) × AllLive slots heap

once : Fdesc → Fdesc
once d = record d { refcount = (d.refcount + 1) % 2 ^ 32 }

update-AllLive :
    (slots : List (Option ℕ)) (heap : ℕ → Option Fdesc) (p : ℕ) (d : Fdesc)
    → AllLive slots heap
    → AllLive slots (update heap p (some d))
unfolding AllLive
update-AllLive [] heap p d live = tt
update-AllLive (none ∷ slots) heap p d live = update-AllLive slots heap p d live
update-AllLive (some q ∷ slots) heap p d ((c, here), live) = (
  elim (Bool-cases (p == q)) [ inl same ↦ (d, rw same refl) | inr other ↦ (c, rw other here) ],
  update-AllLive slots heap p d live,
)

referenced-once : (n : ℕ) (d : Fdesc) → referenced n (some (once d)) ≡ referenced (suc n) (some d)
unfolding referenced once
referenced-once zero d = refl
referenced-once (suc n) d = ap (λ r. some (record d { refcount = r })) (omega arith)

-- Where every slot of the parent's table is empty or points to a descriptor, the loop over the table
-- runs to its end, and adds to the count of each descriptor as many references as the child's table
-- has pointers to it, modulo 2 ^ 32; all else on the heap stays as it was.
pub share_counts :
    (slots : List (Option ℕ)) (heap : ℕ → Option Fdesc)
    → AllLive slots heap
    → (heap' : ℕ → Option Fdesc) × (share slots heap ≡ ret heap')
      × ((q : ℕ) → heap' q ≡ referenced (pointers q slots) (heap q))
unfolding share AllLive pointers referenced once
share_counts [] heap live = (heap, refl, λ q. refl)
share_counts (none ∷ slots) heap live = share_counts slots heap live
share_counts (some p ∷ slots) heap ((d, here), live) =
    let (heap', run, counts) =
      share_counts slots (update heap p (some (once d)))
        (update-AllLive slots heap p (once d) live) in
    (
      heap',
      rw here run,
      λ q. elim (Bool-cases (p == q)) [
        | inl same ↦
            let n = pointers q slots in
            let at : update heap p (some (once d)) q ≡ some (once d) = rw same refl in
            let there : heap q ≡ some d = ap heap (sym (ground (arith, same))) ∙ here in
            rw same (
              counts q
              ∙ ap (referenced n) at
              ∙ referenced-once n d
              ∙ ap (referenced (suc n)) (sym there))
        | inr other ↦ rw other (counts q ∙ rw other refl)
      ],
    )
