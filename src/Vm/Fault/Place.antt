-- ===== src/Vm/Fault/Place.antt =====
-- Where a new page goes, and which frame a later fault finds for it.
use prog.Vm.Coremap.{Entry, is_free}
use prog.Vm.Addrspace.{Pte}
use prog.Vm.Fault.{resident, pte_hit, assign_first, find_frame, place}
use prog.Prelude.{
  ℕ, ◌≡◌, ◌≢◌, refl, ◌==◌, not, List, [], ◌∷◌, Bool, true, Option, none, some, arith, ap,
}

-- No entry of the page table names the page.
abbrev pub Unmapped : ℕ → List Pte → Type 0
Unmapped va [] = Unit {0}
Unmapped va (p ∷ ps) = (p.va ≢ va) × Unmapped va ps

pub assign_first-resident :
    (test : Entry → Bool) (owner va : ℕ) (es es' : List Entry) (pa : ℕ)
    → assign_first test owner va es ≡ some (es', pa)
    → resident owner va es' ≡ true
unfolding assign_first resident
assign_first-resident test owner va [] es' pa h = cc
assign_first-resident test owner va (e ∷ es) es' pa h =
    go (assign_first test owner va es) refl (λ ds q. assign_first-resident test owner va es ds q)
  where
    go :
        (r : Option (List Entry × ℕ))
        → assign_first test owner va es ≡ r
        → ((ds : List Entry) (q : ℕ)
            → assign_first test owner va es ≡ some (ds, q)
            → resident owner va ds ≡ true)
        → resident owner va es' ≡ true
    go none r again = ground (arith, h, r)
    go (some (ds, q)) r again = ground (arith, h, r, again ds q r)

pub find_frame-resident :
    (owner va : ℕ) (es es' : List Entry) (pa : ℕ)
    → find_frame owner va es ≡ some (es', pa)
    → resident owner va es' ≡ true
unfolding find_frame resident
find_frame-resident owner va [] es' pa h = cc
find_frame-resident owner va (e ∷ es) es' pa h =
    go (assign_first (λ e. is_free e.st) owner va es) refl
  where
    go :
        (r : Option (List Entry × ℕ))
        → assign_first (λ e. is_free e.st) owner va es ≡ r
        → resident owner va es' ≡ true
    go none r =
        assign_first-resident (λ e. not (e.aspace == owner)) owner va (e ∷ es) es' pa
          (rw (r, find_frame) at h)
    go (some (ds, q)) r =
        ground (arith, h, r, assign_first-resident (λ e. is_free e.st) owner va es ds q r)

-- Without a frame no entry gets one.
place-none :
    (owner va : ℕ) (ps : List Pte) (es : List Entry)
    → find_frame owner va es ≡ none
    → (place owner va ps es).1 ≡ none
unfolding place
place-none owner va [] es h = refl
place-none owner va (p ∷ ps) es h = ground (arith, h, place-none owner va ps es h)

-- After a new page was placed, the first search finds its frame, if no entry named the page before.
pub pte_hit-place :
    (owner va : ℕ) (ps ps' : List Pte) (es es' : List Entry) (pa : ℕ)
    → Unmapped va ps
    → place owner va ps es ≡ (ps', some (es', pa))
    → pte_hit owner va ps' es' ≡ some pa
unfolding place pte_hit
pte_hit-place owner va [] ps' es es' pa u h =
    cc (ap (λ (t : List Pte × Option (List Entry × ℕ)). t.1) h)
pte_hit-place owner va (p ∷ ps) ps' es es' pa u h =
    go (find_frame owner va es) refl (λ qs. pte_hit-place owner va ps qs es es' pa u.1)
  where
    go :
        (f : Option (List Entry × ℕ))
        → find_frame owner va es ≡ f
        → ((qs : List Pte)
            → place owner va ps es ≡ (qs, some (es', pa))
            → pte_hit owner va qs es' ≡ some pa)
        → pte_hit owner va ps' es' ≡ some pa
    go none f again =
        cc (
          place-none owner va (p ∷ ps) es f,
          ap (λ (t : List Pte × Option (List Entry × ℕ)). t.1) h,
        )
    go (some (ds, q)) f again =
        ground
          (arith, h, f, find_frame-resident owner va es ds q f, again (place owner va ps es).0, u.0)

pub pte_hit-Unmapped :
    (owner va : ℕ) (ps : List Pte) (es : List Entry)
    → Unmapped va ps
    → pte_hit owner va ps es ≡ none
unfolding pte_hit
pte_hit-Unmapped owner va [] es u = refl
pte_hit-Unmapped owner va (p ∷ ps) es u = ground (arith, u.0, pte_hit-Unmapped owner va ps es u.1)
