-- ===== src/Sfs/Dir/Entry.antt =====
-- The name in a directory entry, as strcmp sees it after the last byte is set to 0.
use prog.Sfs.Dir.{Direntry}
use prog.Libc.Text.{strcmp}
use prog.Libc.Text.Compare.{NoNul, order, strcmp_lem}
use prog.Prelude.{
  ℕ, zero, suc, ◌≡◌, ◌↔◌, refl, ap, ◌∙◌, List, [], ◌∷◌, ◌++◌, some, ret, arith, length, get_elem?,
  set, get_elem?-set_self,
}

-- The bytes before the first 0.
abbrev pub cut : List ℕ → List ℕ
cut [] = []
cut (zero ∷ s) = []
cut (suc c ∷ s) = suc c ∷ cut s

abbrev pub entry_name : Direntry → List ℕ
entry_name e = cut (set e.name 59 0)

cut-NoNul : (s : List ℕ) → NoNul (cut s)
cut-NoNul [] = tt
cut-NoNul (zero ∷ s) = tt
cut-NoNul (suc c ∷ s) = (omega arith, cut-NoNul s)

terminated : (s : List ℕ) (k : ℕ) → get_elem? s k ≡ some 0 → (r : List ℕ) × (s ≡ cut s ++ (0 ∷ r))
terminated [] k h = cc
terminated (zero ∷ s) k h = (s, refl)
terminated (suc c ∷ s) zero h = absurd (ground (arith, h))
terminated (suc c ∷ s) (suc k) h = let (r, e) = terminated s k h in (r, ap (λ l. suc c ∷ l) e)

-- An entry's name is compared in full, whatever its 60 bytes are.
pub strcmp-entry_name :
    (e : Direntry) (name r : List ℕ)
    → length e.name ≡ 60
    → NoNul name
    → (strcmp (set e.name 59 0) (name ++ (0 ∷ r)) ≡ ret (order (entry_name e) name))
      × ((order (entry_name e) name ≡ 0) ↔ (entry_name e ≡ name))
strcmp-entry_name e name r size plain =
    let (rest, split) =
      terminated (set e.name 59 0) 59 (get_elem?-set_self e.name 59 0 (omega (arith, size))) in
    let (run, iff) = strcmp_lem (entry_name e) name rest r (cut-NoNul (set e.name 59 0)) plain in
    (ap (λ l. strcmp l (name ++ (0 ∷ r))) split ∙ run, iff)
