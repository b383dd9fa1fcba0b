-- ===== src/Kmalloc/Unlink.antt =====
-- Taking a page out of the lists keeps the rest of the heap in order.
use prog.Kmalloc.{Heap, nsizes, blocktype_of, unlink, remove_lists}
use prog.Kmalloc.Pages.{sizes-IsSize}
use prog.Kmalloc.Invariant.{IsHeap, same_or_not}
use prog.Prelude.{
  ℕ, ◌<◌, ◌≡◌, ◌≢◌, inl, inr, refl, sym, ap, subst, ◌∙◌, ltb, List, [], ◌∷◌, true, some, ret, arith,
  length, get_elem?, set, get_elem?-set_self, get_elem?-set_ne, length-set, lt_of_get_elem?, NotIn,
  Distinct, In, NotIn-ne, test_ne, test_self,
}

unlink_self : (p : ℕ) (xs : List ℕ) → unlink p (p ∷ xs) ≡ xs
unfolding unlink
unlink_self p xs = rw (test_self p) refl

unlink_other : (p q : ℕ) (xs : List ℕ) → q ≢ p → unlink p (q ∷ xs) ≡ q ∷ unlink p xs
unfolding unlink
unlink_other p q xs h = rw (test_ne q p h) refl

-- What is left of a list.
pub In-unlink : (p q : ℕ) (xs : List ℕ) → Distinct xs → In q (unlink p xs) → In q xs × (q ≢ p)
unfolding unlink
In-unlink p q [] d i = elim i [ ]
In-unlink p q (x ∷ xs) (n, d) i = elim (same_or_not x p) [
  | inl same ↦
      let j = subst (In q) (ap (λ y. unlink p (y ∷ xs)) same ∙ unlink_self p xs) i in
      (inr j, λ e. NotIn-ne x q xs n j (same ∙ sym e))
  | inr ne ↦ elim (subst (In q) (unlink_other p x xs ne) i) [
    | inl e ↦ (inl e, λ f. ne (sym e ∙ f))
    | inr j ↦ let (k, m) = In-unlink p q xs d j in (inr k, m)
  ]
]

pub unlink-In : (p q : ℕ) (xs : List ℕ) → q ≢ p → In q xs → In q (unlink p xs)
unfolding unlink
unlink-In p q [] h i = i
unlink-In p q (x ∷ xs) h i = elim (same_or_not x p) [
  | inl same ↦
      let j : In q xs = elim i [ inl e ↦ absurd (h (e ∙ same)) | inr j ↦ j ] in
      subst (In q) (sym (ap (λ y. unlink p (y ∷ xs)) same ∙ unlink_self p xs)) j
  | inr ne ↦
      let j : In q (x ∷ unlink p xs) = elim i [
        | inl e ↦ inl e
        | inr j ↦ inr (unlink-In p q xs h j)
      ] in
      subst (In q) (sym (unlink_other p x xs ne)) j
]

NotIn-unlink : (p q : ℕ) (xs : List ℕ) → NotIn q xs → NotIn q (unlink p xs)
unfolding unlink
NotIn-unlink p q [] n = n
NotIn-unlink p q (x ∷ xs) (d, n) = elim (same_or_not x p) [
  | inl same ↦ subst (NotIn q) (sym (ap (λ y. unlink p (y ∷ xs)) same ∙ unlink_self p xs)) n
  | inr ne ↦ subst (NotIn q) (sym (unlink_other p x xs ne)) (d, NotIn-unlink p q xs n)
]

pub Distinct-unlink : (p : ℕ) (xs : List ℕ) → Distinct xs → Distinct (unlink p xs)
unfolding unlink
Distinct-unlink p [] d = d
Distinct-unlink p (x ∷ xs) (n, d) = elim (same_or_not x p) [
  | inl same ↦ subst Distinct (sym (ap (λ y. unlink p (y ∷ xs)) same ∙ unlink_self p xs)) d
  | inr ne ↦
      subst Distinct (sym (unlink_other p x xs ne)) (NotIn-unlink p x xs n, Distinct-unlink p xs d)
]

module _ {h : Heap} {size : ℕ → ℕ} {free used : ℕ → List ℕ} (valid : IsHeap h size free used)
    (p : ℕ) (here : In p h.allbase) where
  abbrev kind : ℕ
  kind = blocktype_of (h.refs p)

  module _ (ps : List ℕ) (there : get_elem? h.sizebases kind ≡ some ps) where
    abbrev pub removed : Heap
    removed = record h {
      sizebases = set h.sizebases kind (unlink p ps);
      allbase = unlink p h.allbase;
    }

    low : kind < length h.sizebases
    low = lt_of_get_elem? h.sizebases kind ps there

    bases_after :
        (t : ℕ) (qs : List ℕ)
        → get_elem? removed.sizebases t ≡ some qs
        → Distinct qs × ((q : ℕ) → In q qs → In q removed.allbase × (blocktype_of (h.refs q) ≡ t))
    bases_after t qs e = elim (same_or_not kind t) [
      | inl same ↦
          let got = subst (λ x. get_elem? removed.sizebases x ≡ some qs) (sym same) e in
          let what : qs ≡ unlink p ps =
            same_list qs (unlink p ps)
              (sym got ∙ get_elem?-set_self h.sizebases kind (unlink p ps) low) in
          let (d, all) = valid.bases kind ps there in
          (
            subst Distinct (sym what) (Distinct-unlink p ps d),
            λ q i.
                let (j, ne) = In-unlink p q ps d (subst (In q) what i) in
                (unlink-In p q h.allbase ne (all q j).0, (all q j).1 ∙ same),
          )
      | inr ne ↦
          let (d, all) =
            valid.bases t qs (sym (get_elem?-set_ne h.sizebases (unlink p ps) ne) ∙ e) in
          (
            d,
            λ q i.
                let differs : q ≢ p =
                  λ f. ne (ap (λ r. blocktype_of (h.refs r)) (sym f) ∙ (all q i).1) in
                (unlink-In p q h.allbase differs (all q i).0, (all q i).1),
          )
    ]
      where
        same_list : (xs ys : List ℕ) → some xs ≡ some ys → xs ≡ ys
        same_list xs ys f = cc

    listed_after :
        (q : ℕ)
        → In q removed.allbase
        → (qs : List ℕ) × (get_elem? removed.sizebases (blocktype_of (h.refs q)) ≡ some qs)
          × In q qs
    listed_after q i =
        let (j, ne) = In-unlink p q h.allbase valid.once i in
        let (qs, at, k) = valid.listed q j in
        elim (same_or_not kind (blocktype_of (h.refs q))) [
          | inl same ↦
              let got = subst (λ x. get_elem? h.sizebases x ≡ some qs) (sym same) at in
              (
                unlink p ps,
                subst (λ x. get_elem? removed.sizebases x ≡ some (unlink p ps)) same
                    (get_elem?-set_self h.sizebases kind (unlink p ps) low),
                unlink-In p q ps ne (subst (In q) (same_list qs ps (sym got ∙ there)) k),
              )
          | inr other ↦ (qs, get_elem?-set_ne h.sizebases (unlink p ps) other ∙ at, k)
        ]
      where
        same_list : (xs ys : List ℕ) → some xs ≡ some ys → xs ≡ ys
        same_list xs ys f = cc

    pub removed-IsHeap : IsHeap removed size free used
    removed-IsHeap = record {
      pages = λ q i. valid.pages q (In-unlink p q h.allbase valid.once i).0;
      apart = λ q r i j.
          valid.apart q r (In-unlink p q h.allbase valid.once i).0
            (In-unlink p r h.allbase valid.once j).0;
      bases = bases_after;
      listed = listed_after;
      eight = length-set h.sizebases kind (unlink p ps) ∙ valid.eight;
      once = Distinct-unlink p h.allbase valid.once;
    }

    pub remove_lists_lem : remove_lists p kind h ≡ ret removed
    unfolding remove_lists
    remove_lists_lem =
        let inside : ltb kind nsizes ≡ true =
          ground (arith, (sizes-IsSize kind (size p) (valid.pages p here).kind).0) in
        rw (inside, there) refl
