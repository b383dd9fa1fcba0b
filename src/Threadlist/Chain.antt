-- ===== src/Threadlist/Chain.antt =====
-- Chains of linked nodes, and what inserting and removing a node makes of them.
use prog.Threadlist.{Nodes, write}
pub use prog.Prelude.{NotIn, Distinct, append_assoc}
use prog.Prelude.{ℕ, ◌≡◌, ◌≢◌, refl, sym, ap, List, [], ◌∷◌, ◌++◌, arith}

-- Each node's next is the one after it, whose previous one it is.
abbrev pub Chain : Nodes → List ℕ → Type 0
Chain st [] = Unit {0}
Chain st (x ∷ []) = Unit {0}
Chain st (x ∷ y ∷ r) = (st.next x ≡ y) × (st.prev y ≡ x) × Chain st (y ∷ r)

-- The nodes with `t` linked in between `a` and `b`, and with `p` between them taken out.
abbrev pub linked : ℕ → ℕ → ℕ → Nodes → Nodes
linked a t b st = record st {
  next = write (write st.next t b) a t;
  prev = write (write st.prev t a) b t;
}

abbrev pub unlinked : ℕ → ℕ → ℕ → Nodes → Nodes
unlinked a p b st = record st {
  next = write (write st.next a b) p 0;
  prev = write (write st.prev b a) p 0;
}

pub NotIn-mid :
    (p : ℕ) (us : List ℕ) (a : ℕ) (vs : List ℕ) → NotIn p (us ++ (a ∷ vs)) → (p ≢ a) × NotIn p vs
NotIn-mid p [] a vs h = h
NotIn-mid p (u ∷ us) a vs h = NotIn-mid p us a vs h.1

linked-frame :
    (st : Nodes) (a t b x : ℕ) (r : List ℕ)
    → NotIn a (x ∷ r)
    → NotIn t (x ∷ r)
    → NotIn b r
    → Chain st (x ∷ r)
    → Chain (linked a t b st) (x ∷ r)
linked-frame st a t b x [] ha ht hb c = tt
linked-frame st a t b x (y ∷ r) (ax, ha) (tx, ht) (yb, hb) (n, p, c) =
    (ground arith, ground arith, linked-frame st a t b y r ha ht hb c)

pub linked-Chain :
    (st : Nodes) (us : List ℕ) (a t b : ℕ) (vs : List ℕ)
    → Distinct (us ++ (a ∷ b ∷ vs))
    → NotIn t (us ++ (a ∷ b ∷ vs))
    → Chain st (us ++ (a ∷ b ∷ vs))
    → Chain (linked a t b st) (us ++ (a ∷ t ∷ b ∷ vs))
linked-Chain st [] a t b vs ((ab, av), (bv, d)) (ta, (tb, tv)) (n, p, c) = (
  ground arith,
  ground arith,
  (ground arith, ground arith, linked-frame st a t b b vs (ab, av) (tb, tv) bv c),
)
linked-Chain st (u ∷ []) a t b vs ((ua, (ub, uv)), d) (tu, ht) (n, p, c) =
    (ground arith, ground arith, linked-Chain st [] a t b vs d ht c)
linked-Chain st (u ∷ w ∷ us) a t b vs (du, (dw, d)) (tu, (tw, ht)) (n, p, c) =
    let (ua, (ub, uv)) = NotIn-mid u us a (b ∷ vs) du.1 in
    let (wa, (wb, wv)) = NotIn-mid w us a (b ∷ vs) dw in
    (ground arith, ground arith, linked-Chain st (w ∷ us) a t b vs (dw, d) (tw, ht) c)

unlinked-frame :
    (st : Nodes) (a p b x : ℕ) (r : List ℕ)
    → NotIn a (x ∷ r)
    → NotIn p (x ∷ r)
    → NotIn b r
    → Chain st (x ∷ r)
    → Chain (unlinked a p b st) (x ∷ r)
unlinked-frame st a t b x [] ha ht hb c = tt
unlinked-frame st a t b x (y ∷ r) (ax, ha) (tx, ht) (yb, hb) (n, p, c) =
    (ground arith, ground arith, unlinked-frame st a t b y r ha ht hb c)

pub unlinked-Chain :
    (st : Nodes) (us : List ℕ) (a p b : ℕ) (vs : List ℕ)
    → Distinct (us ++ (a ∷ p ∷ b ∷ vs))
    → Chain st (us ++ (a ∷ p ∷ b ∷ vs))
    → Chain (unlinked a p b st) (us ++ (a ∷ b ∷ vs))
unlinked-Chain st [] a t b vs ((at, (ab, av)), ((tb, tv), (bv, d))) (n, p, (m, q, c)) =
    (ground arith, ground arith, unlinked-frame st a t b b vs (ab, av) (tb, tv) bv c)
unlinked-Chain st (u ∷ []) a t b vs ((ua, (ut, (ub, uv))), d) (n, p, c) =
    let (at, (ab, av)) = d.0 in (ground arith, ground arith, unlinked-Chain st [] a t b vs d c)
unlinked-Chain st (u ∷ w ∷ us) a t b vs (du, (dw, d)) (n, p, c) =
    let (ua, (ut, (ub, uv))) = NotIn-mid u us a (t ∷ b ∷ vs) du.1 in
    let (wa, (wt, (wb, wv))) = NotIn-mid w us a (t ∷ b ∷ vs) dw in
    (ground arith, ground arith, unlinked-Chain st (w ∷ us) a t b vs (dw, d) c)

pub NotIn-insert :
    (p : ℕ) (us : List ℕ) (a t : ℕ) (vs : List ℕ)
    → p ≢ t
    → NotIn p (us ++ (a ∷ vs))
    → NotIn p (us ++ (a ∷ t ∷ vs))
NotIn-insert p [] a t vs n (h, r) = (h, (n, r))
NotIn-insert p (u ∷ us) a t vs n (h, r) = (h, NotIn-insert p us a t vs n r)

pub Distinct-insert :
    (us : List ℕ) (a t : ℕ) (vs : List ℕ)
    → NotIn t (us ++ (a ∷ vs))
    → Distinct (us ++ (a ∷ vs))
    → Distinct (us ++ (a ∷ t ∷ vs))
Distinct-insert [] a t vs (n, h) (d, r) = ((λ e. n (sym e), d), (h, r))
Distinct-insert (u ∷ us) a t vs (n, h) (d, r) =
    (NotIn-insert u us a t vs (λ e. n (sym e)) d, Distinct-insert us a t vs h r)

pub NotIn-delete :
    (p : ℕ) (us : List ℕ) (t : ℕ) (vs : List ℕ) → NotIn p (us ++ (t ∷ vs)) → NotIn p (us ++ vs)
NotIn-delete p [] t vs h = h.1
NotIn-delete p (u ∷ us) t vs h = (h.0, NotIn-delete p us t vs h.1)

pub Distinct-delete :
    (us : List ℕ) (t : ℕ) (vs : List ℕ) → Distinct (us ++ (t ∷ vs)) → Distinct (us ++ vs)
Distinct-delete [] t vs h = h.1
Distinct-delete (u ∷ us) t vs h = (NotIn-delete u us t vs h.0, Distinct-delete us t vs h.1)

-- The nodes next to each other in a chain.
pub Chain-mid :
    (st : Nodes) (us : List ℕ) (a b : ℕ) (vs : List ℕ)
    → Chain st (us ++ (a ∷ b ∷ vs))
    → (st.next a ≡ b) × (st.prev b ≡ a)
Chain-mid st [] a b vs (n, p, c) = (n, p)
Chain-mid st (u ∷ []) a b vs (n, p, c) = Chain-mid st [] a b vs c
Chain-mid st (u ∷ w ∷ us) a b vs (n, p, c) = Chain-mid st (w ∷ us) a b vs c

-- A list that is not empty has a last element.
pub last_split : (x : ℕ) (xs : List ℕ) → (us : List ℕ) × (a : ℕ) × (x ∷ xs ≡ us ++ (a ∷ []))
last_split x [] = ([], x, refl)
last_split x (y ∷ ys) = let (us, a, e) = last_split y ys in (x ∷ us, a, ap (λ l. x ∷ l) e)
