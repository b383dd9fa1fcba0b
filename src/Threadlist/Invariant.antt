-- ===== src/Threadlist/Invariant.antt =====
-- When the nodes in memory are those of a list, and how linking and unlinking a node keeps that.
use prog.Threadlist
use prog.Threadlist.{
  Threadlist, load, insertafternode, insertbeforenode, removenode, counted, uncounted, addhead,
  addtail, remhead, remtail, insertafter, insertbefore, remove,
}
use prog.Threadlist.Chain.{
  Chain, NotIn, Distinct, linked, unlinked, NotIn-mid, linked-Chain, unlinked-Chain, NotIn-insert,
  Distinct-insert, NotIn-delete, Distinct-delete, Chain-mid, append_assoc,
}
use prog.Prelude.{
  ℕ, suc, ◌^◌, ◌<◌, ◌≡◌, ◌≢◌, sym, ap, subst, ◌∙◌, List, [], ◌∷◌, ◌++◌, length, arith, test_ne,
}

-- The nodes of a list with its bookends.
abbrev pub nodes : Threadlist → List ℕ → List ℕ
nodes tl xs = tl.head ∷ (xs ++ (tl.tail ∷ []))

-- Every thread's node points back to the thread.
abbrev pub Selves : Threadlist.Nodes → List ℕ → Type 0
Selves st [] = Unit {0}
Selves st (x ∷ xs) = (st.self x ≡ x) × Selves st xs

-- The nodes in memory are those of the list `xs`.
pub record IsList (st : Threadlist.Nodes) (tl : Threadlist) (xs : List ℕ) : Type 0 where
  pub chain : Chain st (nodes tl xs)
  pub distinct : Distinct (nodes tl xs)
  pub nonnull : NotIn 0 (nodes tl xs)
  pub first : st.prev tl.head ≡ 0
  pub last : st.next tl.tail ≡ 0
  pub selves : Selves st xs
  pub count : tl.count ≡ length xs
  pub small : length xs < 2 ^ 32

-- A thread that is on no list.
pub record Fresh (st : Threadlist.Nodes) (tl : Threadlist) (xs : List ℕ) (t : ℕ) : Type 0 where
  pub apart : NotIn t (nodes tl xs)
  pub nonnull : t ≢ 0
  pub self : st.self t ≡ t

pub Selves-insert :
    (st : Threadlist.Nodes) (us vs : List ℕ) (t : ℕ)
    → st.self t ≡ t
    → Selves st (us ++ vs)
    → Selves st (us ++ (t ∷ vs))
Selves-insert st [] vs t e h = (e, h)
Selves-insert st (u ∷ us) vs t e (s, h) = (s, Selves-insert st us vs t e h)

pub Selves-delete :
    (st : Threadlist.Nodes) (us vs : List ℕ) (t : ℕ)
    → Selves st (us ++ (t ∷ vs))
    → (st.self t ≡ t) × Selves st (us ++ vs)
Selves-delete st [] vs t h = h
Selves-delete st (u ∷ us) vs t (s, h) = let (e, r) = Selves-delete st us vs t h in (e, (s, r))

module _ {st : Threadlist.Nodes} {tl : Threadlist} {xs : List ℕ} (h : IsList st tl xs) where
  -- Two neighbours are linked to each other, and the second one is not the head, nor the first the tail.
  pub neighbours :
      (us vs : List ℕ) (a b : ℕ)
      → nodes tl xs ≡ us ++ (a ∷ b ∷ vs)
      → (a ≢ 0) × (b ≢ 0) × (st.next a ≡ b) × (st.prev b ≡ a) × (b ≢ tl.head) × (a ≢ tl.tail)
  neighbours us vs a b e =
      let (na, nb) = NotIn-mid 0 us a (b ∷ vs) (subst (NotIn 0) e h.nonnull) in
      let (n, p) = Chain-mid st us a b vs (subst (Chain st) e h.chain) in
      (
        λ z. na (sym z),
        λ z. nb.0 (sym z),
        n,
        p,
        λ q. na (sym h.first ∙ ap st.prev (sym q) ∙ p),
        λ q. nb.0 (sym h.last ∙ ap st.next (sym q) ∙ n),
      )

  -- A fresh thread linked in between two neighbours.
  pub linked-IsList :
      (us vs xs' : List ℕ) (a t b : ℕ)
      → nodes tl xs ≡ us ++ (a ∷ b ∷ vs)
      → nodes tl xs' ≡ us ++ (a ∷ t ∷ b ∷ vs)
      → Fresh st tl xs t
      → Selves st xs'
      → length xs' ≡ suc (length xs)
      → suc (length xs) < 2 ^ 32
      → IsList (linked a t b st) (counted tl) xs'
  linked-IsList us vs xs' a t b e e' f selves more room =
      let (a0, b0, n, p, bh, at) = neighbours us vs a b e in
      let tt' = (NotIn-mid t xs tl.tail [] f.apart.1).0 in
      record {
        chain = subst (Chain (linked a t b st)) (sym e') (
            linked-Chain st us a t b vs (subst Distinct e h.distinct) (subst (NotIn t) e f.apart)
              (subst (Chain st) e h.chain));
        distinct = subst Distinct (sym e') (
            Distinct-insert us a t (b ∷ vs) (subst (NotIn t) e f.apart)
              (subst Distinct e h.distinct));
        nonnull =
            subst (NotIn 0) (sym e') (
              NotIn-insert 0 us a t (b ∷ vs) (λ z. f.nonnull (sym z))
                (subst (NotIn 0) e h.nonnull));
        first = rw (test_ne b tl.head bh, test_ne t tl.head f.apart.0) h.first;
        last = rw (test_ne a tl.tail at, test_ne t tl.tail tt') h.last;
        selves = selves;
        count = omega (arith, more, h.count, room);
        small = omega (arith, more, room);
      }

  -- A thread between two neighbours taken out.
  pub unlinked-IsList :
      (us vs xs' : List ℕ) (a t b : ℕ)
      → nodes tl xs ≡ us ++ (a ∷ t ∷ b ∷ vs)
      → nodes tl xs' ≡ us ++ (a ∷ b ∷ vs)
      → Selves st xs'
      → length xs ≡ suc (length xs')
      → IsList (unlinked a t b st) (uncounted tl) xs'
  unlinked-IsList us vs xs' a t b e e' selves less =
      let (a0, t0, n, p, th, at) = neighbours us (b ∷ vs) a t e in
      let split = e ∙ sym (append_assoc us (a ∷ []) (t ∷ b ∷ vs)) in
      let split' = e' ∙ sym (append_assoc us (a ∷ []) (b ∷ vs)) in
      let (t0', b0, m, q, bh, tt') = neighbours (us ++ (a ∷ [])) vs t b split in
      record {
        chain = subst (Chain (unlinked a t b st)) (sym e') (
            unlinked-Chain st us a t b vs (subst Distinct e h.distinct)
              (subst (Chain st) e h.chain));
        distinct =
            subst Distinct (sym split')
              (Distinct-delete (us ++ (a ∷ [])) t (b ∷ vs) (subst Distinct split h.distinct));
        nonnull =
            subst (NotIn 0) (sym split')
              (NotIn-delete 0 (us ++ (a ∷ [])) t (b ∷ vs) (subst (NotIn 0) split h.nonnull));
        first = rw (test_ne t tl.head th, test_ne b tl.head bh) h.first;
        last = rw (test_ne t tl.tail tt', test_ne a tl.tail at) h.last;
        selves = selves;
        count = omega (arith, less, h.count, h.small);
        small = omega (arith, less, h.small);
      }
