-- ===== src/Threadlist/Refine.antt =====
-- The linked list of threads implements a list, operation by operation.
use prog.Threadlist
use prog.Threadlist.{
  Threadlist, insertafternode, insertbeforenode, removenode, counted, uncounted, addhead, addtail,
  remhead, remtail, insertafter, insertbefore, remove, list_init, write,
}
use prog.Threadlist.Chain.{Distinct, NotIn, NotIn-mid, last_split, append_assoc, unlinked, linked}
use prog.Threadlist.Invariant.{
  nodes, Selves, IsList, Fresh, Selves-insert, Selves-delete, linked-IsList, unlinked-IsList,
  neighbours,
}
use prog.Threadlist.Steps.{insertafternode-linked, insertbeforenode-linked, removenode-unlinked}
use prog.Prelude.{
  append_nil, ℕ, suc, ◌^◌, ◌<◌, ◌≡◌, ◌≢◌, refl, sym, ap, subst, ◌∙◌, List, [], ◌∷◌, ◌++◌, length,
  length-append, Run, ret, ◌>>=◌, arith, test_ne, test_self,
}

first_split : (xs : List ℕ) (z : ℕ) → (b : ℕ) × (vs : List ℕ) × (xs ++ (z ∷ []) ≡ b ∷ vs)
first_split [] z = (z, [], refl)
first_split (x ∷ xs) z = (x, xs ++ (z ∷ []), refl)

Selves-insert' :
    (st : Threadlist.Nodes) (us ws vs : List ℕ) (t : ℕ)
    → st.self t ≡ t
    → Selves st (us ++ (ws ++ vs))
    → Selves st (us ++ (ws ++ (t ∷ vs)))
Selves-insert' st [] ws vs t e h = Selves-insert st ws vs t e h
Selves-insert' st (u ∷ us) ws vs t e (s, h) = (s, Selves-insert' st us ws vs t e h)

Distinct-rest : (us vs : List ℕ) → Distinct (us ++ vs) → Distinct vs
Distinct-rest [] vs h = h
Distinct-rest (u ∷ us) vs h = Distinct-rest us vs h.1

module _ {st : Threadlist.Nodes} {tl : Threadlist} {xs : List ℕ} (h : IsList st tl xs) (t : ℕ) where
  after_node :
      (us : List ℕ) (a : ℕ) (vs xs' : List ℕ)
      → nodes tl xs ≡ us ++ (a ∷ (vs ++ (tl.tail ∷ [])))
      → nodes tl xs' ≡ us ++ (a ∷ t ∷ (vs ++ (tl.tail ∷ [])))
      → Fresh st tl xs t
      → Selves st xs'
      → length xs' ≡ suc (length xs)
      → suc (length xs) < 2 ^ 32
      → (st' : Threadlist.Nodes) × (insertafternode a t st ≡ ret st') × IsList st' (counted tl) xs'
  after_node us a vs xs' e e' f selves more room =
      let (b, ws, s) = first_split vs tl.tail in
      let split = e ∙ ap (λ l. us ++ (a ∷ l)) s in
      let split' = e' ∙ ap (λ l. us ++ (a ∷ t ∷ l)) s in
      let (a0, b0, n, p, bh, at) = neighbours h us ws a b split in
      let ta = (NotIn-mid t us a (b ∷ ws) (subst (NotIn t) split f.apart)).0 in
      (
        linked a t b st,
        insertafternode-linked a t b st a0 f.nonnull b0 n (λ z. ta (sym z)),
        linked-IsList h us ws xs' a t b split split' f selves more room,
      )

  before_node :
      (us : List ℕ) (b : ℕ) (vs xs' : List ℕ)
      → nodes tl xs ≡ (tl.head ∷ us) ++ (b ∷ vs)
      → nodes tl xs' ≡ (tl.head ∷ us) ++ (t ∷ b ∷ vs)
      → Fresh st tl xs t
      → Selves st xs'
      → length xs' ≡ suc (length xs)
      → suc (length xs) < 2 ^ 32
      → (st' : Threadlist.Nodes) × (insertbeforenode t b st ≡ ret st') × IsList st' (counted tl) xs'
  before_node us b vs xs' e e' f selves more room =
      let (ws, a, s) = last_split tl.head us in
      let split = e ∙ ap (λ l. l ++ (b ∷ vs)) s ∙ append_assoc ws (a ∷ []) (b ∷ vs) in
      let split' = e' ∙ ap (λ l. l ++ (t ∷ b ∷ vs)) s ∙ append_assoc ws (a ∷ []) (t ∷ b ∷ vs) in
      let (a0, b0, n, p, bh, at) = neighbours h ws vs a b split in
      let ta = (NotIn-mid t ws a (b ∷ vs) (subst (NotIn t) split f.apart)).0 in
      (
        linked a t b st,
        insertbeforenode-linked a t b st a0 f.nonnull b0 p (λ z. ta (sym z)),
        linked-IsList h ws vs xs' a t b split split' f selves more room,
      )

  -- A thread of the list is taken out; its neighbours are not NULL.
  take_node :
      (us vs : List ℕ)
      → xs ≡ us ++ (t ∷ vs)
      → (st' : Threadlist.Nodes) × (removenode t st ≡ ret st')
        × IsList st' (uncounted tl) (us ++ vs)
        × (st'.self t ≡ t)
        × (t ≢ 0)
        × (st.next t ≢ 0)
        × (st.prev t ≢ 0)
  take_node us vs e =
      let (ws, a, s) = last_split tl.head us in
      let (b, rs, r) = first_split vs tl.tail in
      let whole : nodes tl xs ≡ (tl.head ∷ us) ++ (t ∷ (vs ++ (tl.tail ∷ []))) =
        ap (nodes tl) e ∙ ap (λ l. tl.head ∷ l) (append_assoc us (t ∷ vs) (tl.tail ∷ [])) in
      let split : nodes tl xs ≡ ws ++ (a ∷ t ∷ b ∷ rs) =
        whole
        ∙ ap (λ l. l ++ (t ∷ (vs ++ (tl.tail ∷ [])))) s
        ∙ append_assoc ws (a ∷ []) (t ∷ (vs ++ (tl.tail ∷ [])))
        ∙ ap (λ l. ws ++ (a ∷ t ∷ l)) r in
      let split' : nodes tl (us ++ vs) ≡ ws ++ (a ∷ b ∷ rs) =
        ap (λ l. tl.head ∷ l) (append_assoc us vs (tl.tail ∷ []))
        ∙ ap (λ l. l ++ (vs ++ (tl.tail ∷ []))) s
        ∙ append_assoc ws (a ∷ []) (vs ++ (tl.tail ∷ []))
        ∙ ap (λ l. ws ++ (a ∷ l)) r in
      let (a0, t0, n, p, th, at) = neighbours h ws (b ∷ rs) a t split in
      let (t0', b0, m, q, bh, tt') =
        neighbours h (ws ++ (a ∷ [])) rs t b
          (split ∙ sym (append_assoc ws (a ∷ []) (t ∷ b ∷ rs))) in
      let ((d, _), ((d', _), _)) =
        Distinct-rest ws (a ∷ t ∷ b ∷ rs) (subst Distinct split h.distinct) in
      let (self, selves) = Selves-delete st us vs t (subst (Selves st) e h.selves) in
      (
        unlinked a t b st,
        removenode-unlinked a t b st a0 t0 b0 p m d (λ z. d' (sym z)),
        unlinked-IsList h ws rs (us ++ vs) a t b split split' selves
            (omega (arith, ap length e, length-append us (t ∷ vs), length-append us vs)),
        self,
        t0,
        λ z. b0 (sym m ∙ z),
        λ z. a0 (sym p ∙ z),
      )

-- The operations, as they act on a list: what each hands back (0 for nothing), and the list then.
pub data Op : Type 0 where
  add_head : ℕ → Op
  add_tail : ℕ → Op
  rem_head : Op
  rem_tail : Op
  insert_after : ℕ → ℕ → Op
  insert_before : ℕ → ℕ → Op
  take_out : ℕ → Op

pub data Spec (xs : List ℕ) : Op → ℕ → List ℕ → Type 0 where
  at_head : (t : ℕ) → Spec xs (add_head t) 0 (t ∷ xs)
  at_tail : (t : ℕ) → Spec xs (add_tail t) 0 (xs ++ (t ∷ []))
  head_none : xs ≡ [] → Spec xs rem_head 0 []
  head_some : (t : ℕ) (ys : List ℕ) → xs ≡ t ∷ ys → Spec xs rem_head t ys
  tail_none : xs ≡ [] → Spec xs rem_tail 0 []
  tail_some : (t : ℕ) (ys : List ℕ) → xs ≡ ys ++ (t ∷ []) → Spec xs rem_tail t ys
  after :
      (us vs : List ℕ) (x t : ℕ)
      → xs ≡ us ++ (x ∷ vs)
      → Spec xs (insert_after x t) 0 (us ++ (x ∷ t ∷ vs))
  before :
      (us vs : List ℕ) (x t : ℕ)
      → xs ≡ us ++ (x ∷ vs)
      → Spec xs (insert_before t x) 0 (us ++ (t ∷ x ∷ vs))
  out : (us vs : List ℕ) (t : ℕ) → xs ≡ us ++ (t ∷ vs) → Spec xs (take_out t) 0 (us ++ vs)

abbrev plain : Run (Threadlist × Threadlist.Nodes) → Run (ℕ × Threadlist × Threadlist.Nodes)
plain m = do (tl, st) ← m; ret (0, tl, st)

pub run : Op → Threadlist → Threadlist.Nodes → Run (ℕ × Threadlist × Threadlist.Nodes)
run (add_head t) tl st = plain (addhead t tl st)
run (add_tail t) tl st = plain (addtail t tl st)
run rem_head tl st = remhead tl st
run rem_tail tl st = remtail tl st
run (insert_after x t) tl st = plain (insertafter x t tl st)
run (insert_before t x) tl st = plain (insertbefore t x tl st)
run (take_out t) tl st = plain (remove t tl st)

-- What an operation asks for: a thread to add is on no list, and there is room for the count.
abbrev pub Allowed : Threadlist.Nodes → Threadlist → List ℕ → Op → Type 0
Allowed st tl xs (add_head t) = Fresh st tl xs t × (suc (length xs) < 2 ^ 32)
Allowed st tl xs (add_tail t) = Fresh st tl xs t × (suc (length xs) < 2 ^ 32)
Allowed st tl xs rem_head = Unit {0}
Allowed st tl xs rem_tail = Unit {0}
Allowed st tl xs (insert_after x t) = Fresh st tl xs t × (suc (length xs) < 2 ^ 32)
Allowed st tl xs (insert_before t x) = Fresh st tl xs t × (suc (length xs) < 2 ^ 32)
Allowed st tl xs (take_out t) = Unit {0}

-- Refinement: on the nodes of a list, each operation of threadlist.c that is allowed runs to its end
-- without an access through NULL, hands back what the list operation hands back, and leaves the nodes
-- of the list that the list operation leaves, linked both ways and counted.
pub threadlist_refines :
    {st : Threadlist.Nodes} {tl : Threadlist} {xs : List ℕ} (h : IsList st tl xs) (op : Op) (r : ℕ)
    (xs' : List ℕ)
    → Spec xs op r xs'
    → Allowed st tl xs op
    → (st' : Threadlist.Nodes) × (tl' : Threadlist) × (run op tl st ≡ ret (r, tl', st'))
      × IsList st' tl' xs'
unfolding run addhead addtail remhead remtail insertafter insertbefore remove
threadlist_refines {st} {tl} {xs} h op r xs' (at_head t) (f, room) =
    let (st', go, new) =
      after_node h t [] tl.head xs (t ∷ xs) refl refl f (f.self, h.selves) refl room in
    (st', counted tl, rw go refl, new)
threadlist_refines {st} {tl} {xs} h op r xs' (at_tail t) (f, room) =
    let shape = ap (λ l. tl.head ∷ l) (append_assoc xs (t ∷ []) (tl.tail ∷ [])) in
    let selves =
      Selves-insert st xs [] t f.self (subst (Selves st) (sym (append_nil xs)) h.selves) in
    let (st', go, new) =
      before_node h t xs tl.tail [] (xs ++ (t ∷ [])) refl shape f selves
        (omega (arith, length-append xs (t ∷ []))) room in
    (st', counted tl, rw go refl, new)
threadlist_refines {st} {tl} {xs} h op r xs' (head_none e) a =
    let (a0, b0, n, p, _, _) = neighbours h [] [] tl.head tl.tail (ap (nodes tl) e) in
    (
      st,
      tl,
      rw (test_ne tl.head 0 a0, n, test_ne tl.tail 0 b0, h.last) refl,
      subst (IsList st tl) e h,
    )
threadlist_refines {st} {tl} {xs} h op r xs' (head_some t ys e) a =
    let (a0, b0, n, p, _, _) = neighbours h [] (ys ++ (tl.tail ∷ [])) tl.head t (ap (nodes tl) e) in
    let (st', go, new, self, t0, nn, pn) = take_node h t [] ys e in
    (
      st',
      uncounted tl,
      rw (test_ne tl.head 0 a0, n, test_ne t 0 t0, test_ne (st.next t) 0 nn, go, self) refl,
      new,
    )
threadlist_refines {st} {tl} {xs} h op r xs' (tail_none e) a =
    let (a0, b0, n, p, _, _) = neighbours h [] [] tl.head tl.tail (ap (nodes tl) e) in
    (
      st,
      tl,
      rw (test_ne tl.tail 0 b0, p, test_ne tl.head 0 a0, h.first) refl,
      subst (IsList st tl) e h,
    )
threadlist_refines {st} {tl} {xs} h op r xs' (tail_some t ys e) a =
    let shape = ap (nodes tl) e ∙ ap (λ l. tl.head ∷ l) (append_assoc ys (t ∷ []) (tl.tail ∷ [])) in
    let (a0, b0, n, p, _, _) = neighbours h (tl.head ∷ ys) [] t tl.tail shape in
    let (st', go, new, self, t0, nn, pn) = take_node h t ys [] e in
    (
      st',
      uncounted tl,
      rw (test_ne tl.tail 0 b0, p, test_ne t 0 t0, test_ne (st.prev t) 0 pn, go, self) refl,
      subst (IsList st' (uncounted tl)) (append_nil ys) new,
    )
threadlist_refines {st} {tl} {xs} h op r xs' (after us vs x t e) (f, room) =
    let mid = append_assoc us (x ∷ vs) (tl.tail ∷ []) in
    let selves = Selves-insert' st us (x ∷ []) vs t f.self (subst (Selves st) e h.selves) in
    let (st', go, new) =
      after_node h t (tl.head ∷ us) x vs (us ++ (x ∷ t ∷ vs))
        (ap (nodes tl) e ∙ ap (λ l. tl.head ∷ l) mid)
        (ap (λ l. tl.head ∷ l) (append_assoc us (x ∷ t ∷ vs) (tl.tail ∷ []))) f selves
        (omega (arith, ap length e, length-append us (x ∷ vs), length-append us (x ∷ t ∷ vs)))
        room in
    (st', counted tl, rw go refl, new)
threadlist_refines {st} {tl} {xs} h op r xs' (before us vs x t e) (f, room) =
    let mid = append_assoc us (x ∷ vs) (tl.tail ∷ []) in
    let selves = Selves-insert st us (x ∷ vs) t f.self (subst (Selves st) e h.selves) in
    let (st', go, new) =
      before_node h t us x (vs ++ (tl.tail ∷ [])) (us ++ (t ∷ x ∷ vs))
        (ap (nodes tl) e ∙ ap (λ l. tl.head ∷ l) mid)
        (ap (λ l. tl.head ∷ l) (append_assoc us (t ∷ x ∷ vs) (tl.tail ∷ []))) f selves
        (omega (arith, ap length e, length-append us (x ∷ vs), length-append us (t ∷ x ∷ vs)))
        room in
    (st', counted tl, rw go refl, new)
threadlist_refines {st} {tl} {xs} h op r xs' (out us vs t e) a =
    let (st', go, new, _, _, _, _) = take_node h t us vs e in (st', uncounted tl, rw go refl, new)

-- An initialised list is the empty one.
pub list_init-IsList :
    (head tail : ℕ) (st : Threadlist.Nodes)
    → head ≢ 0
    → tail ≢ 0
    → head ≢ tail
    → (st' : Threadlist.Nodes) × (list_init head tail st
        ≡ ret (record { head = head; tail = tail; count = 0 }, st'))
      × IsList st' (record { head = head; tail = tail; count = 0 }) []
unfolding list_init
list_init-IsList head tail st h0 t0 ht =
    let flip : tail ≢ head = λ e. ht (sym e) in
    (
      record {
        prev = write (write st.prev head 0) tail head;
        next = write (write st.next head tail) tail 0;
        self = write (write st.self head 0) tail 0;
      },
      rw (test_ne head 0 h0, test_ne tail 0 t0) refl,
      record {
        chain = (rw (test_self head, test_ne tail head flip) refl, rw (test_self tail) refl, tt);
        distinct = ((ht, tt), (tt, tt));
        nonnull = (λ z. h0 (sym z), (λ z. t0 (sym z), tt));
        first = rw (test_self head, test_ne tail head flip) refl;
        last = rw (test_self tail) refl;
        selves = tt;
        count = refl;
        small = omega arith;
      },
    )
