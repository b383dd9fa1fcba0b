-- ===== src/Threadlist/Steps.antt =====
-- The three internal operations on nodes that are linked to each other, run to their end.
use prog.Threadlist
use prog.Threadlist.{write, insertafternode, insertbeforenode, removenode}
use prog.Threadlist.Chain.{linked, unlinked}
use prog.Prelude.{ℕ, ◌≡◌, ◌≢◌, refl, ret, test_ne, test_self}

module _ (a t b : ℕ) (st : Threadlist.Nodes) (a0 : a ≢ 0) (t0 : t ≢ 0) (b0 : b ≢ 0) where
  pub insertafternode-linked :
      st.next a ≡ b → a ≢ t → insertafternode a t st ≡ ret (linked a t b st)
  unfolding insertafternode
  insertafternode-linked n at =
      rw
        (
          test_ne a 0 a0,
          test_ne t 0 t0,
          n,
          test_self t,
          test_ne a 0 a0,
          test_ne a t at,
          test_self t,
          test_ne b 0 b0,
        )
        refl

  pub insertbeforenode-linked :
      st.prev b ≡ a → a ≢ t → insertbeforenode t b st ≡ ret (linked a t b st)
  unfolding insertbeforenode
  insertbeforenode-linked p at =
      rw
        (
          test_ne b 0 b0,
          test_ne t 0 t0,
          p,
          test_self t,
          test_ne a 0 a0,
          test_ne a t at,
          test_self t,
          test_ne b 0 b0,
        )
        refl

  pub removenode-unlinked :
      st.prev t ≡ a → st.next t ≡ b → a ≢ t → b ≢ t → removenode t st ≡ ret (unlinked a t b st)
  unfolding removenode
  removenode-unlinked p n at bt =
      rw (test_ne t 0 t0, p, n, test_ne a 0 a0, test_ne a t at, p, n, test_ne b 0 b0) refl
