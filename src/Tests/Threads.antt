-- ===== src/Tests/Threads.antt =====
-- Tests of kern/thread/threadlist.c: bookends at 1 and 2, a thread at 5.
use prog.Threadlist
use prog.Threadlist.{Threadlist, write, list_init}
use prog.Threadlist.Invariant.{IsList, Fresh}
use prog.Threadlist.Refine.{add_head, at_head, run, threadlist_refines}
use prog.Prelude.{◌≡◌, refl, [], ◌∷◌, ret, arith}

abbrev nodes_before : Threadlist.Nodes
nodes_before = record { prev = λ p. 7; next = λ p. 8; self = λ p. p }

-- What list_init makes of them.
abbrev nodes_empty : Threadlist.Nodes
nodes_empty = record {
  prev = write (write nodes_before.prev 1 0) 2 1;
  next = write (write nodes_before.next 1 2) 2 0;
  self = write (write nodes_before.self 1 0) 2 0;
}

abbrev list_empty : Threadlist
list_empty = record { head = 1; tail = 2; count = 0 }

initialised : list_init 1 2 nodes_before ≡ ret (list_empty, nodes_empty)
unfolding list_init
initialised = refl

empty-IsList : IsList nodes_empty list_empty []
empty-IsList = record {
  chain = (refl, refl, tt);
  distinct = ((omega arith, tt), (tt, tt));
  nonnull = (omega arith, (omega arith, tt));
  first = refl;
  last = refl;
  selves = tt;
  count = refl;
  small = omega arith;
}

five-Fresh : Fresh nodes_empty list_empty [] 5
five-Fresh = record { apart = (omega arith, (omega arith, tt)); nonnull = omega arith; self = refl }

threadlist_refines_example :
    (st : Threadlist.Nodes) × (tl : Threadlist) × (run (add_head 5) list_empty nodes_empty
      ≡ ret (0, tl, st))
    × IsList st tl (5 ∷ [])
threadlist_refines_example =
    threadlist_refines empty-IsList (add_head 5) 0 (5 ∷ []) (at_head 5) (five-Fresh, omega arith)
