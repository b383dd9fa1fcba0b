-- ===== src/Threadlist.antt =====
-- kern/thread/threadlist.c: lists of threads, linked both ways between two bookends. A node is known
-- by its address, of which 0 is NULL, and a thread by the address of its node. The assertions that
-- the file makes by DEBUGASSERT are compiled out.
pub mod Chain
pub mod Steps
pub mod Invariant
pub mod Refine
use prog.Prelude.{
  ℕ, ◌+◌, ◌-◌, ◌%◌, ◌^◌, ◌==◌, if◌then◌else◌, Bool, Option, none, some, Run, ret, wild, kassert,
  not, ◌>>=◌, ◌>>◌,
}

-- The fields tln_prev, tln_next and tln_self of all nodes.
pub record Nodes : Type 0 where
  pub prev : ℕ → ℕ
  pub next : ℕ → ℕ
  pub self : ℕ → ℕ

-- struct threadlist: the addresses of its two bookends, and the count.
pub record Threadlist : Type 0 where
  pub head : ℕ
  pub tail : ℕ
  pub count : ℕ

abbrev pub write : (ℕ → ℕ) → ℕ → ℕ → ℕ → ℕ
write f p v q = if p == q then v else f q

abbrev pub load : (ℕ → ℕ) → ℕ → Run ℕ
load f p = if p == 0 then wild else ret (f p)

abbrev pub set_prev : ℕ → ℕ → Nodes → Run Nodes
set_prev p v st = if p == 0 then wild else ret (record st { prev = write st.prev p v })

abbrev pub set_next : ℕ → ℕ → Nodes → Run Nodes
set_next p v st = if p == 0 then wild else ret (record st { next = write st.next p v })

abbrev pub set_self : ℕ → ℕ → Nodes → Run Nodes
set_self p v st = if p == 0 then wild else ret (record st { self = write st.self p v })

pub node_init : ℕ → ℕ → Nodes → Run Nodes
node_init tln t st = do
  kassert (not (t == 0))
  st ← set_next tln 0 st
  st ← set_prev tln 0 st
  set_self tln t st

pub node_cleanup : ℕ → Nodes → Run (Unit {0})
node_cleanup tln st = do
  n ← load st.next tln
  kassert (n == 0)
  p ← load st.prev tln
  kassert (p == 0)
  s ← load st.self tln
  kassert (not (s == 0))

unfoldable pub list_init : ℕ → ℕ → Nodes → Run (Threadlist × Nodes)
list_init head tail st = do
  st ← set_next head tail st
  st ← set_prev head 0 st
  st ← set_next tail 0 st
  st ← set_prev tail head st
  st ← set_self head 0 st
  st ← set_self tail 0 st
  ret (record { head = head; tail = tail; count = 0 }, st)

pub isempty : Threadlist → Bool
isempty tl = tl.count == 0

pub list_cleanup : Threadlist → Run (Unit {0})
list_cleanup tl = do kassert (isempty tl); kassert (tl.count == 0)

pub insertafternode : ℕ → ℕ → Nodes → Run Nodes
insertafternode onlist addee st = do
  st ← set_prev addee onlist st
  n ← load st.next onlist
  st ← set_next addee n st
  p ← load st.prev addee
  st ← set_next p addee st
  n ← load st.next addee
  set_prev n addee st

pub insertbeforenode : ℕ → ℕ → Nodes → Run Nodes
insertbeforenode addee onlist st = do
  p ← load st.prev onlist
  st ← set_prev addee p st
  st ← set_next addee onlist st
  p ← load st.prev addee
  st ← set_next p addee st
  n ← load st.next addee
  set_prev n addee st

pub removenode : ℕ → Nodes → Run Nodes
removenode tln st = do
  p ← load st.prev tln
  n ← load st.next tln
  st ← set_next p n st
  n ← load st.next tln
  p ← load st.prev tln
  st ← set_prev n p st
  st ← set_prev tln 0 st
  set_next tln 0 st

abbrev pub counted : Threadlist → Threadlist
counted tl = record tl { count = (tl.count + 1) % 2 ^ 32 }

abbrev pub uncounted : Threadlist → Threadlist
uncounted tl = record tl { count = (tl.count + 2 ^ 32 - 1) % 2 ^ 32 }

pub addhead : ℕ → Threadlist → Nodes → Run (Threadlist × Nodes)
addhead t tl st = do st ← insertafternode tl.head t st; ret (counted tl, st)

pub addtail : ℕ → Threadlist → Nodes → Run (Threadlist × Nodes)
addtail t tl st = do st ← insertbeforenode t tl.tail st; ret (counted tl, st)

-- The thread taken off, or 0.
pub remhead : Threadlist → Nodes → Run (ℕ × Threadlist × Nodes)
remhead tl st = do
  tln ← load st.next tl.head
  n ← load st.next tln
  let taken : Run (ℕ × Threadlist × Nodes) = do
    st ← removenode tln st
    t ← load st.self tln
    ret (t, uncounted tl, st)
  if n == 0 then ret (0, tl, st) else taken

pub remtail : Threadlist → Nodes → Run (ℕ × Threadlist × Nodes)
remtail tl st = do
  tln ← load st.prev tl.tail
  p ← load st.prev tln
  let taken : Run (ℕ × Threadlist × Nodes) = do
    st ← removenode tln st
    t ← load st.self tln
    ret (t, uncounted tl, st)
  if p == 0 then ret (0, tl, st) else taken

pub insertafter : ℕ → ℕ → Threadlist → Nodes → Run (Threadlist × Nodes)
insertafter onlist addee tl st = do st ← insertafternode onlist addee st; ret (counted tl, st)

pub insertbefore : ℕ → ℕ → Threadlist → Nodes → Run (Threadlist × Nodes)
insertbefore addee onlist tl st = do st ← insertbeforenode addee onlist st; ret (counted tl, st)

pub remove : ℕ → Threadlist → Nodes → Run (Threadlist × Nodes)
remove t tl st = do st ← removenode t st; ret (uncounted tl, st)
