-- ===== src/Syscall/Files/OpenClose.antt =====
-- What sys_open and sys_close do to the table and to the heap.
use prog.Syscall.Files.{
  Fdesc, Files, Vfs, update, o_append, find_fd, open_at, sys_open, drop_ref, sys_close,
}
use prog.Syscall.Files.Flags.{flags_refused_never}
use prog.Prelude.{
  ℕ, zero, suc, ◌≤◌, ◌<◌, ◌≡◌, ◌≢◌, refl, sym, subst, ap, ◌∙◌, ◌==◌, List, [], ◌∷◌, true, Option,
  none, some, ret, wild, ok, err, arith, length, get_elem?, set, inl, inr, Bool-cases, test_self,
  test_ne, ltb-zero, bit_and, if◌then◌else◌, get_elem?-set_self, get_elem?-none,
}

find_fd-suc : (slots : List (Option ℕ)) (n : ℕ) → find_fd slots (suc n) ≡ suc (find_fd slots n)
unfolding find_fd
find_fd-suc [] n = refl
find_fd-suc (none ∷ slots) n = refl
find_fd-suc (some p ∷ slots) n = find_fd-suc slots (suc n)

-- Every slot before `fd` is taken, and `fd` is free or the table's end.
pub record FirstFree (slots : List (Option ℕ)) (fd : ℕ) : Type 0 where
  pub taken : (i : ℕ) → i < fd → (p : ℕ) × (get_elem? slots i ≡ some (some p))
  pub free : fd < length slots → get_elem? slots fd ≡ some none
  pub within : fd ≤ length slots

pub find_fd_first : (slots : List (Option ℕ)) → FirstFree slots (find_fd slots 0)
unfolding find_fd
find_fd_first [] = record {
  taken = λ i h. absurd (omega arith);
  free = λ h. absurd (omega arith);
  within = omega arith;
}
find_fd_first (none ∷ slots) = record {
  taken = λ i h. absurd (omega arith);
  free = λ h. refl;
  within = omega arith;
}
find_fd_first (some p ∷ slots) =
    let rest = find_fd_first slots in
    subst (FirstFree (some p ∷ slots)) (sym (find_fd-suc slots 0)) (record {
      taken = λ i.
          elim i
            as (λ k.
              k < suc (find_fd slots 0)
              → (q : ℕ) × (get_elem? (some p ∷ slots) k ≡ some (some q))) [
                | zero ↦ λ h. (p, refl)
                | suc i ↦ λ h. rest.taken i (omega arith)
              ];
      free = λ h. rest.free (omega arith);
      within = omega (arith, rest.within);
    })

set-back :
    (slots : List (Option ℕ)) (i : ℕ) (v : Option ℕ)
    → get_elem? slots i ≡ some none
    → set (set slots i v) i none ≡ slots
set-back [] i v h = cc
set-back (s ∷ slots) zero v h = cc
set-back (s ∷ slots) (suc i) v h = rw (set-back slots i v h)

update_self : (heap : ℕ → Option Fdesc) (p : ℕ) (v : Option Fdesc) → update heap p v p ≡ v
update_self heap p v = rw (test_self p) refl

-- A free block of memory given back is as it was.
update-back :
    (heap : ℕ → Option Fdesc) (p : ℕ) (a b : Option Fdesc)
    → heap p ≡ none
    → (q : ℕ) → update (update (update heap p a) p b) p none q ≡ heap q
update-back heap p a b h q = elim (Bool-cases (p == q)) [
  | inl e ↦ rw e (sym h ∙ ap heap (ground (arith, e)))
  | inr n ↦ rw n refl
]

module _ {V : Type 0} (vfs : Vfs V) where
  -- sys_open where the three calls of kmalloc succeed.
  open_slot :
      (p : ℕ) (raw : Fdesc) (filename flags mode : ℕ) (k : Files V)
      → filename ≢ 0
      → find_fd k.fdtable 0 < length k.fdtable
      → sys_open vfs true true (some p) raw filename flags mode k
        ≡ open_at vfs filename flags mode (find_fd k.fdtable 0) p (record k {
          fdtable = set k.fdtable (find_fd k.fdtable 0) (some p);
          heap = update k.heap p (some raw);
        })
  unfolding sys_open
  open_slot p raw filename flags mode k named room =
      rw (test_ne filename 0 named, flags_refused_never flags, (find_fd_first k.fdtable).free room)
        refl

  -- With every slot of the table taken, sys_open of a name whose address is not NULL writes past the
  -- table's end when its three calls of kmalloc succeed, whatever the flags and the mode.
  pub sys_open_overruns :
      (p : ℕ) (raw : Fdesc) (filename flags mode : ℕ) (k : Files V)
      → filename ≢ 0
      → find_fd k.fdtable 0 ≡ length k.fdtable
      → sys_open vfs true true (some p) raw filename flags mode k ≡ wild
  unfolding sys_open
  sys_open_overruns p raw filename flags mode k named full =
      rw
        (
          test_ne filename 0 named,
          flags_refused_never flags,
          get_elem?-none k.fdtable (find_fd k.fdtable 0) (omega (arith, full)),
        )
        refl

  -- sys_close of the last reference, and of an earlier one.
  close_last :
      (fd p : ℕ) (d : Fdesc) (k : Files V)
      → get_elem? k.fdtable fd ≡ some (some p)
      → k.heap p ≡ some d
      → d.refcount ≡ 1
      → sys_close vfs fd k
        ≡ ret (
          ok 0,
          record {
            fdtable = set k.fdtable fd none;
            heap = update k.heap p none;
            fs = vfs.vfs_close d.vn k.fs;
          },
        )
  unfolding sys_close drop_ref
  close_last fd p d k here points one = rw (here, points, one) refl

  close_kept :
      (fd p : ℕ) (d : Fdesc) (k : Files V)
      → get_elem? k.fdtable fd ≡ some (some p)
      → k.heap p ≡ some d
      → d.refcount ≡ 2
      → sys_close vfs fd k
        ≡ ret (ok 0, record k { heap = update k.heap p (some (record d { refcount = 1 })) })
  unfolding sys_close drop_ref
  close_kept fd p d k here points two = rw (here, points, two) refl

  -- Where a slot is free, kmalloc gives memory that is not in use, the name's address is not NULL and
  -- vfs_open succeeds, sys_open hands back the number of the lowest free slot, which points to the
  -- new descriptor. Closing that number at once gives back the old table and the old heap, and closes
  -- the vnode.
  pub sys_open-sys_close :
      (p : ℕ) (raw : Fdesc) (filename flags mode vn : ℕ) (fs : V) (k : Files V)
      → filename ≢ 0
      → k.heap p ≡ none
      → find_fd k.fdtable 0 < length k.fdtable
      → vfs.vfs_open (vfs.copyinstr filename k.fs).1 flags mode k.fs ≡ (ok vn, fs)
      → FirstFree k.fdtable (find_fd k.fdtable 0)
        × (k1 : Files V) × (sys_open vfs true true (some p) raw filename flags mode k
            ≡ ret (ok (find_fd k.fdtable 0), k1))
        × (get_elem? k1.fdtable (find_fd k.fdtable 0) ≡ some (some p))
        × (k2 : Files V) × (sys_close vfs (find_fd k.fdtable 0) k1 ≡ ret (ok 0, k2))
        × (k2.fdtable ≡ k.fdtable)
        × ((q : ℕ) → k2.heap q ≡ k.heap q)
        × (k2.fs ≡ vfs.vfs_close vn fs)
  unfolding open_at
  sys_open-sys_close p raw filename flags mode vn fs k named fresh room opens =
      let fd = find_fd k.fdtable 0 in
      let d : Fdesc = record {
        path = (vfs.copyinstr filename k.fs).1;
        flags = flags;
        refcount = 1;
        offset = if bit_and flags o_append == 0 then 0 else vfs.stat_size vn fs;
        vn = vn;
      } in
      let k1 : Files V = record {
        fdtable = set k.fdtable fd (some p);
        heap = update (update k.heap p (some raw)) p (some d);
        fs = fs;
      } in
      let at = get_elem?-set_self k.fdtable fd (some p) room in
      (
        find_fd_first k.fdtable,
        k1,
        open_slot p raw filename flags mode k named room
            ∙ rw
                (ltb-zero (vfs.copyinstr filename k.fs).0, ap (λ r. r.0) opens, ap (λ r. r.1) opens)
                refl,
        at,
        _,
        close_last fd p d k1 at (update_self (update k.heap p (some raw)) p (some d)) refl,
        set-back k.fdtable fd (some p) ((find_fd_first k.fdtable).free room),
        update-back k.heap p (some raw) (some d) fresh,
        refl,
      )

  -- Where a slot is free, the calls of kmalloc succeed, the name's address is not NULL and vfs_open
  -- fails, sys_open hands back its error, but the slot it took still points to the descriptor that it
  -- gave back to kmalloc: to close that slot is to use freed memory.
  pub sys_open_dangles :
      (p : ℕ) (raw : Fdesc) (filename flags mode e : ℕ) (fs : V) (k : Files V)
      → filename ≢ 0
      → find_fd k.fdtable 0 < length k.fdtable
      → vfs.vfs_open (vfs.copyinstr filename k.fs).1 flags mode k.fs ≡ (err e, fs)
      → (k1 : Files V) × (sys_open vfs true true (some p) raw filename flags mode k
          ≡ ret (err e, k1))
        × (sys_close vfs (find_fd k.fdtable 0) k1 ≡ wild)
  unfolding open_at sys_close
  sys_open_dangles p raw filename flags mode e fs k named room fails =
      let fd = find_fd k.fdtable 0 in
      let at = get_elem?-set_self k.fdtable fd (some p) room in
      (
        record {
          fdtable = set k.fdtable fd (some p);
          heap = update (update k.heap p (some raw)) p none;
          fs = fs;
        },
        open_slot p raw filename flags mode k named room
            ∙ rw
                (ltb-zero (vfs.copyinstr filename k.fs).0, ap (λ r. r.0) fails, ap (λ r. r.1) fails)
                refl,
        rw (at, update_self (update k.heap p (some raw)) p none) refl,
      )

  -- On a descriptor with two references, as a fork leaves it, sys_close keeps the slot of the table, so
  -- that the same process can close it again: both calls succeed, and the descriptor is freed, which
  -- the other table still points to.
  pub sys_close_twice :
      (fd p : ℕ) (d : Fdesc) (k : Files V)
      → get_elem? k.fdtable fd ≡ some (some p)
      → k.heap p ≡ some d
      → d.refcount ≡ 2
      → (k1 k2 : Files V) × (sys_close vfs fd k ≡ ret (ok 0, k1))
        × (k1.fdtable ≡ k.fdtable)
        × (sys_close vfs fd k1 ≡ ret (ok 0, k2))
        × (k2.heap p ≡ none)
  sys_close_twice fd p d k here points two =
      let d' : Fdesc = record d { refcount = 1 } in
      let k1 : Files V = record k { heap = update k.heap p (some d') } in
      (
        k1,
        _,
        close_kept fd p d k here points two,
        refl,
        close_last fd p d' k1 here (update_self k.heap p (some d')) refl,
        update_self k1.heap p none,
      )
