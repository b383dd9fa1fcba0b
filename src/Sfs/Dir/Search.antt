-- ===== src/Sfs/Dir/Search.antt =====
-- What sfs_dir_findname finds.
use prog.Sfs.Io.{Device, Fs, Vnode}
use prog.Sfs.Dir.{
  Direntry, Found, nothing, type_dir, nentries, examine, readdir, scan, dir_findname,
}
use prog.Sfs.Dir.Entry.{entry_name, strcmp-entry_name}
use prog.Libc.Text.Compare.{NoNul, order}
use prog.Prelude.Errno.{enoent}
use prog.Prelude.{
  ℕ, zero, suc, ◌+◌, ◌*◌, ◌<◌, ◌≡◌, ◌≢◌, ◌⊎◌, inl, inr, refl, sym, subst, ◌∙◌, ◌==◌, if◌then◌else◌,
  List, ◌∷◌, ◌++◌, true, false, none, some, ret, ok, arith, length, get_elem?, get_elem?-some,
  Bool-cases,
}

-- The entry is in use, under this name.
abbrev pub Named : List ℕ → Direntry → Type 0
Named name e = (e.ino ≢ 0) × (entry_name e ≡ name)

-- The directory `sv` has the entries `es`: every slot reads back, and changes nothing.
pub record Lists {S : Type 0} (dev : Device S) (fs : Fs S) (sv : Vnode) (es : List Direntry)
    : Type 0 where
  pub kind : sv.kind ≡ type_dir
  pub size : sv.size ≡ length es * 64
  pub names : (i : ℕ) (e : Direntry) → get_elem? es i ≡ some e → length e.name ≡ 60
  pub reads :
      (i : ℕ) (e : Direntry) → get_elem? es i ≡ some e → readdir dev fs sv i ≡ ret (ok e, fs, sv)

-- No name is used twice.
abbrev pub Unique : List Direntry → Type 0
Unique es =
    (i j : ℕ) (d e : Direntry)
    → get_elem? es i ≡ some d
    → get_elem? es j ≡ some e
    → d.ino ≢ 0
    → e.ino ≢ 0
    → entry_name d ≡ entry_name e
    → i ≡ j

-- What is known once the slots below `i` are searched for `name`.
pub record Searched (name : List ℕ) (es : List Direntry) (i : ℕ) (s : Found) : Type 0 where
  pub hit :
      s.found ≡ true
      → (e : Direntry) × (get_elem? es s.slot ≡ some e)
        × (s.slot < i)
        × (e.ino ≢ 0)
        × (entry_name e ≡ name)
        × (s.ino ≡ e.ino)
  pub miss :
      s.found ≡ false
      → (j : ℕ) (e : Direntry) → j < i
      → get_elem? es j ≡ some e
      → e.ino ≢ 0
      → entry_name e ≢ name
  pub free_some :
      (k : ℕ) → s.emptyslot ≡ some k → (e : Direntry) × (get_elem? es k ≡ some e) × (e.ino ≡ 0)
  pub free_none :
      s.emptyslot ≡ none → (j : ℕ) (e : Direntry) → j < i → get_elem? es j ≡ some e → e.ino ≢ 0

lt_or_eq : (j i : ℕ) → j < suc i → (j < i) ⊎ (j ≡ i)
lt_or_eq j i h = omega arith

same_entry :
    (es : List Direntry) (i j : ℕ) (d e : Direntry)
    → get_elem? es i ≡ some d
    → get_elem? es j ≡ some e
    → j ≡ i
    → d ≡ e
same_entry es i j d e a b h = cc

-- A fact on the entries below `i`, and on the one at `i`.
up_to :
    (P : Direntry → Type 0) (es : List Direntry) (i : ℕ) (d : Direntry)
    → get_elem? es i ≡ some d
    → P d
    → ((j : ℕ) (e : Direntry) → j < i → get_elem? es j ≡ some e → P e)
    → (j : ℕ) (e : Direntry) → j < suc i
    → get_elem? es j ≡ some e
    → P e
up_to P es i d at p below j e h there = elim (lt_or_eq j i h) [
  | inl lower ↦ below j e lower there
  | inr same ↦ subst P (same_entry es i j d e at there same) p
]

module _ (name r : List ℕ) (plain : NoNul name) (es : List Direntry) (unique : Unique es) where
  absent :
      (i : ℕ) (e : Direntry) (s : Found)
      → get_elem? es i ≡ some e
      → e.ino ≡ 0
      → Searched name es i s
      → Searched name es (suc i) (record s { emptyslot = some i })
  absent i e s at free so = record {
    hit = λ f. let (d, a, l, u, n, o) = so.hit f in (d, a, omega arith, u, n, o);
    miss = λ f.
        up_to (λ d. d.ino ≢ 0 → entry_name d ≢ name) es i e at (λ u. absurd (u free)) (so.miss f);
    free_some = λ k q. (e, subst (λ l. get_elem? es l ≡ some e) (cc) at, free);
    free_none = λ q. absurd (cc);
  }

  other :
      (i : ℕ) (e : Direntry) (s : Found)
      → get_elem? es i ≡ some e
      → e.ino ≢ 0
      → entry_name e ≢ name
      → Searched name es i s
      → Searched name es (suc i) s
  other i e s at used differs so = record {
    hit = λ f. let (d, a, l, u, n, o) = so.hit f in (d, a, omega arith, u, n, o);
    miss = λ f. up_to (λ d. d.ino ≢ 0 → entry_name d ≢ name) es i e at (λ u. differs) (so.miss f);
    free_some = so.free_some;
    free_none = λ q. up_to (λ d. d.ino ≢ 0) es i e at used (so.free_none q);
  }

  here :
      (i : ℕ) (e : Direntry) (s : Found)
      → get_elem? es i ≡ some e
      → e.ino ≢ 0
      → entry_name e ≡ name
      → Searched name es i s
      → (s.found ≡ false)
        × Searched name es (suc i) (record s { found = true; slot = i; ino = e.ino })
  here i e s at used named so = (
    elim (Bool-cases s.found) [
      | inr unseen ↦ unseen
      | inl seen ↦
          let (d, a, l, u, n, o) = so.hit seen in
          let same = unique s.slot i d e a at u used (n ∙ sym named) in absurd (omega arith)
    ],
    record {
      hit = λ f. (e, at, omega arith, used, named, refl);
      miss = λ f. absurd (cc);
      free_some = so.free_some;
      free_none = λ q. up_to (λ d. d.ino ≢ 0) es i e at used (so.free_none q);
    },
  )

  examine_lem :
      (i : ℕ) (e : Direntry) (s : Found)
      → get_elem? es i ≡ some e
      → length e.name ≡ 60
      → Searched name es i s
      → (s' : Found) × (examine (name ++ (0 ∷ r)) i e s ≡ ret s') × Searched name es (suc i) s'
  unfolding examine
  examine_lem i e s at size so =
      let (compared, iff) = strcmp-entry_name e name r size plain in
      elim (Bool-cases (e.ino == 0)) [
        | inl free ↦ (
          record s { emptyslot = some i },
          rw free refl,
          absent i e s at (ground (arith, free)) so,
        )
        | inr taken ↦
            let used : e.ino ≢ 0 = ground (arith, taken) in
            elim (Bool-cases (order (entry_name e) name == 0)) [
              | inl equal ↦
                  let (first, next) = here i e s at used (iff.0 (ground (arith, equal))) so in
                  (
                    record s { found = true; slot = i; ino = e.ino },
                    rw (taken, compared, equal, first) refl,
                    next,
                  )
              | inr differ ↦ (
                s,
                rw (taken, compared, differ) refl,
                other i e s at used (λ n. ground (arith, iff.1 n, differ)) so,
              )
            ]
      ]

  module _ {S : Type 0} (dev : Device S) (fs : Fs S) (sv : Vnode) (lists : Lists dev fs sv es) where
    scan_lem :
        (left i : ℕ) (s : Found)
        → i + left ≡ length es
        → Searched name es i s
        → (s' : Found) × (scan dev (name ++ (0 ∷ r)) left i s fs sv
            ≡ ret (if s'.found then 0 else enoent, s', fs, sv))
          × Searched name es (length es) s'
    unfolding scan
    scan_lem zero i s at so =
        let e : i ≡ length es = omega (arith, at) in
        (s, refl, subst (λ n. Searched name es n s) e so)
    scan_lem (suc left) i s at so =
        let (e, there) = get_elem?-some es i (omega (arith, at)) in
        let (s1, step, so1) = examine_lem i e s there (lists.names i e there) so in
        let (s', rest, done) = scan_lem left (suc i) s1 (omega (arith, at)) so1 in
        (s', rw (lists.reads i e there, step) rest, done)

    pub counted : nentries sv ≡ ret (length es)
    unfolding nentries
    counted = ground (arith, lists.kind, lists.size)

    -- On a directory that uses no name twice, sfs_dir_findname searches every slot: it returns 0 with
    -- the inode and the slot of the entry in use that has the name, or ENOENT if there is none; and it
    -- reports a free slot unless every slot is in use.
    pub findname_lem :
        (s : Found) × (dir_findname dev fs sv (name ++ (0 ∷ r))
          ≡ ret (if s.found then 0 else enoent, s, fs, sv))
        × Searched name es (length es) s
    unfolding dir_findname
    findname_lem =
        let (s, run, so) = scan_lem (length es) 0 nothing (omega arith) (record {
          hit = λ f. absurd (cc);
          miss = λ f j e h. absurd (omega arith);
          free_some = λ k q. absurd (cc);
          free_none = λ q j e h. absurd (omega arith);
        }) in
        (s, rw counted run, so)
