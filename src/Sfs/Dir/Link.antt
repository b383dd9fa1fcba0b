-- ===== src/Sfs/Dir/Link.antt =====
-- sfs_dir_link and sfs_dir_unlink, followed by sfs_dir_findname.
use prog.Sfs.Io.{Device, Fs, Vnode}
use prog.Sfs.Metaio.Laws.{Reliable}
use prog.Sfs.Dir.{Direntry, Found, namelen, noino, dir_findname, dir_link, dir_unlink}
use prog.Sfs.Dir.Entry.{cut, entry_name}
use prog.Sfs.Dir.Search.{Unique, Searched, findname_lem}
use prog.Sfs.Dir.Stored.{Bytes, IsEntry, Stored, Stored-Lists, writedir_lem, set_cases}
use prog.Libc.Text.Compare.{NoNul, strlen_lem, strcpy_lem}
use prog.Prelude.Errno.{enoent}
use prog.Prelude.{
  ℕ, zero, suc, ◌+◌, ◌<◌, ◌≤◌, ◌≡◌, ◌≢◌, inl, inr, refl, sym, ap, ◌∙◌, ltb, if◌then◌else◌, List, [],
  ◌∷◌, ◌++◌, true, false, Option, none, some, ret, arith, length, get_elem?, set, drop, replicate,
  Bool-cases, get_elem?-set_self, length-append, length-drop, length-replicate, lt_of_get_elem?,
}

-- The name that sfs_dir_link writes.
abbrev pub padded : List ℕ → List ℕ
padded name = name ++ (0 ∷ drop (suc (length name)) (replicate 60 0))

cut-set :
    (name z : List ℕ) (k : ℕ)
    → NoNul name
    → length name ≤ k
    → cut (set (name ++ (0 ∷ z)) k 0) ≡ name
cut-set [] z zero h l = refl
cut-set [] z (suc k) h l = refl
cut-set (zero ∷ name) z k (c0, h) l = absurd (c0 refl)
cut-set (suc c ∷ name) z zero (c0, h) l = absurd (omega arith)
cut-set (suc c ∷ name) z (suc k) (c0, h) l = ap (λ r. suc c ∷ r) (cut-set name z k h (omega arith))

Bytes-append : (s t : List ℕ) → Bytes s → Bytes t → Bytes (s ++ t)
Bytes-append [] t a b = b
Bytes-append (c ∷ s) t (l, a) b = (l, Bytes-append s t a b)

Bytes-zeros : (n k : ℕ) → Bytes (drop k (replicate n 0))
Bytes-zeros zero zero = tt
Bytes-zeros zero (suc k) = tt
Bytes-zeros (suc n) zero = (omega arith, Bytes-zeros n zero)
Bytes-zeros (suc n) (suc k) = Bytes-zeros n k

padded-IsEntry :
    (ino : ℕ) (name : List ℕ)
    → length name < 60
    → Bytes name
    → IsEntry (record { ino = ino; name = padded name })
padded-IsEntry ino name short small = record {
  size = omega (
    arith,
    length-append name (0 ∷ drop (suc (length name)) (replicate 60 0)),
    short,
    length-drop {A = ℕ} (suc (length name)) (replicate 60 0),
    length-replicate {A = ℕ} 60 0,
  );
  bytes =
      Bytes-append name (0 ∷ drop (suc (length name)) (replicate 60 0)) small
        (omega arith, Bytes-zeros 60 (suc (length name)));
}

-- Writing a slot keeps names unique, if the new name is nobody else's.
Unique-set :
    (es : List Direntry) (i : ℕ) (d : Direntry)
    → i < length es
    → Unique es
    → ((j : ℕ) (e : Direntry)
        → i ≢ j
        → get_elem? es j ≡ some e
        → d.ino ≢ 0
        → e.ino ≢ 0
        → entry_name e ≢ entry_name d)
    → Unique (set es i d)
Unique-set es i d inside unique apart a b x y ax bx ux uy same =
    elim (set_cases es i a d x inside ax) [
      | inl (ia, ex) ↦ elim (set_cases es i b d y inside bx) [
        | inl (ib, ey) ↦ sym ia ∙ ib
        | inr (nb, oy) ↦
            absurd
              (apart b y nb oy (λ z. ux (ap (λ e. e.ino) ex ∙ z)) uy (sym same ∙ ap entry_name ex))
      ]
      | inr (na, ox) ↦ elim (set_cases es i b d y inside bx) [
        | inl (ib, ey) ↦
            absurd (apart a x na ox (λ z. uy (ap (λ e. e.ino) ey ∙ z)) ux (same ∙ ap entry_name ey))
        | inr (nb, oy) ↦ unique a b x y ox oy ux uy same
      ]
    ]

-- No entry in use has the name.
abbrev pub Absent : List ℕ → List Direntry → Type 0
Absent name es = (j : ℕ) (e : Direntry) → get_elem? es j ≡ some e → e.ino ≢ 0 → entry_name e ≢ name

not_found :
    (name : List ℕ) (es : List Direntry) (s : Found)
    → Searched name es (length es) s
    → Absent name es
    → s.found ≡ false
not_found name es s so absent = elim (Bool-cases s.found) [
  | inr e ↦ e
  | inl e ↦ let (d, at, l, used, named, _) = so.hit e in absurd (absent s.slot d at used named)
]

-- A name that is there is found, where it is.
found_at :
    (name : List ℕ) (es : List Direntry) (s : Found) (i : ℕ) (e : Direntry)
    → Searched name es (length es) s
    → Unique es
    → get_elem? es i ≡ some e
    → e.ino ≢ 0
    → entry_name e ≡ name
    → (s.found ≡ true) × (s.slot ≡ i) × (s.ino ≡ e.ino)
found_at name es s i e so unique at used named = elim (Bool-cases s.found) [
  | inr miss ↦ absurd (so.miss miss i e (lt_of_get_elem? es i e at) at used named)
  | inl f ↦
      let (d, at', l, used', named', ino) = so.hit f in
      let same = unique s.slot i d e at' at used' used (named' ∙ sym named) in
      (f, same, ino ∙ ap (λ x. x.ino) (same_entry at' at same))
]
  where
    same_entry :
        {d : Direntry} {j : ℕ} → get_elem? es j ≡ some d → get_elem? es i ≡ some e → j ≡ i → d ≡ e
    same_entry a b h = cc

module _ {S : Type 0} {dev : Device S} {content : S → ℕ → List ℕ} (rel : Reliable dev content)
    (fs : Fs S) (sv : Vnode) (es : List Direntry) (st : Stored content fs sv es)
    (unique : Unique es) (name r : List ℕ) (plain : NoNul name) where
  find :
      (es' : List Direntry) (s' : S)
      → Unique es'
      → Stored content (record fs { disk = s' }) sv es'
      → (s : Found) × (dir_findname dev (record fs { disk = s' }) sv (name ++ (0 ∷ r))
          ≡ ret (if s.found then 0 else enoent, s, record fs { disk = s' }, sv))
        × Searched name es' (length es') s
  find es' s' u st' =
      findname_lem name r plain es' u dev (record fs { disk = s' }) sv
        (Stored-Lists rel (record fs { disk = s' }) sv es' st')

  -- The slot that sfs_dir_link takes.
  free_slot :
      (s : Found)
      → Searched name es (length es) s
      → (k : ℕ) (e : Direntry) → get_elem? es k ≡ some e
      → e.ino ≡ 0
      → (i : ℕ) × (s.emptyslot ≡ some i) × (d : Direntry) × (get_elem? es i ≡ some d) × (d.ino ≡ 0)
  free_slot s so k e at free = go s.emptyslot refl
    where
      go :
          (o : Option ℕ)
          → s.emptyslot ≡ o
          → (i : ℕ) × (s.emptyslot ≡ some i)
            × (d : Direntry) × (get_elem? es i ≡ some d)
            × (d.ino ≡ 0)
      go none q = absurd (so.free_none q k e (lt_of_get_elem? es k e at) at free)
      go (some i) q = let (d, a, f) = so.free_some i q in (i, q, d, a, f)

  -- Round trip: in a directory that uses no name twice, has not the name, and has a free slot,
  -- sfs_dir_link of a name shorter than 60 bytes succeeds, on a device without errors and with every
  -- slot in a direct block; sfs_dir_findname then finds the name, with the inode and the slot of the
  -- link, and the directory is again one that uses no name twice.
  pub link-findname :
      (ino : ℕ)
      → ino ≢ 0
      → length name < 60
      → Bytes name
      → Absent name es
      → (k : ℕ) (e : Direntry) → get_elem? es k ≡ some e
      → e.ino ≡ 0
      → (i : ℕ) × (s' : S) × (dir_link dev fs sv (name ++ (0 ∷ r)) ino
          ≡ ret (0, some i, record fs { disk = s' }, sv))
        × Stored content
            (record fs { disk = s' })
            sv
            (set es i (record { ino = ino; name = padded name }))
        × Unique (set es i (record { ino = ino; name = padded name }))
        × (s : Found) × (dir_findname dev (record fs { disk = s' }) sv (name ++ (0 ∷ r))
            ≡ ret (0, s, record fs { disk = s' }, sv))
        × (s.slot ≡ i)
        × (s.ino ≡ ino)
  unfolding dir_link
  link-findname ino used short small absent k e at free =
      let new : Direntry = record { ino = ino; name = padded name } in
      let (s0, run0, so0) =
        findname_lem name r plain es unique dev fs sv (Stored-Lists rel fs sv es st) in
      let miss = not_found name es s0 so0 absent in
      let run0' = run0 ∙ ap (λ b. ret (if b then 0 else enoent, s0, fs, sv)) miss in
      let (i, empty, d, there, d0) = free_slot s0 so0 k e at free in
      let inside = lt_of_get_elem? es i d there in
      let (s', wrote, st') =
        writedir_lem rel fs sv es st i new inside (padded-IsEntry ino name short small) in
      let named = cut-set name (drop (suc (length name)) (replicate 60 0)) 59 plain (omega arith) in
      let u' = Unique-set es i new inside unique (λ j x _ a _ ux n. absent j x a ux (n ∙ named)) in
      let (s, run, so) = find (set es i new) s' u' st' in
      let (hit, slot, found) =
        found_at name (set es i new) s i new so u' (get_elem?-set_self es i new inside) used
          named in
      let fits : ltb namelen (length name + 1) ≡ false = ground arith in
      let copied =
        (strcpy_lem (replicate 60 0) name r plain).0
          (omega (arith, short, length-replicate {A = ℕ} 60 0)) in
      (
        i,
        s',
        rw (run0', strlen_lem name r plain, fits, empty, copied, wrote) refl,
        st',
        u',
        s,
        run ∙ ap (λ b. ret (if b then 0 else enoent, s, record fs { disk = s' }, sv)) hit,
        slot,
        found,
      )

  -- On the same conditions, a name that sfs_dir_unlink takes out of its slot is found no more, and the
  -- entries of the other slots stay.
  pub unlink-findname :
      (i : ℕ) (e : Direntry)
      → get_elem? es i ≡ some e
      → e.ino ≢ 0
      → entry_name e ≡ name
      → (s' : S) × (dir_unlink dev fs sv i ≡ ret (0, record fs { disk = s' }, sv))
        × Stored content
            (record fs { disk = s' })
            sv
            (set es i (record { ino = noino; name = replicate 60 0 }))
        × (s : Found) × (dir_findname dev (record fs { disk = s' }) sv (name ++ (0 ∷ r))
            ≡ ret (enoent, s, record fs { disk = s' }, sv))
  unfolding dir_unlink
  unlink-findname i e at used named =
      let gone : Direntry = record { ino = noino; name = replicate 60 0 } in
      let inside = lt_of_get_elem? es i e at in
      let blank : IsEntry gone = record { size = refl; bytes = Bytes-zeros 60 0 } in
      let (s', wrote, st') = writedir_lem rel fs sv es st i gone inside blank in
      let u' = Unique-set es i gone inside unique (λ j x _ a z ux n. z refl) in
      let (s, run, so) = find (set es i gone) s' u' st' in
      let absent : Absent name (set es i gone) = λ j x a ux n.
        elim (set_cases es i j gone x inside a) [
          | inl (_, new) ↦ ux (ap (λ d. d.ino) new)
          | inr (apart, old) ↦ apart (unique i j e x at old used ux (named ∙ sym n))
        ] in
      let miss = not_found name (set es i gone) s so absent in
      (
        s',
        wrote,
        st',
        s,
        run ∙ ap (λ b. ret (if b then 0 else enoent, s, record fs { disk = s' }, sv)) miss,
      )
