-- ===== src/Tests/Directory.antt =====
-- Tests of sfs_dir.c: a directory of one free slot, in block 1 of a volume of ten blocks.
use prog.Bitmap.{Bitmap, mark_leftover}
use prog.Bitmap.View
use prog.Bitmap.View.{used, set_bit-IsValid}
use prog.Bitmap.Create.{padded-IsValid}
use prog.Sfs.Io.{Device, Fs, Vnode}
use prog.Sfs.Balloc.Laws.{IsValid}
use prog.Sfs.Bmap.Direct.{Owned}
use prog.Sfs.Metaio.Laws.{Reliable}
use prog.Sfs.Metaio.Splice.{take-append}
use prog.Sfs.Dir.{Direntry, Found, noino, dir_findname, dir_link, dir_unlink, direntry_words}
use prog.Sfs.Dir.Entry.{entry_name}
use prog.Sfs.Dir.Search.{Unique, Searched, findname_lem}
use prog.Sfs.Dir.Stored.{Bytes, IsEntry, Stored, Stored-Lists}
use prog.Sfs.Dir.Link.{padded, link-findname, unlink-findname}
use prog.Prelude.Errno.{enoent}
use prog.Prelude.{
  ℕ, zero, suc, ◌*◌, ◌/◌, ◌%◌, ◌<◌, ◌≡◌, ◌≢◌, refl, sym, ap, subst, ◌∙◌, List, [], ◌∷◌, ◌++◌, true,
  false, some, ret, ok, inl, inr, arith, if◌then◌else◌, ◌==◌, get_elem?, replicate, set, take, drop,
  length, test_ne, test_self, length-take, length-append, length-replicate, get_elem?-replicate,
}

-- The state is the words of each block, cut or filled up to 128.
abbrev whole : List ℕ → List ℕ
whole ws = take 128 (ws ++ replicate 128 0)

abbrev Disk : Type 0
Disk = ℕ → List ℕ

abbrev content : Disk → ℕ → List ℕ
content s b = whole (s b)

abbrev dev : Device Disk
dev = record {
  read = λ b tries s. (ok (content s b), s);
  write = λ b words tries s. (ok tt, λ c. if b == c then words else s c);
}

whole-same : (ws : List ℕ) → length ws ≡ 128 → whole ws ≡ ws
whole-same ws h =
    subst (λ n. take n (ws ++ replicate 128 0) ≡ ws) h (take-append ws (replicate 128 0))

dev-Reliable : Reliable dev content
dev-Reliable = record {
  reads = λ b s. refl;
  size = λ b s. omega (
    arith,
    length-take 128 (s b ++ replicate 128 0),
    length-append (s b) (replicate 128 0),
    length-replicate {A = ℕ} 128 0,
  );
  writes = λ b words s h. (
    λ c. if b == c then words else s c,
    refl,
    rw (test_self b) (whole-same words h),
    λ c ne. rw (test_ne b c (λ e. ne (sym e))) refl,
  );
}

-- Blocks 0 and 1 are in use.
abbrev map10 : Bitmap
map10 = record { nbits = 10; v = 3 ∷ 252 ∷ [] }

map10-IsValid : View.IsValid map10
unfolding mark_leftover
map10-IsValid =
    set_bit-IsValid (set_bit-IsValid (padded-IsValid 10 (omega arith)) 0 0 0 refl (omega arith)) 0 1
      1 refl (omega arith)

zero_used : used map10 0 ≡ true
unfolding used
zero_used = refl

one_used : used map10 1 ≡ true
unfolding used
one_used = refl

abbrev fs : Direntry → Fs Disk
fs e = record {
  nblocks = 10;
  freemap = map10;
  freemapdirty = false;
  disk = λ b. if b == 1 then direntry_words e else [];
}

abbrev sv : Vnode
sv = record { direct = 1 ∷ replicate 14 0; indirect = 0; size = 64; dirty = false; kind = 2 }

fs-IsValid : (e : Direntry) → IsValid (fs e)
fs-IsValid e = record {
  map = map10-IsValid;
  fits = omega arith;
  superblock = zero_used;
  beyond = λ j h. map10-IsValid.leftover j h;
}

sv-Owned : (e : Direntry) (i b : ℕ) → get_elem? sv.direct i ≡ some b → Owned (fs e) b
sv-Owned e zero b h =
    let same : 1 ≡ b = some_injective 1 b h in
    subst (Owned (fs e)) same (inr (omega arith, one_used))
  where
    some_injective : (x y : ℕ) → some x ≡ some y → x ≡ y
    some_injective x y p = cc
sv-Owned e (suc i) b h = let z : 0 ≡ b = get_elem?-replicate {A = ℕ} 14 i 0 b h in inl (sym z)

at_zero : (m b : ℕ) → get_elem? sv.direct m ≡ some b → b ≢ 0 → m ≡ 0
at_zero zero b h n = refl
at_zero (suc m) b h n = absurd (n (sym (get_elem?-replicate {A = ℕ} 14 m 0 b h)))

abbrev free : Direntry
free = record { ino = 0; name = replicate 60 0 }

abbrev taken : Direntry
taken = record { ino = 7; name = 97 ∷ replicate 59 0 }

zeros-Bytes : (n : ℕ) → Bytes (replicate n 0)
zeros-Bytes zero = tt
zeros-Bytes (suc n) = (omega arith, zeros-Bytes n)

one_slot :
    (e : Direntry)
    → IsEntry e
    → take 16 (whole (direntry_words e)) ≡ direntry_words e
    → Stored content (fs e) sv (e ∷ [])
one_slot e good there = record {
  valid = fs-IsValid e;
  sound = record { size = refl; owned = sv-Owned e };
  kind = refl;
  size = refl;
  small = omega arith;
  entries = only IsEntry good;
  mapped = λ i.
      elim i as (λ k. k < 1 → (b : ℕ) × (get_elem? sv.direct (k / 8) ≡ some b) × (b ≢ 0)) [
        | zero ↦ λ h. (1, refl, omega arith)
        | suc k ↦ λ h. absurd (omega arith)
      ];
  words = held;
  distinct = λ m n b hm hn real. at_zero m b hm real ∙ sym (at_zero n b hn real);
}
  where
    only :
        (P : Direntry → Type 0) → P e → (i : ℕ) (d : Direntry) → get_elem? (e ∷ []) i ≡ some d → P d
    only P p zero d h = subst P (cc) p
    only P p (suc i) d h = cc

    held :
        (i b : ℕ) (d : Direntry)
        → get_elem? (e ∷ []) i ≡ some d
        → get_elem? sv.direct (i / 8) ≡ some b
        → take 16 (drop (16 * (i % 8)) (content (fs e).disk b)) ≡ direntry_words d
    held zero b d h k =
        let first : e ≡ d = cc in
        let block : 1 ≡ b = cc in
        subst (λ n. take 16 (content (fs e).disk n) ≡ direntry_words d) block
          (subst (λ x. take 16 (whole (direntry_words e)) ≡ direntry_words x) first there)
    held (suc i) b d h k = cc

free-Stored : Stored content (fs free) sv (free ∷ [])
free-Stored = one_slot free (record { size = refl; bytes = zeros-Bytes 60 }) refl

taken-Stored : Stored content (fs taken) sv (taken ∷ [])
taken-Stored = one_slot taken (record { size = refl; bytes = (omega arith, zeros-Bytes 59) }) refl

one-Unique : (e : Direntry) → Unique (e ∷ [])
one-Unique e zero zero d d' a b u v same = refl
one-Unique e zero (suc j) d d' a b u v same = cc
one-Unique e (suc i) j d d' a b u v same = cc

free-Absent :
    (j : ℕ) (e : Direntry) → get_elem? (free ∷ []) j ≡ some e → e.ino ≢ 0 → entry_name e ≢ (97 ∷ [])
free-Absent zero e a u = absurd (u (ap ino_of (some_injective e free a)))
  where
    ino_of : Direntry → ℕ
    ino_of d = d.ino

    some_injective : (x y : Direntry) → some y ≡ some x → x ≡ y
    some_injective x y p = cc
free-Absent (suc j) e a u = cc

findname_lem_example :
    (s : Found) × (dir_findname dev (fs taken) sv (97 ∷ 0 ∷ [])
      ≡ ret (if s.found then 0 else enoent, s, fs taken, sv))
    × Searched (97 ∷ []) (taken ∷ []) 1 s
findname_lem_example =
    findname_lem (97 ∷ []) [] (omega arith, tt) (taken ∷ []) (one-Unique taken) dev (fs taken) sv
      (Stored-Lists dev-Reliable (fs taken) sv (taken ∷ []) taken-Stored)

link-findname_example :
    let new : Direntry = record { ino = 7; name = padded (97 ∷ []) } in
    (i : ℕ) × (s' : Disk) × (dir_link dev (fs free) sv (97 ∷ 0 ∷ []) 7
      ≡ ret (0, some i, record (fs free) { disk = s' }, sv))
    × Stored content (record (fs free) { disk = s' }) sv (set (free ∷ []) i new)
    × Unique (set (free ∷ []) i new)
    × (s : Found) × (dir_findname dev (record (fs free) { disk = s' }) sv (97 ∷ 0 ∷ [])
        ≡ ret (0, s, record (fs free) { disk = s' }, sv))
    × (s.slot ≡ i)
    × (s.ino ≡ 7)
link-findname_example =
    link-findname dev-Reliable (fs free) sv (free ∷ []) free-Stored (one-Unique free) (97 ∷ []) []
      (omega arith, tt) 7 (omega arith) (omega arith) (omega arith, tt) free-Absent 0 free refl refl

unlink-findname_example :
    (s' : Disk) × (dir_unlink dev (fs taken) sv 0 ≡ ret (0, record (fs taken) { disk = s' }, sv))
    × Stored content
        (record (fs taken) { disk = s' })
        sv
        (set (taken ∷ []) 0 (record { ino = noino; name = replicate 60 0 }))
    × (s : Found) × (dir_findname dev (record (fs taken) { disk = s' }) sv (97 ∷ 0 ∷ [])
        ≡ ret (enoent, s, record (fs taken) { disk = s' }, sv))
unlink-findname_example =
    unlink-findname dev-Reliable (fs taken) sv (taken ∷ []) taken-Stored (one-Unique taken)
      (97 ∷ []) [] (omega arith, tt) 0 taken refl (omega arith) refl
