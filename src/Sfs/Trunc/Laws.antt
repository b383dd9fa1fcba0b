-- ===== src/Sfs/Trunc/Laws.antt =====
-- sfs_itrunc on a file without an indirect block, and the boundary entry of an indirect block.
use prog.Sfs.Io.{Device, Fs, Vnode, ndirect}
use prog.Sfs.Balloc.Laws.{IsValid}
use prog.Sfs.Trunc.{trunc_entries, blocks_of, itrunc}
use prog.Sfs.Trunc.Loops.{
  cut, freed, NoRepeat, AllOwned, Released, trunc_direct-cut, trunc_entries-cut, get_elem?-cut,
}
use prog.Prelude.{
  ℕ, ◌+◌, ◌%◌, ◌^◌, ◌≡◌, ltb, leb, List, Bool, true, false, some, ret, ok, get_elem?, arith,
  if◌then◌else◌, ◌∙◌,
}

module _ {S : Type 0} {fs : Fs S} (valid : IsValid fs) where
  -- On a valid free map and an inode without an indirect block, whose direct blocks are in use and named once, sfs_itrunc
  -- succeeds. It clears the direct blocks whose number is not below the new length in blocks and keeps
  -- the others, records the length, marks the inode dirty, and takes exactly the cleared blocks out of
  -- use. Both lengths are words, so one of 2 ^ 32 or more is cut.
  pub itrunc_no_indirect :
      (dev : Device S) (sv : Vnode) (len : ℕ)
      → sv.indirect ≡ 0
      → AllOwned fs sv.direct
      → NoRepeat sv.direct
      → (fs' : Fs S) × (itrunc dev fs sv len
          ≡ ret (
            ok tt,
            fs',
            record sv {
              direct = cut (leb (blocks_of len)) 0 sv.direct;
              size = len % 2 ^ 32;
              dirty = true;
            },
          ))
        × Released fs (freed (leb (blocks_of len)) 0 sv.direct) fs'
  unfolding itrunc
  itrunc_no_indirect dev sv len none' owned once =
      let (d, f, e, r) = trunc_direct-cut (blocks_of len) 0 sv.direct sv.dirty valid owned once in
      (f, ground (arith, e), r)

  -- On a valid free map and entries that are in use and named once, the loop over the indirect block
  -- runs to its end and keeps the entry whose block number is just the new length in
  -- blocks, the first one past the end of the file, whatever it holds; it clears the ones after it.
  pub trunc_entries_boundary :
      (blocklen k b : ℕ) (xs : List ℕ)
      → AllOwned fs xs
      → NoRepeat xs
      → ndirect + k ≡ blocklen
      → get_elem? xs k ≡ some b
      → (ys : List ℕ) × (h d : Bool) × (fs' : Fs S) × (trunc_entries blocklen ndirect xs false false
            fs
          ≡ ret (ys, h, d, fs'))
        × (get_elem? ys k ≡ some b)
        × ((l c : ℕ) → get_elem? xs l ≡ some c → get_elem? ys l ≡ some (if ltb k l then 0 else c))
  trunc_entries_boundary blocklen k b xs owned once at e =
      let (h, d, f, run, r) = trunc_entries-cut blocklen ndirect xs false false valid owned once in
      (
        cut (ltb blocklen) ndirect xs,
        h,
        d,
        f,
        run,
        get_elem?-cut (ltb blocklen) ndirect k b xs e ∙ ground arith,
        λ l c e'. get_elem?-cut (ltb blocklen) ndirect l c xs e' ∙ ground arith,
      )
