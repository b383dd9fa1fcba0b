-- ===== src/Sfs/Metaio/Laws.antt =====
-- sfs_metaio within the mapped blocks of a file, on a device without errors.
use prog.Sfs.Io.{Device, Fs, Vnode, ndirect, readblock, writeblock}
use prog.Sfs.Io.Retry.{rwblock_done}
use prog.Sfs.Balloc.Laws.{IsValid}
use prog.Sfs.Bmap.{bmap, bmap_direct}
use prog.Sfs.Bmap.Direct.{IsSound, hand_back-Owned}
use prog.Sfs.Metaio.{metaio_read, metaio_write, write_back}
use prog.Prelude.{
  length-splice, splice, ℕ, ◌+◌, ◌*◌, ◌/◌, ◌%◌, ◌≤◌, ◌<◌, ◌≡◌, ◌≢◌, refl, ◌∙◌, ltb, List, Bool,
  true, false, some, ret, ok, arith, length, get_elem?, take, drop, test_ne,
}

-- A device that reads back what was last written, `content` being what the blocks hold.
pub record Reliable {S : Type 0} (dev : Device S) (content : S → ℕ → List ℕ) : Type 0 where
  pub reads : (b : ℕ) (s : S) → dev.read b 0 s ≡ (ok (content s b), s)
  pub size : (b : ℕ) (s : S) → length (content s b) ≡ 128
  pub writes :
      (b : ℕ) (words : List ℕ) (s : S)
      → length words ≡ 128
      → (s' : S) × (dev.write b words 0 s ≡ (ok tt, s'))
        × (content s' b ≡ words)
        × ((c : ℕ) → c ≢ b → content s' c ≡ content s c)

module _ {S : Type 0} {dev : Device S} {content : S → ℕ → List ℕ} (rel : Reliable dev content)
    (fs : Fs S) (sv : Vnode) (b : ℕ) where
  readblock_lem : readblock dev fs b ≡ ret (ok (content fs.disk b), fs)
  unfolding readblock
  readblock_lem =
      rw (rwblock_done (dev.read b) fs.disk fs.disk (content fs.disk b) (rel.reads b fs.disk)) refl

  write_back_lem :
      (endpos : ℕ) (words : List ℕ) (s' : S)
      → dev.write b words 0 fs.disk ≡ (ok tt, s')
      → endpos ≤ sv.size
      → write_back dev fs sv b endpos words ≡ ret (ok tt, record fs { disk = s' }, sv)
  unfolding write_back writeblock
  write_back_lem endpos words s' e within =
      let stays : ltb sv.size endpos ≡ false = ground arith in
      rw (rwblock_done (dev.write b words) fs.disk s' tt e, stays) refl

  module _ (valid : IsValid fs) (sound : IsSound fs sv) (pos : ℕ) (direct : pos / 512 < ndirect)
      (mapped : get_elem? sv.direct (pos / 512) ≡ some b) (real : b ≢ 0) where
    bmap_mapped : (doalloc : Bool) → bmap dev fs sv (pos / 512) doalloc ≡ ret (ok b, fs, sv)
    unfolding bmap bmap_direct
    bmap_mapped doalloc =
        let below : ltb (pos / 512) ndirect ≡ true = ground arith in
        rw (below, mapped, test_ne b 0 real)
          (hand_back-Owned dev valid sv b (sound.owned (pos / 512) b mapped))

    pub metaio_read_lem :
        (n : ℕ)
        → pos % 512 / 4 + n ≤ 128
        → metaio_read dev fs sv pos n
          ≡ ret (ok (take n (drop (pos % 512 / 4) (content fs.disk b))), fs, sv)
    unfolding metaio_read
    metaio_read_lem n room =
        let fits : ltb (length (content fs.disk b)) (pos % 512 / 4 + n) ≡ false =
          ground (arith, rel.size b fs.disk) in
        rw (bmap_mapped false, test_ne b 0 real, readblock_lem, fits) refl

    -- The size stays: the write is within the file.
    pub metaio_write_lem :
        (words : List ℕ)
        → pos % 512 / 4 + length words ≤ 128
        → pos + 4 * length words ≤ sv.size
        → (s' : S) × (metaio_write dev fs sv pos words ≡ ret (ok tt, record fs { disk = s' }, sv))
          × (content s' b ≡ splice (pos % 512 / 4) words (content fs.disk b))
          × ((c : ℕ) → c ≢ b → content s' c ≡ content fs.disk c)
    unfolding metaio_write
    metaio_write_lem words room within =
        let at = pos % 512 / 4 in
        let old = content fs.disk b in
        let fits : ltb (length old) (at + length words) ≡ false =
          ground (arith, rel.size b fs.disk) in
        let whole : length (splice at words old) ≡ 128 =
          length-splice at words old (omega (arith, rel.size b fs.disk)) ∙ rel.size b fs.disk in
        let (s', run, now, others) = rel.writes b (splice at words old) fs.disk whole in
        let back = write_back_lem (pos + 4 * length words) (splice at words old) s' run within in
        (s', rw (bmap_mapped true, test_ne b 0 real, readblock_lem, fits) back, now, others)
