-- ===== src/Sfs/Dir.antt =====
-- sfs_dir.c: the slots of a directory. An entry is 64 bytes, sixteen words of a block, the first byte
-- of a word being the high one.
pub mod Entry
pub mod Search
pub mod Stored
pub mod Link
use prog.Sfs.Io.{Device, Fs, Vnode}
use prog.Sfs.Metaio.{metaio_read, metaio_write}
use prog.Libc.Text.{strlen, strcpy, strcmp}
use prog.Prelude.Errno.{enoent, eexist, enametoolong}
use prog.Prelude.{
  ℕ, zero, suc, ◌+◌, ◌*◌, ◌/◌, ◌%◌, ◌^◌, ltb, ◌==◌, not, ◌&&◌, if◌then◌else◌, List, [], ◌∷◌, Bool,
  true, false, Option, none, some, Run, ret, panic, wild, kassert, ◌>>=◌, ◌>>◌, Reply, ok, err,
  get_or, drop, replicate, set,
}

pub record Direntry : Type 0 where
  pub ino : ℕ
  pub name : List ℕ

abbrev pub namelen : ℕ
namelen = 60

-- SFS_NOINO.
abbrev pub noino : ℕ
noino = 0

abbrev pub type_dir : ℕ
type_dir = 2

-- The bytes of words, and the words of bytes.
abbrev pub bytes_of : List ℕ → List ℕ
bytes_of [] = []
bytes_of (w ∷ words) =
    (w / 2 ^ 24 % 256) ∷ (w / 2 ^ 16 % 256) ∷ (w / 2 ^ 8 % 256) ∷ (w % 256) ∷ bytes_of words

abbrev pub words_of : List ℕ → List ℕ
words_of (a ∷ b ∷ c ∷ d ∷ bytes) = (a * 2 ^ 24 + b * 2 ^ 16 + c * 2 ^ 8 + d) ∷ words_of bytes
words_of bytes = []

abbrev pub direntry_words : Direntry → List ℕ
direntry_words sd = sd.ino ∷ words_of sd.name

abbrev pub words_direntry : List ℕ → Direntry
words_direntry words = record { ino = get_or words 0 0; name = bytes_of (drop 1 words) }

-- The slot's position in the directory; a size_t has 32 bits.
abbrev pub slot_pos : ℕ → ℕ
slot_pos slot = slot * 64 % 2 ^ 32

-- The number of slots.
pub nentries : Vnode → Run ℕ
nentries sv = do
  kassert (sv.kind == type_dir)
  if sv.size % 64 == 0 then ret (sv.size / 64) else panic

-- What a search has found: the entry's inode and slot, and a slot that is free.
pub record Found : Type 0 where
  pub found : Bool
  pub ino : ℕ
  pub slot : ℕ
  pub emptyslot : Option ℕ

abbrev pub nothing : Found
nothing = record { found = false; ino = 0; slot = 0; emptyslot = none }

-- The body of the loop, for the entry read from slot `i`.
unfoldable pub examine : List ℕ → ℕ → Direntry → Found → Run Found
examine name i sd s =
    let named : Run Found = do
      order ← strcmp (set sd.name 59 0) name
      let noted : Run Found = do
        kassert (not s.found)
        ret (record s { found = true; slot = i; ino = sd.ino })
      if order == 0 then noted else ret s
    in if sd.ino == noino then ret (record s { emptyslot = some i }) else named

module _ {S : Type 0} (dev : Device S) where
  unfoldable pub readdir : Fs S → Vnode → ℕ → Run (Reply Direntry × Fs S × Vnode)
  readdir fs sv slot = do
    (r, fs, sv) ← metaio_read dev fs sv (slot_pos slot) 16
    elim r [ err e ↦ ret (err e, fs, sv) | ok words ↦ ret (ok (words_direntry words), fs, sv) ]

  unfoldable pub writedir : Fs S → Vnode → ℕ → Direntry → Run (ℕ × Fs S × Vnode)
  writedir fs sv slot sd = do
    (r, fs, sv) ← metaio_write dev fs sv (slot_pos slot) (direntry_words sd)
    elim r [ err e ↦ ret (e, fs, sv) | ok _ ↦ ret (0, fs, sv) ]

  -- The loop over the slots from `i` on, `left` of them. The number that sfs_dir_findname returns comes
  -- first.
  unfoldable pub scan : List ℕ → ℕ → ℕ → Found → Fs S → Vnode → Run (ℕ × Found × Fs S × Vnode)
  scan name zero i s fs sv = ret (if s.found then 0 else enoent, s, fs, sv)
  scan name (suc left) i s fs sv = do
    (r, fs, sv) ← readdir fs sv i
    elim r [
      | err e ↦ ret (e, s, fs, sv)
      | ok sd ↦ do s ← examine name i sd s; scan name left (suc i) s fs sv
    ]

  unfoldable pub dir_findname : Fs S → Vnode → List ℕ → Run (ℕ × Found × Fs S × Vnode)
  dir_findname fs sv name = do n ← nentries sv; scan name n 0 nothing fs sv

  -- The number that sfs_dir_link returns, and the slot.
  unfoldable pub dir_link : Fs S → Vnode → List ℕ → ℕ → Run (ℕ × Option ℕ × Fs S × Vnode)
  dir_link fs sv name ino = do
    (r, s, fs, sv) ← dir_findname fs sv name
    let place : Run (ℕ × Option ℕ × Fs S × Vnode) = do
      slot ← elim s.emptyslot as (λ _. Run ℕ) [ none ↦ nentries sv | some i ↦ ret i ]
      copied ← strcpy (replicate namelen 0) name
      (r, fs, sv) ← writedir fs sv slot (record { ino = ino; name = copied })
      ret (r, some slot, fs, sv)
    let add : Run (ℕ × Option ℕ × Fs S × Vnode) = do
      len ← strlen name
      if ltb namelen (len + 1) then ret (enametoolong, none, fs, sv) else place
    if not (r == 0) && not (r == enoent)
        then ret (r, none, fs, sv)
        else if r == 0
        then ret (eexist, none, fs, sv)
        else add

  unfoldable pub dir_unlink : Fs S → Vnode → ℕ → Run (ℕ × Fs S × Vnode)
  dir_unlink fs sv slot = writedir fs sv slot (record { ino = noino; name = replicate namelen 0 })
