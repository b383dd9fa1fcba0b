-- ===== src/Bitmap.antt =====
-- kern/lib/bitmap.c: a fixed-size array of bits in bytes. kmalloc and its failures stay outside.
pub mod Bytes
pub mod View
pub mod Mark
pub mod Alloc
pub mod Create
use prog.Prelude.Errno.{enospc}
use prog.Prelude.{
  ℕ, zero, suc, ◌+◌, ◌-◌, ◌*◌, ◌/◌, ◌%◌, ◌^◌, bit_and, bit_or, ltb, ◌==◌, not, if◌then◌else◌, List,
  Option, none, some, get_elem?, set, replicate, length, Run, ret, panic, wild, kassert, deref,
  ◌>>=◌, ◌>>◌, Reply, ok, err,
}

pub record Bitmap : Type 0 where
  pub nbits : ℕ
  pub v : List ℕ

-- DIVROUNDUP(nbits, BITS_PER_WORD)
abbrev pub words_for : ℕ → ℕ
words_for nbits = (nbits + 7) / 8

-- for (j=overbits; j<BITS_PER_WORD; j++) w |= 1 << j, over the rounds left.
unfoldable pub mark_leftover : ℕ → ℕ → ℕ → ℕ
mark_leftover zero j w = w
mark_leftover (suc k) j w = mark_leftover k (j + 1) (bit_or w (2 ^ j))

pub create : ℕ → Run Bitmap
unfolding mark_leftover
create nbits =
    let words = words_for nbits in
    let fresh : Bitmap = record { nbits = nbits; v = replicate words 0 } in
    let ix = words - 1 in
    let overbits = nbits - ix * 8 in
    let filled : Run Bitmap = do
      kassert (nbits / 8 == words - 1)
      kassert (ltb 0 overbits)
      kassert (ltb overbits 8)
      w ← deref (get_elem? fresh.v ix)
      ret (record fresh { v = set fresh.v ix (mark_leftover (8 - overbits) overbits w) })
    in if ltb (nbits / 8) words then filled else ret fresh

-- The inner loop of bitmap_alloc: the first clear bit of a word.
unfoldable pub scan_offset : ℕ → ℕ → ℕ → Option ℕ
scan_offset zero offset w = none
scan_offset (suc k) offset w =
    let rest = scan_offset k (offset + 1) w in
    if bit_and w (2 ^ offset) == 0 then some offset else rest

unfoldable pub alloc_in : ℕ → ℕ → Bitmap → Run (Reply ℕ × Bitmap)
alloc_in ix w b = elim (scan_offset 8 0 w) [
  | none ↦ panic
  | some offset ↦
      let index = ix * 8 + offset in
      if ltb index b.nbits
      then ret (ok index, record b { v = set b.v ix (bit_or w (2 ^ offset)) })
      else panic
]

-- The outer loop, over the rounds left.
unfoldable pub alloc_loop : ℕ → ℕ → Bitmap → Run (Reply ℕ × Bitmap)
alloc_loop zero ix b = ret (err enospc, b)
alloc_loop (suc k) ix b =
    let rest = alloc_loop k (ix + 1) b in
    elim (get_elem? b.v ix) [ none ↦ wild | some w ↦ if w == 255 then rest else alloc_in ix w b ]

unfoldable pub alloc : Bitmap → Run (Reply ℕ × Bitmap)
alloc b = alloc_loop (words_for b.nbits) 0 b

-- bitmap_translate: the word and the mask of a bit.
abbrev pub translate : ℕ → ℕ × ℕ
translate bitno = (bitno / 8, 2 ^ (bitno % 8))

pub mark : Bitmap → ℕ → Run Bitmap
mark b index =
    let (ix, mask) = translate index in
    do
      kassert (ltb index b.nbits)
      w ← deref (get_elem? b.v ix)
      kassert (bit_and w mask == 0)
      ret (record b { v = set b.v ix (bit_or w mask) })

pub unmark : Bitmap → ℕ → Run Bitmap
unmark b index =
    let (ix, mask) = translate index in
    do
      kassert (ltb index b.nbits)
      w ← deref (get_elem? b.v ix)
      kassert (not (bit_and w mask == 0))
      ret (record b { v = set b.v ix (bit_and w (255 - mask)) })

-- Nonzero exactly when the bit is set; there is no test of the index.
unfoldable pub isset : Bitmap → ℕ → Run ℕ
isset b index =
    let (ix, mask) = translate index in do w ← deref (get_elem? b.v ix); ret (bit_and w mask)
