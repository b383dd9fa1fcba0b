-- ===== src/Array.antt =====
-- kern/lib/array.c and kern/include/array.h: arrays of pointers that grow. kmalloc is a parameter: for
-- a number of bytes, a block of words or NULL.
pub mod Growth
pub mod Items
use prog.Prelude.Errno.{enomem}
use prog.Prelude.{
  ℕ, zero, suc, ◌+◌, ◌-◌, ◌*◌, ◌%◌, ◌^◌, ltb, leb, ◌==◌, ◌||◌, if◌then◌else◌, List, [], ◌++◌, Bool,
  Option, none, some, Run, ret, wild, kassert, deref, ◌>>=◌, ◌>>◌, Reply, ok, err, length,
  get_elem?, set, take, drop, splice,
}

-- struct array.
pub record Array : Type 0 where
  pub v : List ℕ
  pub num : ℕ
  pub max : ℕ

abbrev pub array_init : Array
array_init = record { v = []; num = 0; max = 0 }

-- `made` tells whether kmalloc gave memory.
pub array_create : Bool → Option Array
array_create made = if made then some array_init else none

pub array_cleanup : Array → Run (Unit {0})
array_cleanup a = kassert (a.num == 0)

-- while (num > newmax) newmax = newmax ? newmax*2 : 4; in at most as many rounds as the first argument.
unfoldable pub grown : ℕ → ℕ → ℕ → Option ℕ
grown zero num newmax = none
grown (suc rounds) num newmax =
    let rest = grown rounds num (if newmax == 0 then 4 else newmax * 2 % 2 ^ 32) in
    if ltb newmax num then rest else some newmax

-- memcpy of the first `n` words of `v` to a new block.
abbrev pub copy_over : ℕ → List ℕ → List ℕ → Run (List ℕ)
copy_over n v raw =
    if ltb (length v) n || ltb (length raw) n then wild else ret (splice 0 (take n v) raw)

abbrev pub store : List ℕ → ℕ → ℕ → Run (List ℕ)
store v i x = if ltb i (length v) then ret (set v i x) else wild

-- A search for the new size that takes more than 33 rounds does not end; this is `wild`.
unfoldable pub array_preallocate :
    (ℕ → Option (List ℕ)) → ℕ → Array → Run (Reply (Unit {0}) × Array)
array_preallocate kmalloc num a = do
  let more : Run (Reply (Unit {0}) × Array) = do
    newmax ← deref (grown 33 num a.max)
    elim (kmalloc (newmax * 4 % 2 ^ 32)) as (λ _. Run (Reply (Unit {0}) × Array)) [
      | none ↦ ret (err enomem, a)
      | some raw ↦ do v ← copy_over a.num a.v raw; ret (ok tt, record a { v = v; max = newmax })
    ]
  if ltb a.max num then more else ret (ok tt, a)

unfoldable pub array_setsize : (ℕ → Option (List ℕ)) → ℕ → Array → Run (Reply (Unit {0}) × Array)
array_setsize kmalloc num a = do
  (r, a) ← array_preallocate kmalloc num a
  elim r [ err e ↦ ret (err e, a) | ok _ ↦ ret (ok tt, record a { num = num }) ]

unfoldable pub array_get : Array → ℕ → Run ℕ
array_get a index = do kassert (ltb index a.num); deref (get_elem? a.v index)

unfoldable pub array_set : Array → ℕ → ℕ → Run Array
array_set a index val = do
  kassert (ltb index a.num)
  v ← store a.v index val
  ret (record a { v = v })

-- The index of the new element comes back.
unfoldable pub array_add : (ℕ → Option (List ℕ)) → ℕ → Array → Run (Reply ℕ × Array)
array_add kmalloc val a = do
  let index = a.num
  (r, a) ← array_setsize kmalloc ((index + 1) % 2 ^ 32) a
  elim r [
    | err e ↦ ret (err e, a)
    | ok _ ↦ do v ← store a.v index val; ret (ok index, record a { v = v })
  ]

-- memmove(v + index, v + index + 1, n words).
abbrev pub close_gap : ℕ → ℕ → List ℕ → Run (List ℕ)
close_gap index n v =
    if ltb (length v) (index + 1 + n)
    then wild
    else ret (splice index (take n (drop (suc index) v)) v)

unfoldable pub array_remove : Array → ℕ → Run Array
array_remove a index = do
  kassert (leb a.num a.max)
  kassert (ltb index a.num)
  v ← close_gap index (a.num - (index + 1)) a.v
  ret (record a { v = v; num = a.num - 1 })
