-- ===== src/Tests/Arrays.antt =====
-- Tests of array.c: an array of two items in four words, and one that is full.
use prog.Array.{Array, array_get, array_set, array_remove, array_add, grown}
use prog.Array.Growth.{grown_ends}
use prog.Array.Items.{IsValid, Allocates, items, array_items, array_append}
use prog.Prelude.Errno.{enomem}
use prog.Prelude.{
  ℕ, ◌*◌, ◌/◌, ◌<◌, ◌≤◌, ◌≡◌, ◌⊎◌, refl, sym, ap, ◌∙◌, List, [], ◌∷◌, Option, some, ret, ok, err,
  arith, get_elem?, replicate, length, length-replicate,
}

abbrev two : Array
two = record { v = 5 ∷ 6 ∷ 0 ∷ 0 ∷ []; num = 2; max = 4 }

abbrev four : Array
four = record { v = 5 ∷ 6 ∷ 7 ∷ 8 ∷ []; num = 4; max = 4 }

two-IsValid : IsValid two
two-IsValid = record { room = omega arith; size = refl; bounded = omega arith }

four-IsValid : IsValid four
four-IsValid = record { room = omega arith; size = refl; bounded = omega arith }

abbrev kmalloc : ℕ → Option (List ℕ)
kmalloc n = some (replicate (n / 4) 9)

kmalloc-Allocates : Allocates kmalloc
kmalloc-Allocates n raw h =
    let same : replicate (n * 4 / 4) 9 ≡ raw = cc in
    let size : n * 4 / 4 ≡ n = omega arith in
    ap length (sym same) ∙ length-replicate {A = ℕ} (n * 4 / 4) 9 ∙ size

array_items_example :
    ((y : ℕ) × (array_get two 0 ≡ ret y) × (get_elem? (5 ∷ 6 ∷ []) 0 ≡ some y))
    × ((b : Array) × (array_set two 0 3 ≡ ret b) × IsValid b × (items b ≡ 3 ∷ 6 ∷ []))
    × ((b : Array) × (array_remove two 0 ≡ ret b) × IsValid b × (items b ≡ 6 ∷ []))
array_items_example = array_items two two-IsValid 0 3 (omega arith)

array_append_example :
    (array_add kmalloc 3 four ≡ ret (err enomem, four))
    ⊎ ((b : Array) × (array_add kmalloc 3 four ≡ ret (ok 4, b))
        × IsValid b
        × (items b ≡ 5 ∷ 6 ∷ 7 ∷ 8 ∷ 3 ∷ []))
array_append_example = array_append four four-IsValid kmalloc 3 kmalloc-Allocates (omega arith)

grown_ends_example :
    (m : ℕ) × (grown 33 9 4 ≡ some m) × (9 ≤ m) × ((m ≡ 4) ⊎ ((m ≡ 4) ⊎ (m < 2 * 9)))
grown_ends_example = grown_ends 9 4 (omega arith)
