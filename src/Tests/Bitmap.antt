-- ===== src/Tests/Bitmap.antt =====
-- Tests of kern/lib/bitmap.c: a bitmap of ten bits.
use prog.Bitmap.{Bitmap, alloc, alloc_loop, alloc_in, scan_offset, mark_leftover}
use prog.Bitmap.View.{used}
use prog.Bitmap.Alloc.{Allocated, alloc_least}
use prog.Bitmap.Create.{padded, padded-IsValid}
use prog.Bitmap.View
use prog.Prelude.{◌≡◌, refl, ret, ok, arith, []}
use prog.Prelude.{◌∷◌}

abbrev ten : Bitmap
ten = padded 10

ten-IsValid : View.IsValid ten
ten-IsValid = padded-IsValid 10 (omega arith)

alloc_runs : alloc ten ≡ ret (ok 0, record { nbits = 10; v = 1 ∷ 252 ∷ [] })
unfolding alloc alloc_loop alloc_in scan_offset mark_leftover
alloc_runs = refl

alloc_least_example : Allocated ten (alloc ten)
alloc_least_example = alloc_least ten-IsValid
