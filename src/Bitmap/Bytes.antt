-- ===== src/Bitmap/Bytes.antt =====
-- The bits of one byte, by tables over all values.
use prog.Prelude.{
  ℕ, zero, suc, ◌-◌, ◌^◌, ◌<◌, bit_and, bit_or, ltb, ◌==◌, ◌≡◌, refl, Bool, true, false, ◌&&◌, ◌||◌,
  not, arith,
}

-- A test of every number under a bound.
unfoldable pub each_under : ℕ → (ℕ → Bool) → Bool
each_under zero test = true
each_under (suc top) test = test top && each_under top test

pub each_under-at :
    (top : ℕ) (test : ℕ → Bool) (i : ℕ) → each_under top test ≡ true → i < top → test i ≡ true
unfolding each_under
each_under-at zero test i passed under = absurd (omega arith)
each_under-at (suc top) test i passed under = ground (arith, each_under-at top test i)

-- Bit `o` of a byte.
abbrev pub bit : ℕ → ℕ → Bool
bit w o = not (bit_and w (2 ^ o) == 0)

abbrev pub beq : Bool → Bool → Bool
beq true b = b
beq false b = not b

pub beq_sound : (a b : Bool) → beq a b ≡ true → a ≡ b
beq_sound a b h = ground arith

set_test : ℕ → Bool
set_test w =
    each_under 8 λ o. each_under 8 λ p. beq (bit (bit_or w (2 ^ o)) p) ((o == p) || bit w p)

set_table : each_under 256 set_test ≡ true
unfolding each_under set_test
set_table = refl

clear_test : ℕ → Bool
clear_test w =
    each_under 8
      λ o. each_under 8 λ p. beq (bit (bit_and w (255 - 2 ^ o)) p) (not (o == p) && bit w p)

clear_table : each_under 256 clear_test ≡ true
unfolding each_under clear_test
clear_table = refl

byte_test : ℕ → Bool
byte_test w = each_under 8 λ o. ltb (bit_or w (2 ^ o)) 256 && ltb (bit_and w (255 - 2 ^ o)) 256

byte_table : each_under 256 byte_test ≡ true
unfolding each_under byte_test
byte_table = refl

pub bit-bit_or :
    (w o p : ℕ) → w < 256 → o < 8 → p < 8 → bit (bit_or w (2 ^ o)) p ≡ ((o == p) || bit w p)
unfolding set_test
bit-bit_or w o p hw ho hp =
    let h = each_under-at 256 set_test w set_table hw in
    let h' = each_under-at 8 _ o h ho in beq_sound _ _ (each_under-at 8 _ p h' hp)

pub bit-bit_and :
    (w o p : ℕ)
    → w < 256
    → o < 8
    → p < 8
    → bit (bit_and w (255 - 2 ^ o)) p ≡ (not (o == p) && bit w p)
unfolding clear_test
bit-bit_and w o p hw ho hp =
    let h = each_under-at 256 clear_test w clear_table hw in
    let h' = each_under-at 8 _ o h ho in beq_sound _ _ (each_under-at 8 _ p h' hp)

pub byte_bounds :
    (w o : ℕ) → w < 256 → o < 8 → (bit_or w (2 ^ o) < 256) × (bit_and w (255 - 2 ^ o) < 256)
unfolding byte_test
byte_bounds w o hw ho =
    let h = each_under-at 256 byte_test w byte_table hw in
    let h' = each_under-at 8 _ o h ho in ground (arith, h')
