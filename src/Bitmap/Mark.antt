-- ===== src/Bitmap/Mark.antt =====
-- bitmap_mark, bitmap_unmark and bitmap_isset against the set of used indices.
use prog.Bitmap.{Bitmap, mark, unmark, isset}
use prog.Bitmap.Bytes.{bit}
use prog.Bitmap.View.{
  IsValid, used, used-set_bit, used-clear_bit, set_bit-IsValid, clear_bit-IsValid,
}
use prog.Prelude.{
  ℕ, ◌+◌, ◌-◌, ◌*◌, ◌/◌, ◌%◌, ◌^◌, ◌<◌, ◌≤◌, bit_and, bit_or, ltb, ◌==◌, ◌≡◌, refl, true, false,
  ◌&&◌, ◌||◌, not, arith, some, get_elem?, set, Run, ret, panic, get_elem?-some, Bool-cases, ◌⊎◌,
  inl, inr, ◌∙◌, sym, ap,
}

-- `b'` is `b` with `i` marked, or with `i` clear.
pub record Marked (b : Bitmap) (i : ℕ) (b' : Bitmap) : Type 0 where
  pub valid : IsValid b'
  pub same_size : b'.nbits ≡ b.nbits
  pub bits : (j : ℕ) → used b' j ≡ ((i == j) || used b j)

pub record Unmarked (b : Bitmap) (i : ℕ) (b' : Bitmap) : Type 0 where
  pub valid : IsValid b'
  pub same_size : b'.nbits ≡ b.nbits
  pub bits : (j : ℕ) → used b' j ≡ (not (i == j) && used b j)

abbrev pub MarkOutcome : Bitmap → ℕ → Run Bitmap → Type 0
MarkOutcome b i r =
    ((i < b.nbits) × (used b i ≡ false) × (b' : Bitmap) × (r ≡ ret b') × Marked b i b')
    ⊎ (((b.nbits ≤ i) ⊎ (used b i ≡ true)) × (r ≡ panic))

abbrev pub UnmarkOutcome : Bitmap → ℕ → Run Bitmap → Type 0
UnmarkOutcome b i r =
    ((i < b.nbits) × (used b i ≡ true) × (b' : Bitmap) × (r ≡ ret b') × Unmarked b i b')
    ⊎ (((b.nbits ≤ i) ⊎ (used b i ≡ false)) × (r ≡ panic))

module _ {b : Bitmap} (valid : IsValid b) (i : ℕ) where
  word_of : i < b.nbits → (w : ℕ) × (get_elem? b.v (i / 8) ≡ some w)
  word_of h = get_elem?-some b.v (i / 8) (omega (arith, valid.size))

  used_word : (w : ℕ) → get_elem? b.v (i / 8) ≡ some w → used b i ≡ bit w (i % 8)
  unfolding used
  used_word w e = rw e

  position : (i / 8) * 8 + i % 8 ≡ i
  position = omega arith

  mark-panic_outside : b.nbits ≤ i → mark b i ≡ panic
  unfolding mark
  mark-panic_outside h = ground arith

  unmark-panic_outside : b.nbits ≤ i → unmark b i ≡ panic
  unfolding unmark
  unmark-panic_outside h = ground arith

  pub mark_clear :
      i < b.nbits → used b i ≡ false → (b' : Bitmap) × (mark b i ≡ ret b') × Marked b i b'
  unfolding mark
  mark_clear h clear =
      let (w, e) = word_of h in
      (
        record b { v = set b.v (i / 8) (bit_or w (2 ^ (i % 8))) },
        ground (arith, e, used_word w e),
        record {
          valid = set_bit-IsValid valid (i / 8) w (i % 8) e (omega arith);
          same_size = refl;
          bits = λ j.
              used-set_bit valid (i / 8) w (i % 8) e (omega arith) j
              ∙ ap (λ n. (n == j) || used b j) position;
        },
      )

  pub unmark-used :
      i < b.nbits → used b i ≡ true → (b' : Bitmap) × (unmark b i ≡ ret b') × Unmarked b i b'
  unfolding unmark
  unmark-used h marked =
      let (w, e) = word_of h in
      (
        record b { v = set b.v (i / 8) (bit_and w (255 - 2 ^ (i % 8))) },
        ground (arith, e, used_word w e),
        record {
          valid = clear_bit-IsValid valid (i / 8) w (i % 8) e (omega arith) (omega arith);
          same_size = refl;
          bits = λ j.
              used-clear_bit valid (i / 8) w (i % 8) e (omega arith) j
              ∙ ap (λ n. not (n == j) && used b j) position;
        },
      )

  mark-panic_used : i < b.nbits → used b i ≡ true → mark b i ≡ panic
  unfolding mark
  mark-panic_used h marked = let (w, e) = word_of h in ground (arith, e, used_word w e)

  unmark-panic_clear : i < b.nbits → used b i ≡ false → unmark b i ≡ panic
  unfolding unmark
  unmark-panic_clear h clear = let (w, e) = word_of h in ground (arith, e, used_word w e)

  -- On a valid bitmap bitmap_mark either marks a clear index below nbits, adding just that one,
  -- or fails its assertion, which it does exactly for the other indices.
  pub mark_lem : MarkOutcome b i (mark b i)
  mark_lem = elim (Bool-cases (ltb i b.nbits)) [
    | inr outside ↦ inr (inl (ground arith), mark-panic_outside (ground arith))
    | inl inside ↦ elim (Bool-cases (used b i)) [
      | inl marked ↦ inr (inr marked, mark-panic_used (ground arith) marked)
      | inr clear ↦
          let (b', e, m) = mark_clear (ground arith) clear in inl (ground arith, clear, b', e, m)
    ]
  ]

  -- On a valid bitmap bitmap_unmark either clears a used index below nbits, and just that one, or
  -- fails its assertion, which it does exactly for the other indices.
  pub unmark_lem : UnmarkOutcome b i (unmark b i)
  unmark_lem = elim (Bool-cases (ltb i b.nbits)) [
    | inr outside ↦ inr (inl (ground arith), unmark-panic_outside (ground arith))
    | inl inside ↦ elim (Bool-cases (used b i)) [
      | inr clear ↦ inr (inr clear, unmark-panic_clear (ground arith) clear)
      | inl marked ↦
          let (b', e, m) = unmark-used (ground arith) marked in inl (ground arith, marked, b', e, m)
    ]
  ]

  -- On a valid bitmap, and below nbits, bitmap_isset reads within the vector and is nonzero exactly on the used indices.
  pub isset-used : i < b.nbits → (n : ℕ) × (isset b i ≡ ret n) × (not (n == 0) ≡ used b i)
  unfolding isset
  isset-used h =
      let (w, e) = word_of h in (bit_and w (2 ^ (i % 8)), ground (arith, e), sym (used_word w e))
