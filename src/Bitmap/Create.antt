-- ===== src/Bitmap/Create.antt =====
-- bitmap_create makes a valid bitmap with nothing used.
use prog.Bitmap.{Bitmap, words_for, mark_leftover, create}
use prog.Bitmap.Bytes.{bit, each_under, each_under-at, beq, beq_sound}
use prog.Bitmap.View.{IsValid, used, used-put, get_elem?-put}
use prog.Prelude.{
  ℕ, ◌-◌, ◌*◌, ◌/◌, ◌%◌, ◌<◌, ◌≤◌, ltb, leb, ◌≡◌, refl, Bool, true, false, ◌&&◌, arith, some,
  get_elem?, set, ret, replicate, length-replicate, get_elem?-replicate, get_elem?-replicate_ge,
  get_elem?-replicate_lt, length-set, Bool-cases, inl, inr, ◌∙◌, sym,
}

leftover_test : ℕ → Bool
leftover_test o =
    ltb (mark_leftover (8 - o) o 0) 256
    && each_under 8 λ p. beq (bit (mark_leftover (8 - o) o 0) p) (leb o p)

leftover_table : each_under 8 leftover_test ≡ true
unfolding each_under leftover_test mark_leftover
leftover_table = refl

leftover_bits : (o p : ℕ) → o < 8 → p < 8 → bit (mark_leftover (8 - o) o 0) p ≡ leb o p
unfolding leftover_test
leftover_bits o p ho hp =
    let h = each_under-at 8 leftover_test o leftover_table ho in
    beq_sound _ _ (
      each_under-at 8 (λ p. beq (bit (mark_leftover (8 - o) o 0) p) (leb o p)) p (ground (arith, h))
        hp)

leftover_byte : (o : ℕ) → o < 8 → mark_leftover (8 - o) o 0 < 256
unfolding leftover_test
leftover_byte o ho = ground (arith, each_under-at 8 leftover_test o leftover_table ho)

no_bits_table : each_under 8 (λ p. beq (bit 0 p) false) ≡ true
unfolding each_under
no_bits_table = refl

-- The bitmap before the loop at the end.
abbrev pub zeroed : ℕ → Bitmap
zeroed n = record { nbits = n; v = replicate (words_for n) 0 }

no_bits : (p : ℕ) → p < 8 → bit 0 p ≡ false
no_bits p h = beq_sound _ _ (each_under-at 8 (λ p. beq (bit 0 p) false) p no_bits_table h)

used-zeroed : (n j : ℕ) → used (zeroed n) j ≡ leb (words_for n) (j / 8)
unfolding used
used-zeroed n j = elim (Bool-cases (leb (words_for n) (j / 8))) [
  | inl past ↦
      let e = get_elem?-replicate_ge {A = ℕ} (words_for n) (j / 8) 0 (ground arith) in rw (past, e)
  | inr inside ↦
      let e = get_elem?-replicate_lt {A = ℕ} (words_for n) (j / 8) 0 (ground arith) in
      rw (inside, e, no_bits (j % 8) (omega arith))
]

module _ (n : ℕ) where
  zero_word : (i w : ℕ) → get_elem? (zeroed n).v i ≡ some w → w ≡ 0
  zero_word i w e = sym (get_elem?-replicate (words_for n) i 0 w e)

  whole : (words_for n ≤ n / 8) → IsValid (zeroed n)
  whole h = record {
    size = length-replicate (words_for n) 0;
    bytes = λ i w e. omega (arith, zero_word i w e);
    leftover = λ j h'. used-zeroed n j ∙ ground arith;
  }

  abbrev pub last : ℕ
  last = words_for n - 1

  abbrev pub over : ℕ
  over = n - last * 8

  abbrev pub padded : Bitmap
  padded = record { nbits = n; v = set (zeroed n).v last (mark_leftover (8 - over) over 0) }

  module _ (rest : n / 8 < words_for n) where
    at_last : get_elem? (zeroed n).v last ≡ some 0
    at_last = get_elem?-replicate_lt (words_for n) last 0 (omega arith)

    used-padded : (j : ℕ) → used padded j ≡ leb n j
    used-padded j = ground (
      arith,
      used-put (zeroed n) last 0 (mark_leftover (8 - over) over 0) at_last j,
      leftover_bits over (j % 8) (omega arith) (omega arith),
      used-zeroed n j,
    )

    pub padded-IsValid : IsValid padded
    padded-IsValid = record {
      size = length-set (zeroed n).v last _ ∙ length-replicate (words_for n) 0;
      bytes = λ i w e. elim (get_elem?-put (zeroed n) last 0 _ at_last i w e) [
        | inl (_, same) ↦ rw same (leftover_byte over (omega arith))
        | inr old ↦ omega (arith, zero_word i w old)
      ];
      leftover = λ j h. used-padded j ∙ ground arith;
    }

-- bitmap_create never fails an assertion. Its bitmap is valid, has the size asked for, and has
-- exactly the indices from there on marked.
pub create-empty :
    (n : ℕ)
    → (b : Bitmap) × (create n ≡ ret b) × IsValid b × (b.nbits ≡ n) × ((j : ℕ) → used b j ≡ leb n j)
unfolding create
create-empty n = elim (Bool-cases (ltb (n / 8) (words_for n))) [
  | inr exact ↦
      (zeroed n, ground arith, whole n (ground arith), refl, λ j. used-zeroed n j ∙ ground arith)
  | inl rest ↦
      let more : n / 8 < words_for n = ground arith in
      (padded n, ground (arith, at_last n more), padded-IsValid n more, refl, used-padded n more)
]
