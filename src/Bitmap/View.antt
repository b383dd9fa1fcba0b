-- ===== src/Bitmap/View.antt =====
-- A bitmap as the set of its used indices, its invariant, and the effect of writing one word.
use prog.Bitmap.{Bitmap, words_for}
use prog.Bitmap.Bytes.{bit, bit-bit_or, bit-bit_and, byte_bounds}
use prog.Prelude.{
  ℕ, ◌+◌, ◌-◌, ◌*◌, ◌/◌, ◌%◌, ◌^◌, ◌<◌, ◌≤◌, bit_and, bit_or, ◌==◌, ◌≡◌, Bool, true, ◌&&◌, ◌||◌,
  not, if◌then◌else◌, arith, Option, none, some, get_elem?, set, length, length-set,
  get_elem?-set_self, get_elem?-set_ne, lt_of_get_elem?, Bool-cases, ◌⊎◌, inl, inr, ==_iff, subst,
  sym, ◌∙◌,
}

-- Bits past the end count as used.
abbrev pub used_in : Option ℕ → ℕ → Bool
used_in none p = true
used_in (some w) p = bit w p

unfoldable pub used : Bitmap → ℕ → Bool
used b i = used_in (get_elem? b.v (i / 8)) (i % 8)

-- The vector has a byte for each eight bits, and the bits from `nbits` on are marked.
pub record IsValid (b : Bitmap) : Type 0 where
  pub size : length b.v ≡ words_for b.nbits
  pub bytes : (i w : ℕ) → get_elem? b.v i ≡ some w → w < 256
  pub leftover : (j : ℕ) → b.nbits ≤ j → used b j ≡ true

module _ (b : Bitmap) (ix w w' : ℕ) (at : get_elem? b.v ix ≡ some w) where
  pub get_elem?-put :
      (j u : ℕ)
      → get_elem? (set b.v ix w') j ≡ some u
      → ((j ≡ ix) × (u ≡ w')) ⊎ (get_elem? b.v j ≡ some u)
  get_elem?-put j u e = elim (Bool-cases (ix == j)) [
    | inl hit ↦ inl (
      omega (arith, (==_iff ix j).0 hit),
      let same : ix ≡ j = (==_iff ix j).0 hit in
          let e' : get_elem? (set b.v ix w') ix ≡ some u =
            subst (λ t. get_elem? (set b.v ix w') t ≡ some u) (sym same) e in
          ground (arith, get_elem?-set_self b.v ix w' (lt_of_get_elem? b.v ix w at)),
    )
    | inr miss ↦ inr (ground (arith, get_elem?-set_ne b.v {i = ix} {j = j} w' (ground arith)))
  ]

  pub used-put :
      (j : ℕ)
      → used (record b { v = set b.v ix w' }) j ≡ (if ix == j / 8 then bit w' (j % 8) else used b j)
  unfolding used
  used-put j = elim (Bool-cases (ix == j / 8)) [
    | inl hit ↦
        let same : ix ≡ j / 8 = (==_iff ix (j / 8)).0 hit in
        rw (hit, ← same, get_elem?-set_self b.v ix w' (lt_of_get_elem? b.v ix w at))
    | inr miss ↦ rw (miss, get_elem?-set_ne b.v {i = ix} {j = j / 8} w' (ground arith))
  ]

module _ {b : Bitmap} (valid : IsValid b) (ix w o : ℕ) (at : get_elem? b.v ix ≡ some w)
    (small : o < 8) where
  same_index : (j : ℕ) → ((ix == j / 8) && (o == j % 8)) ≡ (ix * 8 + o == j)
  same_index j = ground arith

  used-here : (j : ℕ) → (ix == j / 8) ≡ true → bit w (j % 8) ≡ used b j
  unfolding used
  used-here j hit = let same : ix ≡ j / 8 = (==_iff ix (j / 8)).0 hit in rw (← same, at)

  -- Setting a bit of one word adds one index to the set of used ones.
  pub used-set_bit :
      (j : ℕ)
      → used (record b { v = set b.v ix (bit_or w (2 ^ o)) }) j ≡ ((ix * 8 + o == j) || used b j)
  used-set_bit j = ground (
    arith,
    used-put b ix w (bit_or w (2 ^ o)) at j,
    bit-bit_or w o (j % 8) (valid.bytes ix w at) small (omega arith),
    same_index j,
    used-here j,
  )

  -- Clearing it takes that index out.
  pub used-clear_bit :
      (j : ℕ)
      → used (record b { v = set b.v ix (bit_and w (255 - 2 ^ o)) }) j
        ≡ (not (ix * 8 + o == j) && used b j)
  used-clear_bit j = ground (
    arith,
    used-put b ix w (bit_and w (255 - 2 ^ o)) at j,
    bit-bit_and w o (j % 8) (valid.bytes ix w at) small (omega arith),
    same_index j,
    used-here j,
  )

  pub set_bit-IsValid : IsValid (record b { v = set b.v ix (bit_or w (2 ^ o)) })
  set_bit-IsValid = record {
    size = length-set b.v ix _ ∙ valid.size;
    bytes = λ j u e. elim (get_elem?-put b ix w _ at j u e) [
      | inl (_, same) ↦ rw same (byte_bounds w o (valid.bytes ix w at) small).0
      | inr old ↦ valid.bytes j u old
    ];
    leftover = λ j h. ground (arith, used-set_bit j, valid.leftover j);
  }

  pub clear_bit-IsValid :
      ix * 8 + o < b.nbits → IsValid (record b { v = set b.v ix (bit_and w (255 - 2 ^ o)) })
  clear_bit-IsValid inside = record {
    size = length-set b.v ix _ ∙ valid.size;
    bytes = λ j u e. elim (get_elem?-put b ix w _ at j u e) [
      | inl (_, same) ↦ rw same (byte_bounds w o (valid.bytes ix w at) small).1
      | inr old ↦ valid.bytes j u old
    ];
    leftover = λ j h. ground (arith, used-clear_bit j, valid.leftover j);
  }
