-- ===== src/Array/Items.antt =====
-- An array implements a list: what each operation does to its items.
use prog.Array.{
  Array, array_preallocate, array_setsize, array_get, array_set, array_add, array_remove, grown,
}
use prog.Array.Growth.{grown_ends}
use prog.Prelude.Errno.{enomem}
use prog.Prelude.{
  ℕ, zero, suc, ◌+◌, ◌-◌, ◌*◌, ◌%◌, ◌^◌, ◌<◌, ◌≤◌, ◌≡◌, ◌⊎◌, inl, inr, refl, sym, ap, ◌∙◌, ltb, leb,
  ◌||◌, List, [], ◌∷◌, ◌++◌, true, false, Option, none, some, ret, ok, err, arith, length,
  get_elem?, set, take, drop, splice, length-append, length-take, length-drop, length-set,
  length-splice, get_elem?-some, Bool-cases,
}

abbrev pub items : Array → List ℕ
items a = take a.num a.v

pub record IsValid (a : Array) : Type 0 where
  pub room : a.num ≤ a.max
  pub size : length a.v ≡ a.max
  pub bounded : a.max < 2 ^ 30

-- kmalloc hands back as many words as were asked for.
abbrev pub Allocates : (ℕ → Option (List ℕ)) → Type 0
Allocates kmalloc = (n : ℕ) (raw : List ℕ) → kmalloc (n * 4) ≡ some raw → length raw ≡ n

take-append_le : (n : ℕ) (xs ys : List ℕ) → n ≤ length xs → take n (xs ++ ys) ≡ take n xs
take-append_le zero xs ys h = refl
take-append_le (suc n) [] ys h = absurd (omega arith)
take-append_le (suc n) (x ∷ xs) ys h = ap (λ l. x ∷ l) (take-append_le n xs ys (omega arith))

take-take : (n : ℕ) (xs : List ℕ) → take n (take n xs) ≡ take n xs
take-take zero xs = refl
take-take (suc n) [] = refl
take-take (suc n) (x ∷ xs) = ap (λ l. x ∷ l) (take-take n xs)

take-set_last :
    (n : ℕ) (v : List ℕ) (x : ℕ) → n < length v → take (suc n) (set v n x) ≡ take n v ++ (x ∷ [])
take-set_last n [] x h = absurd (omega arith)
take-set_last zero (y ∷ v) x h = refl
take-set_last (suc n) (y ∷ v) x h = ap (λ l. y ∷ l) (take-set_last n v x (omega arith))

take-set : (n i : ℕ) (v : List ℕ) (x : ℕ) → take n (set v i x) ≡ set (take n v) i x
take-set zero i v x = refl
take-set (suc n) i [] x = refl
take-set (suc n) zero (y ∷ v) x = refl
take-set (suc n) (suc i) (y ∷ v) x = ap (λ l. y ∷ l) (take-set n i v x)

get_elem?-take : (n i : ℕ) (v : List ℕ) → i < n → get_elem? (take n v) i ≡ get_elem? v i
get_elem?-take zero i v h = absurd (omega arith)
get_elem?-take (suc n) i [] h = refl
get_elem?-take (suc n) zero (y ∷ v) h = refl
get_elem?-take (suc n) (suc i) (y ∷ v) h = get_elem?-take n i v (omega arith)

-- A list without its element at `i`.
abbrev pub erase : ℕ → List ℕ → List ℕ
erase i [] = []
erase zero (x ∷ xs) = xs
erase (suc i) (x ∷ xs) = x ∷ erase i xs

closed :
    (k i : ℕ) (v : List ℕ)
    → i ≤ k
    → suc k ≤ length v
    → take k (splice i (take (k - i) (drop (suc i) v)) v) ≡ erase i (take (suc k) v)
closed k i [] h l = absurd (omega arith)
closed k zero (x ∷ v) h l =
    let e : k - 0 ≡ k = omega arith in
    rw e (
      take-append_le k (take k v) (drop (length (take k v)) (x ∷ v))
        (omega (arith, length-take k v))
      ∙ take-take k v)
closed zero (suc i) (x ∷ v) h l = absurd (omega arith)
closed (suc k) (suc i) (x ∷ v) h l =
    let e : suc k - suc i ≡ k - i = omega arith in
    rw e (ap (λ r. x ∷ r) (closed k i v (omega arith) (omega arith)))

module _ (a : Array) (valid : IsValid a) where
  -- What making room for `num` items comes to.
  preallocated :
      (kmalloc : ℕ → Option (List ℕ))
      → Allocates kmalloc
      → (num : ℕ) → num ≤ 2 ^ 29
      → (array_preallocate kmalloc num a ≡ ret (err enomem, a))
        ⊎ ((b : Array) × (array_preallocate kmalloc num a ≡ ret (ok tt, b))
            × IsValid b
            × (b.num ≡ a.num)
            × (items b ≡ items a)
            × (num ≤ b.max))
  unfolding array_preallocate
  preallocated kmalloc allocates num top = elim (Bool-cases (ltb a.max num)) [
    | inr fits ↦ inr (a, rw fits refl, valid, refl, refl, ground (arith, fits))
    | inl more ↦
        let (m, run, big, bound) = grown_ends num a.max (omega arith) in
        let limit : m < 2 ^ 30 = elim bound [
          | inl e ↦ omega (arith, valid.bounded)
          | inr b ↦ elim b [ inl f ↦ omega arith | inr l ↦ omega arith ]
        ] in
        let bytes : m * 4 % 2 ^ 32 ≡ m * 4 = omega arith in
        made m run big limit (kmalloc (m * 4 % 2 ^ 32)) refl bytes more
  ]
    where
      made :
          (m : ℕ)
          → grown 33 num a.max ≡ some m
          → num ≤ m
          → m < 2 ^ 30
          → (o : Option (List ℕ)) → kmalloc (m * 4 % 2 ^ 32) ≡ o
          → m * 4 % 2 ^ 32 ≡ m * 4
          → ltb a.max num ≡ true
          → (array_preallocate kmalloc num a ≡ ret (err enomem, a))
            ⊎ ((b : Array) × (array_preallocate kmalloc num a ≡ ret (ok tt, b))
                × IsValid b
                × (b.num ≡ a.num)
                × (items b ≡ items a)
                × (num ≤ b.max))
      made m run big limit none e bytes more = inl (rw (more, run, e) refl)
      made m run big limit (some raw) e bytes more =
          let size : length raw ≡ m = allocates m raw (sym (ap kmalloc bytes) ∙ e) in
          let fits : (ltb (length a.v) a.num || ltb (length raw) a.num) ≡ false =
            ground (arith, valid.room, valid.size, size, big, more) in
          let old = take a.num a.v in
          let n_old : length old ≡ a.num =
            omega (arith, length-take a.num a.v, valid.room, valid.size) in
          let less : a.num ≤ m = ground (arith, valid.room, big, more) in
          inr (
            record a { v = splice 0 old raw; max = m },
            rw (more, run, e, fits) refl,
            record {
              room = less;
              size = omega (
                arith,
                length-append old (drop (length old) raw),
                length-drop (length old) raw,
                n_old,
                size,
                less,
              );
              bounded = limit;
            },
            refl,
            take-append_le a.num old (drop (length old) raw) (omega (arith, n_old))
                ∙ take-take a.num a.v,
            big,
          )

  get_item :
      (i : ℕ) → i < a.num → (x : ℕ) × (array_get a i ≡ ret x) × (get_elem? (items a) i ≡ some x)
  unfolding array_get
  get_item i h =
      let inside : ltb i a.num ≡ true = ground arith in
      let (x, e) = get_elem?-some a.v i (omega (arith, valid.room, valid.size)) in
      (x, rw (inside, e) refl, get_elem?-take a.num i a.v h ∙ e)

  set_item :
      (i x : ℕ)
      → i < a.num
      → (b : Array) × (array_set a i x ≡ ret b) × IsValid b × (items b ≡ set (items a) i x)
  unfolding array_set
  set_item i x h =
      let inside : ltb i a.num ≡ true = ground arith in
      let within : ltb i (length a.v) ≡ true = ground (arith, valid.room, valid.size) in
      (
        record a { v = set a.v i x },
        rw (inside, within) refl,
        record {
          room = valid.room;
          size = length-set a.v i x ∙ valid.size;
          bounded = valid.bounded;
        },
        take-set a.num i a.v x,
      )

  remove_item :
      (i : ℕ)
      → i < a.num
      → (b : Array) × (array_remove a i ≡ ret b) × IsValid b × (items b ≡ erase i (items a))
  unfolding array_remove
  remove_item i h =
      let whole : leb a.num a.max ≡ true = ground (arith, valid.room) in
      let inside : ltb i a.num ≡ true = ground arith in
      let within : ltb (length a.v) (i + 1 + (a.num - (i + 1))) ≡ false =
        ground (arith, valid.room, valid.size) in
      let moved = take (a.num - (i + 1)) (drop (suc i) a.v) in
      let n : a.num - (i + 1) ≡ a.num - 1 - i = omega arith in
      let back : suc (a.num - 1) ≡ a.num = omega arith in
      (
        record a { v = splice i moved a.v; num = a.num - 1 },
        rw (whole, inside, within) refl,
        record {
          room = omega (arith, valid.room);
          size =
              length-splice i moved a.v (
                omega (
                  arith,
                  length-take (a.num - (i + 1)) (drop (suc i) a.v),
                  length-drop (suc i) a.v,
                  valid.room,
                  valid.size,
                ))
              ∙ valid.size;
          bounded = valid.bounded;
        },
        ap (λ l. take (a.num - 1) (splice i (take l (drop (suc i) a.v)) a.v)) n
            ∙ closed (a.num - 1) i a.v (omega arith) (omega (arith, valid.room, valid.size))
            ∙ ap (λ l. erase i (take l a.v)) back,
      )

  -- Refinement of a list: on a valid array, array_get and array_set of an index below its size read and
  -- write that item, and array_remove of it takes that item out and moves up those that follow. The
  -- array is valid again.
  pub array_items :
      (i x : ℕ)
      → i < a.num
      → ((y : ℕ) × (array_get a i ≡ ret y) × (get_elem? (items a) i ≡ some y))
        × ((b : Array) × (array_set a i x ≡ ret b) × IsValid b × (items b ≡ set (items a) i x))
        × ((b : Array) × (array_remove a i ≡ ret b) × IsValid b × (items b ≡ erase i (items a)))
  array_items i x h = (get_item i h, set_item i x h, remove_item i h)

  -- Refinement of a list: array_add to a valid array, below 2^29 items and with a kmalloc that hands out as much as is asked for, appends
  -- an item and hands back its index, the array being valid again, or fails with ENOMEM and changes nothing.
  pub array_append :
      (kmalloc : ℕ → Option (List ℕ)) (x : ℕ)
      → Allocates kmalloc
      → a.num < 2 ^ 29
      → (array_add kmalloc x a ≡ ret (err enomem, a))
        ⊎ ((b : Array) × (array_add kmalloc x a ≡ ret (ok a.num, b))
            × IsValid b
            × (items b ≡ items a ++ (x ∷ [])))
  unfolding array_add array_setsize
  array_append kmalloc x allocates h =
      let plain : (a.num + 1) % 2 ^ 32 ≡ suc a.num = omega arith in
      elim (preallocated kmalloc allocates (suc a.num) (omega arith)) [
        | inl failed ↦ inl (rw (plain, failed) refl)
        | inr (b, run, good, same, kept, space) ↦
            let within : ltb a.num (length b.v) ≡ true = ground (arith, good.size, space) in
            let joined = take-set_last a.num b.v x (omega (arith, good.size, space)) in
            let old = ap (λ n. take n b.v) (sym same) ∙ kept in
            inr (
              record b { v = set b.v a.num x; num = suc a.num },
              rw (plain, run, within, plain) refl,
              record {
                room = space;
                size = length-set b.v a.num x ∙ good.size;
                bounded = good.bounded;
              },
              joined ∙ ap (λ l. l ++ (x ∷ [])) old,
            )
      ]
