-- ===== src/Libc/Text/Number.antt =====
-- atoi reads the decimal numbers.
use prog.Libc.Text.{strchr, digits, skip_blanks, read_digits, atoi}
use prog.Prelude.{
  ℕ, zero, suc, ◌+◌, ◌-◌, ◌*◌, ◌%◌, ◌^◌, ◌<◌, ◌≤◌, ◌≡◌, ◌≢◌, refl, List, [], ◌∷◌, ◌++◌, none, some,
  ret, arith, test_ne, ◌⊎◌, inl, inr,
}

abbrev pub Blank : ℕ → Type 0
Blank c = (c ≡ 32) ⊎ (c ≡ 9)

-- Every byte is a blank; every number is a digit.
abbrev pub Blanks : List ℕ → Type 0
Blanks [] = Unit {0}
Blanks (c ∷ s) = Blank c × Blanks s

abbrev pub Digits : List ℕ → Type 0
Digits [] = Unit {0}
Digits (d ∷ ds) = (d < 10) × Digits ds

-- The bytes of a list of digits, and the number that it stands for.
abbrev pub printed : List ℕ → List ℕ
printed [] = []
printed (d ∷ ds) = (48 + d) ∷ printed ds

-- The number that digits stand for after a number already read.
abbrev pub value_after : ℕ → List ℕ → ℕ
value_after n [] = n
value_after n (d ∷ ds) = value_after (n * 10 + d) ds

digit_found : (d : ℕ) → d < 10 → strchr digits (48 + d) ≡ ret (some d)
unfolding strchr
digit_found zero h = refl
digit_found (suc zero) h = refl
digit_found (suc (suc zero)) h = refl
digit_found (suc (suc (suc zero))) h = refl
digit_found (suc (suc (suc (suc zero)))) h = refl
digit_found (suc (suc (suc (suc (suc zero))))) h = refl
digit_found (suc (suc (suc (suc (suc (suc zero)))))) h = refl
digit_found (suc (suc (suc (suc (suc (suc (suc zero))))))) h = refl
digit_found (suc (suc (suc (suc (suc (suc (suc (suc zero)))))))) h = refl
digit_found (suc (suc (suc (suc (suc (suc (suc (suc (suc zero))))))))) h = refl
digit_found (suc (suc (suc (suc (suc (suc (suc (suc (suc (suc n)))))))))) h = ground arith

-- What the digit loop does not read on from.
abbrev pub Stops : ℕ → Type 0
Stops c = (c ≡ 0) ⊎ ((0 < c) × ((c < 48) ⊎ (57 < c)))

digit_none : (c : ℕ) → 0 < c → (c < 48) ⊎ (57 < c) → strchr digits c ≡ ret none
unfolding strchr
digit_none c h out = ground arith

value_after-grows : (n : ℕ) → (ds : List ℕ) → n ≤ value_after n ds
value_after-grows n [] = omega arith
value_after-grows n (d ∷ ds) = ground (arith, value_after-grows (n * 10 + d) ds)

read_digits-Stops :
    (val : ℕ) → (c : ℕ) → (rest : List ℕ) → Stops c → read_digits val (c ∷ rest) ≡ ret val
unfolding read_digits
read_digits-Stops val c rest (inl e) = rw (e) refl
read_digits-Stops val c rest (inr (pos, out)) =
    rw (test_ne c 0 (omega arith), digit_none c pos out) refl

read_digits-printed :
    (val : ℕ)
    → (ds : List ℕ) → (c : ℕ) → (rest : List ℕ) → Digits ds
    → Stops c
    → value_after val ds < 2 ^ 32
    → read_digits val (printed ds ++ (c ∷ rest)) ≡ ret (value_after val ds)
unfolding read_digits
read_digits-printed val [] c rest ok h room = read_digits-Stops val c rest h
read_digits-printed val (d ∷ ds) c rest (small, ok) h room = do
  let fits : (val * 10 + d) % 2 ^ 32 ≡ val * 10 + d =
      ground (arith, value_after-grows (val * 10 + d) ds)
  rw (test_ne (48 + d) 0 (omega arith), digit_found d small, fits)
      (read_digits-printed (val * 10 + d) ds c rest ok h room)

-- The bytes before the digits.
pub data Sign : Type 0 where
  plus : Sign
  minus : Sign
  none_given : Sign

abbrev pub sign_bytes : Sign → List ℕ
sign_bytes plus = 43 ∷ []
sign_bytes minus = 45 ∷ []
sign_bytes none_given = []

-- An int's bits.
abbrev pub signed : Sign → ℕ → ℕ
signed plus n = n
signed minus n = (2 ^ 32 - n) % 2 ^ 32
signed none_given n = n

after-Blanks :
    (blanks : List ℕ)
    → Blanks blanks
    → (c : ℕ) → (s : List ℕ) → c ≢ 32
    → c ≢ 9
    → skip_blanks (blanks ++ (c ∷ s)) ≡ ret (c ∷ s)
unfolding skip_blanks
after-Blanks [] ok c s a b = rw (test_ne c 32 a, test_ne c 9 b) refl
after-Blanks (x ∷ blanks) (inl e, ok) c s a b = rw (e) (after-Blanks blanks ok c s a b)
after-Blanks (x ∷ blanks) (inr e, ok) c s a b = rw (e) (after-Blanks blanks ok c s a b)

-- Any number of spaces and tabs, a sign or none, and at least one decimal digit, before a byte that
-- is 0 or no digit: atoi returns the number that the digits stand for, negated modulo 2^32 after a
-- minus sign, provided that the number is below 2^32.
pub atoi_lem :
    (blanks : List ℕ)
    → (sign : Sign) → (d : ℕ) → (ds : List ℕ) → (c : ℕ) → (rest : List ℕ) → Blanks blanks
    → Digits (d ∷ ds)
    → Stops c
    → value_after 0 (d ∷ ds) < 2 ^ 32
    → atoi (blanks ++ (sign_bytes sign ++ (printed (d ∷ ds) ++ (c ∷ rest))))
      ≡ ret (signed sign (value_after 0 (d ∷ ds)))
unfolding atoi
atoi_lem blanks plus d ds c rest white ok h room =
    rw
      (
        after-Blanks blanks white 43 (printed (d ∷ ds) ++ (c ∷ rest)) (omega arith) (omega arith),
        read_digits-printed 0 (d ∷ ds) c rest ok h room,
      )
      refl
atoi_lem blanks minus d ds c rest white ok h room =
    rw
      (
        after-Blanks blanks white 45 (printed (d ∷ ds) ++ (c ∷ rest)) (omega arith) (omega arith),
        read_digits-printed 0 (d ∷ ds) c rest ok h room,
      )
      refl
atoi_lem blanks none_given d ds c rest white (small, ok) h room =
    rw
      (
        after-Blanks blanks white (48 + d) (printed ds ++ (c ∷ rest)) (omega arith) (omega arith),
        test_ne (48 + d) 45 (omega arith),
        test_ne (48 + d) 43 (omega arith),
        read_digits-printed 0 (d ∷ ds) c rest (small, ok) h room,
      )
      refl
