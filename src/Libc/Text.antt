-- ===== src/Libc/Text.antt =====
-- common/libc/string and common/libc/stdlib/atoi.c. A pointer into an array of chars is the rest of
-- the array from there on; what is found is its index. A byte past the array is not read or written
-- without the call coming to `wild`.
pub mod Compare
pub mod Number
use prog.Prelude.{
  ℕ, zero, suc, ◌+◌, ◌-◌, ◌*◌, ◌%◌, ◌^◌, ltb, ◌==◌, not, ◌&&◌, ◌||◌, if◌then◌else◌, List, [], ◌∷◌,
  Bool, true, false, Option, none, some, Run, ret, wild, deref, ◌>>=◌, get_elem?,
}

pub strlen : List ℕ → Run ℕ
strlen [] = wild
strlen (c ∷ str) = do let rest = strlen str; if c == 0 then ret 0 else (rest >>= λ n. ret (suc n))

-- The array at `dest`, in full.
pub strcpy : List ℕ → List ℕ → Run (List ℕ)
strcpy dest [] = wild
strcpy [] (c ∷ src) = wild
strcpy (d ∷ dest) (c ∷ src) = do
  let rest = strcpy dest src
  if c == 0 then ret (0 ∷ dest) else (rest >>= λ r. ret (c ∷ r))

-- strcpy to an offset of an array.
pub copy_at : ℕ → List ℕ → List ℕ → Run (List ℕ)
copy_at zero dest src = strcpy dest src
copy_at (suc n) [] src = wild
copy_at (suc n) (d ∷ dest) src = copy_at n dest src >>= λ r. ret (d ∷ r)

pub strcat : List ℕ → List ℕ → Run (List ℕ)
strcat dest src = do offset ← strlen dest; copy_at offset dest src

-- The result is an int: 1, 0 or -1.
pub strcmp : List ℕ → List ℕ → Run ℕ
strcmp [] b = wild
strcmp (x ∷ a) [] = wild
strcmp (x ∷ a) (y ∷ b) =
    let rest = strcmp a b in
    if not (x == 0) && (x == y)
    then rest
    else if ltb y x
    then ret 1
    else if x == y
    then ret 0
    else ret 0xFFFFFFFF

pub strchr : List ℕ → ℕ → Run (Option ℕ)
strchr [] ch = wild
strchr (c ∷ s) ch =
    let rest = strchr s ch in
    let further : Run (Option ℕ) = do
      r ← rest
      elim r [ none ↦ ret none | some i ↦ ret (some (suc i)) ]
    in if c == ch then ret (some 0) else if c == 0 then ret none else further

-- The loop from the right, `i` characters being left.
pub scan_left : List ℕ → ℕ → ℕ → Run (Option ℕ)
scan_left s ch zero = ret none
scan_left s ch (suc i) =
    let rest = scan_left s ch i in
    deref (get_elem? s i) >>= λ c. if c == ch then ret (some i) else rest

pub strrchr : List ℕ → ℕ → Run (Option ℕ)
strrchr s ch = do n ← strlen s; scan_left s ch (n + 1)

pub skip_blanks : List ℕ → Run (List ℕ)
skip_blanks [] = wild
skip_blanks (c ∷ s) =
    let rest = skip_blanks s in if (c == 32) || (c == 9) then rest else ret (c ∷ s)

-- "0123456789".
abbrev pub digits : List ℕ
digits = 48 ∷ 49 ∷ 50 ∷ 51 ∷ 52 ∷ 53 ∷ 54 ∷ 55 ∷ 56 ∷ 57 ∷ 0 ∷ []

pub read_digits : ℕ → List ℕ → Run ℕ
read_digits val [] = wild
read_digits val (c ∷ s) =
    let more : ℕ → Run ℕ = λ digit. read_digits ((val * 10 + digit) % 2 ^ 32) s in
    let looked : Run ℕ = do
      found ← strchr digits c
      elim found [ none ↦ ret val | some digit ↦ more digit ]
    in if c == 0 then ret val else looked

-- The result is an int, by its two's complement.
pub atoi : List ℕ → Run ℕ
atoi text = do
  s ← skip_blanks text
  elim s [
    | [] ↦ wild
    | c ∷ rest ↦
        let minus : Run ℕ = read_digits 0 rest >>= λ val. ret ((2 ^ 32 - val) % 2 ^ 32) in
        if c == 45 then minus else if c == 43 then read_digits 0 rest else read_digits 0 (c ∷ rest)
  ]
