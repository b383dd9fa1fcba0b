-- ===== src/Tests/Libc.antt =====
-- Tests of common/libc: regions that overlap, and short strings.
use prog.Libc.Memory.{Memory, memmove}
use prog.Libc.Memory.Copies.{memmove_lem}
use prog.Libc.Text.{strcmp, atoi}
use prog.Libc.Text.Compare.{order, strcmp_lem}
use prog.Libc.Text.Number.{minus, atoi_lem}
use prog.Prelude.{ℕ, ◌≡◌, ◌↔◌, refl, [], ◌∷◌, List, ret, arith, inl, inr}

abbrev cells : Memory
cells a = a

memmove_lem_example : memmove 4 0 8 cells 5 ≡ 1
memmove_lem_example = memmove_lem 4 0 8 cells 5

abbrev ab : List ℕ
ab = 97 ∷ 98 ∷ []

abbrev a : List ℕ
a = 97 ∷ []

strcmp_lem_example :
    (strcmp (97 ∷ 98 ∷ 0 ∷ []) (97 ∷ 0 ∷ []) ≡ ret (order (97 ∷ 98 ∷ []) (97 ∷ [])))
    × ((order (97 ∷ 98 ∷ []) (97 ∷ []) ≡ 0) ↔ (ab ≡ a))
strcmp_lem_example =
    strcmp_lem (97 ∷ 98 ∷ []) (97 ∷ []) [] [] (omega arith, (omega arith, tt)) (omega arith, tt)

-- " -42x".
atoi_lem_example : atoi (32 ∷ 45 ∷ 52 ∷ 50 ∷ 120 ∷ []) ≡ ret 4294967254
atoi_lem_example =
    atoi_lem (32 ∷ []) minus 4 (2 ∷ []) 120 [] (inl refl, tt) (omega arith, (omega arith, tt))
      (inr (omega arith, inr (omega arith))) (omega arith)
