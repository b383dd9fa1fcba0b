-- ===== src/Sfs/Metaio/Splice.antt =====
-- A region of a buffer after another region is overwritten.
use prog.Prelude.{
  splice, ℕ, zero, suc, ◌+◌, ◌≤◌, ◌≡◌, refl, ap, List, [], ◌∷◌, ◌++◌, arith, length, take, drop,
  length-append,
}

pub take-append : (ws rest : List ℕ) → take (length ws) (ws ++ rest) ≡ ws
take-append [] rest = refl
take-append (w ∷ ws) rest = ap (λ l. w ∷ l) (take-append ws rest)

pub take-splice :
    (at : ℕ) (ws b : List ℕ) → at ≤ length b → take (length ws) (drop at (splice at ws b)) ≡ ws
take-splice zero ws b h = take-append ws (drop (length ws) b)
take-splice (suc at) ws [] h = absurd (omega arith)
take-splice (suc at) ws (x ∷ b) h = take-splice at ws b (omega arith)

take-before :
    (n at : ℕ) (ws b : List ℕ) → n ≤ at → at ≤ length b → take n (splice at ws b) ≡ take n b
take-before zero at ws b h l = refl
take-before (suc n) zero ws b h l = absurd (omega arith)
take-before (suc n) (suc at) ws [] h l = refl
take-before (suc n) (suc at) ws (x ∷ b) h l =
    ap (λ r. x ∷ r) (take-before n at ws b (omega arith) (omega arith))

-- A region that ends where the written one starts, or before, is as it was.
pub splice-before :
    (n from at : ℕ) (ws b : List ℕ)
    → from + n ≤ at
    → at ≤ length b
    → take n (drop from (splice at ws b)) ≡ take n (drop from b)
splice-before n zero at ws b h l = take-before n at ws b (omega arith) l
splice-before n (suc from) zero ws b h l = absurd (omega arith)
splice-before n (suc from) (suc at) ws [] h l = refl
splice-before n (suc from) (suc at) ws (x ∷ b) h l =
    splice-before n from at ws b (omega arith) (omega arith)

drop_all : (n : ℕ) (xs : List ℕ) → length xs ≤ n → drop n xs ≡ []
drop_all zero [] h = refl
drop_all zero (x ∷ xs) h = absurd (omega arith)
drop_all (suc n) [] h = refl
drop_all (suc n) (x ∷ xs) h = drop_all n xs (omega arith)

drop-append :
    (from : ℕ) (ws b : List ℕ)
    → length ws ≤ from
    → drop from (ws ++ drop (length ws) b) ≡ drop from b
drop-append from [] b h = refl
drop-append zero (w ∷ ws) b h = absurd (omega arith)
drop-append (suc from) (w ∷ ws) [] h = drop_all from (ws ++ []) (omega (arith, length-append ws []))
drop-append (suc from) (w ∷ ws) (x ∷ b) h = drop-append from ws b (omega arith)

-- And so is one that starts where the written one ends, or after.
pub splice-after :
    (from at : ℕ) (ws b : List ℕ) → at + length ws ≤ from → drop from (splice at ws b) ≡ drop from b
splice-after from zero ws b h = drop-append from ws b (omega arith)
splice-after zero (suc at) ws b h = absurd (omega arith)
splice-after (suc from) (suc at) ws [] h = refl
splice-after (suc from) (suc at) ws (x ∷ b) h = splice-after from at ws b (omega arith)
