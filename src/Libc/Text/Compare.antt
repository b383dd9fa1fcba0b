-- ===== src/Libc/Text/Compare.antt =====
-- strlen, strcpy and strcmp on strings that end in a 0.
use prog.Libc.Text.{strlen, strcpy, strcmp}
use prog.Prelude.{
  ℕ, suc, ◌<◌, ◌≤◌, ◌≡◌, ◌≢◌, ◌↔◌, refl, ltb, if◌then◌else◌, List, [], ◌∷◌, ◌++◌, ret, wild, arith,
  length, drop, subst, test_ne,
}

-- No byte of the string is 0.
abbrev pub NoNul : List ℕ → Type 0
NoNul [] = Unit {0}
NoNul (c ∷ s) = (c ≢ 0) × NoNul s

-- The order of strings: by the first byte that differs, a string before its extensions.
pub order : List ℕ → List ℕ → ℕ
order [] [] = 0
order [] (y ∷ t) = 0xFFFFFFFF
order (x ∷ s) [] = 1
order (x ∷ s) (y ∷ t) =
    let rest = order s t in if ltb x y then 0xFFFFFFFF else if ltb y x then 1 else rest

strcmp-order :
    (s t r r' : List ℕ)
    → NoNul s
    → NoNul t
    → strcmp (s ++ (0 ∷ r)) (t ++ (0 ∷ r')) ≡ ret (order s t)
unfolding strcmp order
strcmp-order [] [] r r' hs ht = refl
strcmp-order [] (y ∷ t) r r' hs (y0, ht) = ground arith
strcmp-order (x ∷ s) [] r r' (x0, hs) ht = ground arith
strcmp-order (x ∷ s) (y ∷ t) r r' (x0, hs) (y0, ht) = ground (arith, strcmp-order s t r r' hs ht)

order-same : (s t : List ℕ) → order s t ≡ 0 → s ≡ t
unfolding order
order-same [] [] h = refl
order-same [] (y ∷ t) h = absurd (omega arith)
order-same (x ∷ s) [] h = absurd (omega arith)
order-same (x ∷ s) (y ∷ t) h = ground (arith, order-same s t)

order_refl : (s : List ℕ) → order s s ≡ 0
unfolding order
order_refl [] = refl
order_refl (x ∷ s) = ground (arith, order_refl s)

-- On strings that end in a 0, strcmp reads within both arrays and hands back 1, 0 or -1 by the first
-- byte that differs, a string coming before its extensions; it is 0 exactly on equal strings.
pub strcmp_lem :
    (s t r r' : List ℕ)
    → NoNul s
    → NoNul t
    → (strcmp (s ++ (0 ∷ r)) (t ++ (0 ∷ r')) ≡ ret (order s t)) × ((order s t ≡ 0) ↔ (s ≡ t))
strcmp_lem s t r r' hs ht = (
  strcmp-order s t r r' hs ht,
  (order-same s t, λ e. subst (λ l. order s l ≡ 0) e (order_refl s)),
)

pub strlen_lem : (s r : List ℕ) → NoNul s → strlen (s ++ (0 ∷ r)) ≡ ret (length s)
unfolding strlen
strlen_lem [] r h = refl
strlen_lem (c ∷ s) r (c0, h) = ground (arith, strlen_lem s r h)

-- strcpy of a string writes the string and its 0 to the start of an array that is long enough, leaves
-- the rest of it alone, and writes past any other.
pub strcpy_lem :
    (dest s r : List ℕ)
    → NoNul s
    → (length s < length dest
        → strcpy dest (s ++ (0 ∷ r)) ≡ ret (s ++ (0 ∷ drop (suc (length s)) dest)))
      × (length dest ≤ length s → strcpy dest (s ++ (0 ∷ r)) ≡ wild)
unfolding strcpy
strcpy_lem [] [] r h = (λ l. absurd (omega arith), λ l. refl)
strcpy_lem [] (c ∷ s) r h = (λ l. absurd (omega arith), λ l. refl)
strcpy_lem (d ∷ dest) [] r h = (λ l. refl, λ l. absurd (omega arith))
strcpy_lem (d ∷ dest) (c ∷ s) r (c0, h) =
    let (fits, over) = strcpy_lem dest s r h in
    (
      λ l. rw (test_ne c 0 c0, fits (omega arith)) refl,
      λ l. rw (test_ne c 0 c0, over (omega arith)) refl,
    )
