-- ===== src/Prelude/Sets.antt =====
-- Lists of different numbers.
use Prim.Native.Nat.{ℕ}
use mathlib.Core.Path.{◌≡◌, refl, sym, ap}
use mathlib.Core.Logic.{◌≢◌, ◌⊎◌, inl, inr}
use mathlib.Core.List.{List, [], ◌∷◌, ◌++◌}

abbrev pub NotIn : ℕ → List ℕ → Type 0
NotIn p [] = Unit {0}
NotIn p (x ∷ r) = (p ≢ x) × NotIn p r

abbrev pub Distinct : List ℕ → Type 0
Distinct [] = Unit {0}
Distinct (x ∷ r) = NotIn x r × Distinct r

abbrev pub In : ℕ → List ℕ → Type 0
In p [] = ⊥
In p (x ∷ r) = (p ≡ x) ⊎ In p r

pub NotIn-In : (p : ℕ) (xs : List ℕ) → NotIn p xs → In p xs → ⊥
NotIn-In p [] n h = h
NotIn-In p (x ∷ xs) (d, n) (inl e) = d e
NotIn-In p (x ∷ xs) (d, n) (inr h) = NotIn-In p xs n h

pub NotIn-ne : (p q : ℕ) (xs : List ℕ) → NotIn p xs → In q xs → p ≢ q
NotIn-ne p q [] n h same = h
NotIn-ne p q (x ∷ xs) (d, n) (inl e) same = d cc
NotIn-ne p q (x ∷ xs) (d, n) (inr h) same = NotIn-ne p q xs n h same

pub NotIn-place :
    (p : ℕ) (xs : List ℕ) (k : ℕ) (ys : List ℕ)
    → p ≢ k
    → NotIn p (xs ++ ys)
    → NotIn p (xs ++ (k ∷ ys))
NotIn-place p [] k ys d n = (d, n)
NotIn-place p (x ∷ xs) k ys d (e, n) = (e, NotIn-place p xs k ys d n)

pub NotIn-drop :
    (p : ℕ) (xs : List ℕ) (k : ℕ) (ys : List ℕ)
    → NotIn p (xs ++ (k ∷ ys))
    → (p ≢ k) × NotIn p (xs ++ ys)
NotIn-drop p [] k ys n = n
NotIn-drop p (x ∷ xs) k ys (e, n) = let (d, r) = NotIn-drop p xs k ys n in (d, (e, r))

-- An element may stand anywhere in a list of different ones.
pub Distinct-place :
    (xs : List ℕ) (k : ℕ) (ys : List ℕ)
    → NotIn k (xs ++ ys)
    → Distinct (xs ++ ys)
    → Distinct (xs ++ (k ∷ ys))
Distinct-place [] k ys n d = (n, d)
Distinct-place (x ∷ xs) k ys (e, n) (m, d) =
    (NotIn-place x xs k ys (λ s. e (sym s)) m, Distinct-place xs k ys n d)

pub Distinct-drop :
    (xs : List ℕ) (k : ℕ) (ys : List ℕ)
    → Distinct (xs ++ (k ∷ ys))
    → NotIn k (xs ++ ys) × Distinct (xs ++ ys)
Distinct-drop [] k ys d = d
Distinct-drop (x ∷ xs) k ys (n, d) =
    let (m, r) = Distinct-drop xs k ys d in
    let (e, o) = NotIn-drop x xs k ys n in ((λ s. e (sym s), m), (o, r))

pub append_assoc : (xs ys zs : List ℕ) → (xs ++ ys) ++ zs ≡ xs ++ (ys ++ zs)
append_assoc [] ys zs = refl
append_assoc (x ∷ xs) ys zs = ap (λ l. x ∷ l) (append_assoc xs ys zs)

pub In-drop :
    (p : ℕ) (xs : List ℕ) (k : ℕ) (ys : List ℕ) → In p (xs ++ (k ∷ ys)) → (p ≡ k) ⊎ In p (xs ++ ys)
In-drop p [] k ys h = h
In-drop p (x ∷ xs) k ys (inl e) = inr (inl e)
In-drop p (x ∷ xs) k ys (inr h) = elim (In-drop p xs k ys h) [ inl e ↦ inl e | inr r ↦ inr (inr r) ]

pub In-place :
    (p : ℕ) (xs : List ℕ) (k : ℕ) (ys : List ℕ) → (p ≡ k) ⊎ In p (xs ++ ys) → In p (xs ++ (k ∷ ys))
In-place p [] k ys h = h
In-place p (x ∷ xs) k ys (inl e) = inr (In-place p xs k ys (inl e))
In-place p (x ∷ xs) k ys (inr (inl e)) = inl e
In-place p (x ∷ xs) k ys (inr (inr h)) = inr (In-place p xs k ys (inr h))

pub In-append_left : (p : ℕ) (xs ys : List ℕ) → In p xs → In p (xs ++ ys)
In-append_left p [] ys h = elim h [ ]
In-append_left p (x ∷ xs) ys (inl e) = inl e
In-append_left p (x ∷ xs) ys (inr h) = inr (In-append_left p xs ys h)

-- Where an element of a list stands.
pub In-split :
    (p : ℕ) (xs : List ℕ) → In p xs → (us : List ℕ) × (vs : List ℕ) × (xs ≡ us ++ (p ∷ vs))
In-split p [] h = elim h [ ]
In-split p (x ∷ xs) (inl e) = ([], xs, ap (λ z. z ∷ xs) (sym e))
In-split p (x ∷ xs) (inr h) = let (us, vs, e) = In-split p xs h in (x ∷ us, vs, ap (λ l. x ∷ l) e)

pub append_nil : (xs : List ℕ) → xs ++ [] ≡ xs
append_nil [] = refl
append_nil (x ∷ xs) = ap (λ l. x ∷ l) (append_nil xs)

pub NotIn-each : (p : ℕ) (xs : List ℕ) → ((q : ℕ) → In q xs → p ≢ q) → NotIn p xs
NotIn-each p [] h = tt
NotIn-each p (x ∷ xs) h = (h x (inl refl), NotIn-each p xs (λ q i. h q (inr i)))

pub In-append_right : (p : ℕ) (xs ys : List ℕ) → In p ys → In p (xs ++ ys)
In-append_right p [] ys h = h
In-append_right p (x ∷ xs) ys h = inr (In-append_right p xs ys h)
