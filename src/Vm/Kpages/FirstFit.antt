-- ===== src/Vm/Kpages/FirstFit.antt =====
-- The search of alloc_kpages: the first run of free pages that is long enough.
use prog.Vm.Coremap.{Entry, Coremap, is_free}
use prog.Vm.Kpages.{free_run, find_run}
use prog.Prelude.{
  ℕ, zero, suc, ◌+◌, ◌≤◌, ◌<◌, ◌≡◌, refl, ltb, ◌==◌, if◌then◌else◌, List, true, false, some, Run,
  ret, wild, panic, ◌>>=◌, get_elem?, length, ◌⊎◌, inl, inr, arith, Option-cases, Bool-cases,
  lt_of_get_elem?, ge_of_get_elem?-none, subst,
}

abbrev pub FreeAt : List Entry → ℕ → Type 0
FreeAt es p = (e : Entry) × (get_elem? es p ≡ some e) × (is_free e.st ≡ true)

abbrev pub BusyAt : List Entry → ℕ → Type 0
BusyAt es p = (e : Entry) × (get_elem? es p ≡ some e) × (is_free e.st ≡ false)

-- Every page from `p` to just before `q` is free.
abbrev pub FreeFrom : List Entry → ℕ → ℕ → Type 0
FreeFrom es p q = (r : ℕ) → p ≤ r → r < q → FreeAt es r

-- No run of `npages` free pages starts at `p`: one of them is busy.
abbrev pub Blocked : List Entry → ℕ → ℕ → Type 0
Blocked es npages p = (q : ℕ) × (p ≤ q) × (q < p + npages) × BusyAt es q

-- The free pages from some page on run up to the end of the array, and are too few.
abbrev pub ShortTail : List Entry → ℕ → Type 0
ShortTail es npages =
    (p : ℕ) × (p < length es) × (length es < p + npages) × FreeFrom es p (length es)

abbrev RunSpec : List Entry → ℕ → ℕ → ℕ → Run ℕ → Type 0
RunSpec es i j left (ret k) =
    (j ≤ k)
    × (k ≤ j + left)
    × FreeFrom es (i + j) (i + k)
    × ((k ≡ j + left) ⊎ ((k < j + left) × BusyAt es (i + k)))
RunSpec es i j left wild = (length es < i + j + left) × FreeFrom es (i + j) (length es)
RunSpec es i j left panic = ⊥

FreeFrom-cons : (es : List Entry) (p q : ℕ) → FreeAt es p → FreeFrom es (p + 1) q → FreeFrom es p q
FreeFrom-cons es p q here rest r h h' = elim (Bool-cases (p == r)) [
  | inl same ↦ subst (FreeAt es) (ground arith) here
  | inr other ↦ rest r (ground arith) h'
]

RunSpec-suc :
    (es : List Entry) (i j left : ℕ) (r : Run ℕ)
    → FreeAt es (i + j)
    → RunSpec es i (j + 1) left r
    → RunSpec es i j (suc left) r
RunSpec-suc es i j left (ret k) here (h, h', fr, stop) = (
  omega arith,
  omega arith,
  FreeFrom-cons es (i + j) (i + k) here (λ r a b. fr r (omega arith) b),
  elim stop [ inl e ↦ inl (omega arith) | inr (lt, busy) ↦ inr (omega arith, busy) ],
)
RunSpec-suc es i j left wild here (short, fr) =
    (omega arith, FreeFrom-cons es (i + j) (length es) here (λ r a b. fr r (omega arith) b))
RunSpec-suc es i j left panic here spec = spec

free_run-RunSpec : (es : List Entry) (i j left : ℕ) → RunSpec es i j left (free_run es i j left)
unfolding free_run
free_run-RunSpec es i j zero =
    (omega arith, omega arith, λ r h h'. absurd (omega arith), inl (omega arith))
free_run-RunSpec es i j (suc left) = elim (Option-cases (get_elem? es (i + j))) [
  | inl out ↦
      rw (out, free_run)
        (let past = ge_of_get_elem?-none es (i + j) out in
          (omega arith, λ r h h'. absurd (omega arith)))
  | inr (e, at) ↦ elim (Bool-cases (is_free e.st)) [
    | inl idle ↦
        rw (at, free_run, idle)
          (RunSpec-suc es i j left _ (e, at, idle) (free_run-RunSpec es i (j + 1) left))
    | inr busy ↦
        rw (at, free_run, busy)
          (
            omega arith,
            omega arith,
            λ r h h'. absurd (omega arith),
            inr (omega arith, (e, at, busy)),
          )
  ]
]

-- The search from page `i` on stops at the first page that starts a long enough run, or at the end
-- of the array if there is none; it reads past the array only at a short free tail.
abbrev pub FoundSpec : List Entry → ℕ → ℕ → Run ℕ → Type 0
FoundSpec es npages i (ret k) =
    (k ≤ length es)
    × ((p : ℕ) → i ≤ p → p < k → Blocked es npages p)
    × ((k ≡ length es) ⊎ ((k < length es) × FreeFrom es k (k + npages)))
FoundSpec es npages i wild = ShortTail es npages
FoundSpec es npages i panic = ⊥

-- No page of a run that is cut short by a busy page starts a long enough one.
Blocked-before :
    (es : List Entry) (npages i j : ℕ)
    → j < npages
    → BusyAt es (i + j)
    → (p : ℕ) → i ≤ p
    → p < i + j + 1
    → Blocked es npages p
Blocked-before es npages i j h busy p a b = (i + j, omega arith, omega arith, busy)

FoundSpec-skip :
    (es : List Entry) (npages i j : ℕ) (r : Run ℕ)
    → j < npages
    → BusyAt es (i + j)
    → FoundSpec es npages (i + j + 1) r
    → FoundSpec es npages i r
FoundSpec-skip es npages i j (ret k) h busy (low, before, stop) = (
  low,
  λ p a b. elim (Bool-cases (ltb p (i + j + 1))) [
    | inl early ↦ Blocked-before es npages i j h busy p a (ground arith)
    | inr late ↦ before p (ground arith) b
  ],
  stop,
)
FoundSpec-skip es npages i j wild h busy spec = spec
FoundSpec-skip es npages i j panic h busy spec = spec

module _ (c : Coremap) (npages : ℕ) (whole : length c.entries ≡ c.size) where
  pub find_run-FoundSpec :
      (left i : ℕ)
      → i ≤ c.size
      → c.size ≤ i + left
      → FoundSpec c.entries npages i (find_run c npages left i)
  unfolding find_run
  find_run-FoundSpec zero i low enough =
      (omega arith, λ p a b. absurd (omega arith), inl (omega arith))
  find_run-FoundSpec (suc left) i low enough = elim (Bool-cases (ltb i c.size)) [
    | inr done ↦
        let end : i ≡ c.size = ground arith in
        rw (done, find_run) (omega arith, λ p a b. absurd (omega arith), inl (omega arith))
    | inl on ↦
        rw (on, find_run)
          (go (ground arith) (free_run c.entries i 0 npages) refl
            (free_run-RunSpec c.entries i 0 npages)
            (λ j h. find_run-FoundSpec left (i + j + 1) h (omega arith)))
  ]
    where
      next : ℕ → Run ℕ
      next j = if j == npages then ret i else find_run c npages left (i + j + 1)

      go :
          i < c.size
          → (r : Run ℕ) → free_run c.entries i 0 npages ≡ r
          → RunSpec c.entries i 0 npages r
          → ((j : ℕ)
              → i + j + 1 ≤ c.size
              → FoundSpec c.entries npages (i + j + 1) (find_run c npages left (i + j + 1)))
          → FoundSpec c.entries npages i (free_run c.entries i 0 npages >>= next)
      go here (ret j) e (_, _, fr, inl full) again =
          let all : (j == npages) ≡ true = ground arith in
          rw (e, all)
            (
              omega arith,
              λ p a b. absurd (omega arith),
              inr (omega arith, λ r a b. fr r (omega arith) (omega arith)),
            )
      go here (ret j) e (_, _, fr, inr (short, busy)) again =
          let some_left : (j == npages) ≡ false = ground arith in
          let within = lt_of_get_elem? c.entries (i + j) busy.0 busy.1 in
          rw (e, some_left)
            (FoundSpec-skip c.entries npages i j _ (omega arith) busy (again j (omega arith)))
      go here wild e (short, fr) again =
          rw e (i, omega arith, omega arith, λ r a b. fr r (omega arith) b)
      go here panic e spec again = absurd spec
