-- ===== src/Synch/Cv/Steps.antt =====
-- The steps of the threads that use one condition variable, and what each of them keeps.
use prog.Synch.Wchan.{wchan_wakeone, wchan_wakeall, drain}
use prog.Synch.Lock.{Lock}
use prog.Synch.Cv.{
  Cv, spinning, wait_start, wait_release, wait_sleep, woken_step, notify_start, signal_step,
  broadcast_step,
}
use prog.Prelude.{
  append_assoc, ℕ, ◌==◌, if◌then◌else◌, ◌≡◌, ◌≢◌, ◌⊎◌, inl, inr, refl, sym, ap, ◌∙◌, List, [], ◌∷◌,
  ◌++◌, Bool, true, false, Option, none, some, ret, arith, Bool-cases, subst,
}

-- Where a thread is in cv_wait: not in it or past it, with the spinlock, past lock_release, or past
-- the joining of the channel.
pub data Place : Type 0 where
  outside : Place
  entered : Place
  released : Place
  asleep : Place

abbrev pub between : Place → Bool
between outside = false
between entered = true
between released = true
between asleep = false

abbrev pub move : (ℕ → Place) → ℕ → Place → ℕ → Place
move at t p u = if t == u then p else at u

-- The condition variable, the lock, where each thread is, and two lists: the threads that called
-- lock_release in cv_wait, and those that cv_signal and cv_broadcast made runnable, in their order.
pub record State : Type 0 where
  pub cv : Cv
  pub lock : Lock
  pub at : ℕ → Place
  pub freed : List ℕ
  pub woken : List ℕ

-- A step of any thread on any cpu. `locks` stands for the steps of lock_acquire and lock_release by
-- other calls.
pub data Step (booted : Bool) (a b : State) : Type 0 where
  enter :
      (t cpu : ℕ) (cv : Cv)
      → a.at t ≡ outside
      → wait_start booted cpu t a.cv a.lock ≡ ret (some cv)
      → b ≡ record a { cv = cv; at = move a.at t entered }
      → Step booted a b
  release :
      (t cpu : ℕ) (woken : List ℕ) (cv : Cv) (lock : Lock)
      → a.at t ≡ entered
      → wait_release booted cpu a.cv a.lock ≡ ret (woken, cv, lock)
      → b
        ≡ record a { cv = cv; lock = lock; at = move a.at t released; freed = a.freed ++ (t ∷ []) }
      → Step booted a b
  sleep :
      (t : ℕ)
      → a.at t ≡ released
      → b ≡ record a { cv = wait_sleep t a.cv; at = move a.at t asleep }
      → Step booted a b
  wake :
      (t : ℕ) (cv : Cv)
      → a.at t ≡ asleep
      → woken_step a.cv ≡ some cv
      → b ≡ record a { cv = cv; at = move a.at t outside }
      → Step booted a b
  notify :
      (cpu : ℕ) (woken : List ℕ) (lock : Lock)
      → notify_start booted cpu a.lock ≡ ret (woken, lock)
      → b ≡ record a { lock = lock }
      → Step booted a b
  signal :
      (woken : List ℕ) (cv : Cv)
      → signal_step a.cv ≡ some (woken, cv)
      → b ≡ record a { cv = cv; woken = a.woken ++ woken }
      → Step booted a b
  broadcast :
      (woken : List ℕ) (cv : Cv)
      → broadcast_step a.cv ≡ some (woken, cv)
      → b ≡ record a { cv = cv; woken = a.woken ++ woken }
      → Step booted a b
  locks : (lock : Lock) → b ≡ record a { lock = lock } → Step booted a b

pub data Reach (booted : Bool) (s : State) : State → Type 0 where
  here : Reach booted s s
  next : {a b : State} → Reach booted s a → Step booted a b → Reach booted s b

-- No thread is between spinlock_acquire and wchan_sleep; or one is.
pub record IsCalm (s : State) : Type 0 where
  pub free : s.cv.spin ≡ none
  pub all : s.freed ≡ s.woken ++ s.cv.wchan
  pub away : (u : ℕ) → between (s.at u) ≡ false

pub record IsBusy (s : State) (t : ℕ) (late : List ℕ) : Type 0 where
  pub taken : s.cv.spin ≡ some t
  pub all : s.freed ≡ s.woken ++ (s.cv.wchan ++ late)
  pub others : (u : ℕ) → t ≢ u → between (s.at u) ≡ false

abbrev pub Kept : State → Type 0
Kept s =
    IsCalm s
    ⊎ ((t : ℕ) × (((s.at t ≡ entered) × IsBusy s t [])
          ⊎ ((s.at t ≡ released) × IsBusy s t (t ∷ []))))

pub append_nil : (xs : List ℕ) → xs ++ [] ≡ xs
append_nil [] = refl
append_nil (x ∷ xs) = rw (append_nil xs)

drain_lem : (wc list : List ℕ) → drain wc list ≡ list ++ wc
unfolding drain
drain_lem [] list = sym (append_nil list)
drain_lem (t ∷ wc) list = drain_lem wc (list ++ (t ∷ [])) ∙ append_assoc list (t ∷ []) wc

-- A step under the spinlock is one that no other thread holds.
pub spinning_lem :
    {A : Type 0} (cv : Cv) (x y : A) → spinning cv x ≡ some y → (cv.spin ≡ none) × (x ≡ y)
unfolding spinning
spinning_lem cv x y h = go cv.spin refl
  where
    go : (o : Option ℕ) → cv.spin ≡ o → (cv.spin ≡ none) × (x ≡ y)
    go none e = (e, cc)
    go (some t) e = ground (arith, h, e)

pub wait_start_lem :
    (booted : Bool) (cpu t : ℕ) (cv cv' : Cv) (lock : Lock)
    → wait_start booted cpu t cv lock ≡ ret (some cv')
    → (cv.spin ≡ none) × (record cv { spin = some t } ≡ cv')
unfolding wait_start
wait_start_lem booted cpu t cv cv' lock h =
    spinning_lem cv (record cv { spin = some t }) cv' (ground (arith, h))

pub wait_release_lem :
    (booted : Bool) (cpu : ℕ) (cv cv' : Cv) (lock lock' : Lock) (woken : List ℕ)
    → wait_release booted cpu cv lock ≡ ret (woken, cv', lock')
    → (cv'.wchan ≡ cv.wchan) × (cv'.spin ≡ cv.spin)
unfolding wait_release
wait_release_lem booted cpu cv cv' lock lock' woken h = (ground (arith, h), ground (arith, h))

fired :
    (a b : List ℕ × Cv)
    → ◌≡◌ {A = Option (List ℕ × Cv)} (some a) (some b)
    → (a.0 ≡ b.0) × (a.1 ≡ b.1)
fired a b h = let e : a ≡ b = cc in (ap (λ r. r.0) e, ap (λ r. r.1) e)

-- What cv_signal makes runnable, and what is left on the channel.
abbrev pub Signalled : Cv → List ℕ → Cv → Type 0
Signalled cv woken cv' =
    (cv.spin ≡ none)
    × (cv'.spin ≡ none)
    × (cv.wchan ≡ woken ++ cv'.wchan)
    × (((woken ≡ []) × (cv'.wchan ≡ [])) ⊎ ((t : ℕ) × (woken ≡ t ∷ [])))

pub signal_fields :
    (wc : List ℕ) (n : ℕ) (spin : Option ℕ) (woken : List ℕ) (cv' : Cv)
    → signal_step (record { wchan = wc; count = n; spin = spin }) ≡ some (woken, cv')
    → Signalled (record { wchan = wc; count = n; spin = spin }) woken cv'
unfolding signal_step spinning wchan_wakeone
signal_fields wc n (some t) woken cv' h = cc
signal_fields [] n none woken cv' h =
    let (e, f) = fired ([], record { wchan = []; count = n; spin = none }) (woken, cv') h in
    (refl, ap (λ c. c.spin) (sym f), rw (← e, ← f) refl, inl (sym e, ap (λ c. c.wchan) (sym f)))
signal_fields (t ∷ wc) n none woken cv' h =
    let (e, f) = fired (t ∷ [], record { wchan = wc; count = n; spin = none }) (woken, cv') h in
    (refl, ap (λ c. c.spin) (sym f), rw (← e, ← f) refl, inr (t, sym e))

pub broadcast_step_lem :
    (cv cv' : Cv) (woken : List ℕ)
    → broadcast_step cv ≡ some (woken, cv')
    → (cv.spin ≡ none) × (cv'.spin ≡ none) × (cv.wchan ≡ woken) × (cv'.wchan ≡ [])
unfolding broadcast_step wchan_wakeall
broadcast_step_lem cv cv' woken h =
    let (free, same) =
      spinning_lem cv (drain cv.wchan [], record cv { wchan = [] }) (woken, cv') h in
    (
      free,
      ap (λ r. r.1.spin) (sym same) ∙ free,
      sym (drain_lem cv.wchan []) ∙ ap (λ r. r.0) same,
      ap (λ r. r.1.wchan) (sym same),
    )

pub same_or_not : (p q : ℕ) → (p ≡ q) ⊎ (p ≢ q)
same_or_not p q = elim (Bool-cases (p == q)) [
  | inl e ↦ inl (ground (arith, e))
  | inr n ↦ inr (ground (arith, n))
]

clash : (o : Option ℕ) (t : ℕ) → o ≡ some t → o ≡ none → ⊥
clash o t e f = cc

no_one : (p : Place) → between p ≡ false → (p ≡ entered) ⊎ (p ≡ released) → ⊥
no_one p h (inl e) = let f : between entered ≡ false = subst (λ q. between q ≡ false) e h in cc
no_one p h (inr e) = let f : between released ≡ false = subst (λ q. between q ≡ false) e h in cc

one_place : (p : Place) → p ≡ entered → p ≡ released → ⊥
one_place p e f = cc

pub now-IsCalm : (s : State) → Kept s → s.cv.spin ≡ none → IsCalm s
now-IsCalm s (inl calm) free = calm
now-IsCalm s (inr (t, inl (e, busy))) free = absurd (clash s.cv.spin t busy.taken free)
now-IsCalm s (inr (t, inr (e, busy))) free = absurd (clash s.cv.spin t busy.taken free)

pub entered-IsBusy : (s : State) (t : ℕ) → Kept s → s.at t ≡ entered → IsBusy s t []
entered-IsBusy s t (inl calm) e = absurd (no_one (s.at t) (calm.away t) (inl e))
entered-IsBusy s t (inr (u, k)) e = elim (same_or_not u t) [
  | inl same ↦ elim k [
    | inl (f, busy) ↦ subst (λ v. IsBusy s v []) same busy
    | inr (f, busy) ↦ absurd (one_place (s.at t) e (subst (λ v. s.at v ≡ released) same f))
  ]
  | inr ne ↦ elim k [
    | inl (f, busy) ↦ absurd (no_one (s.at t) (busy.others t ne) (inl e))
    | inr (f, busy) ↦ absurd (no_one (s.at t) (busy.others t ne) (inl e))
  ]
]

pub released-IsBusy : (s : State) (t : ℕ) → Kept s → s.at t ≡ released → IsBusy s t (t ∷ [])
released-IsBusy s t (inl calm) e = absurd (no_one (s.at t) (calm.away t) (inr e))
released-IsBusy s t (inr (u, k)) e = elim (same_or_not u t) [
  | inl same ↦ elim k [
    | inl (f, busy) ↦ absurd (one_place (s.at t) (subst (λ v. s.at v ≡ entered) same f) e)
    | inr (f, busy) ↦ subst (λ v. IsBusy s v (v ∷ [])) same busy
  ]
  | inr ne ↦ elim k [
    | inl (f, busy) ↦ absurd (no_one (s.at t) (busy.others t ne) (inr e))
    | inr (f, busy) ↦ absurd (no_one (s.at t) (busy.others t ne) (inr e))
  ]
]
