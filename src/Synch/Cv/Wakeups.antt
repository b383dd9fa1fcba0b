-- ===== src/Synch/Cv/Wakeups.antt =====
-- No thread that waits on a condition variable is lost between lock_release and wchan_sleep.
use prog.Synch.Wchan.{wchan_create, wchan_sleep}
use prog.Synch.Lock.{Lock}
use prog.Synch.Cv.{Cv, cv_create, wait_sleep, woken_step, signal_step, broadcast_step}
use prog.Synch.Cv.Steps.{
  Place, outside, entered, released, asleep, between, move, State, Step, Reach, IsBusy, Kept,
  append_nil, spinning_lem, wait_start_lem, wait_release_lem, signal_fields, broadcast_step_lem,
  now-IsCalm, entered-IsBusy, released-IsBusy, same_or_not,
}
use prog.Prelude.{
  append_assoc, ℕ, ◌+◌, ◌-◌, ◌%◌, ◌^◌, ◌≡◌, ◌≢◌, ◌⊎◌, inl, inr, refl, sym, ap, subst, ◌∙◌, List, [],
  ◌∷◌, ◌++◌, Bool, true, false, none, some, arith, test_self, test_ne,
}

moved : (at : ℕ → Place) (t : ℕ) (p : Place) → move at t p t ≡ p
moved at t p = rw (test_self t) refl

unmoved : (at : ℕ → Place) (t u : ℕ) (p : Place) → t ≢ u → move at t p u ≡ at u
unmoved at t u p ne = rw (test_ne t u ne) refl

-- A thread that goes outside or to sleep leaves nobody between.
gone :
    (at : ℕ → Place) (t : ℕ) (p : Place)
    → between p ≡ false
    → ((u : ℕ) → t ≢ u → between (at u) ≡ false)
    → (u : ℕ) → between (move at t p u) ≡ false
gone at t p out others u = elim (same_or_not t u) [
  | inl same ↦ subst (λ v. between (move at t p v) ≡ false) same (ap between (moved at t p) ∙ out)
  | inr ne ↦ ap between (unmoved at t u p ne) ∙ others u ne
]

enter-Kept :
    (a : State) (t : ℕ) (cv : Cv)
    → Kept a
    → (a.cv.spin ≡ none) × (record a.cv { spin = some t } ≡ cv)
    → Kept (record a { cv = cv; at = move a.at t entered })
enter-Kept a t cv k (free, same) =
    let calm = now-IsCalm a k free in
    subst (λ c. Kept (record a { cv = c; at = move a.at t entered })) same
      (inr (
        t,
        inl (
          moved a.at t entered,
          record {
            taken = refl;
            all = calm.all ∙ ap (λ l. a.woken ++ l) (sym (append_nil a.cv.wchan));
            others = λ u ne. ap between (unmoved a.at t u entered ne) ∙ calm.away u;
          },
        ),
      ))

release-Kept :
    (a : State) (t : ℕ) (cv : Cv) (lock : Lock)
    → IsBusy a t []
    → (cv.wchan ≡ a.cv.wchan) × (cv.spin ≡ a.cv.spin)
    → Kept
        (record a { cv = cv; lock = lock; at = move a.at t released; freed = a.freed ++ (t ∷ []) })
release-Kept a t cv lock busy (chan, spin) = inr (
  t,
  inr (
    moved a.at t released,
    record {
      taken = spin ∙ busy.taken;
      all =
          ap (λ l. l ++ (t ∷ [])) (busy.all ∙ ap (λ l. a.woken ++ l) (append_nil a.cv.wchan))
          ∙ append_assoc a.woken a.cv.wchan (t ∷ [])
          ∙ ap (λ l. a.woken ++ (l ++ (t ∷ []))) (sym chan);
      others = λ u ne. ap between (unmoved a.at t u released ne) ∙ busy.others u ne;
    },
  ),
)

sleep-Kept :
    (a : State) (t : ℕ)
    → IsBusy a t (t ∷ [])
    → Kept (record a { cv = wait_sleep t a.cv; at = move a.at t asleep })
unfolding wait_sleep wchan_sleep
sleep-Kept a t busy =
    inl (record { free = refl; all = busy.all; away = gone a.at t asleep refl busy.others })

wake-Kept :
    (a : State) (t : ℕ) (cv : Cv)
    → Kept a
    → woken_step a.cv ≡ some cv
    → Kept (record a { cv = cv; at = move a.at t outside })
unfolding woken_step
wake-Kept a t cv k run =
    let (free, same) =
      spinning_lem a.cv (record a.cv { count = (a.cv.count + 2 ^ 32 - 1) % 2 ^ 32 }) cv run in
    let calm = now-IsCalm a k free in
    subst (λ c. Kept (record a { cv = c; at = move a.at t outside })) same
      (inl (record {
        free = free;
        all = calm.all;
        away = gone a.at t outside refl (λ u ne. calm.away u);
      }))

-- The threads that a step makes runnable are the first ones of the channel.
woken-Kept :
    (a : State) (woken : List ℕ) (cv : Cv)
    → Kept a
    → a.cv.spin ≡ none
    → cv.spin ≡ none
    → a.cv.wchan ≡ woken ++ cv.wchan
    → Kept (record a { cv = cv; woken = a.woken ++ woken })
woken-Kept a woken cv k free free' parts =
    let calm = now-IsCalm a k free in
    inl (record {
      free = free';
      all = calm.all ∙ ap (λ l. a.woken ++ l) parts ∙ sym (append_assoc a.woken woken cv.wchan);
      away = calm.away;
    })

lock-Kept : (a : State) (lock : Lock) → Kept a → Kept (record a { lock = lock })
lock-Kept a lock (inl calm) = inl (record { free = calm.free; all = calm.all; away = calm.away })
lock-Kept a lock (inr (t, inl (e, busy))) =
    inr (t, inl (e, record { taken = busy.taken; all = busy.all; others = busy.others }))
lock-Kept a lock (inr (t, inr (e, busy))) =
    inr (t, inr (e, record { taken = busy.taken; all = busy.all; others = busy.others }))

all_woken :
    (a : State) (woken : List ℕ) (cv : Cv)
    → (a.cv.wchan ≡ woken)
    → (cv.wchan ≡ [])
    → a.cv.wchan ≡ woken ++ cv.wchan
all_woken a woken cv e f = e ∙ sym (append_nil woken) ∙ ap (λ l. woken ++ l) (sym f)

Step-Kept : (booted : Bool) (a b : State) → Step booted a b → Kept a → Kept b
Step-Kept booted a b (Step.enter t cpu cv e run f) k =
    subst Kept (sym f) (enter-Kept a t cv k (wait_start_lem booted cpu t a.cv cv a.lock run))
Step-Kept booted a b (Step.release t cpu woken cv lock e run f) k = subst Kept (sym f) (
    release-Kept a t cv lock (entered-IsBusy a t k e)
      (wait_release_lem booted cpu a.cv cv a.lock lock woken run))
Step-Kept booted a b (Step.sleep t e f) k =
    subst Kept (sym f) (sleep-Kept a t (released-IsBusy a t k e))
Step-Kept booted a b (Step.wake t cv e run f) k = subst Kept (sym f) (wake-Kept a t cv k run)
Step-Kept booted a b (Step.notify cpu woken lock run f) k = subst Kept (sym f) (lock-Kept a lock k)
Step-Kept booted a b (Step.signal woken cv run f) k =
    let (free, free', parts, _) = signal_fields a.cv.wchan a.cv.count a.cv.spin woken cv run in
    subst Kept (sym f) (woken-Kept a woken cv k free free' parts)
Step-Kept booted a b (Step.broadcast woken cv run f) k =
    let (free, free', all, rest) = broadcast_step_lem a.cv cv woken run in
    subst Kept (sym f) (woken-Kept a woken cv k free free' (all_woken a woken cv all rest))
Step-Kept booted a b (Step.locks lock f) k = subst Kept (sym f) (lock-Kept a lock k)

Reach-Kept : {booted : Bool} {a b : State} → Kept a → Reach booted a b → Kept b
Reach-Kept k Reach.here = k
Reach-Kept {booted = booted} k (Reach.next {a = a} {b = b} r st) =
    Step-Kept booted a b st (Reach-Kept k r)

-- A new condition variable, with no thread in cv_wait.
abbrev pub start : Cv → Lock → State
start cv lock = record { cv = cv; lock = lock; at = λ t. outside; freed = []; woken = [] }

start-Kept : (cv : Cv) (lock : Lock) → cv_create true true true ≡ some cv → Kept (start cv lock)
unfolding cv_create wchan_create
start-Kept cv lock made =
    inl (record { free = ground (arith, made); all = ground (arith, made); away = λ u. refl })

-- However the steps of cv_wait, cv_signal and cv_broadcast on a condition variable that cv_create made
-- follow each other: take all threads that have called lock_release in cv_wait, in that order,
-- without those already made runnable. Where cv_signal gets the spinlock, it makes the first of them
-- runnable, or there is none; where cv_broadcast gets it, it makes all of them runnable, in order.
pub cv_wait_wakes :
    (booted : Bool) (cv : Cv) (lock : Lock)
    → cv_create true true true ≡ some cv
    → (s : State) → Reach booted (start cv lock) s
    → (one : List ℕ) (cv1 : Cv) → signal_step s.cv ≡ some (one, cv1)
    → (all : List ℕ) (cv2 : Cv) → broadcast_step s.cv ≡ some (all, cv2)
    → (s.freed ≡ s.woken ++ (one ++ cv1.wchan))
      × (((one ≡ []) × (cv1.wchan ≡ [])) ⊎ ((t : ℕ) × (one ≡ t ∷ [])))
      × (s.freed ≡ s.woken ++ all)
      × (cv2.wchan ≡ [])
cv_wait_wakes booted cv lock made s r one cv1 signalled all cv2 broadcasted =
    let (free, _, parts, which) = signal_fields s.cv.wchan s.cv.count s.cv.spin one cv1 signalled in
    let (_, _, whole, rest) = broadcast_step_lem s.cv cv2 all broadcasted in
    let calm = now-IsCalm s (Reach-Kept (start-Kept cv lock made) r) free in
    (calm.all ∙ ap (λ l. s.woken ++ l) parts, which, calm.all ∙ ap (λ l. s.woken ++ l) whole, rest)
