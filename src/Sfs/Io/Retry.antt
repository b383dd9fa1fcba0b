-- ===== src/Sfs/Io/Retry.antt =====
-- How often sfs_rwblock tries, and what it answers.
use prog.Sfs.Io.{Device, Fs, rwblock_from, rwblock, readblock, writeblock}
use prog.Prelude.Errno.{einval, eio}
use prog.Prelude.{
  ℕ, zero, suc, ◌+◌, ◌≤◌, ◌<◌, ◌==◌, ◌≡◌, ◌≢◌, refl, ◌⊎◌, if◌then◌else◌, Run, panic, List, ret,
  Reply, ok, err, arith, Bool-cases, inl, inr, ◌∙◌, subst, ap, sym, false,
}

-- What an answer of the device makes of the call: EINVAL means an address out of range.
abbrev pub answer : {S A : Type 0} → Reply A × S → Run (Reply A × S)
answer (ok a, s) = ret (ok a, s)
answer (err e, s) = if e == einval then panic else ret (err e, s)

module _ {S A : Type 0} (io : ℕ → S → Reply A × S) where
  -- The device's state before attempt `n`, counted from 0.
  abbrev pub attempts : ℕ → S → S
  attempts zero s = s
  attempts (suc n) s = (io n (attempts n s)).1

  -- The attempts before the one that decides all end in EIO.
  abbrev pub Decided : S → Run (Reply A × S) → Type 0
  Decided s r =
      ((n : ℕ) × (n ≤ 10)
        × ((m : ℕ) → m < n → (io m (attempts m s)).0 ≡ err eio)
        × ((io n (attempts n s)).0 ≢ err eio)
        × (r ≡ answer (io n (attempts n s))))
      ⊎ (((m : ℕ) → m < 11 → (io m (attempts m s)).0 ≡ err eio)
          × (r ≡ ret (err eio, attempts 11 s)))

  one_more :
      (s : S) (n : ℕ)
      → ((m : ℕ) → m < n → (io m (attempts m s)).0 ≡ err eio)
      → (io n (attempts n s)).0 ≡ err eio
      → (m : ℕ) → m < suc n
      → (io m (attempts m s)).0 ≡ err eio
  one_more s n fails e m h =
      let order : (m < n) ⊎ (m ≡ n) = omega (arith, h) in
      elim order [
        | inl before ↦ fails m before
        | inr same ↦ subst (λ k. (io k (attempts k s)).0 ≡ err eio) (sym same) e
      ]

  eio_or_not : (r : Reply A) → (r ≡ err eio) ⊎ (r ≢ err eio)
  eio_or_not (ok a) = inr (λ h. cc)
  eio_or_not (err c) = elim (Bool-cases (c == eio)) [
    | inl e ↦ inl (ground (arith, e))
    | inr n ↦ inr (λ h. ground (arith, n, h))
  ]

  -- One attempt: the last, the one that decides, or one more.
  last_fails :
      (n : ℕ) (s : S) → (io n s).0 ≡ err eio → rwblock_from io n 0 s ≡ ret (err eio, (io n s).1)
  unfolding rwblock_from
  last_fails n s e = rw (e, rwblock_from) refl

  fails_again :
      (left n : ℕ) (s : S)
      → (io n s).0 ≡ err eio
      → rwblock_from io n (suc left) s ≡ rwblock_from io (suc n) left (io n s).1
  unfolding rwblock_from
  fails_again left n s e = rw (e, rwblock_from) refl

  decides : (left n : ℕ) (s : S) → (io n s).0 ≢ err eio → rwblock_from io n left s ≡ answer (io n s)
  unfolding rwblock_from
  decides left n s other = go left (io n s).0 refl
    where
      go : (left : ℕ) (r : Reply A) → (io n s).0 ≡ r → rwblock_from io n left s ≡ answer (io n s)
      go zero (ok a) e = rw (e, rwblock_from) refl
      go zero (err c) e = rw (e, rwblock_from) refl
      go (suc left) (ok a) e = rw (e, rwblock_from) refl
      go (suc left) (err c) e =
          let differs : (c == eio) ≡ false = ground (arith, e, other) in
          rw (e, rwblock_from, differs) refl

  rwblock_from_lem :
      (left n : ℕ) (s : S)
      → n + left ≡ 10
      → ((m : ℕ) → m < n → (io m (attempts m s)).0 ≡ err eio)
      → Decided s (rwblock_from io n left (attempts n s))
  rwblock_from_lem zero n s e fails = elim (eio_or_not (io n (attempts n s)).0) [
    | inr other ↦ inl (n, omega (arith, e), fails, other, decides 0 n (attempts n s) other)
    | inl again ↦
        let ten : suc n ≡ 11 = omega (arith, e) in
        inr (
          λ m h. one_more s n fails again m (omega (arith, h, ten)),
          last_fails n (attempts n s) again ∙ ap (λ k. ret (err eio, attempts k s)) ten,
        )
  ]
  rwblock_from_lem (suc left) n s e fails = elim (eio_or_not (io n (attempts n s)).0) [
    | inr other ↦ inl (n, omega (arith, e), fails, other, decides (suc left) n (attempts n s) other)
    | inl again ↦
        subst (Decided s) (sym (fails_again left n (attempts n s) again))
          (rwblock_from_lem left (suc n) s (omega (arith, e)) (one_more s n fails again))
  ]

  -- The retry loop of sfs_rwblock ends at the first attempt, of eleven at most, that does not end in EIO:
  -- its outcome is that of the call, with a panic for EINVAL. If all eleven end in EIO, so does the
  -- call. The device is called for no other attempt.
  pub rwblock_lem : (s : S) → Decided s (rwblock io s)
  unfolding rwblock
  rwblock_lem s = rwblock_from_lem 10 0 s (omega arith) (λ m h. absurd (omega (arith, h)))

  pub rwblock_done : (s s' : S) (a : A) → io 0 s ≡ (ok a, s') → rwblock io s ≡ ret (ok a, s')
  unfolding rwblock
  rwblock_done s s' a e =
      let other : (io 0 s).0 ≢ err eio = λ h. differ a (sym (ap (λ t. t.0) e) ∙ h) in
      decides 10 0 s other ∙ rw e refl
    where
      differ : (a : A) → ok a ≡ err eio → ⊥
      differ a h = cc

  -- A device that never answers EINVAL causes no panic.
  pub rwblock_returns :
      (s : S)
      → ((m : ℕ) (t : S) → (io m t).0 ≢ err einval)
      → (r : Reply A) × (s' : S) × (rwblock io s ≡ ret (r, s')) × (r ≢ err einval)
  rwblock_returns s sound = elim (rwblock_lem s) [
    | inr (_, run) ↦ (err eio, attempts 11 s, run, λ h. ground (arith, h))
    | inl (n, _, _, _, run) ↦
        let (r, s', e, fine) = fine_answer (io n (attempts n s)) (sound n (attempts n s)) in
        (r, s', run ∙ e, fine)
  ]
    where
      fine_answer :
          (x : Reply A × S)
          → x.0 ≢ err einval
          → (r : Reply A) × (s' : S) × (answer x ≡ ret (r, s')) × (r ≢ err einval)
      fine_answer (ok a, s') fine = (ok a, s', refl, fine)
      fine_answer (err c, s') fine =
          let other : (c == einval) ≡ false = ground (arith, fine) in
          (err c, s', rw other refl, fine)

-- The device takes every block of the volume: EINVAL means an address out of range.
pub record Accepts {S : Type 0} (dev : Device S) : Type 0 where
  pub reads : (block tries : ℕ) (s : S) → (dev.read block tries s).0 ≢ err einval
  pub writes :
      (block : ℕ) (words : List ℕ) (tries : ℕ) (s : S)
      → (dev.write block words tries s).0 ≢ err einval

module _ {S : Type 0} (dev : Device S) (accepts : Accepts dev) where
  pub writeblock_returns :
      (fs : Fs S) (block : ℕ) (words : List ℕ)
      → (r : Reply (Unit {0})) × (s : S) × (writeblock dev fs block words
          ≡ ret (r, record fs { disk = s }))
  unfolding writeblock
  writeblock_returns fs block words =
      let (r, s, e, fine) =
        rwblock_returns (dev.write block words) fs.disk (accepts.writes block words) in
      (r, s, rw e)

  pub readblock_returns :
      (fs : Fs S) (block : ℕ)
      → (r : Reply (List ℕ)) × (s : S) × (readblock dev fs block ≡ ret (r, record fs { disk = s }))
  unfolding readblock
  readblock_returns fs block =
      let (r, s, e, fine) = rwblock_returns (dev.read block) fs.disk (accepts.reads block) in
      (r, s, rw e)
