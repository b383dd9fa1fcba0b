-- ===== src/Synch/Rwlock/Exclusion.antt =====
-- Readers and writers exclude each other, over every sequence of steps.
use prog.Synch.Semaphore.{Outcome}
use prog.Synch.Rwlock.{
  Rwlock, max_readers, find_free, find_holder, read_step, write_step, write_start, read_release,
  write_release,
}
use prog.Synch.Rwlock.Holders.{noted, noted_le, noted-replicate, noted-find_free, noted-find_holder}
use prog.Prelude.{
  ℕ, ◌+◌, ◌-◌, ◌%◌, ◌^◌, ◌==◌, ◌≡◌, refl, ap, sym, ◌∙◌, List, true, false, not, ◌||◌, ◌&&◌, Option,
  none, some, Run, ret, panic, wild, arith, set, length, length-set, length-replicate, replicate,
  Bool-cases, inl, inr,
}

-- The steps of rwlock_acquire and rwlock_release, by any thread on any cpu.
pub data Step (a b : Rwlock) : Type 0 where
  read : (t cpu : ℕ) (o : Outcome) → read_step t cpu a ≡ ret (o, b) → Step a b
  write : (t cpu : ℕ) (o : Outcome) → write_start t cpu a ≡ (o, b) → Step a b
  rewrite : (t cpu : ℕ) (o : Outcome) → write_step t cpu a ≡ (o, b) → Step a b
  end_read : (cpu : ℕ) (woken : List ℕ) → read_release cpu a ≡ ret (woken, b) → Step a b
  end_write : (cpu : ℕ) (woken : List ℕ) → write_release cpu a ≡ ret (woken, b) → Step a b

pub data Reach (s : Rwlock) : Rwlock → Type 0 where
  here : Reach s s
  next : {a b : Rwlock} → Reach s a → Step a b → Reach s b

pub record Excludes (l : Rwlock) : Type 0 where
  pub exact : l.reader_count ≡ noted l.readers
  pub room : length l.readers ≡ 1000
  pub alone : l.writer_in ≡ true → l.reader_count ≡ 0

-- A step that leaves the readers as they are, and lets no writer in.
same :
    (a b : Rwlock)
    → Excludes a
    → b.readers ≡ a.readers
    → b.reader_count ≡ a.reader_count
    → (b.writer_in ≡ true → a.writer_in ≡ true)
    → Excludes b
same a b h rs n w = record {
  exact = n ∙ h.exact ∙ ap noted (sym rs);
  room = ap length rs ∙ h.room;
  alone = λ e. n ∙ h.alone (w e);
}

read-Excludes :
    (t cpu : ℕ) (o : Outcome) (a b : Rwlock)
    → Excludes a
    → read_step t cpu a ≡ ret (o, b)
    → Excludes b
unfolding read_step
read-Excludes t cpu o a b h run = go (find_free a.readers 0) refl
  where
    go : (r : Run ℕ) → find_free a.readers 0 ≡ r → Excludes b
    go panic e =
        same a b h (ground (arith, run, e)) (ground (arith, run, e)) (ground (arith, run, e))
    go wild e =
        same a b h (ground (arith, run, e)) (ground (arith, run, e)) (ground (arith, run, e))
    go (ret j) e =
        elim (Bool-cases
          (a.writer_in || (not (a.writer_waiting == 0) && not (a.reader_count == 0)))) [
            | inl w ↦
                same a b h (ground (arith, run, e, w)) (ground (arith, run, e, w))
                  (ground (arith, run, e, w))
            | inr n ↦
                let rs : b.readers ≡ set a.readers j (some cpu) = ground (arith, run, e, n) in
                let count : b.reader_count ≡ (a.reader_count + 1) % 2 ^ 32 =
                  ground (arith, run, e, n) in
                let more = noted-find_free cpu a.readers j e in
                record {
                  exact =
                      omega (arith, ap noted rs, more, count, h.exact, h.room, noted_le a.readers);
                  room = ap length rs ∙ length-set a.readers j (some cpu) ∙ h.room;
                  alone = ground (arith, run, e, n);
                }
          ]

write-Excludes :
    (t cpu : ℕ) (o : Outcome) (a b : Rwlock) → Excludes a → write_step t cpu a ≡ (o, b) → Excludes b
unfolding write_step
write-Excludes t cpu o a b h run = record {
  exact = ground (arith, run, h.exact);
  room = ground (arith, run, h.room);
  alone = ground (arith, run, h.alone);
}

start-Excludes :
    (t cpu : ℕ) (o : Outcome) (a b : Rwlock)
    → Excludes a
    → write_start t cpu a ≡ (o, b)
    → Excludes b
unfolding write_start
start-Excludes t cpu o a b h run =
    write-Excludes t cpu o (record a { writer_waiting = (a.writer_waiting + 1) % 2 ^ 32 }) b
      (record { exact = h.exact; room = h.room; alone = h.alone }) run

end_read-Excludes :
    (cpu : ℕ) (woken : List ℕ) (a b : Rwlock)
    → Excludes a
    → read_release cpu a ≡ ret (woken, b)
    → Excludes b
unfolding read_release
end_read-Excludes cpu woken a b h run = go (find_holder cpu a.readers 0) refl
  where
    go : (r : Option ℕ) → find_holder cpu a.readers 0 ≡ r → Excludes b
    go none e = ground (arith, run, e)
    go (some j) e =
        let rs : b.readers ≡ set a.readers j none = ground (arith, run, e) in
        let count : b.reader_count ≡ (a.reader_count + 2 ^ 32 - 1) % 2 ^ 32 =
          ground (arith, run, e) in
        let w : b.writer_in ≡ a.writer_in = ground (arith, run, e) in
        let less = noted-find_holder cpu a.readers j e in
        record {
          exact = omega (arith, ap noted rs, less, count, h.exact, h.room, noted_le a.readers);
          room = ap length rs ∙ length-set a.readers j none ∙ h.room;
          alone = λ i. absurd (omega (arith, h.alone (sym w ∙ i), less, h.exact));
        }

end_write-Excludes :
    (cpu : ℕ) (woken : List ℕ) (a b : Rwlock)
    → Excludes a
    → write_release cpu a ≡ ret (woken, b)
    → Excludes b
unfolding write_release
end_write-Excludes cpu woken a b h run =
    same a b h (ground (arith, run)) (ground (arith, run)) (ground (arith, run))

Step-Excludes : (a b : Rwlock) → Step a b → Excludes a → Excludes b
Step-Excludes a b (read t cpu o run) h = read-Excludes t cpu o a b h run
Step-Excludes a b (write t cpu o run) h = start-Excludes t cpu o a b h run
Step-Excludes a b (rewrite t cpu o run) h = write-Excludes t cpu o a b h run
Step-Excludes a b (end_read cpu woken run) h = end_read-Excludes cpu woken a b h run
Step-Excludes a b (end_write cpu woken run) h = end_write-Excludes cpu woken a b h run

Reach-Excludes : {a b : Rwlock} → Excludes a → Reach a b → Excludes b
Reach-Excludes h here = h
Reach-Excludes h (next {a = a} {b = b} r st) = Step-Excludes a b st (Reach-Excludes h r)

-- A lock that nobody has: what rwlock_create stores before its memset, and what it clears.
pub record IsIdle (l : Rwlock) : Type 0 where
  pub no_count : l.reader_count ≡ 0
  pub no_readers : l.readers ≡ replicate max_readers none
  pub no_writer : l.writer_in ≡ false

idle-Excludes : (l : Rwlock) → IsIdle l → Excludes l
idle-Excludes l h = record {
  exact = h.no_count ∙ sym (ap noted h.no_readers ∙ noted-replicate max_readers);
  room = ap length h.no_readers ∙ length-replicate {A = Option ℕ} max_readers none;
  alone = λ e. h.no_count;
}

-- However the steps of rwlock_acquire and rwlock_release on any threads and cpus follow each other,
-- from a lock that nobody has, its reader count is the number of readers that its array notes, and
-- while a writer is in there is none.
pub rwlock_excludes :
    (l : Rwlock)
    → IsIdle l
    → (s : Rwlock) → Reach l s
    → (s.reader_count ≡ noted s.readers) × (s.writer_in ≡ true → noted s.readers ≡ 0)
rwlock_excludes l idle s r =
    let h = Reach-Excludes (idle-Excludes l idle) r in (h.exact, λ w. sym h.exact ∙ h.alone w)
