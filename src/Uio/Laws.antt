-- ===== src/Uio/Laws.antt =====
-- uiomove and uiomovezeros as a whole.
use prog.Uio.{uio_read, Uio, right_space, uiomove, is_read, zeros_loop, uiomovezeros}
use prog.Uio.Move.{spot, total, Moved, from_of, to_of, Reach}
use prog.Uio.Ready.{IsReady, Done, amount, Reach-part}
use prog.Uio.Loop.{loop_lem}
use prog.Libc.Memory.{Memory}
use prog.Copyinout.{Mmu}
use prog.Prelude.{
  ℕ, zero, suc, ◌+◌, ◌-◌, ◌^◌, ◌<◌, ◌≤◌, ◌≡◌, ◌≢◌, ◌⊎◌, inl, inr, refl, sym, ap, subst, ◌∙◌, ltb,
  ◌==◌, if◌then◌else◌, true, false, Option, ret, arith, length, Bool-cases,
}

-- The uio is in order: uio_resid is no more than the buffers hold, and is what they hold if more than
-- that is asked for; uio_space is right.
pub record IsInOrder (curas : Option ℕ) (u : Uio) (n : ℕ) : Type 0 where
  pub fits : u.resid ≤ total u.iov
  pub small : u.resid < 2 ^ 32
  pub way : (n ≤ u.resid) ⊎ (u.resid ≡ total u.iov)
  pub space : right_space u.segflg curas u.space ≡ true

module _ (mmu : Mmu) (curas : Option ℕ) where
  -- On a uio in order, whose buffers are apart from each other and from the kernel's bytes and can be
  -- reached, uiomove of `n` bytes returns 0 and has moved the lesser of `n` and uio_resid: each byte is
  -- copied between its place in the buffers, taken one after the other, and in the kernel's bytes, in
  -- the direction of uio_rw, and no other byte of memory changes. uio_offset has gone up by as much as
  -- uio_resid has gone down, and the buffers left start where the move has ended.
  pub uiomove_lem :
      (ptr n : ℕ) (u : Uio) (mem : Memory)
      → IsInOrder curas u n
      → IsReady mmu u.segflg u.rw (spot u.iov) (total u.iov) ptr n
      → (u' : Uio) × (mem' : Memory) × (uiomove mmu curas ptr n u mem ≡ ret (0, u', mem'))
        × Done u (spot u.iov) (total u.iov) ptr (amount n u.resid) mem u' mem'
  unfolding uiomove
  uiomove_lem ptr n u mem set ready =
      let (u', mem', run, done) =
        loop_lem mmu u.segflg u.rw u.space (suc (n + length u.iov)) ptr n u.offset u.resid u.iov mem
          (spot u.iov) (total u.iov) (omega arith) refl (λ i h. refl) set.fits set.small set.way
          ready in
      (u', mem', rw set.space run, done)

  module _ (zeros_at : ℕ) where
    -- The uio is in order for `n` zeros, the bytes of its buffers standing at `at`.
    pub record Ready0 (n : ℕ) (u : Uio) (mem : Memory) (at : ℕ → ℕ) (all : ℕ) : Type 0 where
      pub sum : total u.iov ≡ all
      pub agree : (i : ℕ) → i < all → spot u.iov i ≡ at i
      pub fits : u.resid ≤ all
      pub small : u.resid < 2 ^ 32
      pub enough : n ≤ u.resid
      pub space : right_space u.segflg curas u.space ≡ true
      pub reads : u.rw ≡ uio_read
      pub ready : IsReady mmu u.segflg u.rw at all zeros_at 16
      pub clear : (j : ℕ) → j < 16 → mem (zeros_at + j) ≡ 0

    -- `n` zeros are moved.
    pub record Zeroed (n : ℕ) (u : Uio) (mem : Memory) (at : ℕ → ℕ) (all : ℕ) (u' : Uio)
        (mem' : Memory) : Type 0 where
      pub left : total u'.iov + n ≡ all
      pub places : (i : ℕ) → i < total u'.iov → spot u'.iov i ≡ at (n + i)
      pub same : (u'.segflg ≡ u.segflg) × (u'.rw ≡ u.rw) × (u'.space ≡ u.space)
      pub resid : u'.resid + n ≡ u.resid
      pub offset : u'.offset ≡ u.offset + n
      pub zeroed : (i : ℕ) → i < n → mem' (at i) ≡ 0
      pub kept : (a : ℕ) → ((i : ℕ) → i < n → at i ≢ a) → mem' a ≡ mem a

    -- One call of uiomove in the loop.
    chunk :
        (n amt : ℕ) (u : Uio) (mem : Memory) (at : ℕ → ℕ) (all : ℕ)
        → amt ≤ n
        → amt ≤ 16
        → Ready0 n u mem at all
        → (u1 : Uio) × (mem1 : Memory) × (uiomove mmu curas zeros_at amt u mem ≡ ret (0, u1, mem1))
          × Zeroed amt u mem at all u1 mem1
          × Ready0 (n - amt) u1 mem1 (λ i. at (amt + i)) (all - amt)
    unfolding uiomove
    chunk n amt u mem at all low sixteen r =
        let cut : IsReady mmu u.segflg u.rw at all zeros_at amt = record {
          apart = λ i j h k. r.ready.apart i j h (omega (arith, k, sixteen));
          single = r.ready.single;
          reach = r.ready.reach;
        } in
        let (u1, mem1, run, done) =
          loop_lem mmu u.segflg u.rw u.space (suc (amt + length u.iov)) zeros_at amt u.offset
            u.resid u.iov mem at all (omega arith) r.sum r.agree r.fits r.small
            (inl (omega (arith, low, r.enough))) cut in
        let all_moved : amount amt u.resid ≡ amt = ground (arith, low, r.enough) in
        let done' = subst (λ m. Done u at all zeros_at m mem u1 mem1) all_moved done in
        let moved =
          subst (λ d. Moved amt (from_of d at zeros_at) (to_of d at zeros_at) mem mem1) r.reads
            done'.moved in
        let no_shift : zeros_at + 0 ≡ zeros_at = omega arith in
        let rest : IsReady mmu u.segflg u.rw (λ i. at (amt + i)) (all - amt) zeros_at 16 = record {
          apart = λ i j h k. r.ready.apart (amt + i) j (omega (arith, h)) k;
          single =
              λ i j h k. r.ready.single (amt + i) (amt + j) (omega (arith, h)) (omega (arith, k));
          reach = subst (Reach mmu u.segflg u.rw (λ i. at (amt + i)) (all - amt)) no_shift (
              Reach-part mmu u.segflg u.rw at (λ i. at (amt + i)) all (all - amt) amt zeros_at 0
                (λ i h. omega (arith, h)) (λ i h. refl) r.ready.reach);
        } in
        (
          u1,
          mem1,
          rw r.space run,
          record {
            left = done'.left;
            places = done'.places;
            same = done'.same;
            resid = done'.resid;
            offset = done'.offset;
            zeroed = λ i h. moved.0 i h ∙ r.clear i (omega (arith, h, sixteen));
            kept = moved.1;
          },
          record {
            sum = omega (arith, done'.left);
            agree = λ i h. done'.places i (omega (arith, h, done'.left));
            fits = omega (arith, done'.resid, r.fits);
            small = omega (arith, done'.resid, r.small);
            enough = omega (arith, done'.resid, r.enough);
            space =
                subst (λ s. right_space s curas u1.space ≡ true) (sym done'.same.0)
                  (subst (λ s. right_space u.segflg curas s ≡ true) (sym done'.same.2) r.space);
            reads = done'.same.1 ∙ r.reads;
            ready =
                subst (λ s. IsReady mmu s u1.rw (λ i. at (amt + i)) (all - amt) zeros_at 16)
                  (sym done'.same.0)
                  (subst (λ d. IsReady mmu u.segflg d (λ i. at (amt + i)) (all - amt) zeros_at 16)
                    (sym done'.same.1) rest);
            clear = λ j h.
                moved.1 (zeros_at + j)
                  (λ i k e. r.ready.apart i j (omega (arith, k, low, r.enough, r.fits)) h e)
                ∙ r.clear j h;
          },
        )

    zeros_step :
        (fuel n : ℕ) (u u1 : Uio) (mem mem1 : Memory)
        → (n == 0) ≡ false
        → uiomove mmu curas zeros_at (if ltb n 16 then n else 16) u mem ≡ ret (0, u1, mem1)
        → zeros_loop mmu curas zeros_at (suc fuel) n u mem
          ≡ zeros_loop mmu curas zeros_at fuel (n - (if ltb n 16 then n else 16)) u1 mem1
    unfolding zeros_loop
    zeros_step fuel n u u1 mem mem1 goes run = rw (goes, zeros_loop, run) refl

    pub zeros_loop_lem :
        (fuel n : ℕ) (u : Uio) (mem : Memory) (at : ℕ → ℕ) (all : ℕ)
        → n < fuel
        → Ready0 n u mem at all
        → (u' : Uio) × (mem' : Memory) × (zeros_loop mmu curas zeros_at fuel n u mem
            ≡ ret (0, u', mem'))
          × Zeroed n u mem at all u' mem'
    unfolding zeros_loop
    zeros_loop_lem zero n u mem at all h r = absurd (omega (arith, h))
    zeros_loop_lem (suc fuel) n u mem at all h r =
        let amt = if ltb n 16 then n else 16 in
        elim (Bool-cases (n == 0)) [
          | inl stops ↦
              let none_left : n ≡ 0 = ground (arith, stops) in
              (
                u,
                mem,
                rw (stops, zeros_loop) refl,
                record {
                  left = omega (arith, none_left, r.sum);
                  places =
                      λ i k. r.agree i (omega (arith, k, r.sum)) ∙ ap at (omega (arith, none_left));
                  same = (refl, refl, refl);
                  resid = omega (arith, none_left);
                  offset = omega (arith, none_left);
                  zeroed = λ i k. omega (arith, none_left, k);
                  kept = λ a out. refl;
                },
              )
          | inr goes ↦
              let bounds : (amt ≤ n) × (amt ≤ 16) × (0 < amt) = at_most goes in
              let (low, sixteen, some_bytes) = bounds in
              let (u1, mem1, run, first, r1) = chunk n amt u mem at all low sixteen r in
              let (u', mem', on, rest) =
                zeros_loop_lem fuel (n - amt) u1 mem1 (λ i. at (amt + i)) (all - amt)
                  (omega (arith, h, low, some_bytes)) r1 in
              (
                u',
                mem',
                zeros_step fuel n u u1 mem mem1 goes run ∙ on,
                record {
                  left = omega (arith, rest.left, low, r.enough, r.fits);
                  places = λ i k. rest.places i k ∙ ap at (omega (arith, low));
                  same = (
                    rest.same.0 ∙ first.same.0,
                    rest.same.1 ∙ first.same.1,
                    rest.same.2 ∙ first.same.2,
                  );
                  resid = omega (arith, first.resid, rest.resid, low);
                  offset = omega (arith, first.offset, rest.offset, low);
                  zeroed = λ i k. elim (Bool-cases (ltb i amt)) [
                    | inl early ↦
                        rest.kept (at i) (λ j l e.
                          r.ready.single i (amt + j) (ground (arith, early))
                            (omega (arith, l, r.enough, r.fits, low)) (sym e))
                        ∙ first.zeroed i (ground (arith, early))
                    | inr late ↦
                        let e : amt + (i - amt) ≡ i = ground (arith, late) in
                        subst (λ t. mem' (at t) ≡ 0) e
                          (rest.zeroed (i - amt) (ground (arith, late, k, low)))
                  ];
                  kept = λ a out.
                      rest.kept a (λ i k. out (amt + i) (omega (arith, k)))
                      ∙ first.kept a (λ i k. out i (omega (arith, k, low)));
                },
              )
        ]
      where
        at_most :
            (n == 0) ≡ false
            → let amt = if ltb n 16 then n else 16 in (amt ≤ n) × (amt ≤ 16) × (0 < amt)
        at_most goes = elim (Bool-cases (ltb n 16)) [
          | inl part ↦ rw part (omega arith, ground (arith, part), ground (arith, goes))
          | inr whole ↦ rw whole (ground (arith, whole), omega arith, omega arith)
        ]

    -- On a uio for reading, in order for `n` bytes and apart from the sixteen zeros, uiomovezeros returns
    -- 0 and has set the next `n` bytes of the buffers to 0, and no other byte of memory; uio_offset has
    -- gone up and uio_resid gone down by `n`.
    pub uiomovezeros_lem :
        (n : ℕ) (u : Uio) (mem : Memory)
        → Ready0 n u mem (spot u.iov) (total u.iov)
        → (u' : Uio) × (mem' : Memory) × (uiomovezeros mmu curas zeros_at n u mem
            ≡ ret (0, u', mem'))
          × Zeroed n u mem (spot u.iov) (total u.iov) u' mem'
    unfolding uiomovezeros
    uiomovezeros_lem n u mem r =
        let (u', mem', run, zeroed) =
          zeros_loop_lem (suc n) n u mem (spot u.iov) (total u.iov) (omega arith) r in
        let reading : is_read u.rw ≡ true = ap is_read r.reads in (u', mem', rw reading run, zeroed)
