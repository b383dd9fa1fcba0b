-- ===== src/Uio/Loop.antt =====
-- The loop of uiomove: all it is asked to move, or all there is.
use prog.Uio.{Rw, uio_read, uio_write, Seg, Iovec, Uio, transfer_bytes, advance_iov, move_loop}
use prog.Uio.Move.{spot, total, Moved, Moved-same, from_of, to_of, Reach, transfer_bytes_lem}
use prog.Uio.Rounds.{round_ends, round_next, round_copy}
use prog.Uio.Ready.{IsReady, Done, amount, Reach-part, IsReady-rest, two_moves}
use prog.Libc.Memory.{Memory}
use prog.Copyinout.{Mmu}
use prog.Prelude.{
  ℕ, zero, suc, ◌+◌, ◌-◌, ◌%◌, ◌^◌, ◌<◌, ◌≤◌, ◌≡◌, ◌≢◌, ◌⊎◌, inl, inr, refl, sym, ap, subst, ◌∙◌,
  ltb, ◌==◌, ◌||◌, if◌then◌else◌, List, [], ◌∷◌, true, false, Option, ret, arith, length,
  Bool-cases,
}

module _ (mmu : Mmu) (seg : Seg) (dir : Rw) (space : Option ℕ) where
  abbrev pub uio : List Iovec → ℕ → ℕ → Uio
  uio iov offset resid = record {
    iov = iov;
    offset = offset;
    resid = resid;
    segflg = seg;
    rw = dir;
    space = space;
  }

  abbrev pub Goes : ℕ → ℕ → ℕ → List Iovec → ℕ → ℕ → Memory → (ℕ → ℕ) → ℕ → Type 0
  Goes fuel ptr n iov offset resid mem at all =
      (u' : Uio) × (mem' : Memory) × (move_loop mmu fuel ptr n (uio iov offset resid) mem
        ≡ ret (0, u', mem'))
      × Done (uio iov offset resid) at all ptr (amount n resid) mem u' mem'

  nothing_left :
      (ptr n offset resid : ℕ) (iov : List Iovec) (mem : Memory) (at : ℕ → ℕ) (all : ℕ)
      → total iov ≡ all
      → ((i : ℕ) → i < all → spot iov i ≡ at i)
      → ((n == 0) || (resid == 0)) ≡ true
      → Done (uio iov offset resid) at all ptr (amount n resid) mem (uio iov offset resid) mem
  nothing_left ptr n offset resid iov mem at all sum agree stops =
      let none_moved : amount n resid ≡ 0 = ground (arith, stops) in
      subst (λ m. Done (uio iov offset resid) at all ptr m mem (uio iov offset resid) mem)
        (sym none_moved)
        (record {
          left = omega (arith, sum);
          places = λ i h. agree i (omega (arith, h, sum)) ∙ ap at (omega arith);
          resid = omega arith;
          offset = omega arith;
          same = (refl, refl, refl);
          moved = (λ i h. omega (arith, h), λ a out. refl);
        })

  skip_empty :
      (fuel ptr n offset resid : ℕ) (v w : Iovec) (ws : List Iovec) (mem : Memory) (at : ℕ → ℕ)
      (all : ℕ)
      → ((n == 0) || (resid == 0)) ≡ false
      → v.len ≡ 0
      → Goes fuel ptr n (w ∷ ws) offset resid mem at all
      → Goes (suc fuel) ptr n (v ∷ w ∷ ws) offset resid mem at all
  skip_empty fuel ptr n offset resid v w ws mem at all goes empty (u', mem', run, d) =
      let zero_size : (if ltb n v.len then n else v.len) ≡ 0 = ground (arith, empty) in
      (
        u',
        mem',
        round_next mmu seg dir space fuel ptr n offset resid v w ws mem goes zero_size ∙ run,
        record {
          left = d.left;
          places = d.places;
          resid = d.resid;
          offset = d.offset;
          same = d.same;
          moved = d.moved;
        },
      )

  spot_rest :
      (size i : ℕ) (v : Iovec) (vs : List Iovec)
      → size ≤ v.len
      → spot (advance_iov size (v ∷ vs)) i ≡ spot (v ∷ vs) (size + i)
  spot_rest size i v vs low = elim (Bool-cases (ltb i (v.len - size))) [
    | inl inside ↦
        let inside' : ltb (size + i) v.len ≡ true = ground (arith, inside, low) in
        let e : v.base + size + i ≡ v.base + (size + i) = omega arith in
        rw (inside, inside', e) refl
    | inr past ↦
        let past' : ltb (size + i) v.len ≡ false = ground (arith, past, low) in
        let e : i - (v.len - size) ≡ size + i - v.len = omega (arith, low) in
        rw (past, past', e) refl
  ]

  copy_some :
      (fuel ptr n offset resid size : ℕ) (v : Iovec) (vs : List Iovec) (mem mem1 : Memory)
      (at : ℕ → ℕ) (all : ℕ)
      → ((n == 0) || (resid == 0)) ≡ false
      → (if ltb n v.len then n else v.len) ≡ size
      → size ≢ 0
      → transfer_bytes mmu seg dir v.base ptr size mem ≡ (0, mem1)
      → Moved size (from_of dir at ptr) (to_of dir at ptr) mem mem1
      → size ≤ n
      → size ≤ resid
      → resid ≤ all
      → resid < 2 ^ 32
      → IsReady mmu seg dir at all ptr n
      → Goes fuel
          (ptr + size)
          (n - size)
          (advance_iov size (v ∷ vs))
          (offset + size)
          (resid - size)
          mem1
          (λ i. at (size + i))
          (all - size)
      → Goes (suc fuel) ptr n (v ∷ vs) offset resid mem at all
  copy_some fuel ptr n offset resid size v vs mem mem1 at all goes chosen some_bytes run first low
        low' fits small ready (u', mem', on, d) =
      let resid' : (resid + 2 ^ 32 - size) % 2 ^ 32 ≡ resid - size = omega (arith, low', small) in
      let step =
        round_copy mmu seg dir space fuel ptr n offset resid size v vs mem mem1 goes chosen
          some_bytes run in
      let on' =
        subst
          (λ r.
            move_loop mmu fuel (ptr + size) (n - size)
              (uio (advance_iov size (v ∷ vs)) (offset + size) r) mem1
            ≡ ret (0, u', mem'))
          (sym resid') on in
      let m = amount (n - size) (resid - size) in
      let sum : size + m ≡ amount n resid = ground (arith, low, low') in
      (
        u',
        mem',
        step ∙ on',
        subst (λ k. Done (uio (v ∷ vs) offset resid) at all ptr k mem u' mem') sum
            (record {
              left = omega (arith, d.left, low', fits);
              places = λ i h. d.places i h ∙ ap at (omega arith);
              resid = omega (arith, d.resid, low');
              offset = omega (arith, d.offset);
              same = d.same;
              moved =
                  two_moves dir at ptr size m all n mem mem1 mem'
                    (ground (arith, sum, fits, low, low')) (ground (arith, sum, low, low'))
                    ready.apart ready.single first d.moved;
            }),
      )

  empty_start :
      (fuel ptr n offset resid : ℕ) (v : Iovec) (vs : List Iovec) (mem : Memory) (at : ℕ → ℕ)
      (all : ℕ)
      → ((n == 0) || (resid == 0)) ≡ false
      → v.len ≡ 0
      → total vs ≡ all
      → resid ≤ all
      → Goes fuel ptr n vs offset resid mem at all
      → Goes (suc fuel) ptr n (v ∷ vs) offset resid mem at all
  empty_start fuel ptr n offset resid v [] mem at all goes empty sum fits on =
      absurd (ground (arith, goes, sum, fits))
  empty_start fuel ptr n offset resid v (w ∷ ws) mem at all goes empty sum fits on =
      skip_empty fuel ptr n offset resid v w ws mem at all goes empty on

  -- The first bytes of the buffers are those of the first iovec.
  start_lem :
      (v : Iovec) (vs : List Iovec) (at : ℕ → ℕ) (all size : ℕ)
      → ((i : ℕ) → i < all → spot (v ∷ vs) i ≡ at i)
      → size ≤ v.len
      → size ≤ all
      → (i : ℕ) → i < size
      → v.base + i ≡ at i
  start_lem v vs at all size agree low fits i h =
      let inside : ltb i v.len ≡ true = ground (arith, low, h) in
      let first : spot (v ∷ vs) i ≡ v.base + i = rw inside refl in
      sym first ∙ agree i (omega (arith, h, fits))

  from-same :
      (d : Rw) (at at' : ℕ → ℕ) (ptr m : ℕ)
      → ((i : ℕ) → i < m → at i ≡ at' i)
      → (i : ℕ) → i < m
      → from_of d at ptr i ≡ from_of d at' ptr i
  from-same uio_read at at' ptr m same i h = refl
  from-same uio_write at at' ptr m same i h = same i h

  to-same :
      (d : Rw) (at at' : ℕ → ℕ) (ptr m : ℕ)
      → ((i : ℕ) → i < m → at i ≡ at' i)
      → (i : ℕ) → i < m
      → to_of d at ptr i ≡ to_of d at' ptr i
  to-same uio_read at at' ptr m same i h = same i h
  to-same uio_write at at' ptr m same i h = refl

  first_move :
      (ptr : ℕ) (v : Iovec) (at : ℕ → ℕ) (all size : ℕ)
      → ((i : ℕ) → i < size → v.base + i ≡ at i)
      → size ≤ all
      → 0 < size
      → Reach mmu seg dir at all ptr
      → (mem : Memory)
      → (mem1 : Memory) × (transfer_bytes mmu seg dir v.base ptr size mem ≡ (0, mem1))
        × Moved size (from_of dir at ptr) (to_of dir at ptr) mem mem1
  first_move ptr v at all size start low some_bytes reach mem =
      let no_shift : ptr + 0 ≡ ptr = omega arith in
      let there = subst (Reach mmu seg dir (λ i. v.base + i) size) no_shift (
        Reach-part mmu seg dir at (λ i. v.base + i) all size 0 ptr 0 (λ i h. omega (arith, h, low))
          (λ i h. ap at (omega arith) ∙ sym (start i h)) reach) in
      let (mem1, run, moved) =
        transfer_bytes_lem mmu v.base ptr size mem some_bytes seg dir there in
      (
        mem1,
        run,
        Moved-same size (from_of dir (λ i. v.base + i) ptr) (to_of dir (λ i. v.base + i) ptr)
            (from_of dir at ptr) (to_of dir at ptr) mem mem1
            (from-same dir (λ i. v.base + i) at ptr size start)
            (to-same dir (λ i. v.base + i) at ptr size start) moved,
      )

  pub loop_lem :
      (fuel ptr n offset resid : ℕ) (iov : List Iovec) (mem : Memory) (at : ℕ → ℕ) (all : ℕ)
      → n + length iov < fuel
      → total iov ≡ all
      → ((i : ℕ) → i < all → spot iov i ≡ at i)
      → resid ≤ all
      → resid < 2 ^ 32
      → (n ≤ resid) ⊎ (resid ≡ all)
      → IsReady mmu seg dir at all ptr n
      → Goes fuel ptr n iov offset resid mem at all
  loop_lem zero ptr n offset resid iov mem at all enough sum agree fits small way ready =
      absurd (omega (arith, enough))
  loop_lem (suc fuel) ptr n offset resid [] mem at all enough sum agree fits small way ready =
      let stops : ((n == 0) || (resid == 0)) ≡ true = ground (arith, sum, fits) in
      (
        uio [] offset resid,
        mem,
        round_ends mmu seg dir space fuel ptr n offset resid [] mem stops,
        nothing_left ptr n offset resid [] mem at all sum agree stops,
      )
  loop_lem (suc fuel) ptr n offset resid (v ∷ vs) mem at all enough sum agree fits small way ready =
      elim (Bool-cases ((n == 0) || (resid == 0))) [
        | inl stops ↦ (
          uio (v ∷ vs) offset resid,
          mem,
          round_ends mmu seg dir space fuel ptr n offset resid (v ∷ vs) mem stops,
          nothing_left ptr n offset resid (v ∷ vs) mem at all sum agree stops,
        )
        | inr goes ↦ elim empty_or_not [
          | inl empty ↦
              empty_start fuel ptr n offset resid v vs mem at all goes empty
                (omega (arith, sum, empty)) fits
                (loop_lem fuel ptr n offset resid vs mem at all (omega (arith, enough))
                  (omega (arith, sum, empty)) (λ i h. past_empty i empty ∙ agree i h) fits small way
                  ready)
          | inr some_bytes ↦
              let size = if ltb n v.len then n else v.len in
              let fact : (size ≤ n) × (size ≤ v.len) × (size ≤ resid) × (size ≢ 0) × (size ≤ all) =
                sizes_lem some_bytes goes in
              let (low, low', low'', ne, low_all) = fact in
              let start = start_lem v vs at all size agree low' low_all in
              let (mem1, run, first) =
                first_move ptr v at all size start low_all (omega (arith, ne)) ready.reach mem in
              copy_some fuel ptr n offset resid size v vs mem mem1 at all goes refl ne run first low
                low'' fits small ready
                (loop_lem fuel (ptr + size) (n - size) (offset + size) (resid - size)
                  (advance_iov size (v ∷ vs)) mem1 (λ i. at (size + i)) (all - size)
                  (omega (arith, enough, low, ne)) (omega (arith, sum, low', low_all))
                  (λ i h. spot_rest size i v vs low' ∙ agree (size + i) (omega (arith, h)))
                  (omega (arith, fits)) (omega (arith, small)) (less_way low low'')
                  (IsReady-rest mmu seg dir at all ptr n size low low_all ready))
        ]
      ]
    where
      empty_or_not : (v.len ≡ 0) ⊎ (0 < v.len)
      empty_or_not = omega arith

      past_empty : (i : ℕ) → v.len ≡ 0 → spot vs i ≡ spot (v ∷ vs) i
      past_empty i empty =
          let past : ltb i v.len ≡ false = ground (arith, empty) in
          let e : i - v.len ≡ i = omega (arith, empty) in rw (past, e) refl

      sizes_lem :
          0 < v.len
          → ((n == 0) || (resid == 0)) ≡ false
          → let size = if ltb n v.len then n else v.len in
            (size ≤ n) × (size ≤ v.len) × (size ≤ resid) × (size ≢ 0) × (size ≤ all)
      sizes_lem some_bytes goes = elim (Bool-cases (ltb n v.len)) [
        | inl part ↦ rw part (
          omega arith,
          ground (arith, part),
          ground (arith, part, way, sum),
          ground (arith, goes),
          ground (arith, part, sum),
        )
        | inr whole ↦ rw whole (
          ground (arith, whole),
          omega arith,
          ground (arith, whole, way, sum),
          omega (arith, some_bytes),
          omega (arith, sum),
        )
      ]

      less_way :
          {size : ℕ}
          → size ≤ n
          → size ≤ resid
          → (n - size ≤ resid - size) ⊎ (resid - size ≡ all - size)
      less_way low low' = omega (arith, way)
