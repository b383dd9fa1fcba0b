-- ===== src/Tests/Moves.antt =====
-- Bytes between the kernel and buffers.
use prog.Copyinout.{
  touches, Mmu, userspacetop, copyin, copyinstr, guarded_memcpy, guarded_up, copycheck, copystr,
  copystr_from,
}
use prog.Copyinout.Region.{Copied, copyin_lem}
use prog.Copyinout.Strings.{Ended, user_part, copyinstr_lem}
use prog.Libc.Memory.{Memory}
use prog.Uio.{uio_read, sysspace, Uio, uiomove, uiomovezeros}
use prog.Uio.Move.{spot, total}
use prog.Uio.Ready.{IsReady, Done, amount}
use prog.Uio.Laws.{uiomove_lem, Zeroed, uiomovezeros_lem}
use prog.Prelude.Errno.{efault, enametoolong}
use prog.Prelude.{
  ℕ, ◌+◌, ◌-◌, ◌^◌, ◌<◌, ◌≤◌, ◌≡◌, ◌⊎◌, inl, refl, ltb, leb, ◌&&◌, if◌then◌else◌, [], ◌∷◌, false,
  none, ret, ok, err, arith,
}

abbrev one_page : Mmu
one_page = record { readable = λ a. leb 0x1000 a && ltb a 0x2000; writable = λ a. false }

abbrev letters : Memory
letters a = if ltb a 0x1ffe then 65 else 0

copyin_runs : (copyin one_page 0x1ffc 0x80001000 3 letters).1 0x80001001 ≡ 65
unfolding copyin copycheck guarded_memcpy guarded_up touches
copyin_runs = refl

copyin_lem_example :
    Copied one_page.readable 0x1ffc 0x80001000 0x1ffc 6 letters
      (copyin one_page 0x1ffc 0x80001000 6 letters)
copyin_lem_example =
    copyin_lem one_page 0x1ffc 0x80001000 6 letters (omega arith) (omega arith) (omega arith)

copyinstr_runs : (copyinstr one_page 0x1ffc 0x80001000 100 letters).0 ≡ ok 3
unfolding copyinstr copycheck copystr copystr_from
copyinstr_runs = refl

copyinstr_lem_example :
    ((copyinstr one_page 0x1ffc 0x80001000 100 letters ≡ (err efault, letters))
      × ((userspacetop ≤ 0x1ffc) ⊎ (2 ^ 32 < 0x1ffc + 100)))
    ⊎ ((0x1ffc < userspacetop)
        × Ended one_page.readable 0x1ffc 0x80001000 0x1ffc
            (user_part 0x1ffc 100)
            (if ltb (userspacetop - 0x1ffc) 100 then efault else enametoolong)
            letters
            (copyinstr one_page 0x1ffc 0x80001000 100 letters))
copyinstr_lem_example =
    copyinstr_lem one_page 0x1ffc 0x80001000 100 letters (omega arith) (omega arith) (omega arith)
      (omega arith)

abbrev two_buffers : Uio
two_buffers = record {
  iov = record { base = 0x80002000; len = 2 } ∷ record { base = 0x80002010; len = 4 } ∷ [];
  offset = 100;
  resid = 6;
  segflg = sysspace;
  rw = uio_read;
  space = none;
}

abbrev counting : Memory
counting a = if ltb a 0x80001000 then 0 else a - 0x80001000

two_buffers-IsReady :
    (n : ℕ)
    → n ≤ 16
    → IsReady one_page sysspace uio_read (spot two_buffers.iov) (total two_buffers.iov) 0x80001000 n
two_buffers-IsReady n low = record {
  apart = λ i j h k e. ground (arith, e, h, k, low);
  single = λ i j h k e. ground (arith, e, h, k);
  reach = tt;
}

uiomove_lem_example :
    (u' : Uio) × (mem' : Memory) × (uiomove one_page none 0x80001000 5 two_buffers counting
      ≡ ret (0, u', mem'))
    × Done two_buffers
        (spot two_buffers.iov)
        (total two_buffers.iov)
        0x80001000
        (amount 5 6)
        counting
        u'
        mem'
uiomove_lem_example =
    uiomove_lem one_page none 0x80001000 5 two_buffers counting
      (record { fits = omega arith; small = omega arith; way = inl (omega arith); space = refl })
      (two_buffers-IsReady 5 (omega arith))

uiomovezeros_lem_example :
    (u' : Uio) × (mem' : Memory) × (uiomovezeros one_page none 0x80001000 5 two_buffers (λ _. 0)
      ≡ ret (0, u', mem'))
    × Zeroed one_page none 0x80001000 5 two_buffers
        (λ _. 0)
        (spot two_buffers.iov)
        (total two_buffers.iov)
        u'
        mem'
uiomovezeros_lem_example =
    uiomovezeros_lem one_page none 0x80001000 5 two_buffers (λ _. 0)
      (record {
        sum = refl;
        agree = λ i h. refl;
        fits = omega arith;
        small = omega arith;
        enough = omega arith;
        space = refl;
        reads = refl;
        ready = two_buffers-IsReady 16 (omega arith);
        clear = λ j h. refl;
      })
