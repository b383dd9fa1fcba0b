-- ===== src/Libc/Memory.antt =====
-- common/libc/string: memcpy, memmove, memset and bzero. sizeof(long) is 4. No region rolls over the
-- top of memory.
pub mod Copies
use prog.Prelude.{ℕ, zero, suc, ◌+◌, ◌-◌, ◌/◌, ◌%◌, ltb, leb, ◌==◌, ◌&&◌, if◌then◌else◌, Bool}

abbrev pub Memory : Type 0
Memory = ℕ → ℕ

-- d[0] = s[0] for a unit of `u` bytes, all of which are read before any is written.
abbrev pub copy_unit : ℕ → ℕ → ℕ → Memory → Memory
copy_unit u d s mem a = if leb d a && ltb a (d + u) then mem (s + (a - d)) else mem a

-- for(i = 0; i < n; i++) d[i] = s[i]; `k` is i in bytes, and `n` the rounds left.
pub copy_up : ℕ → ℕ → ℕ → ℕ → ℕ → Memory → Memory
copy_up u dst src zero k mem = mem
copy_up u dst src (suc n) k mem = copy_up u dst src n (k + u) (copy_unit u (dst + k) (src + k) mem)

-- for(i = n; i > 0; i--) d[i-1] = s[i-1]; `k` is i in bytes.
pub copy_down : ℕ → ℕ → ℕ → ℕ → ℕ → Memory → Memory
copy_down u dst src zero k mem = mem
copy_down u dst src (suc n) k mem =
    copy_down u dst src n (k - u) (copy_unit u (dst + (k - u)) (src + (k - u)) mem)

abbrev pub by_words : ℕ → ℕ → ℕ → Bool
by_words dst src len = (dst % 4 == 0) && (src % 4 == 0) && (len % 4 == 0)

pub memcpy : ℕ → ℕ → ℕ → Memory → Memory
memcpy dst src len mem =
    if by_words dst src len then copy_up 4 dst src (len / 4) 0 mem else copy_up 1 dst src len 0 mem

pub memmove : ℕ → ℕ → ℕ → Memory → Memory
memmove dst src len mem =
    if ltb dst src
    then memcpy dst src len mem
    else if by_words dst src len
    then copy_down 4 dst src (len / 4) len mem
    else copy_down 1 dst src len len mem

-- p[i] = ch for a unit of `u` bytes; of a word only 0 is written.
abbrev pub fill_unit : ℕ → ℕ → ℕ → Memory → Memory
fill_unit u p ch mem a = if leb p a && ltb a (p + u) then ch else mem a

pub fill : ℕ → ℕ → ℕ → ℕ → ℕ → Memory → Memory
fill u p ch zero k mem = mem
fill u p ch (suc n) k mem = fill u p ch n (k + u) (fill_unit u (p + k) ch mem)

pub memset : ℕ → ℕ → ℕ → Memory → Memory
memset p ch len mem = fill 1 p (ch % 256) len 0 mem

pub bzero : ℕ → ℕ → Memory → Memory
bzero p len mem =
    if (p % 4 == 0) && (len % 4 == 0) then fill 4 p 0 (len / 4) 0 mem else fill 1 p 0 len 0 mem
