-- ===== src/Syscall/Files/Flags.antt =====
-- The check of the access mode in sys_open.
use prog.Syscall.Files.{flags_refused}
use prog.Prelude.{ℕ, zero, suc, ◌/◌, ◌%◌, ◌≡◌, ◌∙◌, refl, bit_and, false, arith}
use native.Mathlib.Numerals.{unary_clauses}
use Prim.Native.Nat.{bit_and-bitwise, digits, min}

low_digit : (d : ℕ) → min d 0 ≡ 0
low_digit zero = refl
low_digit (suc d) = simp unary_clauses refl

-- No digit of a number is left under the mask 0.
masked_out : (flags rounds : ℕ) → digits (λ _. zero) min rounds flags 0 ≡ 0
masked_out zero zero = refl
masked_out zero (suc rounds) = refl
masked_out (suc flags) zero = refl
masked_out (suc flags) (suc rounds) =
    let rest = masked_out (suc flags / 2) rounds in omega (arith, low_digit (suc flags % 2), rest)

no_flag : (flags : ℕ) → bit_and flags 0 ≡ 0
no_flag flags = bit_and-bitwise flags 0 ∙ masked_out flags flags

-- The check never refuses a value of `flags`, whatever its access mode: the mask is made by `!`,
-- where `~` was meant, so no bit of `flags` is left to look at.
pub flags_refused_never : (flags : ℕ) → flags_refused flags ≡ false
unfolding flags_refused
flags_refused_never flags = ground (arith, no_flag flags)
