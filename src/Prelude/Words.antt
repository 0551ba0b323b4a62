-- ===== src/Prelude/Words.antt =====
-- The machine's words and integers: what is written is read back.
use Prim.Native.Nat.{ℕ, ◌<◌, ◌^◌, ◌-◌, ◌%◌}
use mathlib.Core.Path.{◌≡◌, ap}
use mathlib.Core.Logic.{inl, inr}
use native.Mathlib.Omega.{arith}
use jae_os.Prelude.Tests.{ltb, Bool-cases}
use jae_os.Prelude.Int.{ℤ, pos, negsuc, ◌+ℤ◌, word_of, int_of, add_int}

small : (w : ℕ) → w < 2 ^ 32 → w % 2 ^ 32 ≡ w
small w h = omega arith

large : (w : ℕ) → w < 2 ^ 32 → 2 ^ 32 - 1 - (2 ^ 32 - w - 1) % 2 ^ 32 ≡ w
large w h = omega arith

word_of-int_of : (w : ℕ) → w < 2 ^ 32 → word_of (int_of w) ≡ w
unfolding word_of int_of
word_of-int_of w h = elim (Bool-cases (ltb w (2 ^ 31))) [
  | inl e ↦ rw e (small w h)
  | inr e ↦ rw e (large w h)
]

word_of-lt : (z : ℤ) → word_of z < 2 ^ 32
unfolding word_of
word_of-lt (pos n) = omega arith
word_of-lt (negsuc n) = omega arith

-- A sum on `int` is an `int`: it is read back from memory as it was written.
pub int_of-word_of-add_int : (a b : ℤ) → int_of (word_of (add_int a b)) ≡ add_int a b
unfolding add_int
int_of-word_of-add_int a b = ap int_of (word_of-int_of (word_of (a +ℤ b)) (word_of-lt (a +ℤ b)))
