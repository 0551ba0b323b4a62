-- ===== src/Prelude/Small.antt =====
-- Integers that fit in an `int`: the machine's sums and differences are the exact ones.
use Prim.Native.Nat.{ℕ, zero, suc, ◌+◌, ◌-◌, ◌<◌, ◌^◌, ◌%◌}
use mathlib.Core.Bool.{true, false}
use mathlib.Core.Path.{◌≡◌, refl, ap, ◌∙◌}
use native.Mathlib.Omega.{arith}
use jae_os.Prelude.Tests.{leb, ltb}
use jae_os.Prelude.Int.{ℤ, pos, negsuc, ◌+ℤ◌, ◌-ℤ◌, sub_ℕ, word_of, int_of, add_int, sub_int}

-- The integer -n.
abbrev pub minus : ℕ → ℤ
minus zero = pos 0
minus (suc n) = negsuc n

small : (n : ℕ) → n < 2 ^ 31 → n % 2 ^ 32 ≡ n
small n h = omega arith

lt_true : (n : ℕ) → n < 2 ^ 31 → ltb n (2 ^ 31) ≡ true
lt_true n h = ground arith

negative : (n : ℕ) → n < 2 ^ 31 → ltb (2 ^ 32 - 1 - n) (2 ^ 31) ≡ false
negative n h = ground arith

back : (n : ℕ) → n < 2 ^ 31 → 2 ^ 32 - (2 ^ 32 - 1 - n) - 1 ≡ n
back n h = omega arith

pub int_of-word_of-pos : (n : ℕ) → n < 2 ^ 31 → int_of (word_of (pos n)) ≡ pos n
unfolding int_of word_of
int_of-word_of-pos n h = rw (small n h, lt_true n h) refl

pub int_of-word_of-negsuc : (n : ℕ) → n < 2 ^ 31 → int_of (word_of (negsuc n)) ≡ negsuc n
unfolding int_of word_of
int_of-word_of-negsuc n h = rw (small n h, negative n h, back n h) refl

leb-false : (a b n : ℕ) → suc (a + n) ≡ b → leb b a ≡ false
leb-false a b n h = ground arith

leb-true : (a b n : ℕ) → a ≡ b + n → leb b a ≡ true
leb-true a b n h = ground arith

sub_negsuc : (a b n : ℕ) → suc (a + n) ≡ b → sub_ℕ a b ≡ negsuc n
sub_negsuc a b n h = rw (leb-false a b n h) (ap negsuc (omega arith))

sub_pos : (a b n : ℕ) → a ≡ b + n → sub_ℕ a b ≡ pos n
sub_pos a b n h = rw (leb-true a b n h) (ap pos (omega arith))

-- One more than a negative number.
pub add_int-minus : (n : ℕ) → n < 2 ^ 31 → add_int (minus (suc n)) (pos 1) ≡ minus n
unfolding add_int ◌+ℤ◌
add_int-minus zero h = int_of-word_of-pos 0 (omega arith)
add_int-minus (suc n) h =
    ap (λ z. int_of (word_of z)) (sub_negsuc (0 + 1) (suc (suc n) + 0) n (omega arith))
    ∙ int_of-word_of-negsuc n (omega arith)

pub sub_int-minus : (n : ℕ) → n + 1 < 2 ^ 31 → sub_int (pos n) (negsuc 0) ≡ pos (n + 1)
unfolding sub_int ◌-ℤ◌
sub_int-minus n h =
    ap (λ z. int_of (word_of z)) (sub_pos (n + 1) (0 + 0) (n + 1) (omega arith))
    ∙ int_of-word_of-pos (n + 1) h

pub add_int-one : (n : ℕ) → add_int (pos (suc n)) (minus n) ≡ pos 1
unfolding add_int ◌+ℤ◌
add_int-one zero = int_of-word_of-pos 1 (omega arith)
add_int-one (suc n) =
    ap (λ z. int_of (word_of z)) (sub_pos (suc (suc n) + 0) (0 + suc n) 1 (omega arith))
    ∙ int_of-word_of-pos 1 (omega arith)
