-- ===== src/Syscall/Pid/Digits.antt =====
-- The loop of pid_generator finds the number of decimal digits of the counter.
use jae_os.Prelude.{
  ℕ, zero, suc, ◌+◌, ◌*◌, ◌%◌, ◌^◌, ◌<◌, ◌≤◌, ◌≡◌, ◌⊎◌, inl, inr, refl, arith, ok, leb, true, false,
  subst, sym, ap,
}
use native.Mathlib.Nat.{pow-le-pow_right}
use jae_os.Syscall.Pid.{grow_pow, pid_generator}

-- In decimal notation `y` has `n + 1` digits.
abbrev pub HasDigits : ℕ → ℕ → Type 0
HasDigits y n = (y < 10 ^ (n + 1)) × ((n ≡ 0) ⊎ (10 ^ n ≤ y))

next_pow : (i : ℕ) → i < 8 → 10 ^ (i + 1) * 10 % 2 ^ 32 ≡ 10 ^ (i + 1 + 1)
next_pow zero h = refl
next_pow (suc zero) h = refl
next_pow (suc (suc zero)) h = refl
next_pow (suc (suc (suc zero))) h = refl
next_pow (suc (suc (suc (suc zero)))) h = refl
next_pow (suc (suc (suc (suc (suc zero))))) h = refl
next_pow (suc (suc (suc (suc (suc (suc zero)))))) h = refl
next_pow (suc (suc (suc (suc (suc (suc (suc zero))))))) h = refl
next_pow (suc (suc (suc (suc (suc (suc (suc (suc i)))))))) h = absurd (omega arith)

grow_pow-HasDigits :
    (y n left i fuel : ℕ)
    → i + left ≡ n
    → n ≤ 8
    → left < fuel
    → HasDigits y n
    → grow_pow fuel y (10 ^ (i + 1)) ≡ ok (10 ^ (n + 1))
unfolding grow_pow
grow_pow-HasDigits y n left i zero e le enough h = absurd (omega arith)
grow_pow-HasDigits y n zero i (suc fuel) e le enough h =
    rw (leb_false _ y (subst (λ j. y < 10 ^ (j + 1)) (sym (last i n e)) h.0))
      (ap (λ j. ok (10 ^ (j + 1))) (last i n e))
  where
    last : (i n : ℕ) → i + 0 ≡ n → i ≡ n
    last i n e = omega arith

    leb_false : (a b : ℕ) → b < a → leb a b ≡ false
    leb_false a b h = ground arith
grow_pow-HasDigits y n (suc left) i (suc fuel) e le enough h =
    rw (leb_true _ y (more i left n y e h.1), next_pow i (omega arith))
      (grow_pow-HasDigits y n left (i + 1) fuel (omega arith) le (omega arith) h)
  where
    leb_true : (a b : ℕ) → a ≤ b → leb a b ≡ true
    leb_true a b h = ground arith

    more : (i left n y : ℕ) → i + suc left ≡ n → (n ≡ 0) ⊎ (10 ^ n ≤ y) → 10 ^ (i + 1) ≤ y
    more i left n y e (inl none_more) = absurd (omega arith)
    more i left n y e (inr h) =
        let p : 10 ^ (i + 1) ≤ 10 ^ n = pow-le-pow_right (omega arith) (omega arith) in
        omega (arith, p, h)

-- Where the counter has at most nine decimal digits, pid_generator ends, and appends the digits of
-- the counter to those of the first number, modulo the size of a word.
pub pid_generator-digits :
    (x y n : ℕ) → n ≤ 8 → HasDigits y n → pid_generator x y ≡ ok ((x * 10 ^ (n + 1) + y) % 2 ^ 32)
unfolding pid_generator
pid_generator-digits x y n le h =
    rw (grow_pow-HasDigits y n n 0 10 (omega arith) le (omega arith) h)
