-- ===== src/Interrupts/Lines.antt =====
-- find_dnum of source/interrupts.c: the device with the highest priority.
use Prim.Native.Nat.{bit_and}
use jae_os.Prelude.{
  ℕ, zero, suc, ◌+◌, ◌*◌, ◌%◌, ◌^◌, ◌<◌, ◌≡◌, ◌⊎◌, inl, inr, refl, arith, Bool, true, false,
  Bool-cases, ◌==◌, ltb, All, List, [], ◌∷◌, subst, sym,
}
use jae_os.Interrupts.{find_loop, find_dnum}

-- The device `i` of the line has an interrupt pending.
abbrev pub is_pending : ℕ → ℕ → Bool
is_pending bitmap i = bit_and (2 ^ i) bitmap == 2 ^ i

-- The devices before `i`.
abbrev pub before : ℕ → List ℕ
before zero = []
before (suc i) = i ∷ before i

-- `i` is the first device that is pending, or 8 where none is.
abbrev pub IsFirst : ℕ → ℕ → Type 0
IsFirst bitmap i =
    ((i ≡ 8) ⊎ (i < 8) × (is_pending bitmap i ≡ true))
    × All (λ j. is_pending bitmap j ≡ false) (before i)

next_mask : (i : ℕ) → i < 8 → 2 ^ i * 2 % 2 ^ 32 ≡ 2 ^ (i + 1)
next_mask zero h = refl
next_mask (suc zero) h = refl
next_mask (suc (suc zero)) h = refl
next_mask (suc (suc (suc zero))) h = refl
next_mask (suc (suc (suc (suc zero)))) h = refl
next_mask (suc (suc (suc (suc (suc zero))))) h = refl
next_mask (suc (suc (suc (suc (suc (suc zero)))))) h = refl
next_mask (suc (suc (suc (suc (suc (suc (suc zero))))))) h = refl
next_mask (suc (suc (suc (suc (suc (suc (suc (suc i)))))))) h = absurd (omega arith)

last_round :
    (bitmap : ℕ)
    → All (λ j. is_pending bitmap j ≡ false) (before 8)
    → IsFirst bitmap (find_loop 1 bitmap (2 ^ 8) 8)
unfolding find_loop
last_round bitmap below = elim (Bool-cases (is_pending bitmap 8)) [
  | inl e ↦ rw e (inl refl, below)
  | inr e ↦ rw e (inl refl, below)
]

at_end : (i : ℕ) → i + 0 ≡ 8 → i ≡ 8
at_end i e = omega arith

find_loop-IsFirst :
    (bitmap left i : ℕ)
    → i + left ≡ 8
    → All (λ j. is_pending bitmap j ≡ false) (before i)
    → IsFirst bitmap (find_loop (suc left) bitmap (2 ^ i) i)
unfolding find_loop
find_loop-IsFirst bitmap zero i e below =
    subst
      (λ i.
        All (λ j. is_pending bitmap j ≡ false) (before i)
        → IsFirst bitmap (find_loop 1 bitmap (2 ^ i) i))
      (sym (at_end i e)) (last_round bitmap) below
find_loop-IsFirst bitmap (suc left) i e below = elim (Bool-cases (is_pending bitmap i)) [
  | inl hit ↦ rw hit (inr (not_end i left e, hit), below)
  | inr miss ↦
      rw (miss, not_last i left e, next_mask i (not_end i left e))
        (find_loop-IsFirst bitmap left (i + 1) (shift i left e)
          (subst (λ j. All (λ j. is_pending bitmap j ≡ false) (before j)) (suc_is i) (miss, below)))
]
  where
    not_last : (i left : ℕ) → i + suc left ≡ 8 → ltb i 8 ≡ true
    not_last i left e = ground arith

    not_end : (i left : ℕ) → i + suc left ≡ 8 → i < 8
    not_end i left e = omega arith

    suc_is : (i : ℕ) → suc i ≡ i + 1
    suc_is i = omega arith

    shift : (i left : ℕ) → i + suc left ≡ 8 → i + 1 + left ≡ 8
    shift i left e = omega arith

-- find_dnum returns the first of the eight devices of a line whose bit is set in the bitmap, or 8
-- where none is.
pub find_dnum-IsFirst : (bitmap : ℕ) → IsFirst bitmap (find_dnum bitmap)
unfolding find_dnum
find_dnum-IsFirst bitmap = find_loop-IsFirst bitmap 8 0 refl tt
