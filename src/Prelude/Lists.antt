-- ===== src/Prelude/Lists.antt =====
-- Lists of pointers: length, membership and distinctness by recursion.
use Prim.Native.Nat.{ℕ, zero, suc, ◌+◌, ◌≤◌}
use jae_os.Prelude.Tests.{eq_cases}
use mathlib.Core.Path.{◌≡◌, refl, sym, ap, subst}
use mathlib.Core.Logic.{◌≢◌, ◌⊎◌, inl, inr}
use mathlib.Core.List.{List, [], ◌∷◌, ◌++◌, map}
use native.Mathlib.Omega.{arith}

module _ {ℓ} {A : Type ℓ} where
  abbrev pub length : List A → ℕ
  length [] = 0
  length (x ∷ xs) = suc (length xs)

  -- The last element of `x ∷ xs`.
  abbrev pub last_of : A → List A → A
  last_of x [] = x
  last_of x (y ∷ ys) = last_of y ys

  abbrev pub All {κ} : (A → Type κ) → List A → Type κ
  All P [] = Unit
  All P (x ∷ xs) = P x × All P xs

  -- No element of the list is `a`.
  abbrev pub NotIn : A → List A → Type ℓ
  NotIn a = All λ x. x ≢ a

  abbrev pub Distinct : List A → Type ℓ
  Distinct [] = Unit
  Distinct (x ∷ xs) = NotIn x xs × Distinct xs

  pub length-append : (xs ys : List A) → length (xs ++ ys) ≡ length xs + length ys
  length-append [] ys = omega arith
  length-append (x ∷ xs) ys = omega (arith, length-append xs ys)

  pub All-append {κ} : (P : A → Type κ) (xs ys : List A) → All P xs → All P ys → All P (xs ++ ys)
  All-append P [] ys h k = k
  All-append P (x ∷ xs) ys h k = (h.0, All-append P xs ys h.1 k)

  pub All-append_left {κ} : (P : A → Type κ) (xs ys : List A) → All P (xs ++ ys) → All P xs
  All-append_left P [] ys h = tt
  All-append_left P (x ∷ xs) ys h = (h.0, All-append_left P xs ys h.1)

  pub All-append_right {κ} : (P : A → Type κ) (xs ys : List A) → All P (xs ++ ys) → All P ys
  All-append_right P [] ys h = h
  All-append_right P (x ∷ xs) ys h = All-append_right P xs ys h.1

  pub All-map {κ μ} :
      (P : A → Type κ) (Q : A → Type μ) (xs : List A) → ((a : A) → P a → Q a) → All P xs → All Q xs
  All-map P Q [] f h = tt
  All-map P Q (x ∷ xs) f h = (f x h.0, All-map P Q xs f h.1)

  pub Distinct-snoc : (a : A) (xs : List A) → NotIn a xs → Distinct xs → Distinct (xs ++ a ∷ [])
  Distinct-snoc a [] h d = (tt, tt)
  Distinct-snoc a (x ∷ xs) h d =
      (All-append _ xs _ d.0 (λ e. h.0 (sym e), tt), Distinct-snoc a xs h.1 d.1)

  pub All-drop {κ} :
      (P : A → Type κ) (xs : List A) (a : A) (ys : List A) → All P (xs ++ a ∷ ys) → All P (xs ++ ys)
  All-drop P [] a ys h = h.1
  All-drop P (x ∷ xs) a ys h = (h.0, All-drop P xs a ys h.1)

  pub All-at {κ} : (P : A → Type κ) (xs : List A) (a : A) (ys : List A) → All P (xs ++ a ∷ ys) → P a
  All-at P [] a ys h = h.0
  All-at P (x ∷ xs) a ys h = All-at P xs a ys h.1

  -- A distinct list with `a` in the middle: the rest is distinct and without `a`.
  pub Distinct-drop :
      (xs : List A) (a : A) (ys : List A) → Distinct (xs ++ a ∷ ys) → Distinct (xs ++ ys)
  Distinct-drop [] a ys d = d.1
  Distinct-drop (x ∷ xs) a ys d = (All-drop _ xs a ys d.0, Distinct-drop xs a ys d.1)

  pub Distinct-NotIn :
      (xs : List A) (a : A) (ys : List A) → Distinct (xs ++ a ∷ ys) → NotIn a (xs ++ ys)
  Distinct-NotIn [] a ys d = d.0
  Distinct-NotIn (x ∷ xs) a ys d = (λ e. All-at _ xs a ys d.0 (sym e), Distinct-NotIn xs a ys d.1)

  pub last_of-snoc : (x : A) (xs : List A) (a : A) → last_of x (xs ++ a ∷ []) ≡ a
  last_of-snoc x [] a = refl
  last_of-snoc x (y ∷ ys) a = last_of-snoc y ys a

  -- A list is empty or has a last element.
  pub snoc-cases : (xs : List A) → (xs ≡ []) ⊎ ((ys : List A) × (a : A) × (xs ≡ ys ++ a ∷ []))
  snoc-cases [] = inl refl
  snoc-cases (x ∷ xs) = elim (snoc-cases xs) [
    | inl e ↦ inr ([], x, ap (◌∷◌ x) e)
    | inr (ys, a, e) ↦ inr (x ∷ ys, a, ap (◌∷◌ x) e)
  ]

  pub append-cons-ne : (xs : List A) (a : A) (ys : List A) → xs ++ a ∷ ys ≢ []
  append-cons-ne [] a ys e = cc
  append-cons-ne (x ∷ xs) a ys e = cc

  pub All-insert {κ} :
      (P : A → Type κ) (xs : List A) (a : A) (ys : List A)
      → P a
      → All P (xs ++ ys)
      → All P (xs ++ a ∷ ys)
  All-insert P [] a ys p h = (p, h)
  All-insert P (x ∷ xs) a ys p h = (h.0, All-insert P xs a ys p h.1)

  pub Distinct-insert :
      (xs : List A) (a : A) (ys : List A)
      → NotIn a (xs ++ ys)
      → Distinct (xs ++ ys)
      → Distinct (xs ++ a ∷ ys)
  Distinct-insert [] a ys out d = (out, d)
  Distinct-insert (x ∷ xs) a ys out d =
      (All-insert _ xs a ys (λ e. out.0 (sym e)) d.0, Distinct-insert xs a ys out.1 d.1)

  pub All-last {κ} : (P : A → Type κ) (x : A) (xs : List A) → All P (x ∷ xs) → P (last_of x xs)
  All-last P x [] h = h.0
  All-last P x (y ∷ ys) h = All-last P y ys h.1

  pub last-split : (x : A) (xs : List A) → (ys : List A) × (x ∷ xs ≡ ys ++ last_of x xs ∷ [])
  last-split x [] = ([], refl)
  last-split x (y ∷ xs) = let (ys, e) = last-split y xs in (x ∷ ys, ap (◌∷◌ x) e)

  pub cons-cases : (xs : List A) → (xs ≡ []) ⊎ ((x : A) × (ys : List A) × (xs ≡ x ∷ ys))
  cons-cases [] = inl refl
  cons-cases (x ∷ xs) = inr (x, xs, refl)

  pub All-both {κ μ ν} :
      (P : A → Type κ) (Q : A → Type μ) (R : A → Type ν) (xs : List A)
      → ((a : A) → P a → Q a → R a)
      → All P xs
      → All Q xs
      → All R xs
  All-both P Q R [] f h k = tt
  All-both P Q R (x ∷ xs) f h k = (f x h.0 k.0, All-both P Q R xs f h.1 k.1)

  pub All-All {κ} : (P : A → Type κ) (xs : List A) → ((a : A) → P a) → All P xs
  All-All P [] f = tt
  All-All P (x ∷ xs) f = (f x, All-All P xs f)

pub length-map {ℓ κ} :
    {A : Type ℓ} {B : Type κ} (f : A → B) (xs : List A) → length (map f xs) ≡ length xs
length-map f [] = refl
length-map f (x ∷ xs) = ap suc (length-map f xs)

pub All-of_map {ℓ κ μ} :
    {A : Type ℓ} {B : Type κ} (P : B → Type μ) (f : A → B) (xs : List A)
    → All (λ a. P (f a)) xs
    → All P (map f xs)
All-of_map P f [] h = tt
All-of_map P f (x ∷ xs) h = (h.0, All-of_map P f xs h.1)

-- Where `a` is in a list of numbers, if it is.
pub NotIn-cases :
    (a : ℕ) (xs : List ℕ) → NotIn a xs ⊎ ((bs : List ℕ) × (cs : List ℕ) × (xs ≡ bs ++ a ∷ cs))
NotIn-cases a [] = inl tt
NotIn-cases a (x ∷ xs) = elim (eq_cases x a) [
  | inl e ↦ inr ([], xs, ap (λ y. y ∷ xs) e)
  | inr ne ↦ elim (NotIn-cases a xs) [
    | inl out ↦ inl (ne, out)
    | inr (bs, cs, e) ↦ inr (x ∷ bs, cs, ap (◌∷◌ x) e)
  ]
]

All-le_pred :
    (n : ℕ) (xs : List ℕ) → All (λ x. x ≤ suc n) xs → NotIn (suc n) xs → All (λ x. x ≤ n) xs
All-le_pred n [] h out = tt
All-le_pred n (x ∷ xs) h out = (le_pred n x h.0 out.0, All-le_pred n xs h.1 out.1)
  where
    le_pred : (n x : ℕ) → x ≤ suc n → x ≢ suc n → x ≤ n
    le_pred n x h ne = omega arith

-- Distinct numbers from 1 to `n` are at most `n`.
pub pigeonhole :
    (n : ℕ) (xs : List ℕ) → Distinct xs → NotIn 0 xs → All (λ x. x ≤ n) xs → length xs ≤ n
pigeonhole zero [] d nn h = omega arith
pigeonhole zero (x ∷ xs) d nn h = absurd (zero_only x h.0 nn.0)
  where
    zero_only : (x : ℕ) → x ≤ 0 → x ≢ 0 → ⊥
    zero_only x h ne = omega arith
pigeonhole (suc n) xs d nn h = elim (NotIn-cases (suc n) xs) [
  | inl out ↦ omega (arith, pigeonhole n xs d nn (All-le_pred n xs h out))
  | inr (bs, cs, e) ↦
      let d' = subst Distinct e d in
      let rest =
        pigeonhole n (bs ++ cs) (Distinct-drop bs (suc n) cs d')
          (All-drop _ bs (suc n) cs (subst (NotIn 0) e nn))
          (All-le_pred n (bs ++ cs) (All-drop _ bs (suc n) cs (subst (All (λ x. x ≤ suc n)) e h))
            (Distinct-NotIn bs (suc n) cs d')) in
      omega (arith, rest, ap length e, length-append bs (suc n ∷ cs), length-append bs cs)
]

module _ {ℓ κ} {A : Type ℓ} (P : A → Type κ) where
  -- The element in the middle replaced by another.
  pub All-replace :
      (xs : List A) (a b : A) (ys : List A) → P b → All P (xs ++ a ∷ ys) → All P (xs ++ b ∷ ys)
  All-replace [] a b ys p h = (p, h.1)
  All-replace (x ∷ xs) a b ys p h = (h.0, All-replace xs a b ys p h.1)
