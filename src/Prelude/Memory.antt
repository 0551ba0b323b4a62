-- ===== src/Prelude/Memory.antt =====
-- Runs of code over memory. A pointer is a number and `NULL` is 0. Memory is split by field: the
-- field `f` of the structure at `p` is `f p`. Reading or writing a field through `NULL` is a fault.
use Prim.Native.Nat.{ℕ}
use mathlib.Core.Path.{◌≡◌, sym, ◌∙◌, fun_ext}
use mathlib.Core.Logic.{◌≢◌, inl, inr}
use native.Mathlib.Omega.{arith}
use jae_os.Prelude.Tests.{◌==◌, eq_cases, if◌then◌else◌}

abbrev pub Ptr : Type 0
Ptr = ℕ

abbrev pub null : Ptr
null = 0

pub data Run {ℓ} (A : Type ℓ) : Type ℓ where
  ok : A → Run A
  null_dereference : Run A
  out_of_fuel : Run A

infixl 5 ◌>>=◌ ◌>>◌
abbrev pub ◌>>=◌ {ℓ κ} : {A : Type ℓ} {B : Type κ} → Run A → (A → Run B) → Run B
ok a >>= f = f a
null_dereference >>= f = null_dereference
out_of_fuel >>= f = out_of_fuel

abbrev pub ◌>>◌ {ℓ κ} : {A : Type ℓ} {B : Type κ} → Run A → Run B → Run B
m >> n = m >>= λ _. n

module _ {ℓ} {A : Type ℓ} where
  -- `p->f`
  unfoldable pub load : (Ptr → A) → Ptr → Run A
  load f p = if p == null then null_dereference else ok (f p)

  unfoldable pub update : (Ptr → A) → Ptr → A → Ptr → A
  update f p v q = if q == p then v else f q

  -- `p->f = v`
  unfoldable pub store : (Ptr → A) → Ptr → A → Run (Ptr → A)
  store f p v = if p == null then null_dereference else ok (update f p v)

  pub load-ok : (f : Ptr → A) (p : Ptr) → p ≢ null → load f p ≡ ok (f p)
  unfolding load
  load-ok f p h = ground arith

  pub store-ok : (f : Ptr → A) (p : Ptr) (v : A) → p ≢ null → store f p v ≡ ok (update f p v)
  unfolding store
  store-ok f p v h = ground arith

  pub update_self : (f : Ptr → A) (p : Ptr) (v : A) → update f p v p ≡ v
  unfolding update
  update_self f p v = ground arith

  pub update_ne : (f : Ptr → A) (p q : Ptr) (v : A) → q ≢ p → update f p v q ≡ f q
  unfolding update
  update_ne f p q v h = ground arith

  pub update_again : (f : Ptr → A) (p : Ptr) (v w : A) → update (update f p v) p w ≡ update f p w
  update_again f p v w = fun_ext λ q. elim (eq_cases q p) [
    | inl e ↦ rw e (update_self (update f p v) p w ∙ sym (update_self f p w))
    | inr ne ↦ update_ne (update f p v) p q w ne ∙ update_ne f p q v ne ∙ sym (update_ne f p q w ne)
  ]

  pub update_same : (f : Ptr → A) (p : Ptr) → update f p (f p) ≡ f
  update_same f p = fun_ext λ q. elim (eq_cases q p) [
    | inl e ↦ rw e (update_self f p (f p))
    | inr ne ↦ update_ne f p q (f p) ne
  ]

-- Total correctness of a run: no fault, enough fuel, and a postcondition.
pub data Returns {ℓ κ} {A : Type ℓ} (P : A → Type κ) : Run A → Type (ℓ ⊔ κ) where
  returns : {a : A} → P a → Returns P (ok a)

module _ {ℓ κ} {A : Type ℓ} {P : A → Type κ} where
  pub Returns-bind {μ ν} :
      {B : Type μ} {Q : B → Type ν} {r : Run A} {k : A → Run B}
      → Returns P r
      → ((a : A) → P a → Returns Q (k a))
      → Returns Q (r >>= k)
  Returns-bind (returns p) next = next _ p

  pub Returns-mono {μ} :
      {Q : A → Type μ} {r : Run A} → Returns P r → ((a : A) → P a → Q a) → Returns Q r
  Returns-mono (returns p) weaken = returns (weaken _ p)
