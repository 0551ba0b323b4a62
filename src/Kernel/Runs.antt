-- ===== src/Kernel/Runs.antt =====
-- What a handler's call comes to: it goes on, or it leaves the nucleus.
use jae_os.Prelude.{
  ℕ, ◌≡◌, ◌≢◌, ◌∙◌, ap, subst, refl, ◌==◌, ==_ne, if◌then◌else◌, Ptr, null, Run, Returns, returns,
  ok,
}
use jae_os.Prelude.Int.{ℤ, int_of}
use jae_os.Pcb.{Procs}
use jae_os.Asl.{Tables}
use jae_os.Kernel.{
  read_int, on_procs, set_procs, asks, ◌>>=◌, Kernel, Exit, Step, next, leave, null_pointer,
  no_fuel, K, from_run,
}

pub data Proceeds {A : Type 0} (P : A → Kernel → Type 0) : Step A → Type 0 where
  proceeds : {a : A} {k : Kernel} → P a k → Proceeds P (next a k)

pub data Leaves {A : Type 0} (Q : Exit → Kernel → Type 0) : Step A → Type 0 where
  leaves : {e : Exit} {k : Kernel} → Q e k → Leaves Q (leave e k)

module _ {A B : Type 0} {P : A → Kernel → Type 0} {f : A → K B} where
  pub Proceeds-Leaves :
      {Q : Exit → Kernel → Type 0} {s : Step A}
      → Proceeds P s
      → ((a : A) (k : Kernel) → P a k → Leaves Q (f a k))
      → Leaves Q (elim s [
        | next a k ↦ f a k
        | leave e k ↦ leave e k
        | null_pointer ↦ null_pointer
        | no_fuel ↦ no_fuel
      ])
  Proceeds-Leaves (proceeds p) then_do = then_do _ _ p

  pub Proceeds-bind :
      {Q : B → Kernel → Type 0} {s : Step A}
      → Proceeds P s
      → ((a : A) (k : Kernel) → P a k → Proceeds Q (f a k))
      → Proceeds Q (elim s [
        | next a k ↦ f a k
        | leave e k ↦ leave e k
        | null_pointer ↦ null_pointer
        | no_fuel ↦ no_fuel
      ])
  Proceeds-bind (proceeds p) then_do = then_do _ _ p

-- An access through a pointer that is not NULL, with what follows.
module _ {A B : Type 0} (p : Ptr) (ne : p ≢ null) where
  pub nonnull-Leaves :
      (s : Step A) (f : A → K B) {Q : Exit → Kernel → Type 0}
      → Leaves Q (elim s [
        | next a k ↦ f a k
        | leave e k ↦ leave e k
        | null_pointer ↦ null_pointer
        | no_fuel ↦ no_fuel
      ])
      → Leaves Q (elim (if p == null then null_pointer else s) [
        | next a k ↦ f a k
        | leave e k ↦ leave e k
        | null_pointer ↦ null_pointer
        | no_fuel ↦ no_fuel
      ])
  nonnull-Leaves s f h = rw (==_ne p null ne) h

  pub nonnull-Proceeds :
      (s : Step A) (f : A → K B) {Q : B → Kernel → Type 0}
      → Proceeds Q (elim s [
        | next a k ↦ f a k
        | leave e k ↦ leave e k
        | null_pointer ↦ null_pointer
        | no_fuel ↦ no_fuel
      ])
      → Proceeds Q (elim (if p == null then null_pointer else s) [
        | next a k ↦ f a k
        | leave e k ↦ leave e k
        | null_pointer ↦ null_pointer
        | no_fuel ↦ no_fuel
      ])
  nonnull-Proceeds s f h = rw (==_ne p null ne) h

pub Proceeds-next :
    {A : Type 0} {P : A → Kernel → Type 0} {s : Step A}
    → Proceeds P s
    → (x : A) × (k : Kernel) × P x k × (s ≡ next x k)
Proceeds-next (proceeds p) = (_, _, p, refl)

pub Proceeds-mono :
    {A : Type 0} {P Q : A → Kernel → Type 0} {s : Step A}
    → Proceeds P s
    → ((a : A) (k : Kernel) → P a k → Q a k)
    → Proceeds Q s
Proceeds-mono (proceeds p) weaken = proceeds (weaken _ _ p)

pub Leaves-mono :
    {A : Type 0} {P Q : Exit → Kernel → Type 0} {s : Step A}
    → Leaves P s
    → ((e : Exit) (k : Kernel) → P e k → Q e k)
    → Leaves Q s
Leaves-mono (leaves p) weaken = leaves (weaken _ _ p)

-- What follows a call that leaves the nucleus is not reached.
pub Leaves-bind :
    {A B : Type 0} {Q : Exit → Kernel → Type 0} {s : Step A} (f : A → K B)
    → Leaves Q s
    → Leaves Q (elim s [
      | next a k ↦ f a k
      | leave e k ↦ leave e k
      | null_pointer ↦ null_pointer
      | no_fuel ↦ no_fuel
    ])
Leaves-bind f (leaves p) = leaves p

pub from_run-Proceeds :
    {A B : Type 0} {P : A → Type 0} {r : Run A} (set : A → Kernel → Kernel) (result : A → B)
    (k : Kernel)
    → Returns P r
    → Proceeds (λ b k'. (a : A) × P a × (b ≡ result a) × (k' ≡ set a k)) (from_run set result r k)
from_run-Proceeds set result k (returns p) = proceeds (_, p, refl, refl)

pub read_int-Proceeds :
    (a : ℕ) (k : Kernel)
    → a ≢ null
    → Proceeds (λ v k'. (v ≡ int_of (k.machine.memory a)) × (k' ≡ k)) (read_int a k)
read_int-Proceeds a k ne = nonnull-Proceeds a ne _ _ (proceeds (refl, refl))

pub nonnull_eq :
    {A B : Type 0} (p : Ptr) (ne : p ≢ null) (s : Step A) (f : A → K B) {r : Step B}
    → elim s [
      | next a k ↦ f a k
      | leave e k ↦ leave e k
      | null_pointer ↦ null_pointer
      | no_fuel ↦ no_fuel
    ]
      ≡ r
    → elim (if p == null then null_pointer else s) [
      | next a k ↦ f a k
      | leave e k ↦ leave e k
      | null_pointer ↦ null_pointer
      | no_fuel ↦ no_fuel
    ]
      ≡ r
nonnull_eq p ne s f h = rw (==_ne p null ne) h

pub bind_eq :
    {A B : Type 0} (n : K A) (k : Kernel) (f : A → K B) {x : A} {k' : Kernel} {r : Step B}
    → n k ≡ next x k'
    → f x k' ≡ r
    → (n >>= f) k ≡ r
bind_eq n k f e h = ap (λ s. ((λ _. s) >>= f) k) e ∙ h

pub asks_eq :
    {A B : Type 0} (g : Tables → Run A) (k : Kernel) (f : A → K B) {x : A} {r : Step B}
    → g k.tables ≡ ok x
    → f x k ≡ r
    → (asks g >>= f) k ≡ r
asks_eq g k f e h = ap (λ run. (from_run (λ _ k. k) (λ a. a) run >>= f) k) e ∙ h

pub on_procs_eq :
    {A B : Type 0} (g : Procs → Run (A × Procs)) (k : Kernel) (f : A → K B) {x : A} {m : Procs}
    {r : Step B}
    → g k.tables.procs ≡ ok (x, m)
    → f x (set_procs m k) ≡ r
    → (on_procs g >>= f) k ≡ r
on_procs_eq g k f e h = ap (λ run. (from_run (λ r k. set_procs r.1 k) (λ r. r.0) run >>= f) k) e ∙ h

pub read_int_eq :
    {B : Type 0} (a : ℕ) (k : Kernel) (f : ℤ → K B) {r : Step B}
    → a ≢ null
    → f (int_of (k.machine.memory a)) k ≡ r
    → (read_int a >>= f) k ≡ r
read_int_eq a k f ne h =
    let e : read_int a k ≡ next (int_of (k.machine.memory a)) k =
      nonnull_eq a ne (next (k.machine.memory a) k) (λ w k. next (int_of w) k) refl in
    ap (λ s. ((λ _. s) >>= f) k) e ∙ h

pub asks-Proceeds :
    {A : Type 0} (g : Tables → Run A) (k : Kernel) {x : A}
    → g k.tables ≡ ok x
    → Proceeds (λ y k'. (y ≡ x) × (k' ≡ k)) (asks g k)
asks-Proceeds g k e = rw e (proceeds (refl, refl))

-- A step without a fault and with enough fuel: if it goes on, then in a state with `P`.
pub data Safe {A : Type 0} (P : A → Kernel → Type 0) : Step A → Type 0 where
  goes : {a : A} {k : Kernel} → P a k → Safe P (next a k)
  stops : {e : Exit} {k : Kernel} → Safe P (leave e k)

pub Proceeds-Safe :
    {A B : Type 0} {P : A → Kernel → Type 0} {f : A → K B} {Q : B → Kernel → Type 0} {s : Step A}
    → Proceeds P s
    → ((a : A) (k : Kernel) → P a k → Safe Q (f a k))
    → Safe Q (elim s [
      | next a k ↦ f a k
      | leave e k ↦ leave e k
      | null_pointer ↦ null_pointer
      | no_fuel ↦ no_fuel
    ])
Proceeds-Safe (proceeds p) then_do = then_do _ _ p

pub Safe-of_Proceeds : {A : Type 0} {P : A → Kernel → Type 0} {s : Step A} → Proceeds P s → Safe P s
Safe-of_Proceeds (proceeds p) = goes p

pub nonnull-Safe :
    {A B : Type 0} (p : Ptr) (ne : p ≢ null) (s : Step A) (f : A → K B) {Q : B → Kernel → Type 0}
    → Safe Q (elim s [
      | next a k ↦ f a k
      | leave e k ↦ leave e k
      | null_pointer ↦ null_pointer
      | no_fuel ↦ no_fuel
    ])
    → Safe Q (elim (if p == null then null_pointer else s) [
      | next a k ↦ f a k
      | leave e k ↦ leave e k
      | null_pointer ↦ null_pointer
      | no_fuel ↦ no_fuel
    ])
nonnull-Safe p ne s f h = rw (==_ne p null ne) h

-- What holds of all outcomes of a step holds of the one that it has.
abbrev IfLeaves : {A : Type 0} → (Exit → Kernel → Type 0) → Step A → Type 0
IfLeaves P (next a k) = Unit
IfLeaves P (leave e k) = P e k
IfLeaves P null_pointer = Unit
IfLeaves P no_fuel = Unit

abbrev IfNext : {A : Type 0} → (A → Kernel → Type 0) → Step A → Type 0
IfNext P (next a k) = P a k
IfNext P (leave e k) = Unit
IfNext P null_pointer = Unit
IfNext P no_fuel = Unit

pub Leaves-at :
    {A : Type 0} {P : Exit → Kernel → Type 0} {s : Step A} {e : Exit} {k : Kernel}
    → Leaves P s
    → s ≡ leave e k
    → P e k
Leaves-at {P = P} (leaves p) d = subst (IfLeaves P) d p

pub Safe-at :
    {A : Type 0} {P : A → Kernel → Type 0} {s : Step A} {a : A} {k : Kernel}
    → Safe P s
    → s ≡ next a k
    → P a k
Safe-at {P = P} (goes p) d = subst (IfNext P) d p
Safe-at {P = P} stops d = absurd (cc)

pub Leaves-both :
    {A : Type 0} {P Q : Exit → Kernel → Type 0} {s : Step A}
    → Leaves P s
    → Leaves Q s
    → Leaves (λ e k. P e k × Q e k) s
Leaves-both {P = P} (leaves {e = e} {k = k} p) q = leaves (p, Leaves-at q refl)

pub Proceeds-both :
    {A : Type 0} {P Q : A → Kernel → Type 0} {s : Step A}
    → Proceeds P s
    → Proceeds Q s
    → Proceeds (λ x k. P x k × Q x k) s
Proceeds-both (proceeds p) q = proceeds (p, Safe-at (Safe-of_Proceeds q) refl)
