-- ===== src/Syscall/Process/Search.antt =====
-- The search of lookfor_progeny in source/syscall.c for an id that one process of a family has.
use jae_os.Prelude.{
  ◌≡◌, ◌≢◌, refl, sym, ◌∙◌, Bool, Bool-cases, inl, inr, true, false, ℕ, zero, suc, ◌*◌, ◌<◌, arith,
  ◌==◌, ==_ne, ==_self, [], ◌∷◌, ◌++◌, Ptr, null, All-at, All-append_left, length, length-append,
  if◌then◌else◌,
}
use jae_os.Const.{rounds}
use jae_os.Arch.{Arch}
use jae_os.Pcb.{Procs}
use jae_os.Kernel.{Kernel, K, ◌>>◌, Step, next, leave, null_pointer, no_fuel, pure}
use jae_os.Kernel.Runs.{nonnull_eq, bind_eq}
use jae_os.Syscall.Process.{
  lookfor_progeny, progeny_loop, terminate_children, unblock, remove_process,
}
use jae_os.Syscall.Process.Family.{Forest, and_also, roots, descendants, IsTrees, IsForest}
use jae_os.Syscall.Process.Progeny.{
  Siblings, Strangers, lookfor-stranger, progeny_loop-next, progeny_loop-Strangers,
}

-- What lookfor_progeny does with the process that it has found.
abbrev pub kill : Arch → Ptr → K (Unit {0})
kill a x = do terminate_children a rounds x x; unblock a x; remove_process a x

then_assoc :
    {A B C : Type 0} (s : Step A) (n : K B) (o : K C) (k : Kernel)
    → (((λ _. s) >> n) >> o) k ≡ ((λ _. s) >> (n >> o)) k
then_assoc (next x k1) n o k = refl
then_assoc (leave e k1) n o k = refl
then_assoc null_pointer n o k = refl
then_assoc no_fuel n o k = refl

then_assoc_three :
    {A B C D : Type 0} (s : Step A) (n : K B) (o : K C) (t : K D) (k : Kernel)
    → (((λ _. s) >> (n >> o)) >> t) k ≡ ((λ _. s) >> (n >> (o >> t))) k
then_assoc_three (next x k1) n o t k = then_assoc (n k1) o t k1
then_assoc_three (leave e k1) n o t k = refl
then_assoc_three null_pointer n o t k = refl
then_assoc_three no_fuel n o t k = refl

then_true :
    {A B C : Type 0} (f : K A) (g : K B) (h : K C) (k k' : Kernel) (x : C)
    → (f >> (g >> h)) k ≡ next x k'
    → (f >> (g >> (h >> pure true))) k ≡ next true k'
then_true f g h k k' x e =
    sym (then_assoc_three (f k) g h (pure true) k)
    ∙ bind_eq (f >> (g >> h)) k (λ _. pure true) e refl

chosen :
    {B : Type 0} (b : Bool) (f g : K B) (k : Kernel) {r : Step B}
    → b ≡ true
    → f k ≡ r
    → (if b then f else g) k ≡ r
chosen b f g k e h = rw e h

-- Where `x` is in the family: the first, below the first, or at or below another one.
pub data Place (x : Ptr) (below : Forest) : Forest → Type 0 where
  here : (hs : Forest) → Place x below (and_also x below hs)
  inside : (r : Ptr) (gs hs : Forest) → Place x below gs → Place x below (and_also r gs hs)
  later : (r : Ptr) (gs hs : Forest) → Place x below hs → Place x below (and_also r gs hs)

module _ (x : Ptr) (below : Forest) where
  pub some_child : (forest : Forest) → Place x below forest → roots forest ≡ [] → ⊥
  some_child _ (here hs) e = cc
  some_child _ (inside r gs hs at) e = cc
  some_child _ (later r gs hs at) e = cc

  -- The family of `x`, and how large it is at most.
  pub IsForest-Place :
      (m : Procs) (forest : Forest) → Place x below forest → IsTrees m forest → IsForest m x below
  IsForest-Place m _ (here hs) is = (is.0, is.1.0)
  IsForest-Place m _ (inside r gs hs at) is = IsForest-Place m gs at is.1.0
  IsForest-Place m _ (later r gs hs at) is = IsForest-Place m hs at is.1.1

  pub length-Place :
      (forest : Forest)
      → Place x below forest
      → length (descendants below) < length (descendants forest)
  length-Place _ (here hs) = omega (arith, length-append (descendants below) (x ∷ descendants hs))
  length-Place _ (inside r gs hs at) =
      omega (arith, length-Place gs at, length-append (descendants gs) (r ∷ descendants hs))
  length-Place _ (later r gs hs at) =
      omega (arith, length-Place hs at, length-append (descendants gs) (r ∷ descendants hs))

module _ (a : Arch) (pid : ℕ) (k : Kernel) (x : Ptr) (below : Forest) where
  -- Those that the search meets before `x` have other ids, and none is NULL.
  abbrev pub Passed : (forest : Forest) → Place x below forest → Type 0
  Passed _ (here hs) = x ≢ null
  Passed _ (inside r gs hs at) = ((r ≢ null) × (k.tables.procs.pid r ≢ pid)) × Passed gs at
  Passed _ (later r gs hs at) = Strangers a pid k (descendants gs ++ r ∷ []) × Passed hs at

module _ (a : Arch) (pid : ℕ) (k k' : Kernel) (x : Ptr) (below : Forest) where
  abbrev m : Procs
  m = k.tables.procs

  -- When it has been found.
  progeny_loop-found :
      (fuel : ℕ) (p r tmp : Ptr)
      → p ≢ null
      → r ≢ null
      → tmp ≢ m.p_children p
      → lookfor_progeny a (suc fuel) r pid false k ≡ next true k'
      → progeny_loop a (suc (suc fuel)) p r tmp pid false k ≡ next true k'
  unfolding progeny_loop
  progeny_loop-found fuel p r tmp ne r_ne more found = nonnull_eq p ne _ _ (
      rw (==_ne tmp (m.p_children p) more) (
        bind_eq (lookfor_progeny a (suc fuel) r pid false) k _ found (
          nonnull_eq r r_ne _ _ (
            nonnull_eq p ne _ _ (elim (Bool-cases (r == k'.tables.procs.p_children p)) [
              | inl e ↦ rw e refl
              | inr e ↦ rw e refl
            ])))))

  lookfor-found :
      (fuel : ℕ)
      → x ≢ null
      → m.pid x ≡ pid
      → kill a x k ≡ next tt k'
      → lookfor_progeny a (suc fuel) x pid false k ≡ next true k'
  unfolding lookfor_progeny
  lookfor-found fuel ne is done = nonnull_eq x ne _ _ (
      chosen (m.pid x == pid) _ _ k (rw is (==_self pid)) (
        then_true (terminate_children a rounds x x) (unblock a x) (remove_process a x) k k' tt
          done))

  pub progeny_loop-Place :
      (forest : Forest) (at : Place x below forest) (fuel : ℕ) (p c tmp : Ptr)
      → m.pid x ≡ pid
      → kill a x k ≡ next tt k'
      → p ≢ null
      → Siblings m.p_siblings (m.p_children p) c tmp (roots forest)
      → IsTrees m forest
      → Passed a pid k x below forest at
      → length (descendants forest) * 2 < fuel
      → progeny_loop a fuel p c tmp pid false k ≡ next true k'
  unfolding Siblings
  progeny_loop-Place forest at zero p c tmp e done ne s is out enough = absurd (omega arith)
  progeny_loop-Place _ (here hs) (suc zero) p c tmp e done ne s is out enough =
      absurd (omega (arith, length-append (descendants below) (x ∷ descendants hs)))
  progeny_loop-Place _ (here hs) (suc (suc fuel)) p c tmp e done ne s is out enough =
      rw s.0 (progeny_loop-found fuel p x tmp ne out s.1.0 (lookfor-found fuel out e done))
  progeny_loop-Place _ (inside r gs hs at) (suc zero) p c tmp e done ne s is out enough =
      absurd (omega (arith, length-append (descendants gs) (r ∷ descendants hs)))
  progeny_loop-Place _ (inside r gs hs at) (suc (suc fuel)) p c tmp e done ne s is out enough =
      let size = length-append (descendants gs) (r ∷ descendants hs) in
      let r_ne = out.0.0 in
      rw s.0 (
        progeny_loop-found fuel p r tmp ne r_ne s.1.0 (
          lookfor-stranger a pid k fuel r (roots gs) (next true k') r_ne out.0.1 is.0
            (λ empty. absurd (some_child x below gs at empty))
            λ d t.
              progeny_loop-Place gs at fuel r d null e done r_ne t is.1.0 out.1
                (omega (arith, enough, size))))
  progeny_loop-Place _ (later r gs hs at) (suc zero) p c tmp e done ne s is out enough =
      absurd (omega (arith, length-append (descendants gs) (r ∷ descendants hs)))
  progeny_loop-Place _ (later r gs hs at) (suc (suc fuel)) p c tmp e done ne s is out enough =
      let ds = descendants gs in
      let size = length-append ds (r ∷ descendants hs) in
      let (r_ne, other) = All-at _ ds r [] out.0 in
      rw s.0 (
        progeny_loop-next a pid k (suc fuel) p r tmp ne r_ne s.1.0
          (lookfor-stranger a pid k fuel r (roots gs) _ r_ne other is.0 (λ _. refl)
            λ d t.
              progeny_loop-Strangers a pid k gs fuel r d null r_ne t is.1.0
                (All-append_left _ ds (r ∷ []) out.0) (omega (arith, enough, size)))
          (progeny_loop-Place hs at (suc fuel) p (m.p_siblings r) r e done ne s.1.1 is.1.1 out.1
            (omega (arith, enough, size))))
