-- ===== src/Syscall/Process/Progeny.antt =====
-- The search of lookfor_progeny in source/syscall.c for an id that no process of a family has.
use jae_os.Prelude.{
  ◌≡◌, ◌≢◌, refl, sym, subst, Bool, ℕ, zero, suc, ◌*◌, ◌<◌, arith, false, ◌==◌, ==_ne, ==_self,
  ◌||◌, List, [], ◌∷◌, ◌++◌, Ptr, null, All, All-both, All-at, All-append_left, All-append_right,
  All-drop, NotIn, length, length-append, if◌then◌else◌,
}
use jae_os.Const.{rounds}
use jae_os.Arch.{Arch}
use jae_os.Clist.Ring.{Ring, vacant, filled, Walk, clist_head-tail}
use jae_os.Clist.{clist_head}
use jae_os.Pcb.{Procs, children}
use jae_os.Pcb.Tree.{IsChildren}
use jae_os.Kernel.{Kernel, K, ◌>>=◌, Step, next, leave, panic, pure, asks}
use jae_os.Kernel.Runs.{nonnull_eq, asks_eq, bind_eq}
use jae_os.Syscall.Process.{lookfor_progeny, progeny_loop, terminate_process, tree_rounds}
use jae_os.Syscall.Process.Family.{Forest, no_more, and_also, roots, descendants, IsTrees, IsForest}

-- Following the siblings from `c`, of which the one before is `tmp`, visits `xs` and ends at `tail`.
unfoldable pub Siblings : (Ptr → Ptr) → Ptr → Ptr → Ptr → List Ptr → Type 0
Siblings n tail c tmp [] = tmp ≡ tail
Siblings n tail c tmp (x ∷ xs) = (c ≡ x) × ((tmp ≢ tail) × Siblings n tail (n x) x xs)

Walk-Siblings :
    (n : Ptr → Ptr) (tail a tmp : Ptr) (ys : List Ptr)
    → Walk n a ys tail
    → NotIn tail ys
    → tmp ≢ tail
    → Siblings n tail (n a) tmp (ys ++ tail ∷ [])
unfolding Siblings
Walk-Siblings n tail a tmp [] w out ne = (w, (ne, refl))
Walk-Siblings n tail a tmp (y ∷ ys) w out ne =
    (w.0, (ne, Walk-Siblings n tail y y ys w.1 out.1 out.0))

module _ (a : Arch) (pid : ℕ) (k : Kernel) where
  abbrev m : Procs
  m = k.tables.procs

  -- No process of the list has the id.
  abbrev pub Strangers : List Ptr → Type 0
  Strangers = All λ q. (q ≢ null) × (m.pid q ≢ pid)

  pub lookfor-stranger :
      (fuel : ℕ) (p : Ptr) (xs : List Ptr) (r : Step Bool)
      → p ≢ null
      → m.pid p ≢ pid
      → IsChildren m p xs
      → (xs ≡ [] → next false k ≡ r)
      → ((c : Ptr)
          → Siblings m.p_siblings (m.p_children p) c null xs
          → progeny_loop a fuel p c null pid false k ≡ r)
      → lookfor_progeny a (suc fuel) p pid false k ≡ r
  unfolding lookfor_progeny
  lookfor-stranger fuel p xs r ne other is nobody then_do =
      nonnull_eq p ne _ _
        (rw (==_ne (m.pid p) pid other) (nonnull_eq p ne _ _ (headed is.ring then_do)))
    where
      headed :
          Ring (children m p) xs
          → ((c : Ptr)
              → Siblings m.p_siblings (m.p_children p) c null xs
              → progeny_loop a fuel p c null pid false k ≡ r)
          → (if m.p_children p == null then pure false else do
            child ← asks (λ t. clist_head (children t.procs p))
            progeny_loop a fuel p child null pid false)
              k
            ≡ r
      headed (vacant none empty) then_do = rw none (nobody empty)
      headed (filled ys h eq) then_do = rw (==_ne (m.p_children p) null h.tail_ne) (
          asks_eq (λ t. clist_head (children t.procs p)) k _
            (clist_head-tail (children m p) h.tail_ne)
            (then_do (m.p_siblings (m.p_children p)) (
              subst (Siblings m.p_siblings (m.p_children p) (m.p_siblings (m.p_children p)) null)
                (sym eq)
                (Walk-Siblings m.p_siblings (m.p_children p) (m.p_children p) null ys h.walk h.fresh
                  (λ e. h.tail_ne (sym e))))))

  -- One round of the loop.
  pub progeny_loop-next :
      (fuel : ℕ) (p r tmp : Ptr) {s : Step Bool}
      → p ≢ null
      → r ≢ null
      → tmp ≢ m.p_children p
      → lookfor_progeny a fuel r pid false k ≡ next false k
      → progeny_loop a fuel p (m.p_siblings r) r pid false k ≡ s
      → progeny_loop a (suc fuel) p r tmp pid false k ≡ s
  unfolding progeny_loop
  progeny_loop-next fuel p r tmp ne r_ne more none rest = nonnull_eq p ne _ _ (
      rw (==_ne tmp (m.p_children p) more)
        (bind_eq (lookfor_progeny a fuel r pid false) k _ none (nonnull_eq r r_ne _ _ rest)))

  pub progeny_loop-Strangers :
      (forest : Forest) (fuel : ℕ) (p c tmp : Ptr)
      → p ≢ null
      → Siblings m.p_siblings (m.p_children p) c tmp (roots forest)
      → IsTrees m forest
      → Strangers (descendants forest)
      → length (descendants forest) * 2 < fuel
      → progeny_loop a fuel p c tmp pid false k ≡ next false k
  unfolding progeny_loop Siblings
  progeny_loop-Strangers forest zero p c tmp ne s is out enough = absurd (omega arith)
  progeny_loop-Strangers no_more (suc fuel) p c tmp ne s is out enough =
      nonnull_eq p ne _ _ (rw (s, ==_self (m.p_children p)) refl)
  progeny_loop-Strangers (and_also r gs hs) (suc zero) p c tmp ne s is out enough =
      absurd (omega (arith, length-append (descendants gs) (r ∷ descendants hs)))
  progeny_loop-Strangers (and_also r gs hs) (suc (suc fuel)) p c tmp ne s is out enough =
      let ds = descendants gs in
      let rest = descendants hs in
      let size = length-append ds (r ∷ rest) in
      let (r_ne, other) = All-at _ ds r rest out in
      let away = All-drop _ ds r rest out in
      rw s.0 (
        progeny_loop-next (suc fuel) p r tmp ne r_ne s.1.0
          (lookfor-stranger fuel r (roots gs) _ r_ne other is.0 (λ _. refl)
            λ d t.
              progeny_loop-Strangers gs fuel r d null r_ne t is.1.0 (All-append_left _ ds rest away)
                (omega (arith, enough, size)))
          (progeny_loop-Strangers hs (suc fuel) p (m.p_siblings r) r ne s.1.1 is.1.1
            (All-append_right _ ds rest away) (omega (arith, enough, size))))

pub neither : (pid own : ℕ) → pid ≢ 0 → own ≢ pid → (pid == 0 || pid == own) ≡ false
neither pid own ne other = ground arith

pub unchosen :
    {B : Type 0} (b : Bool) (f g : K B) (k : Kernel) {r : Step B}
    → b ≡ false
    → g k ≡ r
    → (if b then f else g) k ≡ r
unchosen b f g k e h = rw e h

-- terminate_process of an id other than 0, which neither the calling process has nor one of the at
-- most twenty below it, ends its search within its bound and leaves the nucleus by PANIC, with
-- nothing changed.
pub terminate_process-unknown :
    (a : Arch) (pid : ℕ) (k : Kernel) (forest : Forest)
    → k.current_process ≢ null
    → IsForest k.tables.procs k.current_process forest
    → NotIn null (descendants forest)
    → pid ≢ 0
    → All (λ q. k.tables.procs.pid q ≢ pid) (k.current_process ∷ descendants forest)
    → length (descendants forest) < rounds
    → terminate_process a pid k ≡ leave panic k
unfolding terminate_process
terminate_process-unknown a pid k forest lives is nonnull named others few =
    let p = k.current_process in
    nonnull_eq p lives _ _ (
      unchosen (pid == 0 || pid == k.tables.procs.pid p) _ _ k
        (neither pid (k.tables.procs.pid p) named others.0)
        (bind_eq (lookfor_progeny a (tree_rounds a) p pid false) k _
          (lookfor-stranger a pid k 41 p (roots forest) _ lives others.0 is.0 (λ _. refl)
            λ c s.
              progeny_loop-Strangers a pid k forest 41 p c null lives s is.1
                (All-both _ _ _ (descendants forest) (λ q n o. (n, o)) nonnull others.1)
                (omega (arith, few)))
          refl))
