-- ===== src/Syscall/Semaphore/Demand.antt =====
-- The sum that a V operation of source/syscall.c computes over the processes that wait.
use jae_os.Prelude.{
  ℕ, suc, zero, ◌+◌, ◌<◌, ◌≡◌, ◌≢◌, refl, ap, ◌∙◌, arith, List, [], ◌∷◌, ◌++◌, Ptr, null, All,
  length, ==_ne, ==_self, All-at, All-both, All-append_left, length-append, sym, subst,
}
use jae_os.Prelude.Int.{ℤ, pos, sub_int}
use jae_os.Const.{rounds}
use jae_os.Clist.{clist_head}
use jae_os.Clist.Ring.{
  Walk, Ring, IsRing, filled, vacant, Ring-nonnull, tail_ne, clist_head-ok, next-tail,
}
use jae_os.Pcb.{queue}
use jae_os.Asl.{Tables, head_blocked}
use jae_os.Asl.View.{Entry, Holds, Holds-short, IsTable, IsAsl, IsBusy, Sorted}
use jae_os.Asl.Find.{place, present, absent, Sorted-before}
use jae_os.Asl.Release.{entry}
use jae_os.Asl.Remove.{head_blocked-present, head_blocked-absent}
use jae_os.Asl.Spec.{view}
use jae_os.Asl.Waiting.{waiting_for, waiting_for-present, waiting_for-absent}
use jae_os.Kernel.{Kernel, next}
use jae_os.Kernel.Runs.{nonnull_eq, asks_eq}
use jae_os.Syscall.Semaphore.{demand_loop, demand}

-- What the processes `ws` ask for, added to `sum`: each asks for a negative weight.
abbrev pub total : (Ptr → ℤ) → ℤ → List Ptr → ℤ
total wait sum [] = sum
total wait sum (w ∷ ws) = total wait (sub_int sum (wait w)) ws

-- The queue of the descriptor `s` ends with `t`, and its first process comes after `t`.
module _ (k : Kernel) (s t : Ptr) (header : k.tables.s_procq s ≡ t) (t_ne : t ≢ null)
    (head_ne : k.tables.procs.p_list t ≢ null) (t_waits : k.tables.procs.p_cursem t ≡ s)
    (head_waits : k.tables.procs.p_cursem (k.tables.procs.p_list t) ≡ s) where
  demand_loop-last :
      (fuel : ℕ) (tmp : Ptr) (sum : ℤ)
      → 1 < fuel
      → tmp ≢ t
      → demand_loop fuel t tmp sum k ≡ next (sub_int sum (k.tables.procs.res_wait t)) k
  unfolding demand_loop
  demand_loop-last zero tmp sum enough ne = absurd (omega arith)
  demand_loop-last (suc zero) tmp sum enough ne = absurd (omega arith)
  demand_loop-last (suc (suc fuel)) tmp sum enough ne = nonnull_eq t t_ne _ _ (
      rw (t_waits, header, ==_ne tmp t ne)
        (nonnull_eq t t_ne _ _ (
          nonnull_eq t t_ne _ _ (
            nonnull_eq (k.tables.procs.p_list t) head_ne _ _
              (rw (head_waits, header, ==_self t) refl)))))

  demand_loop-total :
      (ys : List Ptr) (x : Ptr) (fuel : ℕ) (tmp : Ptr) (sum : ℤ)
      → Walk k.tables.procs.p_list x ys t
      → All (λ y. (y ≢ null) × (y ≢ t) × (k.tables.procs.p_cursem y ≡ s)) (x ∷ ys)
      → length ys + 2 < fuel
      → tmp ≢ t
      → demand_loop fuel x tmp sum k
        ≡ next (total k.tables.procs.res_wait sum (x ∷ (ys ++ t ∷ []))) k
  unfolding demand_loop
  demand_loop-total ys x zero tmp sum walk all enough ne = absurd (omega arith)
  demand_loop-total [] x (suc fuel) tmp sum walk ((x_ne, x_t, x_waits), _) enough ne =
      nonnull_eq x x_ne _ _ (
        rw (x_waits, header, ==_ne tmp t ne)
          (nonnull_eq x x_ne _ _
            (nonnull_eq x x_ne _ _ (rw walk (demand_loop-last fuel x _ (omega arith) x_t)))))
  demand_loop-total (y ∷ ys) x (suc fuel) tmp sum (to_y, walk) ((x_ne, x_t, x_waits), others) enough
        ne =
      nonnull_eq x x_ne _ _ (
        rw (x_waits, header, ==_ne tmp t ne)
          (nonnull_eq x x_ne _ _ (
            nonnull_eq x x_ne _ _
              (rw to_y (demand_loop-total ys y fuel x _ walk others (omega arith) x_t)))))

module _ (k : Kernel) where
  demand_loop-IsRing :
      (s : Ptr) (ys : List Ptr)
      → IsRing (queue k.tables.procs (k.tables.s_procq s)) ys
      → All (λ y. k.tables.procs.p_cursem y ≡ s) (ys ++ k.tables.s_procq s ∷ [])
      → length (ys ++ k.tables.s_procq s ∷ []) < rounds
      → demand_loop rounds (k.tables.procs.p_list (k.tables.s_procq s)) null (pos 0) k
        ≡ next (total k.tables.procs.res_wait (pos 0) (ys ++ k.tables.s_procq s ∷ [])) k
  demand_loop-IsRing s [] r waits few =
      let t = k.tables.s_procq s in
      subst
        (λ x.
          demand_loop rounds x null (pos 0) k
          ≡ next (total k.tables.procs.res_wait (pos 0) (t ∷ [])) k)
        (sym r.walk)
        (demand_loop-last k s t refl r.tail_ne (λ e. r.tail_ne (sym r.walk ∙ e)) waits.0
          (ap k.tables.procs.p_cursem r.walk ∙ waits.0) rounds null (pos 0) (omega arith)
          (λ e. r.tail_ne (sym e)))
  demand_loop-IsRing s (y ∷ ys) r waits few =
      let t = k.tables.s_procq s in
      let t_waits = All-at _ (y ∷ ys) t [] waits in
      let each =
        All-both _ _ _ (y ∷ ys) (λ z c (n, f). (n, f, c)) (All-append_left _ (y ∷ ys) _ waits)
          (All-both _ _ (λ z. (z ≢ null) × (z ≢ t)) (y ∷ ys) (λ z n f. (n, f)) r.nonnull r.fresh) in
      subst
        (λ x.
          demand_loop rounds x null (pos 0) k
          ≡ next (total k.tables.procs.res_wait (pos 0) (y ∷ (ys ++ t ∷ []))) k)
        (sym r.walk.0)
        (demand_loop-total k s t refl r.tail_ne (λ e. r.nonnull.0 (sym r.walk.0 ∙ e)) t_waits
          (ap k.tables.procs.p_cursem r.walk.0 ∙ waits.0) ys y rounds null (pos 0) r.walk.1 each
          (room ys t few) (λ e. r.tail_ne (sym e)))
    where
      room :
          (ys : List Ptr) (t : Ptr) → suc (length (ys ++ t ∷ [])) < rounds → length ys + 2 < rounds
      room ys t few = omega (arith, few, length-append ys (t ∷ []))

  -- The loop from the first process of the queue of `s`.
  demand_loop-queue :
      (s x : Ptr) (xs : List Ptr)
      → Ring (queue k.tables.procs (k.tables.s_procq s)) (x ∷ xs)
      → All (λ y. k.tables.procs.p_cursem y ≡ s) (x ∷ xs)
      → length (x ∷ xs) < rounds
      → demand_loop rounds x null (pos 0) k
        ≡ next (total k.tables.procs.res_wait (pos 0) (x ∷ xs)) k
  demand_loop-queue s x xs (vacant v empty) waits few = absurd (cc)
  demand_loop-queue s x xs (filled ys r eq) waits few =
      subst
        (λ z.
          demand_loop rounds z null (pos 0) k
          ≡ next (total k.tables.procs.res_wait (pos 0) (x ∷ xs)) k)
        (next-tail _ x xs (filled ys r eq))
        (subst
          (λ zs.
            demand_loop rounds (k.tables.procs.p_list (k.tables.s_procq s)) null (pos 0) k
            ≡ next (total k.tables.procs.res_wait (pos 0) zs) k)
          (sym eq)
          (demand_loop-IsRing s ys r (subst (All (λ y. k.tables.procs.p_cursem y ≡ s)) eq waits)
            (subst (λ zs. length zs < rounds) eq few)))

module _ (k : Kernel) (key : ℕ) (fs : List Ptr) where
  demand-present :
      (bs : List Entry) (s : Ptr) (ws : List Ptr) (cs : List Entry)
      → IsAsl k.tables (bs ++ entry s key ws ∷ cs) fs
      → demand key k ≡ next (total k.tables.procs.res_wait (pos 0) ws) k
  unfolding demand
  demand-present bs s [] cs a = absurd (All-at IsBusy bs (entry s key []) cs a.busy refl)
  demand-present bs s (w ∷ ws) cs a =
      let e = entry s key (w ∷ ws) in
      let h : Holds k.tables e = All-at _ bs e cs a.table.holds in
      let nn = Ring-nonnull _ (w ∷ ws) h.ring in
      asks_eq (head_blocked key) k _ (head_blocked-present k.tables bs s key cs fs (w ∷ ws) a.table)
        (rw (==_ne w null nn.0) (
          nonnull_eq w nn.0 _ _ (
            rw (h.cursem.0, ==_ne _ null (tail_ne _ w ws h.ring))
              (asks_eq (λ t. clist_head (queue t.procs (k.tables.s_procq s))) k _
                (clist_head-ok _ w ws h.ring)
                (demand_loop-queue k s w ws h.ring h.cursem (few_waiting k.tables e h))))))
    where
      few_waiting : (m : Tables) (e : Entry) → Holds m e → length e.waiting < rounds
      few_waiting m e h = omega (arith, Holds-short m e h)

  demand-absent :
      (bs cs : List Entry)
      → IsTable k.tables (bs ++ cs) fs
      → All (λ f. f.key < key) bs
      → All (λ f. key < f.key) cs
      → demand key k ≡ next (pos 0) k
  unfolding demand
  demand-absent bs cs t below above =
      asks_eq (head_blocked key) k _ (head_blocked-absent k.tables key bs cs fs t below above) refl

-- In tables that satisfy the invariant, the loop by which a V operation looks at the waiting
-- processes ends, sums up what each of those that wait for the semaphore asks for, once, and
-- changes nothing.
pub demand-total :
    (k : Kernel) (key : ℕ) (es : List Entry) (fs : List Ptr)
    → IsAsl k.tables es fs
    → demand key k ≡ next (total k.tables.procs.res_wait (pos 0) (waiting_for key (view es))) k
demand-total k key es fs a = elim (place key es a.table.sorted) [
  | present bs e cs eq is ↦
      subst
        (λ j. demand j k ≡ next (total k.tables.procs.res_wait (pos 0) (waiting_for j (view es))) k)
        is
        (rw
          (
            eq,
            waiting_for-present e.key bs e cs
                (Sorted-before bs e cs (subst Sorted eq a.table.sorted)) refl,
          )
          (demand-present k e.key fs bs e.semd e.waiting cs
            (subst (λ zs. IsAsl k.tables zs fs) eq a)))
  | absent bs cs eq below above ↦
      rw (eq, waiting_for-absent key bs cs below above)
        (demand-absent k key fs bs cs (subst (λ zs. IsTable k.tables zs fs) eq a.table) below above)
]
