-- ===== src/Syscall/Process/Terminate.antt =====
-- terminate_children of source/syscall.c: the whole family of a process is killed.
use jae_os.Prelude.{
  ◌≢◌, sym, subst, ℕ, zero, suc, ◌<◌, arith, List, [], ◌∷◌, ◌++◌, append_assoc, Ptr, null, All,
  All-map, All-append, All-append_left, All-append_right, All-at, All-drop, NotIn, Distinct,
  Distinct-NotIn, length, length-append, ==_ne, ==_self, ◌==◌, if◌then◌else◌,
}
use jae_os.Const.{rounds}
use jae_os.Arch.{Arch}
use jae_os.Pcb.{Procs, empty_child}
use jae_os.Pcb.Tree.{IsChildren, TreeOnly, empty_child-nil, empty_child-cons, remove_child-cons}
use jae_os.Asl.View.{Entry}
use jae_os.Kernel.{Kernel, K, ◌>>◌, skip, set_procs}
use jae_os.Kernel.Runs.{
  Proceeds, proceeds, Proceeds-bind, Proceeds-mono, asks-Proceeds, from_run-Proceeds,
}
use jae_os.Syscall.Process.{terminate_children}
use jae_os.Syscall.Process.Death.{bury_process, bury_process-Dead}
use jae_os.Syscall.Process.Doomed.{Doomed, Doomed-after, Doomed-left, Doomed-removed}
use jae_os.Syscall.Process.Family.{
  Forest, no_more, and_also, roots, descendants, IsTrees, IsForest, All-roots, All-below,
  Distinct-Apart, roots-Apart, IsChildren-same, IsTrees-frame,
}
use jae_os.Syscall.Process.Killed.{
  Killed, nobody_Killed, Dead-Killed, Killed-append, Killed-root, Killed-removed,
}

-- The end of terminate_children.
abbrev last_rites : Arch → Ptr → Ptr → K (Unit {0})
last_rites a p p_const = if p == p_const then skip else bury_process a p

-- The families below `p` when its first child has been taken away.
removed-IsTrees :
    (n m : Procs) (p r : Ptr) (gs hs : Forest)
    → Distinct (descendants (and_also r gs hs))
    → NotIn p (descendants (and_also r gs hs))
    → TreeOnly p r (r ∷ roots hs) n m
    → IsTrees n (and_also r gs hs)
    → IsTrees m (and_also r gs hs)
removed-IsTrees n m p r gs hs distinct out only is =
    IsTrees-frame n m (and_also r gs hs) (All-map _ _ _ (λ q d. only.headers q d) out)
      (All-map _ _ _ (λ q d. (only.siblings q d, only.parents q (λ e. d.0 (sym e))))
        (roots-Apart (and_also r gs hs) distinct))
      is

-- The other children when the first one's family has been killed.
others_IsForest :
    (a : Arch) (p r : Ptr) (qs : List Ptr) (hs : Forest) (es es' : List Entry) (fs' free : List Ptr)
    (k k' : Kernel)
    → Killed a r qs es es' fs' free k k'
    → p ≢ r
    → NotIn p qs
    → All (λ y. (y ≢ r) × NotIn y qs) (descendants hs)
    → IsForest k.tables.procs p hs
    → IsForest k'.tables.procs p hs
others_IsForest a p r qs hs es es' fs' free k k' d ne out away is = (
  IsChildren-same k.tables.procs k'.tables.procs p (roots hs) (d.headers p ne out)
      (All-map _ _ _ (λ q o. d.links q o.1) (All-roots _ hs away)) is.0,
  IsTrees-frame k.tables.procs k'.tables.procs hs (All-map _ _ _ (λ q o. d.headers q o.0 o.1) away)
      (All-map _ _ _ (λ q o. d.links q o.1) (All-below _ hs away)) is.1,
)

module _ (a : Arch) (p_const : Ptr) where
  terminate_children-childless :
      (fuel : ℕ) (p : Ptr) (k : Kernel) (Q : Kernel → Type 0)
      → p ≢ null
      → IsChildren k.tables.procs p []
      → Proceeds (λ _ k'. Q k') (last_rites a p p_const k)
      → Proceeds (λ _ k'. Q k') (terminate_children a (suc fuel) p p_const k)
  unfolding terminate_children
  terminate_children-childless fuel p k Q ne is h =
      Proceeds-bind
        (asks-Proceeds (λ t. empty_child p t.procs) k (empty_child-nil k.tables.procs p ne is))
        λ b _ (e, e1). rw (e, e1) h

  terminate_children-child :
      (fuel : ℕ) (p r : Ptr) (rs : List Ptr) (k : Kernel) (Q : Kernel → Type 0)
      → p ≢ null
      → IsChildren k.tables.procs p (r ∷ rs)
      → ((m : Procs)
          → IsChildren m p rs
          → TreeOnly p r (r ∷ rs) k.tables.procs m
          → Proceeds
              (λ _ k'. Q k')
              ((terminate_children a fuel r p_const >> terminate_children a fuel p p_const)
                (set_procs m k)))
      → Proceeds (λ _ k'. Q k') (terminate_children a (suc fuel) p p_const k)
  unfolding terminate_children
  terminate_children-child fuel p r rs k Q ne is h =
      Proceeds-bind
        (asks-Proceeds (λ t. empty_child p t.procs) k
          (empty_child-cons k.tables.procs p ne r rs is))
        λ b _ (e, e1).
          rw (e, e1)
            (Proceeds-bind
              (from_run-Proceeds {A = Ptr × Procs} (λ r k. set_procs r.1 k) (λ r. r.0) k
                (remove_child-cons k.tables.procs p ne r rs is))
              λ c k1 ((_, m), (first, others, _, only), e2, e3).
                rw (e2, first, e3) (h m others only))

  -- A child with no children left, in the recursive call.
  first_dies :
      (ds rest : List Ptr) (r : Ptr) (k0 : Kernel) (es : List Entry) (fs free : List Ptr)
      → Doomed k0 es fs free (ds ++ r ∷ rest)
      → r ≢ p_const
      → (k1 : Kernel) (es1 : List Entry) (fs1 : List Ptr) → Killed a r ds es es1 fs1 free k0 k1
      → Proceeds
          (λ _ k2.
            (es2 : List Entry) × (fs2 : List Ptr) × Killed a r (ds ++ r ∷ []) es es2 fs2 free k0 k2)
          (last_rites a r p_const k1)
  first_dies ds rest r k0 es fs free i other k1 es1 fs1 d1 =
      let j = Doomed-after a r ds (r ∷ rest) es es1 fs fs1 free k0 k1 i d1 in
      rw (==_ne r p_const other) (
        Proceeds-mono
          (bury_process-Dead a r es1 (free ++ ds) k1 fs1 j.asl j.ring j.outside j.nonnull.0
            j.apart.0 j.named.0)
          λ _ k2 (es2, fs2, dead). (
            es2,
            fs2,
            Killed-append a r ds (r ∷ []) es es1 es2 fs1 fs2 free k0 k1 k2 d1
                (Dead-Killed a r es1 es2 fs2 (free ++ ds) k1 k2 dead),
          ))

  -- The first child's family and then the other ones.
  all_Killed :
      (p r : Ptr) (gs hs : Forest) (es es2 es3 : List Entry) (fs2 fs3 free : List Ptr)
      (k k2 k3 : Kernel) (m : Procs)
      → TreeOnly p r (r ∷ roots hs) k.tables.procs m
      → Killed a r (descendants gs ++ r ∷ []) es es2 fs2 free (set_procs m k) k2
      → Killed a p (descendants hs) es2 es3 fs3 (free ++ (descendants gs ++ r ∷ [])) k2 k3
      → Killed a p (descendants (and_also r gs hs)) es es3 fs3 free k k3
  all_Killed p r gs hs es es2 es3 fs2 fs3 free k k2 k3 m only d2 d3 =
      let ds = descendants gs in
      let rest = descendants hs in
      Killed-removed a p r (r ∷ roots hs) (ds ++ r ∷ rest) es es3 fs3 free k k3 m only
        (λ q out.
          let r_q = All-at _ ds r rest out in
          (
            (λ e. r_q (sym e)),
            (r_q, All-roots _ hs (All-append_right _ ds rest (All-drop _ ds r rest out))),
          ))
        (subst (λ zs. Killed a p zs es es3 fs3 free (set_procs m k) k3)
          (append_assoc ds (r ∷ []) rest)
          (Killed-append a p (ds ++ r ∷ []) rest es es2 es3 fs2 fs3 free (set_procs m k) k2 k3
            (Killed-root a p r ds es es2 fs2 free (set_procs m k) k2 d2) d3))

  -- The descendants of `p` are killed; then the same call comes to its end.
  terminate_children-Killed :
      (forest : Forest) (fuel : ℕ) (p : Ptr) (k : Kernel) (es : List Entry) (fs free : List Ptr)
      (Q : Kernel → Type 0)
      → Doomed k es fs free (descendants forest)
      → IsForest k.tables.procs p forest
      → p ≢ null
      → NotIn p (descendants forest)
      → NotIn p_const (descendants forest)
      → length (descendants forest) < fuel
      → ((k1 : Kernel) (es1 : List Entry) (fs1 : List Ptr)
          → Killed a p (descendants forest) es es1 fs1 free k k1
          → IsChildren k1.tables.procs p []
          → Proceeds (λ _ k'. Q k') (last_rites a p p_const k1))
      → Proceeds (λ _ k'. Q k') (terminate_children a fuel p p_const k)
  terminate_children-Killed forest zero p k es fs free Q i is ne out away enough then_do =
      absurd (omega arith)
  terminate_children-Killed no_more (suc fuel) p k es fs free Q i is ne out away enough then_do =
      terminate_children-childless fuel p k Q ne is.0
        (then_do k es fs (nobody_Killed a p es fs free k i.asl i.ring i.outside) is.0)
  terminate_children-Killed (and_also r gs hs) (suc fuel) p k es fs free Q i is ne out away enough
        then_do =
      let ds = descendants gs in
      let rest = descendants hs in
      let small = length-append ds (r ∷ rest) in
      terminate_children-child fuel p r (roots hs) k Q ne is.0 λ m others only.
        let k0 = set_procs m k in
        let i0 = Doomed-removed p r (r ∷ roots hs) (ds ++ r ∷ rest) es fs free k m i only in
        let rne = All-at _ ds r rest i.nonnull in
        let trees = removed-IsTrees k.tables.procs m p r gs hs i.distinct out only is.1 in
        Proceeds-bind
          (terminate_children-Killed gs fuel r k0 es fs free
            (λ k2.
              (es2 : List Entry) × (fs2 : List Ptr) × Killed a r (ds ++ r ∷ []) es es2 fs2 free k0
                k2)
            (Doomed-left ds (r ∷ rest) es fs free k0 i0) (trees.0, trees.1.0) rne
            (All-append_left _ ds rest (Distinct-NotIn ds r rest i.distinct))
            (All-append_left _ ds (r ∷ rest) away) (omega (arith, enough, small))
            (λ k1 es1 fs1 d1 _.
              first_dies ds rest r k0 es fs free i0 (All-at _ ds r rest away) k1 es1 fs1 d1))
          λ _ k2 (es2, fs2, d2).
            let line = append_assoc ds (r ∷ []) rest in
            let i1 = subst (Doomed k0 es fs free) (sym line) i0 in
            let r_p = All-at _ ds r rest out in
            let here = All-append _ ds (r ∷ []) (All-append_left _ ds (r ∷ rest) out) (r_p, tt) in
            let j = Doomed-after a r (ds ++ r ∷ []) rest es es2 fs fs2 free k0 k2 i1 d2 in
            let apart = Distinct-Apart (ds ++ r ∷ []) rest i1.distinct in
            let family =
              others_IsForest a p r (ds ++ r ∷ []) hs es es2 fs2 free k0 k2 d2 (λ e. r_p (sym e))
                here
                (All-map _ _ rest (λ y o. ((λ e. All-at (λ x. x ≢ y) ds r [] o (sym e)), o)) apart)
                (others, trees.1.1) in
            terminate_children-Killed hs fuel p k2 es2 fs2 (free ++ (ds ++ r ∷ [])) Q j family ne
              (All-append_right _ (ds ++ r ∷ []) rest (subst (NotIn p) (sym line) out))
              (All-append_right _ (ds ++ r ∷ []) rest (subst (NotIn p_const) (sym line) away))
              (omega (arith, enough, small))
              λ k3 es3 fs3 d3 end.
                then_do k3 es3 fs3
                  (all_Killed p r gs hs es es2 es3 fs2 fs3 free k k2 k3 m only d2 d3) end

-- terminate_children of a process, called with it as both arguments, ends within its bound and
-- kills the family below the process: the descendants become free, each after its own children, and
-- the process has no children any more; the count of processes is lowered by their number; those
-- that wait for a semaphore leave its queue, are no more counted as blocked, and give back what
-- they have asked for, but not to a device; nothing else changes but queue links and links of the
-- tree. It is supposed that there are at most twenty descendants, all different, none of them free,
-- and that each that names a semaphore waits for it, and that the semaphore list and the list of
-- free descriptors satisfy their invariants and have no process in common; this is so afterwards.
pub terminate_children-family :
    (a : Arch) (k : Kernel) (p : Ptr) (forest : Forest) (es : List Entry) (fs free : List Ptr)
    → Doomed k es fs free (descendants forest)
    → IsForest k.tables.procs p forest
    → p ≢ null
    → NotIn p (descendants forest)
    → length (descendants forest) < rounds
    → Proceeds
        (λ _ k'.
          (es' : List Entry) × (fs' : List Ptr) × Killed a p
            (descendants forest)
            es
            es'
            fs'
            free
            k
            k'
          × IsChildren k'.tables.procs p [])
        (terminate_children a rounds p p k)
terminate_children-family a k p forest es fs free i is ne out enough =
    terminate_children-Killed a p forest rounds p k es fs free
      (λ k'.
        (es' : List Entry) × (fs' : List Ptr) × Killed a p (descendants forest) es es' fs' free k k'
        × IsChildren k'.tables.procs p [])
      i is ne out out enough λ k1 es1 fs1 d end. rw (==_self p) (proceeds (es1, fs1, d, end))
