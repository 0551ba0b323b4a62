-- ===== src/Syscall/Process/Found.antt =====
-- terminate_process in source/syscall.c, for an id that a process below the calling one has.
use jae_os.Prelude.{
  ◌≡◌, ◌≢◌, refl, sym, subst, ℕ, ◌<◌, arith, true, false, ◌==◌, ◌||◌, List, [], ◌∷◌, ◌++◌, Ptr,
  null, length,
}
use jae_os.Const.{rounds}
use jae_os.Arch.{Arch}
use jae_os.Asl.View.{Entry}
use jae_os.Kernel.{Kernel, next}
use jae_os.Kernel.Runs.{Proceeds, proceeds, Proceeds-next, nonnull_eq, bind_eq}
use jae_os.Syscall.Process.{terminate_process, lookfor_progeny, tree_rounds}
use jae_os.Syscall.Process.Doomed.{Doomed}
use jae_os.Syscall.Process.Family.{Forest, roots, descendants, IsForest}
use jae_os.Syscall.Process.Removal.{IsLeft, Parentage}
use jae_os.Syscall.Process.Exit.{Aloof}
use jae_os.Syscall.Process.Progeny.{lookfor-stranger, unchosen, neither}
use jae_os.Syscall.Process.Search.{
  Place, Passed, kill, some_child, IsForest-Place, length-Place, progeny_loop-Place,
}
use jae_os.Syscall.Process.Descendant.{Bystanders, Slain, kill-Slain}

-- The search finds `x`, and what it does is to kill it.
terminate_process-kill :
    (a : Arch) (pid : ℕ) (k k' : Kernel) (x : Ptr) (below forest : Forest)
    (at : Place x below forest)
    → k.current_process ≢ null
    → IsForest k.tables.procs k.current_process forest
    → length (descendants forest) < rounds
    → pid ≢ 0
    → k.tables.procs.pid k.current_process ≢ pid
    → k.tables.procs.pid x ≡ pid
    → Passed a pid k x below forest at
    → kill a x k ≡ next tt k'
    → terminate_process a pid k ≡ next tt k'
unfolding terminate_process
terminate_process-kill a pid k k' x below forest at lives is few named other has passed done =
    let p = k.current_process in
    nonnull_eq p lives _ _ (
      unchosen (pid == 0 || pid == k.tables.procs.pid p) _ _ k
        (neither pid (k.tables.procs.pid p) named other)
        (bind_eq (lookfor_progeny a (tree_rounds a) p pid false) k _
          (lookfor-stranger a pid k 41 p (roots forest) (next true k') lives other is.0
            (λ empty. absurd (some_child x below forest at empty))
            λ c s.
              progeny_loop-Place a pid k k' x below forest at 41 p c null has done lives s is.1
                passed (omega (arith, few)))
          refl))

-- terminate_process of an id that a process below the calling one has, and not the calling one
-- itself nor any that the search meets before, finds the process within the bound of the search and
-- kills it with all those below it: their descriptors become free behind the free ones, it leaves
-- the list of its parent and the ready queue, where the others keep their order; those that wait
-- for a semaphore leave its queue, are no more counted as blocked, and give back what they have
-- asked for, but not to a device; the count of processes is lowered by one for each. Nothing else
-- changes but queue links and links of the tree. It is supposed that there are at most twenty
-- processes below the calling one; that those that are killed are all different, that none of them
-- is free, that only the process itself may be ready, and that each that names a semaphore waits
-- for it; that the parent of the process, if it has one, is another process with at most twenty
-- children, and it and they are not below the process; that the at most twenty ready processes are
-- not free and wait for nothing; and that the semaphore list and the list of free descriptors
-- satisfy their invariants and have no process in common.
pub terminate_process-descendant :
    (a : Arch) (pid : ℕ) (k : Kernel) (x : Ptr) (below forest : Forest) (at : Place x below forest)
    (es : List Entry) (fs free rs ys : List Ptr) (parent : Parentage x k.tables.procs)
    → k.current_process ≢ null
    → IsForest k.tables.procs k.current_process forest
    → length (descendants forest) < rounds
    → pid ≢ 0
    → k.tables.procs.pid k.current_process ≢ pid
    → k.tables.procs.pid x ≡ pid
    → Passed a pid k x below forest at
    → Doomed k es fs free (descendants below ++ x ∷ [])
    → Bystanders k es free (descendants below) rs
    → IsLeft x rs ys
    → Aloof (descendants below) parent
    → Proceeds
        (λ _ k'.
          (es' : List Entry) × (fs' : List Ptr) × Slain a x es es' fs' free
            (descendants below)
            ys
            k
            parent
            k')
        (terminate_process a pid k)
terminate_process-descendant a pid k x below forest at es fs free rs ys parent lives is few named
      other has passed i b left aloof =
    let (_, k', done, e) = Proceeds-next (
      kill-Slain a x below es fs free rs ys k parent i
        (IsForest-Place x below k.tables.procs forest at is.1)
        (omega (arith, few, length-Place x below forest at)) b left aloof) in
    subst (Proceeds _)
      (sym
        (terminate_process-kill a pid k k' x below forest at lives is few named other has passed e))
      (proceeds done)
