-- ===== src/Scheduler/Modes.antt =====
-- The modes of scheduler in source/scheduler.c.
use jae_os.Prelude.{
  sym, ◌∙◌, suc, Bool, not, ◌==◌, if◌then◌else◌, ℕ, ◌≡◌, ◌⊎◌, inl, inr, refl, ap, List, ◌∷◌, Ptr,
  NotIn,
}
use jae_os.Const.{start, reset, load_next}
use jae_os.Arch.{Arch}
use jae_os.Kernel.{Kernel, Exit, get_tod_lo}
use jae_os.Kernel.Runs.{Leaves, Leaves-mono, Leaves-both}
use jae_os.Scheduler.{scheduler, loadnext}
use jae_os.Scheduler.Ticks.{Ticks, after_preempt, loadnext-Ticks}
use jae_os.Scheduler.Ready.{Ready, requeue, Queued, Untouched, same_Queued}
use jae_os.Scheduler.Dispatch.{Dispatched, Dispatched-before, Queued-trans, loadnext-round_robin}

-- The modes that choose another process.
abbrev pub Chooses : ℕ → Type 0
Chooses f = (f ≡ start) ⊎ (f ≡ reset) ⊎ (f ≡ load_next)

-- What holds after a kernel that differs from `k` in no table holds after `k`.
moved :
    (a : Arch) (k k1 : Kernel) (zs : List Ptr) (x : Ptr) (ys : List Ptr) (e : Exit) (k' : Kernel)
    → Untouched k k1
    → Dispatched a k1 x ys e k' × Queued zs k1 k'
    → Dispatched a k x ys e k' × Queued zs k k'
moved a k k1 zs x ys e k' same (d, q) = (
  Dispatched-before a k k1 x ys e k' (ap (λ t. t.procs.p_s) same.tables) d,
  Queued-trans zs zs k k k1 k' (λ z h. h) (same_Queued zs k) same q,
)

-- LOADNEXT goes on in the period of the pseudo-clock; START and RESET begin a new one, with no tick
-- announced, and read the clock for this.
abbrev pub begins : Kernel → Bool
begins k = not (k.flag == load_next)

abbrev pub InPeriod : Kernel → Kernel → Type 0
InPeriod k k' =
    Ticks (if begins k then 0 else k.pseudoclockflag)
      (if begins k then k.machine.clock k.machine.reads else k.pseudo_start)
      (after_preempt k.current_process (if begins k then suc k.machine.reads else k.machine.reads))
      k k'

-- What holds in the period of a kernel with the same clock and memory.
same_clock :
    (ticks began n : ℕ) (k k1 k' : Kernel)
    → k1.machine.clock ≡ k.machine.clock
    → k1.machine.memory ≡ k.machine.memory
    → Ticks ticks began n k1 k'
    → Ticks ticks began n k k'
same_clock ticks began n k k1 k' clock memory t = record {
  announced = rw (sym clock) t.announced;
  began_at = rw (sym clock) t.began_at;
  timer = rw (sym clock) t.timer;
  memory = t.memory ∙ memory;
}

module _ (a : Arch) (k : Kernel) where
  loadnext_twice :
      (k : Kernel) (xs : List Ptr) (x : Ptr) (ys : List Ptr)
      → Ready k xs
      → NotIn k.current_process xs
      → requeue k.current_process xs ≡ x ∷ ys
      → Leaves
          (λ e k'.
            (Dispatched a k x ys e k' × Queued (k.current_process ∷ xs) k k')
            × Ticks k.pseudoclockflag k.pseudo_start
                (after_preempt k.current_process k.machine.reads)
                k
                k')
          (loadnext a k)
  loadnext_twice k xs x ys ring out turn =
      Leaves-both (loadnext-round_robin a k xs x ys ring out turn)
        (loadnext-Ticks a k xs x ys ring out turn)

  pub scheduler-round_robin :
      (xs : List Ptr) (x : Ptr) (ys : List Ptr)
      → Chooses k.flag
      → Ready k xs
      → NotIn k.current_process xs
      → requeue k.current_process xs ≡ x ∷ ys
      → Leaves
          (λ e k'.
            (Dispatched a k x ys e k' × Queued (k.current_process ∷ xs) k k') × InPeriod k k')
          (scheduler a k)
  unfolding scheduler get_tod_lo
  scheduler-round_robin xs x ys (inl f) ring out turn = rw f (
      Leaves-mono (loadnext_twice _ xs x ys ring out turn) λ e k' (r, t). (
        moved a _ _ _ x ys e k'
            (record { tables = refl; header = refl; processes = refl; blocked = refl }) r,
        same_clock _ _ _ _ _ k' refl refl t,
      ))
  scheduler-round_robin xs x ys (inr (inl f)) ring out turn = rw f (
      Leaves-mono (loadnext_twice _ xs x ys ring out turn) λ e k' (r, t). (
        moved a _ _ _ x ys e k'
            (record { tables = refl; header = refl; processes = refl; blocked = refl }) r,
        same_clock _ _ _ _ _ k' refl refl t,
      ))
  scheduler-round_robin xs x ys (inr (inr f)) ring out turn = rw f (
      Leaves-mono (loadnext_twice _ xs x ys ring out turn) λ e k' (r, t). (
        moved a _ _ _ x ys e k'
            (record { tables = refl; header = refl; processes = refl; blocked = refl }) r,
        same_clock _ _ _ _ _ k' refl refl t,
      ))
