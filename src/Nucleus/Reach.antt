-- ===== src/Nucleus/Reach.antt =====
-- Sequences of turns from the start in source/initial.c: creations of processes, semaphore operations
-- and the scheduler.
use jae_os.Prelude.{
  ◌≡◌, ◌≢◌, ◌⊎◌, inl, inr, refl, ℕ, ◌≤◌, All-All, eq_cases, List, [], ◌∷◌, ◌++◌, Ptr, null, All-All,
  ==_ne,
}
use jae_os.Prelude.Int.{ℤ}
use jae_os.Const.{load_current}
use jae_os.Arch.{Arch}
use jae_os.Clist.Ring.{Ring-nil}
use jae_os.Asl.Woken.{procs-IsAsl}
use jae_os.Kernel.{Kernel, Machine, Exit, next, leave}
use jae_os.Kernel.Runs.{Leaves, leaves, Leaves-at, Safe-at, Safe-of_Proceeds, nonnull-Leaves}
use jae_os.Scheduler.{scheduler}
use jae_os.Scheduler.Ready.{Ready, requeue}
use jae_os.Scheduler.Modes.{Chooses}
use jae_os.Syscall.Pid.Digits.{HasDigits}
use jae_os.Syscall.Process.{create_process}
use jae_os.Syscall.Semaphore.{passeren, verhogen}
use jae_os.Initial.{main}
use jae_os.Initial.Start.{loaded, main-Started}
use jae_os.Nucleus.{Sound}
use jae_os.Nucleus.Stops.{passeren-Sound}
use jae_os.Nucleus.Start.{Started-Sound}
use jae_os.Nucleus.Pool.{Spare-frame, Spare-same}
use jae_os.Nucleus.Births.{create_process-Sound}
use jae_os.Nucleus.Woken.{verhogen-Sound}
use jae_os.Nucleus.Turns.{scheduler-Sound}

-- One turn: a P or a V operation that comes back, the creation of a process while the counter has at
-- most nine digits, the scheduler as it loads a process, or work of the running process or of a
-- handler that leaves the tables and the queues alone.
pub data Turn (a : Arch) : Kernel → Kernel → Type 0 where
  requests :
      {k k' : Kernel} (key : ℕ) (weight : ℤ)
      → key ≢ null
      → k.current_process ≢ null
      → passeren key weight k ≡ next tt k'
      → Turn a k k'
  releases :
      {k k' : Kernel} (key : ℕ) (weight : ℤ)
      → key ≢ null
      → verhogen key weight k ≡ next tt k'
      → Turn a k k'
  creates :
      {k k' : Kernel} (statep n r : ℕ)
      → statep ≢ null
      → k.current_process ≢ null
      → n ≤ 8
      → HasDigits k.counter n
      → create_process a statep k ≡ next r k'
      → Turn a k k'
  chooses :
      {k k' : Kernel} (e : Exit)
      → Chooses k.flag
      → (k.current_process ≢ null) ⊎ (k.readyqueue ≢ null)
      → scheduler a k ≡ leave e k'
      → Turn a k k'
  resumes :
      {k k' : Kernel} (e : Exit)
      → k.flag ≡ load_current
      → k.current_process ≢ null
      → scheduler a k ≡ leave e k'
      → Turn a k k'
  works :
      {k : Kernel} (m : Machine) (flag clock_flag kernel_start start_tod pseudo_start : ℕ)
      → Turn a k (record k {
        machine = m;
        flag = flag;
        pseudoclockflag = clock_flag;
        kernel_start = kernel_start;
        start_tod = start_tod;
        pseudo_start = pseudo_start;
      })

pub data Turns (a : Arch) (k : Kernel) : Kernel → Type 0 where
  none_yet : Turns a k k
  and_then : {k1 k2 : Kernel} → Turns a k k1 → Turn a k1 k2 → Turns a k k2

module _ (a : Arch) where
  resumes-Sound :
      (k : Kernel)
      → Sound k
      → k.flag ≡ load_current
      → k.current_process ≢ null
      → Leaves (λ _ k'. Sound k') (scheduler a k)
  unfolding scheduler
  resumes-Sound k (es, fs, xs, free, i) f ne = rw f (
      nonnull-Leaves k.current_process ne _ _ (
        nonnull-Leaves k.current_process ne _ _ (
          leaves (
            es,
            fs,
            xs,
            free,
            record {
              queues = record {
                asl = procs-IsAsl k.tables _ es fs i.queues.asl (
                    All-All _ es
                      λ e. (All-All _ e.waiting (λ q. refl), All-All _ e.waiting (λ q. refl)));
                ready = i.queues.ready;
                outside = i.queues.outside;
              };
              not_ready = i.not_ready;
              not_waiting = i.not_waiting;
              current_valid = i.current_valid;
              ready_valid = i.ready_valid;
              spare =
                  Spare-frame k _ es es xs xs free i.spare
                    (record { free = refl; children = refl; siblings = refl; parents = refl })
                    (All-All _ free (λ q. refl)) i.spare.not_waiting i.spare.not_ready
                    i.spare.not_current;
            },
          ))))

  -- Where there is a process that is current or ready, one is the next.
  in_line :
      (k : Kernel) (xs : List Ptr)
      → Ready k xs
      → (k.current_process ≢ null) ⊎ (k.readyqueue ≢ null)
      → (x : Ptr) × (ys : List Ptr) × (requeue k.current_process xs ≡ x ∷ ys)
  in_line k [] ring (inl ne) = (k.current_process, [], rw (==_ne k.current_process null ne) refl)
  in_line k [] ring (inr ne) = absurd (ne (Ring-nil _ ring))
  in_line k (y ∷ xs) ring some_process = elim (eq_cases k.current_process null) [
    | inl e ↦ rw e (y, xs, refl)
    | inr ne ↦ rw (==_ne k.current_process null ne) (y, xs ++ k.current_process ∷ [], refl)
  ]

  Turn-Sound : (k k' : Kernel) → Sound k → Turn a k k' → Sound k'
  Turn-Sound k k' s (requests key weight kne ne is) =
      Safe-at (passeren-Sound k key weight s kne ne) is
  Turn-Sound k k' s (releases key weight kne is) =
      Safe-at (Safe-of_Proceeds (verhogen-Sound k key weight s kne)) is
  Turn-Sound k k' s (creates statep n r ne lives few digits is) =
      Safe-at (Safe-of_Proceeds (create_process-Sound a statep n k ne lives few digits s)) is
  Turn-Sound k k' (es, fs, xs, free, i) (chooses e f some_process is) =
      let (x, ys, turn) = in_line k xs i.queues.ready some_process in
      Leaves-at (scheduler-Sound a k es fs xs free i x ys turn f) is
  Turn-Sound k k' s (resumes e f ne is) = Leaves-at (resumes-Sound k s f ne) is
  Turn-Sound k k' (es, fs, xs, free, i) (works m flag ticks kernel_start start_tod pseudo_start) = (
    es,
    fs,
    xs,
    free,
    record {
      queues = record { asl = i.queues.asl; ready = i.queues.ready; outside = i.queues.outside };
      not_ready = i.not_ready;
      not_waiting = i.not_waiting;
      current_valid = i.current_valid;
      ready_valid = i.ready_valid;
      spare = Spare-same k _ es xs free i.spare refl refl;
    },
  )

  Turns-Sound : (k k' : Kernel) → Sound k → Turns a k k' → Sound k'
  Turns-Sound k k' s none_yet = s
  Turns-Sound k k' s (and_then {k1 = k1} before turn) =
      Turn-Sound k1 k' (Turns-Sound k k1 s before) turn

  -- Take any state that the nucleus comes to from the end of main by a sequence of these turns: P
  -- and V operations that come back, creations of a process while the counter has at most nine
  -- digits, loads of a process by the scheduler, and work that leaves the tables and the queues
  -- alone. There the semaphore list, the ready queue and the list of free descriptors satisfy their
  -- invariants; the current process is not ready and waits for nothing; no ready process waits; no
  -- free descriptor is current, ready, waiting or a child of a process; and each process that is
  -- not free has a list of children that name it as their parent. A turn does not use a semaphore
  -- or a state at NULL, and has a current process where it needs one. Terminations of processes are
  -- not among the turns.
  pub main-Turns-Sound :
      (k : Kernel) (e : Exit) (k1 k2 : Kernel)
      → main a (loaded k) ≡ leave e k1
      → Turns a k1 k2
      → Sound k2
  main-Turns-Sound k e k1 k2 is turns =
      Turns-Sound k1 k2 (Started-Sound a e k1 (Leaves-at (main-Started a k) is)) turns
