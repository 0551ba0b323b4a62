-- ===== src/Nucleus/Start.antt =====
-- Where the processes are when main of source/initial.c has loaded the first one.
use jae_os.Prelude.{arith, ◌≡◌, ◌≢◌, sym, subst, ℕ, zero, suc, ◌+◌, ◌≤◌, [], Ptr, null, NotIn}
use jae_os.Const.{max_proc}
use jae_os.Arch.{Arch}
use jae_os.Pcb.Alloc.{pcbs_from}
use jae_os.Pcb.Tree.{IsChildren}
use jae_os.Asl.Init.{semds_from}
use jae_os.Kernel.{Kernel, Exit}
use jae_os.Initial.Start.{Started}
use jae_os.Nucleus.{Sound}

module _ (a : Arch) where
  -- A descriptor that is none of `n` from the place `i` on, nor behind them, is before them.
  first_of : (n i : ℕ) (p : Ptr) → NotIn p (pcbs_from i n) → p ≤ i + n → p ≤ i
  first_of zero i p out le = omega arith
  first_of (suc n) i p out le = omega (arith, first_of n (i + 1) p out.1 (omega arith), out.0)

  pub Started-Sound : (e : Exit) (k : Kernel) → Started a e k → Sound k
  Started-Sound e k started = (
    [],
    semds_from 0 max_proc,
    [],
    pcbs_from 1 19,
    record {
      queues = record { asl = started.semaphores; ready = started.ready; outside = tt };
      not_ready = tt;
      not_waiting = tt;
      current_valid = rw started.current (omega arith);
      ready_valid = tt;
      spare = record {
        ring = started.free;
        not_waiting = tt;
        not_ready = tt;
        not_current = rw started.current others;
        valid = omega arith;
        families = λ p ne le out. (
          [],
          subst (λ q. IsChildren k.tables.procs q []) (sym (first p ne (first_of 19 1 p out le)))
              started.childless,
          tt,
        );
      };
    },
  )
    where
      others : NotIn 1 (pcbs_from 1 19)
      others = omega arith

      first : (p : Ptr) → p ≢ null → p ≤ 1 → p ≡ 1
      first p ne le = omega (arith, ne, le)
