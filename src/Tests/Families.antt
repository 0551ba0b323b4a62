-- ===== src/Tests/Families.antt =====
-- Runs of terminate_children and terminate_process on a family whose children all wait for a semaphore.
use jae_os.Prelude.{◌≡◌, refl, inl, List, [], ◌∷◌, arith, Ptr, null, ◌==◌, if◌then◌else◌}
use jae_os.Clist.Ring.{vacant, filled}
use jae_os.Pcb.Tree.{IsChildren}
use jae_os.Asl.View.{Entry}
use jae_os.Asl.Woken.{procs-IsAsl}
use jae_os.Kernel.{Kernel, set_procs, leave, panic}
use jae_os.Kernel.Runs.{Proceeds}
use jae_os.Syscall.Process.{terminate_children, terminate_process}
use jae_os.Syscall.Process.Doomed.{Doomed}
use jae_os.Syscall.Process.Family.{Forest, no_more, and_also, IsForest}
use jae_os.Syscall.Process.Killed.{Killed}
use jae_os.Syscall.Process.Progeny.{terminate_process-unknown}
use jae_os.Syscall.Process.Removal.{Parentage, child_of, not_there}
use jae_os.Syscall.Process.Search.{Place, here, later}
use jae_os.Syscall.Process.Descendant.{Bystanders, Slain}
use jae_os.Syscall.Process.Found.{terminate_process-descendant}
use jae_os.Syscall.Process.Exit.{CanEnd, Ended, terminate_process-own}
use jae_os.Syscall.Process.Terminate.{terminate_children-family}
use jae_os.Tests.Data.{
  differ, circle, tables, entries, free_entries, tables-IsAsl, three_items, three-Ring,
}
use jae_os.Tests.Boot.{arch, kernel}

-- No descriptor is free. The current process 9 is the child of 11 and has three children; 10 is ready. The ids
-- are the addresses.
abbrev full : Kernel
full =
    set_procs
      (record tables.procs {
        pcb_free = 0;
        pid = λ q. q;
        p_list = λ q. if q == 10 then 10 else circle q;
        p_parent = λ q. if q == 9 then 11 else 9;
        p_children = λ q. if q == 11 then 9 else if q == 9 then 3 else null;
      })
      (record kernel { current_process = 9; readyqueue = 10 })

abbrev three_children : Forest
three_children = and_also 1 no_more (and_also 2 no_more (and_also 3 no_more no_more))

full-IsForest : IsForest full.tables.procs 9 three_children
full-IsForest = (
  record { ring = three-Ring; parents = (refl, (refl, (refl, tt))) },
  (
    record { ring = vacant refl refl; parents = tt },
    (
      tt,
      (
        record { ring = vacant refl refl; parents = tt },
        (tt, (record { ring = vacant refl refl; parents = tt }, (tt, tt))),
      ),
    ),
  ),
)

full-Doomed : Doomed full entries free_entries [] three_items
full-Doomed = record {
  asl =
      procs-IsAsl tables full.tables.procs entries free_entries tables-IsAsl
        (((refl, (refl, (refl, tt))), (refl, (refl, (refl, tt)))), tt);
  ring = vacant refl refl;
  outside = (tt, tt);
  nonnull = (differ 1 0 refl, (differ 2 0 refl, (differ 3 0 refl, tt)));
  apart = (tt, (tt, (tt, tt)));
  named = (λ _ n. n.0.0 refl, (λ _ n. n.0.1.0 refl, (λ _ n. n.0.1.1.0 refl, tt)));
  distinct = ((differ 2 1 refl, (differ 3 1 refl, tt)), ((differ 3 2 refl, tt), (tt, tt)));
}

terminate_children-family_example :
    Proceeds
      (λ _ k'.
        (es' : List Entry) × (fs' : List Ptr) × Killed arch 9 three_items entries es' fs' [] full k'
        × IsChildren k'.tables.procs 9 [])
      (terminate_children arch 21 9 9 full)
terminate_children-family_example =
    terminate_children-family arch full 9 three_children entries free_entries [] full-Doomed
      full-IsForest (differ 9 0 refl) (differ 1 9 refl, (differ 2 9 refl, (differ 3 9 refl, tt)))
      (omega arith)

abbrev parent : Parentage 9 full.tables.procs
parent =
    child_of 11 [] [] (differ 11 0 refl)
      (record {
        ring =
            filled []
              (record {
                walk = refl;
                fresh = tt;
                distinct = tt;
                nonnull = tt;
                tail_ne = differ 9 0 refl;
              })
              refl;
        parents = (refl, tt);
      })
      (omega arith)

full-CanEnd : CanEnd full entries [] three_items (10 ∷ [])
full-CanEnd = record {
  lives = differ 9 0 refl;
  ready =
      filled []
        (record {
          walk = refl;
          fresh = tt;
          distinct = tt;
          nonnull = tt;
          tail_ne = differ 10 0 refl;
        })
        refl;
  short = omega arith;
  not_below = (differ 1 9 refl, (differ 2 9 refl, (differ 3 9 refl, tt)));
  not_free = tt;
  not_ready = (differ 10 9 refl, tt);
  running = ((differ 1 9 refl, (differ 2 9 refl, (differ 3 9 refl, tt))), tt);
  free_apart = (tt, tt);
  below_apart = ((differ 1 10 refl, (differ 2 10 refl, (differ 3 10 refl, tt))), tt);
  idle = (((differ 1 10 refl, (differ 2 10 refl, (differ 3 10 refl, tt))), tt), tt);
}

terminate_process-own_example :
    Proceeds
      (λ _ k'.
        (es' : List Entry) × (fs' : List Ptr) × Ended arch entries es' fs' [] three_items
          (10 ∷ [])
          full
          parent
          k')
      (terminate_process arch 0 full)
terminate_process-own_example =
    terminate_process-own arch 0 full three_children entries free_entries [] (10 ∷ []) parent
      (inl refl) full-Doomed full-IsForest (omega arith) full-CanEnd
      (
        differ 11 9 refl,
        (differ 1 11 refl, (differ 2 11 refl, (differ 3 11 refl, tt))),
        ((differ 1 9 refl, (differ 2 9 refl, (differ 3 9 refl, tt))), tt),
      )

terminate_process-unknown_example : terminate_process arch 77 full ≡ leave panic full
terminate_process-unknown_example =
    terminate_process-unknown arch 77 full three_children (differ 9 0 refl) full-IsForest
      full-Doomed.nonnull (differ 77 0 refl)
      (differ 9 77 refl, (differ 1 77 refl, (differ 2 77 refl, (differ 3 77 refl, tt))))
      (omega arith)

abbrev second : Place 2 no_more three_children
second =
    later 1 no_more (and_also 2 no_more (and_also 3 no_more no_more))
      (here (and_also 3 no_more no_more))

abbrev parent_of_second : Parentage 2 full.tables.procs
parent_of_second = child_of 9 (1 ∷ []) (3 ∷ []) (differ 9 0 refl) full-IsForest.0 (omega arith)

second-Doomed : Doomed full entries free_entries [] (2 ∷ [])
second-Doomed = record {
  asl = full-Doomed.asl;
  ring = full-Doomed.ring;
  outside = full-Doomed.outside;
  nonnull = (differ 2 0 refl, tt);
  apart = (tt, tt);
  named = (λ _ n. n.0.1.0 refl, tt);
  distinct = (tt, tt);
}

full-Bystanders : Bystanders full entries [] [] (10 ∷ [])
full-Bystanders = record {
  ready = full-CanEnd.ready;
  short = omega arith;
  free_apart = (tt, tt);
  below_apart = (tt, tt);
  idle = full-CanEnd.idle;
}

terminate_process-descendant_example :
    Proceeds
      (λ _ k'.
        (es' : List Entry) × (fs' : List Ptr) × Slain arch 2 entries es' fs' [] []
          (10 ∷ [])
          full
          parent_of_second
          k')
      (terminate_process arch 2 full)
terminate_process-descendant_example =
    terminate_process-descendant arch 2 full 2 no_more three_children second entries free_entries []
      (10 ∷ []) (10 ∷ []) parent_of_second (differ 9 0 refl) full-IsForest (omega arith)
      (differ 2 0 refl) (differ 9 2 refl) refl
      (((differ 1 0 refl, differ 1 2 refl), tt), differ 2 0 refl) second-Doomed full-Bystanders
      (not_there (10 ∷ []) (differ 10 2 refl, tt)) (differ 9 2 refl, tt, (tt, (tt, (tt, tt))))
