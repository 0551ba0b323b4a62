-- ===== src/Tests/Semaphores.antt =====
-- Runs of source/asl.c on a table in which 1, 2 and 3 wait for the semaphore at 100.
use jae_os.Prelude.{◌≡◌, refl, [], ◌∷◌, null, ok, Returns, arith}
use jae_os.Const.{max_proc}
use jae_os.Asl.{insert_blocked, remove_blocked, out_blocked, head_blocked, init_asl}
use jae_os.Asl.View.{IsAsl}
use jae_os.Asl.Release.{Left}
use jae_os.Asl.Out.{out_blocked-append, out_blocked-absent}
use jae_os.Asl.Init.{semds_from, init_asl-IsAsl}
use jae_os.Asl.Spec.{view, first}
use jae_os.Asl.Refine.{
  Blocks, Wakes, insert_blocked-refines, remove_blocked-refines, head_blocked-refines,
}
use jae_os.Tests.Data.{differ, seven_new, tables, entries, free_entries, three_items, tables-IsAsl}

insert_blocked-refines_example :
    Returns (Blocks tables entries free_entries 50 7) (insert_blocked 50 7 tables)
insert_blocked-refines_example =
    insert_blocked-refines tables entries free_entries tables-IsAsl 50 (differ 50 0 refl) 7
      (differ 7 0 refl) (omega arith) (seven_new, tt)

remove_blocked-refines_example : Returns (Wakes entries 100) (remove_blocked 100 tables)
remove_blocked-refines_example =
    remove_blocked-refines tables entries free_entries tables-IsAsl 100 (differ 100 0 refl)

head_blocked-refines_example : head_blocked 100 tables ≡ ok (first 100 (view entries))
head_blocked-refines_example =
    head_blocked-refines tables entries free_entries tables-IsAsl 100 (differ 100 0 refl)

out_blocked-append_example :
    Returns
      (λ (r, m').
        (r ≡ 2)
        × Left m' [] 5 100 (1 ∷ 3 ∷ []) [] free_entries
        × (m'.procs.p_cursem ≡ tables.procs.p_cursem))
      (out_blocked 2 tables)
out_blocked-append_example =
    out_blocked-append tables [] 5 100 [] free_entries (1 ∷ []) 2 (3 ∷ []) tables-IsAsl

out_blocked-absent_example : out_blocked 7 tables ≡ ok (null, tables)
out_blocked-absent_example =
    out_blocked-absent tables [] 5 100 [] free_entries 7 three_items tables-IsAsl.table
      (differ 7 0 refl) refl seven_new

init_asl-IsAsl_example : IsAsl (init_asl tables) [] (semds_from 0 max_proc)
init_asl-IsAsl_example = init_asl-IsAsl tables
