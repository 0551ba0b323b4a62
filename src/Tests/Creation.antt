-- ===== src/Tests/Creation.antt =====
-- A run of create_process with three free descriptors.
use jae_os.Prelude.{refl, [], ◌∷◌, inl, arith}
use jae_os.Clist.Ring.{filled, vacant}
use jae_os.Kernel.Runs.{Proceeds}
use jae_os.Syscall.Process.{create_process}
use jae_os.Syscall.Process.Create.{Created, create_process-Created}
use jae_os.Tests.Data.{differ, three-Ring}
use jae_os.Tests.Boot.{arch, kernel}

create_process-Created_example :
    Proceeds
      (Created arch 5000 1 (2 ∷ 3 ∷ []) [] (9 ∷ []) 0 kernel)
      (create_process arch 5000 kernel)
create_process-Created_example =
    create_process-Created arch 5000 kernel 1 (2 ∷ 3 ∷ []) [] (9 ∷ []) 0 three-Ring
      (record { ring = vacant refl refl; parents = tt })
      (filled []
        (record { walk = refl; fresh = tt; distinct = tt; nonnull = tt; tail_ne = differ 9 0 refl })
        refl)
      (differ 5000 0 refl) (differ 8 0 refl) (differ 1 8 refl) tt
      ((differ 1 9 refl, (differ 2 9 refl, (differ 3 9 refl, tt))), tt) (omega arith)
      (omega arith, inl refl)
