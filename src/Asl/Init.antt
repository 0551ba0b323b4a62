-- ===== src/Asl/Init.antt =====
-- initASL establishes the invariant.
use jae_os.Prelude.{ℕ, zero, suc, ◌+◌, refl, List, [], ◌∷◌, arith, Ptr, All-All, update}
use jae_os.Const.{max_proc}
use jae_os.Clist.Ring.{IsRing, vacant, filled}
use jae_os.Asl.{Tables, semds, semd_at, init_asl}
use jae_os.Asl.View.{IsAsl}

-- `&semdTable[i], &semdTable[i + 1], …`, `n` of them.
abbrev pub semds_from : ℕ → ℕ → List Ptr
semds_from i zero = []
semds_from i (suc n) = semd_at i ∷ semds_from (i + 1) n

init_asl-IsRing :
    (m : Tables) → IsRing (semds (init_asl m) (init_asl m).semd_free) (semds_from 0 19)
unfolding init_asl update
init_asl-IsRing m = record {
  walk = omega arith;
  fresh = omega arith;
  distinct = omega arith;
  nonnull = omega arith;
  tail_ne = omega arith;
}

-- After initASL the invariant holds with no active semaphore and all the descriptors of the array
-- free, each once and in order.
pub init_asl-IsAsl : (m : Tables) → IsAsl (init_asl m) [] (semds_from 0 max_proc)
unfolding init_asl
init_asl-IsAsl m = record {
  table = record {
    active = vacant refl refl;
    free = filled (semds_from 0 19) (init_asl-IsRing m) refl;
    apart = All-All _ (semds_from 0 max_proc) (λ y. tt);
    holds = tt;
    sorted = tt;
    bounded = omega arith;
  };
  busy = tt;
}
