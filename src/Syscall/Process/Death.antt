-- ===== src/Syscall/Process/Death.antt =====
-- The end of terminate_children in source/syscall.c for a process with no children left.
use jae_os.Prelude.{
  ◌≡◌, ◌≢◌, sym, ap, ◌∙◌, List, [], ◌∷◌, ◌++◌, Ptr, null, All-All, All-both, NotIn,
}
use jae_os.Prelude.Int.{pos, ◌-ℤ◌}
use jae_os.Arch.{Arch}
use jae_os.Pcb.{Procs, free_pcb}
use jae_os.Pcb.Alloc.{Free, free_pcb-LinksOnly}
use jae_os.Pcb.Queue.{Apart-sym}
use jae_os.Asl.View.{Entry, IsAsl}
use jae_os.Asl.Insert.{NotWaiting}
use jae_os.Asl.Woken.{Outside, Outside-append, procs-IsAsl}
use jae_os.Asl.Spec.{view}
use jae_os.Kernel.{Kernel, K, ◌>>◌, set_procs, on_procs_only, decr_process_count}
use jae_os.Kernel.Runs.{Proceeds, Proceeds-bind, Proceeds-mono, from_run-Proceeds}
use jae_os.Syscall.Process.{unblock}
use jae_os.Syscall.Process.Bury.{tolls, bury}
use jae_os.Syscall.Process.Unblock.{Named, SameLink, Unblocked, unblock-Unblocked}

-- `q` is free, and waits no more; the tree of processes is as it was.
pub record Dead (a : Arch) (q : Ptr) (es es' : List Entry) (fs' free : List Ptr) (k k' : Kernel)
    : Type 0 where
  pub asl : IsAsl k'.tables es' fs'
  pub tolls_are :
      tolls (view es') k'.machine.memory k'.soft_block_count
      ≡ bury a k.tables.procs.res_wait q (tolls (view es) k.machine.memory k.soft_block_count)
  pub freed : Free k'.tables.procs (free ++ q ∷ [])
  pub outside : Outside (free ++ q ∷ []) es'
  pub kept : (p : Ptr) → p ≢ q → NotWaiting p es' → NotWaiting p es
  pub idle : (p : Ptr) → p ≢ q → NotIn p free → NotWaiting p es → SameLink k k' p × NotWaiting p es'
  pub rest : k' ≡ record k {
    tables = k'.tables;
    process_count = k.process_count -ℤ pos 1;
    soft_block_count = k'.soft_block_count;
    machine = record k.machine { memory = k'.machine.memory };
  }
  pub procs : k'.tables.procs ≡ record k.tables.procs {
    p_list = k'.tables.procs.p_list;
    pcb_free = k'.tables.procs.pcb_free;
  }

abbrev pub bury_process : Arch → Ptr → K (Unit {0})
bury_process a p = do unblock a p; decr_process_count; on_procs_only (free_pcb p)

module _ (a : Arch) (q : Ptr) (es : List Entry) (free : List Ptr) (k : Kernel) where
  freed-Dead :
      (es' : List Entry) (fs' : List Ptr) (k1 : Kernel) (m : Procs)
      → Unblocked a q es es' fs' free k k1
      → Free m (free ++ q ∷ [])
      → m ≡ record k1.tables.procs { p_list = m.p_list; pcb_free = m.pcb_free }
      → ((y : Ptr) → NotIn y (q ∷ free) → m.p_list y ≡ k1.tables.procs.p_list y)
      → Dead a q es es' fs' free k
          (set_procs m (record k1 { process_count = k1.process_count -ℤ pos 1 }))
  freed-Dead es' fs' k1 m u ring only same = record {
    asl = procs-IsAsl k1.tables m es' fs' u.asl (
        All-both _ _ _ es'
          (λ f n o. (
            All-both _ _ _ f.waiting (λ y ne out. same y ((λ d. ne (sym d)), out)) n
                (Apart-sym f.waiting free o),
            All-All _ f.waiting (λ y. ap (λ (ps : Procs). ps.p_cursem y) only),
          ))
          u.gone u.outside);
    tolls_are = u.tolls_are;
    freed = ring;
    outside = Outside-append free q es' u.outside u.gone;
    kept = u.kept;
    idle = λ y ne out n. let (l, gone) = u.idle y n in (same y ((λ d. ne (sym d)), out) ∙ l, gone);
    rest =
        ap
          (λ (j : Kernel). record j {
            tables = record k1.tables { procs = m };
            process_count = j.process_count -ℤ pos 1;
          })
          u.rest;
    procs =
        only ∙ ap (λ (ps : Procs). record ps { p_list = m.p_list; pcb_free = m.pcb_free }) u.procs;
  }

  pub bury_process-Dead :
      (fs : List Ptr)
      → IsAsl k.tables es fs
      → Free k.tables.procs free
      → Outside free es
      → q ≢ null
      → NotIn q free
      → Named k es q
      → Proceeds
          (λ _ k'. (es' : List Entry) × (fs' : List Ptr) × Dead a q es es' fs' free k k')
          (bury_process a q k)
  bury_process-Dead fs i ring out ne new named =
      Proceeds-bind (unblock-Unblocked a k free ring fs q es i ne named out) λ _ k1 (es', fs', u).
        Proceeds-mono
          (from_run-Proceeds set_procs (λ _. tt)
            (record k1 { process_count = k1.process_count -ℤ pos 1 })
            (free_pcb-LinksOnly k1.tables.procs q free u.free_kept ne new))
          λ _ k2 (m, (ring2, only, same), _, e).
            rw e (es', fs', freed-Dead es' fs' k1 m u ring2 only same)
