-- ===== src/Tests/Processes.antt =====
-- Runs of source/pcb.c on three processes that are the free list, a queue and a family.
use jae_os.Prelude.{NotIn, ◌>>=◌, ◌≡◌, ◌≢◌, refl, [], ◌∷◌, Ptr, null, Returns, arith}
use jae_os.Pcb.{queue, alloc_pcb, init_pcbs, out_proc_q, insert_child, out_child}
use jae_os.Clist.Ring.{Ring}
use jae_os.Const.{max_proc}
use jae_os.Pcb.Alloc.{Free, pcbs_from, IsFresh, SameFields, init_pcbs-Free, alloc_pcb-cons}
use jae_os.Pcb.Queue.{LinksOnly, out_proc_q-append}
use jae_os.Pcb.Tree.{IsChildren, TreeOnly, insert_child-out_child, out_child-append}
use jae_os.Tests.Data.{differ, seven_new, procs, three_items, three-Ring, procs-IsChildren}

init_pcbs-Free_example : Free (init_pcbs procs) (pcbs_from 0 max_proc)
init_pcbs-Free_example = init_pcbs-Free procs

alloc_pcb-cons_example :
    Returns
      (λ (r, m').
        (r ≡ 1)
        × Free m' (2 ∷ 3 ∷ [])
        × IsFresh 500 1 m'
        × ((q : Ptr) → q ≢ 1 → SameFields procs m' q)
        × ((q : Ptr) → NotIn q three_items → m'.p_list q ≡ procs.p_list q)
        × (m'.oldnew_areas ≡ procs.oldnew_areas))
      (alloc_pcb 500 procs)
alloc_pcb-cons_example = alloc_pcb-cons 500 procs 1 (2 ∷ 3 ∷ []) three-Ring

out_proc_q-append_example :
    Returns
      (λ (r, q', m'). (r ≡ 2) × Ring (queue m' q') (1 ∷ 3 ∷ []) × LinksOnly three_items procs m')
      (out_proc_q 3 2 procs)
out_proc_q-append_example =
    out_proc_q-append procs 3 three_items three-Ring 2 (1 ∷ []) (3 ∷ []) refl (omega arith)

insert_child-out_child_example :
    Returns
      (λ (r, m').
        (r ≡ 7)
        × IsChildren m' 9 three_items
        × (m'.p_parent 7 ≡ null)
        × ((q : Ptr) → q ≢ 7 → m'.p_parent q ≡ procs.p_parent q)
        × ((q : Ptr) → q ≢ 9 → m'.p_children q ≡ procs.p_children q)
        × ((q : Ptr) → NotIn q (7 ∷ three_items) → m'.p_siblings q ≡ procs.p_siblings q)
        × (m' ≡ record procs {
          p_parent = m'.p_parent;
          p_children = m'.p_children;
          p_siblings = m'.p_siblings;
        }))
      (insert_child 9 7 procs >>= out_child 7)
insert_child-out_child_example =
    insert_child-out_child procs 9 7 three_items (differ 9 0 refl) procs-IsChildren
      (differ 7 0 refl) seven_new (omega arith)

out_child-append_example :
    Returns
      (λ (r, m').
        (r ≡ 2)
        × IsChildren m' 9 (1 ∷ 3 ∷ [])
        × (m'.p_parent 2 ≡ null)
        × TreeOnly 9 2 three_items procs m')
      (out_child 2 procs)
out_child-append_example =
    out_child-append procs 9 (differ 9 0 refl) (1 ∷ []) 2 (3 ∷ []) procs-IsChildren (omega arith)
