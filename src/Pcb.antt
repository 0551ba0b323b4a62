-- ===== src/Pcb.antt =====
-- source/pcb.c over the process descriptors of include/types.h. The descriptors live in the static
-- array `pcbs` of initPcbs: `pcb_at i` is the address of `pcbs[i]`. A function that is given a
-- pointer to a list's header is given the header's value here, and returns the new one.
pub mod Alloc
pub mod Queue
pub mod Tree
use jae_os.Prelude.{
  ℕ, zero, suc, ◌+◌, ◌-◌, Bool, true, false, ◌==◌, if◌then◌else◌, Ptr, null, Run, ok, ◌>>=◌, load,
  store, update,
}
use jae_os.Prelude.Int.{ℤ, pos}
use jae_os.Const.{State, max_proc, rounds}
use jae_os.Clist.{
  Clist, Cursor, clist_empty, clist_head, clist_enqueue, clist_dequeue, clist_delete, clist_foreach,
  clist_foreach_delete,
}

-- The fields of `struct pcb_t`, each a map from the descriptors' addresses, and `pcbFree`.
pub record Procs : Type 0 where
  pub p_parent : Ptr → Ptr
  pub p_cursem : Ptr → Ptr
  pub p_s : Ptr → State
  pub p_list : Ptr → Ptr
  pub p_children : Ptr → Ptr
  pub p_siblings : Ptr → Ptr
  pub pid : Ptr → ℕ
  pub res_wait : Ptr → ℤ
  pub kernel_time : Ptr → ℕ
  pub global_time : Ptr → ℕ
  pub oldnew_areas : Ptr → ℕ → State
  pub tags : Ptr → ℕ → ℕ
  pub pcb_free : Ptr

-- The queue with header `q`, linked by `p_list`, and the children of `p`, linked by `p_siblings`.
abbrev pub queue : Procs → Ptr → Clist
queue m q = record { tail = q; next = m.p_list }

abbrev pub children : Procs → Ptr → Clist
children m p = record { tail = m.p_children p; next = m.p_siblings }

abbrev pub zero_state : State
zero_state = record {
  a1 = 0;
  a2 = 0;
  a3 = 0;
  a4 = 0;
  v1 = 0;
  v2 = 0;
  v3 = 0;
  v4 = 0;
  v5 = 0;
  v6 = 0;
  sl = 0;
  fp = 0;
  ip = 0;
  sp = 0;
  lr = 0;
  pc = 0;
  cpsr = 0;
  cp15_control = 0;
  cp15_entry_hi = 0;
  cp15_cause = 0;
  tod_hi = 0;
  tod_low = 0;
}

unfoldable pub free_pcb : Ptr → Procs → Run Procs
free_pcb p m = do
  l ← clist_enqueue p (queue m m.pcb_free)
  ok (record m { p_list = l.next; pcb_free = l.tail })

-- The assignments of allocPcb to the fields of the descriptor `p`; `address` is that of its local
-- variable `tmp`, from which it takes the process id.
unfoldable pub initialise : ℕ → Ptr → Procs → Procs
initialise address p m = record m {
  p_parent = update m.p_parent p null;
  p_cursem = update m.p_cursem p null;
  p_list = update m.p_list p null;
  p_children = update m.p_children p null;
  p_siblings = update m.p_siblings p null;
  p_s = update m.p_s p zero_state;
  pid = update m.pid p address;
  res_wait = update m.res_wait p (pos 0);
  kernel_time = update m.kernel_time p 0;
  global_time = update m.global_time p 0;
  tags =
      update m.tags p
        (λ i. if i == 0 then 0 else if i == 1 then 0 else if i == 2 then 0 else m.tags p i);
}

unfoldable pub alloc_pcb : ℕ → Procs → Run (Ptr × Procs)
alloc_pcb address m = if m.pcb_free == null then ok (null, m) else do
  tmp ← clist_head (queue m m.pcb_free)
  l ← clist_dequeue (queue m m.pcb_free)
  ok (tmp, initialise address tmp (record m { p_list = l.next; pcb_free = l.tail }))

abbrev pub pcb_at : ℕ → Ptr
pcb_at i = suc i

-- The loop of initPcbs: `left` rounds from `i` on.
unfoldable pub link_pcbs : ℕ → ℕ → (Ptr → Ptr) → Ptr → Ptr
link_pcbs zero i next = next
link_pcbs (suc left) i next = link_pcbs left (i + 1) (update next (pcb_at (i - 1)) (pcb_at i))

unfoldable pub init_pcbs : Procs → Procs
unfolding link_pcbs
init_pcbs m = record m {
  pcb_free = pcb_at (max_proc - 1);
  p_list = link_pcbs (max_proc - 1) 1 (update m.p_list (pcb_at (max_proc - 1)) (pcb_at 0));
}

unfoldable pub insert_proc_q : Ptr → Ptr → Procs → Run (Ptr × Procs)
insert_proc_q q p m = do l ← clist_enqueue p (queue m q); ok (l.tail, record m { p_list = l.next })

-- The result is the descriptor taken out, `NULL` from an empty queue, and the new header.
unfoldable pub remove_proc_q : Ptr → Procs → Run (Ptr × Ptr × Procs)
remove_proc_q q m = if clist_empty (queue m q) then ok (null, q, m) else do
  tmp ← clist_head (queue m q)
  l ← clist_dequeue (queue m q)
  ok (tmp, l.tail, record m { p_list = l.next })

unfoldable pub out_proc_q : Ptr → Ptr → Procs → Run (Ptr × Ptr × Procs)
out_proc_q q p m = do
  at ← clist_foreach rounds (λ scan. ok (scan == p)) (queue m q)
  if at.found
      then (do
        l ← clist_foreach_delete at (queue m q)
        ok (p, l.tail, record m { p_list = l.next }))
      else ok (null, q, m)

unfoldable pub head_proc_q : Ptr → Procs → Run Ptr
head_proc_q q m = if clist_empty (queue m q) then ok null else clist_head (queue m q)

unfoldable pub empty_child : Ptr → Procs → Run Bool
empty_child p m = do header ← load m.p_children p; ok (header == null)

unfoldable pub insert_child : Ptr → Ptr → Procs → Run Procs
insert_child parent p m = do
  header ← load m.p_children parent
  l ← clist_enqueue p (record { tail = header; next = m.p_siblings })
  ok (record m {
    p_siblings = l.next;
    p_children = update m.p_children parent l.tail;
    p_parent = update m.p_parent p parent;
  })

unfoldable pub remove_child : Ptr → Procs → Run (Ptr × Procs)
remove_child p m = do
  none_left ← empty_child p m
  if none_left then ok (null, m) else do
    child ← clist_head (children m p)
    p_parent ← store m.p_parent child null
    l ← clist_dequeue (children m p)
    ok (
      child,
      record m {
        p_parent = p_parent;
        p_siblings = l.next;
        p_children = update m.p_children p l.tail;
      },
    )

unfoldable pub out_child : Ptr → Procs → Run (Ptr × Procs)
out_child p m = do
  dad ← load m.p_parent p
  if dad == null then ok (null, m) else do
    (retval, l) ← clist_delete rounds p (children m dad)
    ok (
      p,
      record m {
        p_parent = update m.p_parent p null;
        p_siblings = l.next;
        p_children = update m.p_children dad l.tail;
      },
    )
