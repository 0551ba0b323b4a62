-- ===== src/Asl.antt =====
-- source/asl.c: the active semaphore list, over the semaphore descriptors of include/types.h. The
-- descriptors live in the static array `semdTable` of initASL, `semd_at i` being the address of
-- `semdTable[i]`. A semaphore's address is a number, as pointers are compared by `<`.
pub mod View
pub mod Find
pub mod Join
pub mod Sort
pub mod Place
pub mod Insert
pub mod Release
pub mod Woken
pub mod Remove
pub mod Out
pub mod Init
pub mod Spec
pub mod Waiting
pub mod Joins
pub mod Refine
use jae_os.Prelude.{
  ℕ, zero, suc, ◌+◌, ◌-◌, Bool, true, false, ◌==◌, ltb, ◌||◌, if◌then◌else◌, Option, none, some,
  Ptr, null, Run, ok, ◌>>=◌, load, store, update,
}
use jae_os.Const.{max_proc, rounds}
use jae_os.Clist.{
  Clist, Cursor, clist_empty, clist_head, clist_enqueue, clist_dequeue, clist_delete, clist_foreach,
  clist_foreach_all, clist_foreach_add, clist_foreach_delete,
}
use jae_os.Pcb.{Procs, queue, insert_proc_q, head_proc_q}

-- The process table, the fields of `struct semd_t` by address, `aslh` and `semdFree`.
pub record Tables : Type 0 where
  pub procs : Procs
  pub s_sem_add : Ptr → ℕ
  pub s_link : Ptr → Ptr
  pub s_procq : Ptr → Ptr
  pub aslh : Ptr
  pub semd_free : Ptr

-- The list of semaphore descriptors with header `h`.
abbrev pub semds : Tables → Ptr → Clist
semds m h = record { tail = h; next = m.s_link }

unfoldable pub free_semd : Ptr → Tables → Run Tables
free_semd s m = do
  l ← clist_enqueue s (semds m m.semd_free)
  ok (record m { s_link = l.next; semd_free = l.tail })

unfoldable pub empty_proc_q : Ptr → Tables → Run Bool
empty_proc_q s m = do header ← load m.s_procq s; ok (header == null)

-- The loop's body in findSemd returns where the address is that of the descriptor, or lies before it.
abbrev pub stops : ℕ → Tables → Ptr → Run Bool
stops sem_add m scan = do v ← load m.s_sem_add scan; ok (sem_add == v || ltb sem_add v)

unfoldable pub find_semd : ℕ → Ptr → Tables → Run Ptr
find_semd sem_add semh m = do
  at ← clist_foreach rounds (stops sem_add m) (semds m semh)
  if at.found
      then (do v ← load m.s_sem_add at.scan; ok (if sem_add == v then at.scan else null))
      else ok null

-- The test of the loop in insertBlocked that looks for the new descriptor's place.
abbrev pub goes_before : ℕ → Tables → Ptr → Run Bool
goes_before sem_add m scan = do v ← load m.s_sem_add scan; ok (ltb sem_add v)

-- The new descriptor `n` goes into the active list, which is kept in ascending order.
unfoldable pub insert_semd : ℕ → Ptr → Tables → Run Tables
insert_semd sem_add n m = do
  at ← clist_foreach rounds (goes_before sem_add m) (semds m m.aslh)
  if at.found
      then (do
        l ← clist_foreach_add n at (semds m m.aslh)
        ok (record m { s_link = l.next; aslh = l.tail }))
      else if clist_foreach_all at (semds m m.aslh)
      then (do
        l ← clist_enqueue n (semds m m.aslh)
        ok (record m { s_link = l.next; aslh = l.tail }))
      else ok m

-- The process `p` joins the queue of the descriptor `s`, whose semaphore is `sem_add`.
unfoldable pub join_queue : ℕ → Ptr → Ptr → Tables → Run Tables
join_queue sem_add s p m = do
  p_cursem ← store m.procs.p_cursem p s
  s_sem_add ← store m.s_sem_add s sem_add
  header ← load m.s_procq s
  (q, procs) ← insert_proc_q header p (record m.procs { p_cursem = p_cursem })
  ok (record m { procs = procs; s_sem_add = s_sem_add; s_procq = update m.s_procq s q })

-- `none` is the result where the function ends without a `return`.
unfoldable pub insert_blocked : ℕ → Ptr → Tables → Run (Option Bool × Tables)
insert_blocked sem_add p m = if p == null || sem_add == null then ok (none, m) else do
  scan ← find_semd sem_add m.aslh m
  if scan == null
      then (if clist_empty (semds m m.semd_free) then ok (some true, m) else do
        n ← clist_head (semds m m.semd_free)
        l ← clist_dequeue (semds m m.semd_free)
        m ←
            join_queue sem_add n p
              (record m { s_link = l.next; semd_free = l.tail; s_procq = update m.s_procq n null })
        m ← insert_semd sem_add n m
        ok (some false, m))
      else (do m ← join_queue sem_add scan p m; ok (some false, m))

-- The end of removeBlocked and outBlocked: a descriptor with no process left goes back.
unfoldable pub release_semd : Ptr → Tables → Run Tables
release_semd s m = do
  nobody ← empty_proc_q s m
  if nobody
      then (do
        (retval, l) ← clist_delete rounds s (semds m m.aslh)
        free_semd s (record m { s_link = l.next; aslh = l.tail }))
      else ok m

unfoldable pub remove_blocked : ℕ → Tables → Run (Ptr × Tables)
remove_blocked sem_add m = if sem_add == null then ok (null, m) else do
  scan ← find_semd sem_add m.aslh m
  if scan == null then ok (null, m) else do
    header ← load m.s_procq scan
    p ← head_proc_q header m.procs
    p_cursem ← store m.procs.p_cursem p null
    l ← clist_dequeue (queue m.procs header)
    m ← release_semd scan (record m {
      procs = record m.procs { p_cursem = p_cursem; p_list = l.next };
      s_procq = update m.s_procq scan l.tail;
    })
    ok (p, m)

unfoldable pub out_blocked : Ptr → Tables → Run (Ptr × Tables)
out_blocked p m = do
  s ← load m.procs.p_cursem p
  header ← load m.s_procq s
  at ← clist_foreach rounds (λ scan. ok (scan == p)) (queue m.procs header)
  if at.found
      then (do
        l ← clist_foreach_delete at (queue m.procs header)
        m ← release_semd s (record m {
          procs = record m.procs { p_list = l.next };
          s_procq = update m.s_procq s l.tail;
        })
        ok (p, m))
      else ok (null, m)

unfoldable pub head_blocked : ℕ → Tables → Run Ptr
head_blocked sem_add m = do
  scan ← find_semd sem_add m.aslh m
  if scan == null then ok null else do header ← load m.s_procq scan; head_proc_q header m.procs

abbrev pub semd_at : ℕ → Ptr
semd_at i = suc i

-- The loop of initASL: `left` rounds from `i` on.
unfoldable pub link_semds : ℕ → ℕ → (Ptr → Ptr) → Ptr → Ptr
link_semds zero i next = next
link_semds (suc left) i next = link_semds left (i + 1) (update next (semd_at (i - 1)) (semd_at i))

unfoldable pub init_asl : Tables → Tables
unfolding link_semds
init_asl m = record m {
  aslh = null;
  semd_free = semd_at (max_proc - 1);
  s_link = link_semds (max_proc - 1) 1 (update m.s_link (semd_at (max_proc - 1)) (semd_at 0));
}
