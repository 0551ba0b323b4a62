-- ===== src/Clist.antt =====
-- include/clist.h: circular lists whose header points at the tail. The macros are generic in the
-- structure and in the member that links it; here `next p` is the link of the structure at `p`, and
-- `container_of` is the identity. The header is passed by value, and its new value is returned.
pub mod Ring
pub mod Ends
pub mod Scan
pub mod Edit
pub mod Delete
use jae_os.Prelude.{
  ℕ, zero, suc, Bool, true, false, ◌==◌, ◌||◌, if◌then◌else◌, Ptr, null, Run, ok, out_of_fuel,
  ◌>>=◌, load, store,
}

-- `struct clist`: the header's `next` points at the last element.
pub record Clist : Type 0 where
  pub tail : Ptr
  pub next : Ptr → Ptr

abbrev pub clist_empty : Clist → Bool
clist_empty l = l.tail == null

unfoldable pub clist_head : Clist → Run Ptr
clist_head l = load l.next l.tail

abbrev pub clist_tail : Clist → Ptr
clist_tail l = l.tail

unfoldable pub clist_enqueue : Ptr → Clist → Run Clist
clist_enqueue elem l =
    if clist_empty l
    then (do next ← store l.next elem elem; ok (record { tail = elem; next = next }))
    else do
      head ← clist_head l
      next ← store l.next elem head
      next ← store next (clist_tail l) elem
      ok (record { tail = elem; next = next })

unfoldable pub clist_push : Ptr → Clist → Run Clist
clist_push elem l =
    if clist_empty l
    then (do next ← store l.next elem elem; ok (record { tail = elem; next = next }))
    else do
      head ← clist_head l
      next ← store l.next elem head
      next ← store next (clist_tail l) elem
      ok (record { tail = l.tail; next = next })

unfoldable pub clist_dequeue : Clist → Run Clist
clist_dequeue l = do
  first ← load l.next l.tail
  if l.tail == first then ok (record l { tail = null }) else do
    second ← load l.next first
    next ← store l.next l.tail second
    ok (record l { next = next })

-- One round's test and unlinking in `clist_delete`: `after` is the element behind `scan`.
unlink_after : Ptr → Ptr → Ptr → ℕ → Clist → Run (ℕ × Clist)
unlink_after elem scan after retval l =
    if after == elem
    then (do
      behind ← load l.next elem
      next ← store l.next scan behind
      ok (0, record { tail = if clist_tail l == elem then scan else l.tail; next = next }))
    else ok (retval, l)

-- The `for` loop of `clist_delete`. It has no `break`: it goes on until `scan` is the head again.
unfoldable pub delete_loop : ℕ → Ptr → Ptr → Ptr → ℕ → Clist → Run (ℕ × Clist)
unfolding unlink_after
delete_loop zero elem scan tmp retval l = out_of_fuel
delete_loop (suc fuel) elem scan tmp retval l = if scan == tmp then ok (retval, l) else do
  after ← load l.next scan
  (retval, l) ← unlink_after elem scan after retval l
  scan ← load l.next scan
  tmp ← clist_head l
  delete_loop fuel elem scan tmp retval l

unfoldable pub clist_delete : ℕ → Ptr → Clist → Run (ℕ × Clist)
clist_delete fuel elem l = if clist_empty l then ok (1, l) else do
  head ← clist_head l
  if head == elem then (do l ← clist_dequeue l; ok (0, l)) else delete_loop fuel elem head null 1 l

-- Where a `clist_foreach` loop stops: its two cursors, and whether it left by `break` or `return`.
pub record Cursor : Type 0 where
  pub scan : Ptr
  pub tmp : Ptr
  pub found : Bool

-- The loop of `clist_foreach` with a body `if (test(scan)) break;`.
unfoldable pub foreach_loop : ℕ → (Ptr → Run Bool) → Clist → Ptr → Ptr → Run Cursor
foreach_loop zero test l scan tmp = out_of_fuel
foreach_loop (suc fuel) test l scan tmp =
    if tmp == l.tail then ok (record { scan = scan; tmp = tmp; found = false }) else do
      stop ← test scan
      if stop
          then ok (record { scan = scan; tmp = tmp; found = true })
          else do after ← load l.next scan; foreach_loop fuel test l after scan

unfoldable pub clist_foreach : ℕ → (Ptr → Run Bool) → Clist → Run Cursor
clist_foreach fuel test l =
    if clist_empty l
    then ok (record { scan = null; tmp = null; found = false })
    else do head ← clist_head l; foreach_loop fuel test l head null

unfoldable pub clist_foreach_all : Cursor → Clist → Bool
clist_foreach_all s l = clist_empty l || s.tmp == l.tail

unfoldable pub clist_foreach_add : Ptr → Cursor → Clist → Run Clist
clist_foreach_add elem s l = if s.tmp == null then clist_push elem l else do
  next ← store l.next elem s.scan
  next ← store next s.tmp elem
  ok (record l { next = next })

unfoldable pub clist_foreach_delete : Cursor → Clist → Run Clist
clist_foreach_delete s l = do
  head ← clist_head l
  if head == s.scan then clist_dequeue l else do
    behind ← load l.next s.scan
    next ← store l.next s.tmp behind
    ok (record { tail = if clist_tail l == s.scan then s.tmp else l.tail; next = next })
