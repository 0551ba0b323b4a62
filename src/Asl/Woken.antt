-- ===== src/Asl/Woken.antt =====
-- The semaphore list around a process that has left its queue: it waits for nothing, and the list
-- does not rest on what else is written in its descriptor.
use jae_os.Prelude.{
  ◌≡◌, refl, ℕ, sym, List, [], ◌∷◌, ◌++◌, Ptr, All, All-map, All-both, All-append, All-at, All-drop,
  All-insert, Distinct-NotIn,
}
use jae_os.Clist.Ring.{Ring-Distinct, Agree}
use jae_os.Pcb.{Procs}
use jae_os.Pcb.Queue.{Apart}
use jae_os.Asl.{Tables}
use jae_os.Asl.View.{Entry, Holds, Holds-frame, Holds-Apart, IsTable, IsAsl, others_ne}
use jae_os.Asl.Insert.{NotWaiting}
use jae_os.Asl.Release.{entry, Left}

-- The entries and the free descriptors when `ws` wait for the semaphore `key`.
abbrev pub remaining : List Entry → Ptr → ℕ → List Ptr → List Entry → List Entry
remaining bs s key [] cs = bs ++ cs
remaining bs s key (w ∷ ws) cs = bs ++ entry s key (w ∷ ws) ∷ cs

abbrev pub freed : Ptr → List Ptr → List Ptr → List Ptr
freed s [] fs = fs ++ s ∷ []
freed s (w ∷ ws) fs = fs

-- None of the processes `xs` waits for a semaphore of the list.
abbrev pub Outside : List Ptr → List Entry → Type 0
Outside xs = All λ f. Apart f.waiting xs

module _ (bs : List Entry) (s : Ptr) (key : ℕ) (cs : List Entry) where
  pub Left-IsAsl :
      (m : Tables) (ws fs : List Ptr)
      → Left m bs s key ws cs fs
      → IsAsl m (remaining bs s key ws cs) (freed s ws fs)
  Left-IsAsl m [] fs a = a
  Left-IsAsl m (w ∷ ws) fs a = a

  pub IsAsl-Left :
      (m : Tables) (ws fs : List Ptr)
      → IsAsl m (remaining bs s key ws cs) (freed s ws fs)
      → Left m bs s key ws cs fs
  IsAsl-Left m [] fs a = a
  IsAsl-Left m (w ∷ ws) fs a = a

  -- A predicate on the entries outlives the departure of a process.
  pub All-remaining :
      (P : Entry → Type 0) (ws : List Ptr)
      → P (entry s key ws)
      → All P (bs ++ cs)
      → All P (remaining bs s key ws cs)
  All-remaining P [] h all = all
  All-remaining P (w ∷ ws) h all = All-insert _ bs _ cs h all

  pub Outside-remaining :
      (xs us : List Ptr) (p : Ptr) (vs : List Ptr)
      → Outside xs (bs ++ entry s key (us ++ p ∷ vs) ∷ cs)
      → Outside xs (remaining bs s key (us ++ vs) cs)
  Outside-remaining xs us p vs out =
      All-remaining _ (us ++ vs)
        (All-map _ _ xs (λ x h. All-drop _ us p vs h) (All-at _ bs _ cs out))
        (All-drop _ bs (entry s key (us ++ p ∷ vs)) cs out)

  -- The process that has left is in no queue.
  pub woken-NotWaiting :
      (m : Tables) (us : List Ptr) (p : Ptr) (vs fs : List Ptr)
      → IsTable m (bs ++ entry s key (us ++ p ∷ vs) ∷ cs) fs
      → NotWaiting p (remaining bs s key (us ++ vs) cs)
  woken-NotWaiting m us p vs fs t =
      let e = entry s key (us ++ p ∷ vs) in
      let h : Holds m e = All-at _ bs e cs t.holds in
      All-remaining _ (us ++ vs) (Distinct-NotIn us p vs (Ring-Distinct _ _ h.ring)) (
        All-both _ _ _ (bs ++ cs)
          (λ f hf ne.
            All-map _ _ f.waiting (λ y a d. All-at _ us p vs a (sym d))
              (Holds-Apart m e f h hf (λ d. ne (sym d))))
          (All-drop _ bs e cs t.holds) (others_ne m m.aslh bs e cs t.active))

-- One more process outside.
pub Outside-append :
    (xs : List Ptr) (p : Ptr) (es : List Entry)
    → Outside xs es
    → NotWaiting p es
    → Outside (xs ++ p ∷ []) es
Outside-append xs p es out gone =
    All-both _ _ _ es (λ f a n. All-append _ xs (p ∷ []) a (n, tt)) out gone

-- New contents of the process descriptors, with the same queues and semaphores of those that wait.
pub procs-IsAsl :
    (m : Tables) (r : Procs) (es : List Entry) (fs : List Ptr)
    → IsAsl m es fs
    → All
        (λ f.
          Agree r.p_list m.procs.p_list f.waiting
          × All (λ q. r.p_cursem q ≡ m.procs.p_cursem q) f.waiting)
        es
    → IsAsl (record m { procs = r }) es fs
procs-IsAsl m r es fs a same = record {
  table = record {
    active = a.table.active;
    free = a.table.free;
    apart = a.table.apart;
    holds =
        All-both _ _ _ es
          (λ e h (links, cursem).
            Holds-frame m (record m { procs = r }) e
              (record { key = refl; header = refl; links = links; cursem = cursem }) h)
          a.table.holds same;
    sorted = a.table.sorted;
    bounded = a.table.bounded;
  };
  busy = a.busy;
}
