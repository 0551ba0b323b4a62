-- ===== src/Asl/Insert.antt =====
-- insertBlocked: a process joins the queue of an active semaphore, or makes a semaphore active.
use jae_os.Prelude.{
  ℕ, ◌<◌, ◌≤◌, ◌≡◌, refl, sym, ap, ◌∙◌, ◌≢◌, true, false, some, List, [], ◌∷◌, ◌++◌, arith, Ptr,
  null, ok, All, All-map, All-both, All-All, All-at, All-drop, All-insert, All-replace, NotIn,
  length-append, update, update_self, update_ne, Returns, returns, Returns-bind, Returns-mono,
  ==_ne, append-cons-ne,
}
use jae_os.Const.{max_proc}
use jae_os.Clist.{Clist}
use jae_os.Pcb.{Procs}
use jae_os.Clist.Ring.{
  vacant, Ring, Ring-frame, Ring-nil, Ring-Distinct, Ring-nonnull, SameOutside, tail_ne,
  clist_head-ok,
}
use jae_os.Clist.Ends.{clist_dequeue-cons}
use jae_os.Pcb.Queue.{Apart, Apart-sym}
use jae_os.Asl.{Tables, semds, join_queue, insert_blocked}
use jae_os.Asl.View.{
  Entry, descriptors, Holds, Holds-frame, All-descriptors, IsTable, IsAsl, IsBusy, others_ne,
}
use jae_os.Asl.Sort.{Sorted-replace, descriptors-replace}
use jae_os.Asl.Find.{descriptors_ne, find_semd-present, find_semd-absent}
use jae_os.Asl.Place.{insert_semd-place}
use jae_os.Asl.Join.{QueueOnly, QueueOnly-SameEntry, joined, join_queue-Holds}

-- The process waits for no semaphore of the list.
abbrev pub NotWaiting : Ptr → List Entry → Type 0
NotWaiting p = All λ f. NotIn p f.waiting

Apart-cons : (p : Ptr) (ws ys : List Ptr) → NotIn p ys → Apart ws ys → Apart (p ∷ ws) ys
Apart-cons p ws ys out apart = All-both _ _ _ ys (λ y ne a. (λ d. ne (sym d), a)) out apart

-- Entries with other descriptors keep what they hold when `p` joins the queue of `e`.
others-Holds :
    (m m' : Tables) (e : Entry) (p : Ptr) (es : List Entry)
    → All (λ q. m.procs.p_cursem q ≡ e.semd) e.waiting
    → QueueOnly e.semd p (p ∷ e.waiting) m m'
    → All (Holds m) es
    → All (λ f. f.semd ≢ e.semd) es
    → NotWaiting p es
    → All (Holds m') es
others-Holds m m' e p [] cursem only h ne out = tt
others-Holds m m' e p (f ∷ es) cursem only h ne out =
    let apart : Apart e.waiting f.waiting =
      All-map _ _ f.waiting
        (λ y hy.
          All-map _ _ e.waiting (λ x hx d. ne.0 (sym hy ∙ ap m.procs.p_cursem (sym d) ∙ hx)) cursem)
        h.0.cursem in
    (
      Holds-frame m m' f
          (QueueOnly-SameEntry e.semd p (p ∷ e.waiting) m m' f only ne.0 out.0
            (Apart-cons p e.waiting f.waiting out.0 apart))
          h.0,
      others-Holds m m' e p es cursem only h.1 ne.1 out.1,
    )

module _ (m : Tables) (fs : List Ptr) (p : Ptr) (ne : p ≢ null) (le : p ≤ max_proc) where
  join_queue-present :
      (bs : List Entry) (e : Entry) (cs : List Entry)
      → IsTable m (bs ++ e ∷ cs) fs
      → NotWaiting p (bs ++ e ∷ cs)
      → Returns
          (λ m'. IsTable m' (bs ++ joined m e p ∷ cs) fs × QueueOnly e.semd p (p ∷ e.waiting) m m')
          (join_queue e.key e.semd p m)
  join_queue-present bs e cs t out =
      let h : Holds m e = All-at _ bs e cs t.holds in
      Returns-mono
        (join_queue-Holds m e p (All-at _ bs e cs (descriptors_ne m _ fs t)) h.key_ne ne le h.ring
          (All-at _ bs e cs out) h.cursem h.valid)
        λ m' (he, only). (
          record {
            active =
                rw (descriptors-replace e cs (joined m e p) bs refl, only.list, only.active)
                  t.active;
            free = rw (only.list, only.free) t.free;
            apart = rw (descriptors-replace e cs (joined m e p) bs refl) t.apart;
            holds = All-insert _ bs _ cs he (
                others-Holds m m' e p (bs ++ cs) h.cursem only (All-drop _ bs e cs t.holds)
                  (others_ne m m.aslh bs e cs t.active) (All-drop _ bs e cs out));
            sorted = Sorted-replace e cs (joined m e p) refl bs t.sorted;
            bounded =
                omega (
                  arith,
                  length-append bs (e ∷ cs),
                  length-append bs (joined m e p ∷ cs),
                  t.bounded,
                );
          },
          only,
        )

  -- The process of an active semaphore joins its queue, behind the others.
  pub insert_blocked-present :
      (bs : List Entry) (e : Entry) (cs : List Entry)
      → IsAsl m (bs ++ e ∷ cs) fs
      → NotWaiting p (bs ++ e ∷ cs)
      → Returns
          (λ (r, m').
            (r ≡ some false)
            × IsAsl m' (bs ++ joined m e p ∷ cs) fs
            × QueueOnly e.semd p (p ∷ e.waiting) m m')
          (insert_blocked e.key p m)
  unfolding insert_blocked
  insert_blocked-present bs e cs a out =
      let h : Holds m e = All-at _ bs e cs a.table.holds in
      rw
        (
          ==_ne p null ne,
          ==_ne e.key null h.key_ne,
          find_semd-present m fs bs e cs a.table,
          ==_ne e.semd null (All-at _ bs e cs (descriptors_ne m _ fs a.table)),
        )
        (Returns-bind (join_queue-present bs e cs a.table out) λ m' (t, only). returns (
          refl,
          record {
            table = t;
            busy = All-replace IsBusy bs e _ cs (append-cons-ne e.waiting p []) a.busy;
          },
          only,
        ))

  -- With no free descriptor a semaphore that is not active is refused.
  pub insert_blocked-full :
      (key : ℕ) (bs cs : List Entry)
      → key ≢ null
      → IsAsl m (bs ++ cs) []
      → All (λ f. f.key < key) bs
      → All (λ f. key < f.key) cs
      → insert_blocked key p m ≡ ok (some true, m)
  unfolding insert_blocked
  insert_blocked-full key bs cs kne a below above = rw (
    ==_ne p null ne,
    ==_ne key null kne,
    find_semd-absent m [] key bs cs a.table below above,
    Ring-nil _ a.table.free,
  )

  module _ (n : Ptr) (es : List Entry) (t : IsTable m es (n ∷ fs)) where
    n_ne : n ≢ null
    n_ne = (Ring-nonnull _ _ t.free).0

    n_new : NotIn n (descriptors es)
    n_new = All-map _ _ _ (λ s h d. h.0 (sym d)) (Apart-sym (descriptors es) (n ∷ fs) t.apart)

    -- The table without the first free descriptor, whose queue is empty now.
    taken : Clist → Tables
    taken l = record m { s_link = l.next; semd_free = l.tail; s_procq = update m.s_procq n null }

    taken-IsTable :
        (l : Clist)
        → Ring l fs
        → SameOutside (n ∷ fs) (semds m m.semd_free) l
        → IsTable (taken l) es fs
    unfolding taken
    taken-IsTable l ring same = record {
      active =
          Ring-frame _ _ _ refl (All-map _ _ _ same (Apart-sym (descriptors es) (n ∷ fs) t.apart))
            t.active;
      free = ring;
      apart = t.apart.1;
      holds =
          All-both _ _ _ es
            (λ f h d.
              Holds-frame m (taken l) f
                (record {
                  key = refl;
                  header = update_ne _ n f.semd null d;
                  links = All-All _ f.waiting (λ q. refl);
                  cursem = All-All _ f.waiting (λ q. refl);
                })
                h)
            t.holds (All-descriptors (λ s. s ≢ n) es n_new);
      sorted = t.sorted;
      bounded = omega (arith, t.bounded);
    }

    -- The process joins the empty queue of the new descriptor.
    join_queue-taken :
        (l : Clist) (key : ℕ)
        → key ≢ null
        → NotWaiting p es
        → IsTable (taken l) es fs
        → Returns
            (λ m'.
              IsTable m' es fs
              × Holds m' (record { semd = n; key = key; waiting = p ∷ [] })
              × QueueOnly n p (p ∷ []) (taken l) m')
            (join_queue key n p (taken l))
    unfolding taken
    join_queue-taken l key kne out u =
        Returns-mono
          (join_queue-Holds (taken l) (record { semd = n; key = key; waiting = [] }) p n_ne kne ne
            le (vacant (update_self _ n null) refl) tt tt tt)
          λ m' (hn, only). (
            record {
              active = rw (only.list, only.active) u.active;
              free = rw (only.list, only.free) u.free;
              apart = u.apart;
              holds =
                  others-Holds (taken l) m' (record { semd = n; key = key; waiting = [] }) p es tt
                    only u.holds (All-descriptors (λ s. s ≢ n) es n_new) out;
              sorted = u.sorted;
              bounded = u.bounded;
            },
            hn,
            only,
          )

  -- Otherwise the first free descriptor becomes active, in the place that keeps the list sorted.
  pub insert_blocked-fresh :
      (key : ℕ) (n : Ptr) (bs cs : List Entry)
      → key ≢ null
      → IsAsl m (bs ++ cs) (n ∷ fs)
      → All (λ f. f.key < key) bs
      → All (λ f. key < f.key) cs
      → NotWaiting p (bs ++ cs)
      → Returns
          (λ (r, m').
            (r ≡ some false)
            × IsAsl m' (bs ++ record { semd = n; key = key; waiting = p ∷ [] } ∷ cs) fs
            × ((q : Ptr) → NotIn q (p ∷ []) → m'.procs.p_list q ≡ m.procs.p_list q)
            × (m'.procs
                ≡ record m.procs { p_list = m'.procs.p_list; p_cursem = m'.procs.p_cursem }))
          (insert_blocked key p m)
  unfolding insert_blocked taken
  insert_blocked-fresh key n bs cs kne a below above out =
      let t = a.table in
      rw
        (
          ==_ne p null ne,
          ==_ne key null kne,
          find_semd-absent m (n ∷ fs) key bs cs t below above,
          ==_ne m.semd_free null (tail_ne _ n fs t.free),
          clist_head-ok _ n fs t.free,
        )
        (Returns-bind (clist_dequeue-cons _ n fs t.free) λ l (ring, same).
          Returns-bind
            (join_queue-taken n (bs ++ cs) t l key kne out
              (taken-IsTable n (bs ++ cs) t l ring same))
            λ m2 (u, hn, only).
              Returns-bind
                (insert_semd-place m2 fs (record { semd = n; key = key; waiting = p ∷ [] }) hn
                  (n_ne n _ t) (Ring-Distinct _ _ t.free).0 bs cs u (n_new n _ t) below above
                  (omega (arith, t.bounded)))
                λ m3 (v, moved). returns (
                  refl,
                  record { table = v; busy = All-insert IsBusy bs _ cs (λ d. cc) a.busy },
                  λ q d. ap (λ (t : Tables). t.procs.p_list q) moved ∙ only.links q d,
                  ap (λ (t : Tables). t.procs) moved
                      ∙ only.rest
                      ∙ ap
                          (λ (ps : Procs). record m.procs {
                            p_list = ps.p_list;
                            p_cursem = ps.p_cursem;
                          })
                          (ap (λ (t : Tables). t.procs) (sym moved)),
                ))
