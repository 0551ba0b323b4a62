-- ===== src/Asl/Out.antt =====
-- outBlocked: a process leaves the queue of its own semaphore, wherever it stands.
use jae_os.Prelude.{
  ℕ, ◌≡◌, refl, ap, ◌≢◌, true, List, ◌∷◌, ◌++◌, arith, Ptr, null, ok, All-map, All-append_left,
  All-at, All-drop, NotIn, Distinct-NotIn, length-append, load-ok, update, update_self, update_ne,
  Returns, returns, Returns-bind, Returns-mono, ==_ne, ==_self, ◌==◌,
}
use jae_os.Const.{rounds}
use jae_os.Clist.{Clist}
use jae_os.Clist.Ring.{Ring, Ring-frame, Ring-Distinct, Ring-nonnull, SameOutside, Agree-refl}
use jae_os.Clist.Scan.{Passes, clist_foreach-found, clist_foreach-none}
use jae_os.Clist.Edit.{clist_foreach_delete-append}
use jae_os.Pcb.{Procs, queue}
use jae_os.Pcb.Queue.{LinksOnly}
use jae_os.Asl.{Tables, out_blocked}
use jae_os.Asl.View.{Entry, Holds, Holds-short, IsTable, IsAsl, IsBusy}
use jae_os.Asl.Find.{descriptors_ne}
use jae_os.Asl.Release.{entry, Left, release_semd-Left, shrink-IsTable}

others-Passes : (p : Ptr) (ys : List Ptr) → NotIn p ys → Passes (λ scan. ok (scan == p)) ys
others-Passes p ys out = All-map _ _ ys (λ y ne. ap ok (==_ne y p ne)) out

module _ (m : Tables) (bs : List Entry) (s : Ptr) (key : ℕ) (cs : List Entry) (fs : List Ptr) where
  -- The tables when a process has left the queue of `s`, whose links are `l` now.
  unqueued : Clist → Tables
  unqueued l = record m {
    procs = record m.procs { p_list = l.next };
    s_procq = update m.s_procq s l.tail;
  }

  unqueued-IsTable :
      (us : List Ptr) (p : Ptr) (vs : List Ptr) (l : Clist)
      → IsTable m (bs ++ entry s key (us ++ p ∷ vs) ∷ cs) fs
      → Ring l (us ++ vs)
      → SameOutside (us ++ p ∷ vs) (queue m.procs (m.s_procq s)) l
      → IsTable (unqueued l) (bs ++ entry s key (us ++ vs) ∷ cs) fs
  unfolding unqueued
  unqueued-IsTable us p vs l t ring same =
      let h : Holds m (entry s key (us ++ p ∷ vs)) = All-at _ bs _ cs t.holds in
      shrink-IsTable m (unqueued l) bs s key us p vs cs fs t
        (record {
          rest = refl;
          list = refl;
          active = refl;
          free = refl;
          keys = λ q d. refl;
          headers = λ q d. update_ne _ s q l.tail d;
          links = same;
          cursems = λ q d. refl;
        })
        (record {
          key_is = h.key_is;
          ring =
              Ring-frame l _ (us ++ vs) (update_self _ s l.tail) (Agree-refl l.next (us ++ vs))
                ring;
          cursem = All-drop _ us p vs h.cursem;
          valid = All-drop _ us p vs h.valid;
          key_ne = h.key_ne;
        })

  -- The same with all that is left as it was: what changes of the processes are queue links.
  pub out_blocked-Left :
      (us : List Ptr) (p : Ptr) (vs : List Ptr)
      → IsAsl m (bs ++ entry s key (us ++ p ∷ vs) ∷ cs) fs
      → Returns
          (λ (r, m').
            (r ≡ p) × Left m' bs s key (us ++ vs) cs fs × LinksOnly (us ++ p ∷ vs) m.procs m'.procs)
          (out_blocked p m)
  unfolding out_blocked unqueued
  out_blocked-Left us p vs a =
      let e = entry s key (us ++ p ∷ vs) in
      let h : Holds m e = All-at _ bs e cs a.table.holds in
      let s_ne : s ≢ null = All-at _ bs e cs (descriptors_ne m _ fs a.table) in
      let out : NotIn p us =
        All-append_left _ us vs (Distinct-NotIn us p vs (Ring-Distinct _ _ h.ring)) in
      rw
        (
          load-ok m.procs.p_cursem p (All-at _ us p vs (Ring-nonnull _ _ h.ring)),
          All-at _ us p vs h.cursem,
          load-ok m.s_procq s s_ne,
          clist_foreach-found rounds (queue m.procs (m.s_procq s)) (λ scan. ok (scan == p)) _ us p
              vs h.ring refl (others-Passes p us out) (ap ok (==_self p))
              (omega (arith, length-append us (p ∷ vs), Holds-short m e h)),
        )
        (Returns-bind
          (clist_foreach_delete-append (queue m.procs (m.s_procq s)) _ us p vs true h.ring refl)
          λ l (ring, same).
            Returns-bind
              (release_semd-Left (unqueued l) bs s key cs fs (us ++ vs)
                (unqueued-IsTable us p vs l a.table ring same) (All-drop IsBusy bs e cs a.busy))
              λ m' (left, kept). returns (refl, left, unqueued_links us p vs l m'.procs kept same))
    where
      unqueued_links :
          (us : List Ptr) (p : Ptr) (vs : List Ptr) (l : Clist) (r : Procs)
          → r ≡ record m.procs { p_list = l.next }
          → SameOutside (us ++ p ∷ vs) (queue m.procs (m.s_procq s)) l
          → LinksOnly (us ++ p ∷ vs) m.procs r
      unqueued_links us p vs l r e same = rw e (record { rest = refl; same = same })

  -- In tables that satisfy the invariant, outBlocked of a process that waits for a semaphore
  -- returns it and takes it out of the queue wherever it stands; the others keep their order, the
  -- descriptor is given back if nobody else waits, and the field p_cursem is left as it was.
  pub out_blocked-append :
      (us : List Ptr) (p : Ptr) (vs : List Ptr)
      → IsAsl m (bs ++ entry s key (us ++ p ∷ vs) ∷ cs) fs
      → Returns
          (λ (r, m').
            (r ≡ p) × Left m' bs s key (us ++ vs) cs fs × (m'.procs.p_cursem ≡ m.procs.p_cursem))
          (out_blocked p m)
  out_blocked-append us p vs a =
      Returns-mono (out_blocked-Left us p vs a)
        λ (r, m') (is, left, only). (is, left, ap (λ (ps : Procs). ps.p_cursem) only.rest)

  -- outBlocked of a process that names a descriptor of the list but is not in its queue returns
  -- NULL and changes nothing.
  pub out_blocked-absent :
      (p : Ptr) (ws : List Ptr)
      → IsTable m (bs ++ entry s key ws ∷ cs) fs
      → p ≢ null
      → m.procs.p_cursem p ≡ s
      → NotIn p ws
      → out_blocked p m ≡ ok (null, m)
  unfolding out_blocked
  out_blocked-absent p ws t ne is out =
      let e = entry s key ws in
      let h : Holds m e = All-at _ bs e cs t.holds in
      let s_ne : s ≢ null = All-at _ bs e cs (descriptors_ne m _ fs t) in
      let (c, eq, nf, _) =
        clist_foreach-none rounds (queue m.procs (m.s_procq s)) (λ scan. ok (scan == p)) ws h.ring
          (others-Passes p ws out) (omega (arith, Holds-short m e h)) in
      rw (load-ok m.procs.p_cursem p ne, is, load-ok m.s_procq s s_ne, eq, nf)
