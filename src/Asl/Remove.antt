-- ===== src/Asl/Remove.antt =====
-- removeBlocked and headBlocked, at an active semaphore and at another one.
use jae_os.Prelude.{
  ℕ, ◌<◌, ◌≡◌, refl, ap, ◌∙◌, ◌≢◌, List, [], ◌∷◌, ◌++◌, Ptr, null, ok, All, All-both, All-at,
  All-drop, load-ok, store-ok, update, update_self, update_ne, Returns, returns, Returns-bind,
  ==_ne,
}
use jae_os.Clist.{Clist}
use jae_os.Clist.Ring.{Ring, Ring-frame, Ring-Distinct, Ring-nonnull, SameOutside, Agree-refl}
use jae_os.Clist.Ends.{clist_dequeue-cons}
use jae_os.Pcb.{Procs, queue}
use jae_os.Pcb.Queue.{head_or_null, head_proc_q-head}
use jae_os.Asl.{Tables, remove_blocked, head_blocked}
use jae_os.Asl.View.{Entry, Holds, IsTable, IsAsl, IsBusy}
use jae_os.Asl.Find.{find_semd-present, find_semd-absent, descriptors_ne}
use jae_os.Asl.Release.{entry, Left, release_semd-Left, shrink-IsTable}

module _ (m : Tables) (bs : List Entry) (s : Ptr) (key : ℕ) (cs : List Entry) (fs : List Ptr) where
  -- The tables when the first process has left the queue of `s`, whose links are `l` now.
  popped : Ptr → Clist → Tables
  popped p l = record m {
    procs = record m.procs { p_cursem = update m.procs.p_cursem p null; p_list = l.next };
    s_procq = update m.s_procq s l.tail;
  }

  popped-IsTable :
      (p : Ptr) (vs : List Ptr) (l : Clist)
      → IsTable m (bs ++ entry s key (p ∷ vs) ∷ cs) fs
      → Ring l vs
      → SameOutside (p ∷ vs) (queue m.procs (m.s_procq s)) l
      → IsTable (popped p l) (bs ++ entry s key vs ∷ cs) fs
  unfolding popped
  popped-IsTable p vs l t ring same =
      let h : Holds m (entry s key (p ∷ vs)) = All-at _ bs _ cs t.holds in
      shrink-IsTable m (popped p l) bs s key [] p vs cs fs t
        (record {
          rest = refl;
          list = refl;
          active = refl;
          free = refl;
          keys = λ q d. refl;
          headers = λ q d. update_ne _ s q l.tail d;
          links = same;
          cursems = λ q d. update_ne _ p q null d;
        })
        (record {
          key_is = h.key_is;
          ring = Ring-frame l _ vs (update_self _ s l.tail) (Agree-refl l.next vs) ring;
          cursem =
              All-both _ _ _ vs (λ x c d. update_ne _ p x null d ∙ c) h.cursem.1
                (Ring-Distinct _ _ h.ring).0;
          valid = h.valid.1;
          key_ne = h.key_ne;
        })

  -- removeBlocked takes the first process that waits for an active semaphore out of its queue,
  -- clears its semaphore, and gives the descriptor back if nobody else waits.
  pub remove_blocked-present :
      (p : Ptr) (vs : List Ptr)
      → IsAsl m (bs ++ entry s key (p ∷ vs) ∷ cs) fs
      → Returns
          (λ (r, m'). (r ≡ p) × Left m' bs s key vs cs fs × (m'.procs.p_cursem p ≡ null))
          (remove_blocked key m)
  unfolding remove_blocked popped
  remove_blocked-present p vs a =
      let e = entry s key (p ∷ vs) in
      let h : Holds m e = All-at _ bs e cs a.table.holds in
      let s_ne : s ≢ null = All-at _ bs e cs (descriptors_ne m _ fs a.table) in
      rw
        (
          ==_ne key null h.key_ne,
          find_semd-present m fs bs e cs a.table,
          ==_ne s null s_ne,
          load-ok m.s_procq s s_ne,
          head_proc_q-head m.procs _ (p ∷ vs) h.ring,
          store-ok m.procs.p_cursem p null ((Ring-nonnull _ _ h.ring).0),
        )
        (Returns-bind (clist_dequeue-cons _ p vs h.ring) λ l (ring, same).
          Returns-bind
            (release_semd-Left (popped p l) bs s key cs fs vs
              (popped-IsTable p vs l a.table ring same) (All-drop IsBusy bs e cs a.busy))
            λ m' (left, same).
              returns (refl, left, ap (λ (r : Procs). r.p_cursem p) same ∙ update_self _ p null))

  -- headBlocked returns the process that removeBlocked would take, and changes nothing.
  pub head_blocked-present :
      (ws : List Ptr)
      → IsTable m (bs ++ entry s key ws ∷ cs) fs
      → head_blocked key m ≡ ok (head_or_null ws)
  unfolding head_blocked
  head_blocked-present ws t =
      let e = entry s key ws in
      let s_ne : s ≢ null = All-at _ bs e cs (descriptors_ne m _ fs t) in
      rw (find_semd-present m fs bs e cs t, ==_ne s null s_ne, load-ok m.s_procq s s_ne)
        (head_proc_q-head m.procs _ ws (All-at _ bs e cs t.holds).ring)

module _ (m : Tables) (key : ℕ) (bs cs : List Entry) (fs : List Ptr) (t : IsTable m (bs ++ cs) fs)
    (below : All (λ f. f.key < key) bs) (above : All (λ f. key < f.key) cs) where
  -- At a semaphore that is not active both return NULL and change nothing.
  pub remove_blocked-absent : key ≢ null → remove_blocked key m ≡ ok (null, m)
  unfolding remove_blocked
  remove_blocked-absent ne = rw (==_ne key null ne, find_semd-absent m fs key bs cs t below above)

  pub head_blocked-absent : head_blocked key m ≡ ok null
  unfolding head_blocked
  head_blocked-absent = rw (find_semd-absent m fs key bs cs t below above)
