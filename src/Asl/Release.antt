-- ===== src/Asl/Release.antt =====
-- The end of removeBlocked and outBlocked: a descriptor that nobody waits for leaves the active list.
use jae_os.Prelude.{
  ℕ, ◌≡◌, refl, sym, subst, ◌≢◌, List, [], ◌∷◌, ◌++◌, arith, Ptr, null, ok, All, All-map, All-both,
  All-append, All-at, All-drop, All-insert, NotIn, Distinct, Distinct-NotIn, length-map,
  length-append, load-ok, Returns, returns, Returns-bind, ==_ne,
}
use mathlib.Core.List.{map-append}
use jae_os.Const.{rounds}
use jae_os.Clist.Ring.{Ring, Ring-frame, Ring-nil, Ring-Distinct, tail_ne}
use jae_os.Clist.Ends.{clist_enqueue-append}
use jae_os.Clist.Delete.{clist_delete-append}
use jae_os.Pcb.Queue.{Apart, Apart-sym}
use jae_os.Asl.{Tables, semds, empty_proc_q, free_semd, release_semd}
use jae_os.Asl.View.{
  Entry, descriptors, descriptors-append, Holds, Holds-frame, Holds-relink, Holds-Apart, IsTable,
  IsAsl, IsBusy, others_ne,
}
use jae_os.Asl.Sort.{Sorted-drop, Sorted-replace, descriptors-replace}
use jae_os.Asl.Find.{few, descriptors_ne}
use jae_os.Asl.Join.{QueueOnly, QueueOnly-SameEntry}

abbrev pub entry : Ptr → ℕ → List Ptr → Entry
entry s key ws = record { semd = s; key = key; waiting = ws }

-- The list with `ws` waiting for the semaphore `key`: if nobody is left its descriptor is free.
abbrev pub Left : Tables → List Entry → Ptr → ℕ → List Ptr → List Entry → List Ptr → Type 0
Left m bs s key [] cs fs = IsAsl m (bs ++ cs) (fs ++ s ∷ [])
Left m bs s key (w ∷ ws) cs fs = IsAsl m (bs ++ entry s key (w ∷ ws) ∷ cs) fs

module _ (m : Tables) (bs : List Entry) (s : Ptr) (key : ℕ) (cs : List Entry) (fs : List Ptr) where
  -- The descriptor moves from the active to the free ones.
  release_semd-nobody :
      IsTable m (bs ++ entry s key [] ∷ cs) fs
      → All IsBusy (bs ++ cs)
      → Returns (λ m'. IsAsl m' (bs ++ cs) (fs ++ s ∷ []) × (m'.procs ≡ m.procs)) (release_semd s m)
  unfolding release_semd empty_proc_q free_semd
  release_semd-nobody t busy =
      let e = entry s key [] in
      let s_ne : s ≢ null = All-at _ bs e cs (descriptors_ne m _ fs t) in
      let split = descriptors-append bs e cs in
      let out : NotIn s fs =
        All-map _ _ fs
          (λ f a d. All-at _ (descriptors bs) s (descriptors cs) (subst (NotIn f) split a) (sym d))
          t.apart in
      let joined = map-append (λ (f : Entry). f.semd) bs cs in
      rw (load-ok m.s_procq s s_ne, Ring-nil _ (All-at _ bs e cs t.holds).ring)
        (Returns-bind
          (clist_delete-append rounds s (semds m m.aslh) _ t.active
            (omega (arith, length-map (λ (f : Entry). f.semd) (bs ++ e ∷ cs), few m _ fs t))
            (descriptors bs) (descriptors cs) split)
          λ (_, l) (_, ring, same).
            let ring' : Ring l (descriptors (bs ++ cs)) = subst (Ring l) (sym joined) ring in
            let free =
              Ring-frame _ (semds (record m { s_link = l.next; aslh = l.tail }) m.semd_free) fs refl
                (All-map _ _ fs same t.apart) t.free in
            Returns-bind (clist_enqueue-append s _ fs free s_ne out) λ k (ring2, same2).
              let away : Apart (s ∷ fs) (descriptors (bs ++ cs)) =
                subst (Apart (s ∷ fs)) (sym joined) (apart-rest split t) in
              returns (
                record {
                  table = record {
                    active = Ring-frame l _ _ refl (All-map _ _ _ same2 away) ring';
                    free = ring2;
                    apart = Apart-sym (fs ++ s ∷ []) (descriptors (bs ++ cs)) (
                        All-map _ _ _ (λ y h. All-append (λ x. x ≢ y) fs (s ∷ []) h.1 (h.0, tt))
                          away);
                    holds =
                        All-map _ _ (bs ++ cs) (Holds-relink m k.next l.tail k.tail)
                          (All-drop _ bs e cs t.holds);
                    sorted = Sorted-drop e cs bs t.sorted;
                    bounded = omega (
                      arith,
                      length-append bs cs,
                      length-append bs (e ∷ cs),
                      length-append fs (s ∷ []),
                      t.bounded,
                    );
                  };
                  busy = busy;
                },
                refl,
              ))
    where
      apart-rest :
          descriptors (bs ++ entry s key [] ∷ cs) ≡ descriptors bs ++ s ∷ descriptors cs
          → IsTable m (bs ++ entry s key [] ∷ cs) fs
          → Apart (s ∷ fs) (descriptors bs ++ descriptors cs)
      apart-rest split t =
          All-both _ _ _ _ (λ y h k. ((λ d. h (sym d)), k))
            (Distinct-NotIn (descriptors bs) s (descriptors cs)
              (subst Distinct split (Ring-Distinct _ _ t.active)))
            (All-drop _ (descriptors bs) s (descriptors cs)
              (subst (Apart fs) split (Apart-sym _ fs t.apart)))

  release_semd-somebody :
      (w : Ptr) (ws : List Ptr)
      → IsTable m (bs ++ entry s key (w ∷ ws) ∷ cs) fs
      → release_semd s m ≡ ok m
  unfolding release_semd empty_proc_q
  release_semd-somebody w ws t =
      let e = entry s key (w ∷ ws) in
      rw (
        load-ok m.s_procq s (All-at _ bs e cs (descriptors_ne m _ fs t)),
        ==_ne _ null (tail_ne _ w ws (All-at _ bs e cs t.holds).ring),
      )

  -- In both cases.
  pub release_semd-Left :
      (ws : List Ptr)
      → IsTable m (bs ++ entry s key ws ∷ cs) fs
      → All IsBusy (bs ++ cs)
      → Returns (λ m'. Left m' bs s key ws cs fs × (m'.procs ≡ m.procs)) (release_semd s m)
  release_semd-Left [] t busy = release_semd-nobody t busy
  release_semd-Left (w ∷ ws) t busy =
      rw (release_semd-somebody w ws t)
        (returns (record { table = t; busy = All-insert IsBusy bs _ cs (λ d. cc) busy }, refl))

-- Entries with other descriptors keep what they hold when `p` leaves the queue of `e`.
others_kept :
    (m m' : Tables) (e : Entry) (us : List Ptr) (p : Ptr) (vs : List Ptr) (es : List Entry)
    → e.waiting ≡ us ++ p ∷ vs
    → Holds m e
    → QueueOnly e.semd p e.waiting m m'
    → All (Holds m) es
    → All (λ f. f.semd ≢ e.semd) es
    → All (Holds m') es
others_kept m m' e us p vs [] is he only h ne = tt
others_kept m m' e us p vs (f ∷ es) is he only h ne =
    let apart = Holds-Apart m e f he h.0 (λ d. ne.0 (sym d)) in
    let out : NotIn p f.waiting =
      All-map _ _ f.waiting (λ y a d. All-at _ us p vs (subst (NotIn y) is a) (sym d)) apart in
    (
      Holds-frame m m' f (QueueOnly-SameEntry e.semd p e.waiting m m' f only ne.0 out apart) h.0,
      others_kept m m' e us p vs es is he only h.1 ne.1,
    )

-- The table after `p` has left the queue.
pub shrink-IsTable :
    (m m' : Tables) (bs : List Entry) (s : Ptr) (key : ℕ) (us : List Ptr) (p : Ptr) (vs : List Ptr)
    (cs : List Entry) (fs : List Ptr)
    → IsTable m (bs ++ entry s key (us ++ p ∷ vs) ∷ cs) fs
    → QueueOnly s p (us ++ p ∷ vs) m m'
    → Holds m' (entry s key (us ++ vs))
    → IsTable m' (bs ++ entry s key (us ++ vs) ∷ cs) fs
shrink-IsTable m m' bs s key us p vs cs fs t only h =
    let e = entry s key (us ++ p ∷ vs) in
    let e' = entry s key (us ++ vs) in
    record {
      active = rw (descriptors-replace e cs e' bs refl, only.list, only.active) t.active;
      free = rw (only.list, only.free) t.free;
      apart = rw (descriptors-replace e cs e' bs refl) t.apart;
      holds = All-insert _ bs e' cs h (
          others_kept m m' e us p vs (bs ++ cs) refl (All-at _ bs e cs t.holds) only
            (All-drop _ bs e cs t.holds) (others_ne m m.aslh bs e cs t.active));
      sorted = Sorted-replace e cs e' refl bs t.sorted;
      bounded = omega (arith, length-append bs (e ∷ cs), length-append bs (e' ∷ cs), t.bounded);
    }
