-- ===== src/Pcb/Alloc.antt =====
-- Allocation of process descriptors in pcb.c: initPcbs, allocPcb, freePcb and the list pcbFree.
use jae_os.Prelude.{
  ℕ, zero, suc, ◌+◌, ◌<◌, ◌≡◌, refl, ◌≢◌, List, [], ◌∷◌, ◌++◌, arith, Ptr, null, ok, NotIn, ==_ne,
  Returns, returns, Returns-bind, update, update_ne, sym, ◌∙◌,
}
use jae_os.Prelude.Int.{pos}
use jae_os.Const.{max_proc}
use jae_os.Clist.Ring.{
  IsRing, filled, Ring, Ring-nil, Ring-frame, Ring-Distinct, tail_ne, clist_head-ok, Agree-update,
}
use jae_os.Clist.Ends.{clist_enqueue-append, clist_dequeue-cons}
use jae_os.Pcb.{Procs, queue, free_pcb, alloc_pcb, initialise, init_pcbs, pcb_at, zero_state}

-- The free descriptors, in the order in which they will be allocated.
abbrev pub Free : Procs → List Ptr → Type 0
Free m = Ring (queue m m.pcb_free)

-- `&pcbs[i], &pcbs[i + 1], …`, `n` of them.
abbrev pub pcbs_from : ℕ → ℕ → List Ptr
pcbs_from i zero = []
pcbs_from i (suc n) = pcb_at i ∷ pcbs_from (i + 1) n

init_pcbs-IsRing :
    (m : Procs) → IsRing (queue (init_pcbs m) (init_pcbs m).pcb_free) (pcbs_from 0 19)
unfolding init_pcbs update
init_pcbs-IsRing m = record {
  walk = omega arith;
  fresh = omega arith;
  distinct = omega arith;
  nonnull = omega arith;
  tail_ne = omega arith;
}

-- After initPcbs the list of free descriptors holds those of the array, each once and in order.
pub init_pcbs-Free : (m : Procs) → Free (init_pcbs m) (pcbs_from 0 max_proc)
unfolding init_pcbs
init_pcbs-Free m = filled (pcbs_from 0 19) (init_pcbs-IsRing m) refl

-- The descriptor `p` is as allocPcb hands it out.
pub record IsFresh (address : ℕ) (p : Ptr) (m : Procs) : Type 0 where
  pub parent : m.p_parent p ≡ null
  pub cursem : m.p_cursem p ≡ null
  pub link : m.p_list p ≡ null
  pub no_children : m.p_children p ≡ null
  pub siblings : m.p_siblings p ≡ null
  pub state : m.p_s p ≡ zero_state
  pub id : m.pid p ≡ address
  pub waits : m.res_wait p ≡ pos 0
  pub kernel : m.kernel_time p ≡ 0
  pub global : m.global_time p ≡ 0
  pub no_handlers : (i : ℕ) → i < 3 → m.tags p i ≡ 0

-- The fields of `p` but for its queue link are the same.
pub record SameFields (m m' : Procs) (p : Ptr) : Type 0 where
  pub parent : m'.p_parent p ≡ m.p_parent p
  pub cursem : m'.p_cursem p ≡ m.p_cursem p
  pub children : m'.p_children p ≡ m.p_children p
  pub siblings : m'.p_siblings p ≡ m.p_siblings p
  pub state : m'.p_s p ≡ m.p_s p
  pub id : m'.pid p ≡ m.pid p
  pub waits : m'.res_wait p ≡ m.res_wait p
  pub kernel : m'.kernel_time p ≡ m.kernel_time p
  pub global : m'.global_time p ≡ m.global_time p
  pub areas : m'.oldnew_areas p ≡ m.oldnew_areas p
  pub handlers : m'.tags p ≡ m.tags p

initialise-IsFresh :
    (address : ℕ) (p : Ptr) (m : Procs) → IsFresh address p (initialise address p m)
unfolding initialise update
initialise-IsFresh address p m = ground arith

initialise-SameFields :
    (address : ℕ) (p q : Ptr) (m : Procs) (next : Ptr → Ptr) (free : Ptr)
    → q ≢ p
    → SameFields m (initialise address p (record m { p_list = next; pcb_free = free })) q
unfolding initialise update
initialise-SameFields address p q m next free ne = ground arith

module _ (address : ℕ) (m : Procs) where
  -- allocPcb hands out the first free descriptor, where there is one, with its fields initialised
  -- but for the areas of the old and new states, which are as they were; its id is the address of
  -- the local variable of allocPcb. Of the other descriptors it changes at most the queue links of
  -- free ones.
  pub alloc_pcb-cons :
      (x : Ptr) (xs : List Ptr)
      → Free m (x ∷ xs)
      → Returns
          (λ (r, m').
            (r ≡ x)
            × Free m' xs
            × IsFresh address x m'
            × ((q : Ptr) → q ≢ x → SameFields m m' q)
            × ((q : Ptr) → NotIn q (x ∷ xs) → m'.p_list q ≡ m.p_list q)
            × (m'.oldnew_areas ≡ m.oldnew_areas))
          (alloc_pcb address m)
  unfolding alloc_pcb initialise
  alloc_pcb-cons x xs ring =
      rw (==_ne _ null (tail_ne _ x xs ring), clist_head-ok _ x xs ring)
        (Returns-bind (clist_dequeue-cons _ x xs ring) λ l (ring', same). returns (
          refl,
          Ring-frame l _ xs refl (Agree-update l.next x null xs (Ring-Distinct _ _ ring).0) ring',
          initialise-IsFresh address x (record m { p_list = l.next; pcb_free = l.tail }),
          λ q ne. initialise-SameFields address x q m l.next l.tail ne,
          λ q out. update_ne l.next x q null (λ e. out.0 (sym e)) ∙ same q out,
          refl,
        ))

  -- With no free descriptor it returns NULL and changes nothing.
  pub alloc_pcb-nil : Free m [] → alloc_pcb address m ≡ ok (null, m)
  unfolding alloc_pcb
  alloc_pcb-nil ring = rw (Ring-nil _ ring)

-- freePcb puts a descriptor that is not free behind the free ones; it changes no field of a
-- descriptor but the queue link, and this only at it and at the free ones.
pub free_pcb-append :
    (m : Procs) (p : Ptr) (xs : List Ptr)
    → Free m xs
    → p ≢ null
    → NotIn p xs
    → Returns
        (λ m'.
          Free m' (xs ++ p ∷ [])
          × ((q : Ptr) → SameFields m m' q)
          × ((q : Ptr) → NotIn q (p ∷ xs) → m'.p_list q ≡ m.p_list q))
        (free_pcb p m)
unfolding free_pcb
free_pcb-append m p xs ring ne new =
    Returns-bind (clist_enqueue-append p _ xs ring ne new) λ l (ring', same). returns (
      ring',
      λ q. record {
        parent = refl;
        cursem = refl;
        children = refl;
        siblings = refl;
        state = refl;
        id = refl;
        waits = refl;
        kernel = refl;
        global = refl;
        areas = refl;
        handlers = refl;
      },
      same,
    )

-- The same, with the fields that may have changed.
pub free_pcb-LinksOnly :
    (m : Procs) (p : Ptr) (xs : List Ptr)
    → Free m xs
    → p ≢ null
    → NotIn p xs
    → Returns
        (λ m'.
          Free m' (xs ++ p ∷ [])
          × (m' ≡ record m { p_list = m'.p_list; pcb_free = m'.pcb_free })
          × ((q : Ptr) → NotIn q (p ∷ xs) → m'.p_list q ≡ m.p_list q))
        (free_pcb p m)
unfolding free_pcb
free_pcb-LinksOnly m p xs ring ne new =
    Returns-bind (clist_enqueue-append p _ xs ring ne new)
      λ l (ring', same). returns (ring', refl, same)
