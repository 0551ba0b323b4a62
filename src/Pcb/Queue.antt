-- ===== src/Pcb/Queue.antt =====
-- Process queues of pcb.c: insertProcQ, removeProcQ, outProcQ, headProcQ against lists.
use jae_os.Prelude.{
  ◌<◌, ◌≡◌, refl, sym, subst, ◌≢◌, true, List, [], ◌∷◌, ◌++◌, arith, Ptr, null, ok, All, NotIn,
  Distinct, Distinct-NotIn, All-append_left, ==_self, ==_ne, ◌==◌, length, length-append, Returns,
  returns, Returns-bind, ap, All-map,
}
use jae_os.Const.{rounds}
use jae_os.Clist.Ring.{Ring, Ring-nil, Ring-frame, Ring-Distinct, tail_ne, clist_head-ok, Agree}
use jae_os.Clist.Ends.{clist_enqueue-append, clist_dequeue-cons}
use jae_os.Clist.Scan.{Passes, clist_foreach-found, clist_foreach-none}
use jae_os.Clist.Edit.{clist_foreach_delete-append}
use jae_os.Pcb.{Procs, queue, insert_proc_q, remove_proc_q, out_proc_q, head_proc_q}

-- Of the descriptors' fields at most the queue links of `xs` have changed.
pub record LinksOnly (xs : List Ptr) (m m' : Procs) : Type 0 where
  pub rest : m' ≡ record m { p_list = m'.p_list }
  pub same : (q : Ptr) → NotIn q xs → m'.p_list q ≡ m.p_list q

abbrev pub head_or_null : List Ptr → Ptr
head_or_null [] = null
head_or_null (x ∷ xs) = x

-- Two lists with no element in common.
abbrev pub Apart : List Ptr → List Ptr → Type 0
Apart xs = All λ y. NotIn y xs

Agree-Apart :
    (m m' : Procs) (xs ys : List Ptr)
    → LinksOnly xs m m'
    → Apart xs ys
    → Agree m'.p_list m.p_list ys
Agree-Apart m m' xs ys only apart = All-map _ _ ys only.same apart

-- A queue with none of these descriptors is as it was.
pub queue-frame :
    (m m' : Procs) (r : Ptr) (xs ys : List Ptr)
    → LinksOnly xs m m'
    → Apart xs ys
    → Ring (queue m r) ys
    → Ring (queue m' r) ys
queue-frame m m' r xs ys only apart ring =
    Ring-frame _ _ ys refl (Agree-Apart m m' xs ys only apart) ring

module _ (m : Procs) (q : Ptr) (xs : List Ptr) (ring : Ring (queue m q) xs) where
  -- insertProcQ of a process that is not in the queue makes it the last. Nothing changes but the
  -- queue links of these processes.
  pub insert_proc_q-append :
      (p : Ptr)
      → p ≢ null
      → NotIn p xs
      → Returns
          (λ (q', m'). Ring (queue m' q') (xs ++ p ∷ []) × LinksOnly (p ∷ xs) m m')
          (insert_proc_q q p m)
  unfolding insert_proc_q
  insert_proc_q-append p ne new =
      Returns-bind (clist_enqueue-append p (queue m q) xs ring ne new)
        λ l (ring', same). returns (ring', record { rest = refl; same = same })

  -- The tests of outProcQ at processes other than `p`.
  others-Passes : (p : Ptr) (ys : List Ptr) → NotIn p ys → Passes (λ scan. ok (scan == p)) ys
  others-Passes p ys out = All-map _ _ ys (λ y ne. ap ok (==_ne y p ne)) out

  -- outProcQ of a process in a queue of at most twenty returns it and takes it out wherever it
  -- stands; the others keep their order. Nothing changes but the links of the queue.
  pub out_proc_q-append :
      (p : Ptr) (bs cs : List Ptr)
      → xs ≡ bs ++ p ∷ cs
      → length xs < rounds
      → Returns
          (λ (r, q', m'). (r ≡ p) × Ring (queue m' q') (bs ++ cs) × LinksOnly xs m m')
          (out_proc_q q p m)
  unfolding out_proc_q
  out_proc_q-append p bs cs e small =
      let out : NotIn p bs =
        All-append_left _ bs cs
          (Distinct-NotIn bs p cs (subst Distinct e (Ring-Distinct _ _ ring))) in
      rw
        (clist_foreach-found rounds (queue m q) (λ scan. ok (scan == p)) xs bs p cs ring e
          (others-Passes p bs out) (ap ok (==_self p))
          (omega (arith, length-append bs (p ∷ cs), ap length e)))
        (Returns-bind (clist_foreach_delete-append (queue m q) xs bs p cs true ring e)
          λ l (ring', same). returns (refl, ring', record { rest = refl; same = same }))

  -- outProcQ of a process that is not in the queue, of at most twenty, returns NULL and changes
  -- nothing.
  pub out_proc_q-absent :
      (p : Ptr) → NotIn p xs → length xs < rounds → out_proc_q q p m ≡ ok (null, q, m)
  unfolding out_proc_q
  out_proc_q-absent p out small =
      let (c, e, nf, _) =
        clist_foreach-none rounds (queue m q) (λ scan. ok (scan == p)) xs ring
          (others-Passes p xs out) small in
      rw (e, nf)

module _ (m : Procs) (q : Ptr) where
  -- removeProcQ of a queue that is not empty returns the first process and takes it out. Nothing
  -- changes but the links of the queue.
  pub remove_proc_q-cons :
      (x : Ptr) (xs : List Ptr)
      → Ring (queue m q) (x ∷ xs)
      → Returns
          (λ (r, q', m'). (r ≡ x) × Ring (queue m' q') xs × LinksOnly (x ∷ xs) m m')
          (remove_proc_q q m)
  unfolding remove_proc_q
  remove_proc_q-cons x xs ring =
      rw (==_ne q null (tail_ne _ x xs ring), clist_head-ok _ x xs ring)
        (Returns-bind (clist_dequeue-cons (queue m q) x xs ring)
          λ l (ring', same). returns (refl, ring', record { rest = refl; same = same }))

  pub remove_proc_q-nil : Ring (queue m q) [] → remove_proc_q q m ≡ ok (null, q, m)
  unfolding remove_proc_q
  remove_proc_q-nil ring = rw (Ring-nil _ ring)

  -- headProcQ returns the first process, or NULL.
  pub head_proc_q-head :
      (xs : List Ptr) → Ring (queue m q) xs → head_proc_q q m ≡ ok (head_or_null xs)
  unfolding head_proc_q
  head_proc_q-head [] ring = rw (Ring-nil _ ring)
  head_proc_q-head (x ∷ xs) ring =
      rw (==_ne q null (tail_ne _ x xs ring)) (clist_head-ok _ x xs ring)

pub Apart-sym : (xs ys : List Ptr) → Apart xs ys → Apart ys xs
Apart-sym [] ys h = tt
Apart-sym (x ∷ xs) ys h =
    (All-map _ _ ys (λ y a d. a.0 (sym d)) h, Apart-sym xs ys (All-map _ _ ys (λ y a. a.1) h))
