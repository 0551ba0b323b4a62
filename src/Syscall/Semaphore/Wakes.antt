-- ===== src/Syscall/Semaphore/Wakes.antt =====
-- The V operation in semaphore_operation of source/syscall.c, from the value to the woken processes.
use jae_os.Prelude.{
  ◌≡◌, refl, ap, ◌∙◌, sym, subst, ℕ, ◌<◌, ◌≢◌, List, [], ◌∷◌, ◌++◌, append-nil, arith, Ptr, null,
  All, All-at, NotIn, length, update_self,
}
use jae_os.Prelude.Int.{ℤ, pos, add_int, int_of, word_of}
use jae_os.Prelude.Words.{int_of-word_of-add_int}
use jae_os.Const.{rounds}
use jae_os.Asl.{Tables}
use jae_os.Asl.View.{IsBusy, Entry, Holds, Holds-short, IsAsl}
use jae_os.Asl.Find.{place, present, absent, Sorted-before, Sorted-after}
use jae_os.Asl.Release.{entry}
use jae_os.Asl.Woken.{remaining, freed, Outside, Left-IsAsl}
use jae_os.Asl.Spec.{Waits, view}
use jae_os.Asl.Waiting.{
  waiting_for, waiting_for-present, waiting_for-absent, keep_waiting, keep_waiting-present,
  keep_waiting-absent,
}
use jae_os.Kernel.{Kernel}
use jae_os.Kernel.Runs.{
  Proceeds, proceeds, Proceeds-bind, Proceeds-mono, nonnull-Proceeds, read_int-Proceeds,
}
use jae_os.Scheduler.Ready.{Ready}
use jae_os.Syscall.Semaphore.{serve_loop, demand, verhogen}
use jae_os.Syscall.Semaphore.Demand.{total, demand-total}
use jae_os.Syscall.Semaphore.Passeren.{set_value}
use jae_os.Syscall.Semaphore.Serve.{lowered, served, clear, Served}
use jae_os.Syscall.Semaphore.Verhogen.{serve_loop-absent, serve_loop-Served}

-- The queues of the nucleus: `es` and `fs` are the semaphore list, `xs` the ready queue, and who is
-- ready waits for no semaphore.
pub record Queues (k : Kernel) (es : List Entry) (fs xs : List Ptr) : Type 0 where
  pub asl : IsAsl k.tables es fs
  pub ready : Ready k xs
  pub outside : Outside xs es

-- `woken` have gone from the semaphore `key` to the end of the ready queue and have their fields
-- cleared, `left` wait for it still, and nothing else has changed.
pub record Woke (key : ℕ) (w : Waits) (xs woken left : List Ptr) (k k' : Kernel) : Type 0 where
  pub rest : k' ≡ record k {
    tables = k'.tables;
    readyqueue = k'.readyqueue;
    soft_block_count = lowered k.soft_block_count woken;
  }
  pub procs : k'.tables.procs ≡ record k.tables.procs {
    p_list = k'.tables.procs.p_list;
    p_cursem = clear null woken k.tables.procs.p_cursem;
    res_wait = clear (pos 0) woken k.tables.procs.res_wait;
  }
  pub links :
      (q : Ptr)
      → NotIn q woken
      → NotIn q left
      → NotIn q xs
      → k'.tables.procs.p_list q ≡ k.tables.procs.p_list q
  pub queues :
      (es : List Entry) × (fs : List Ptr) × Queues k' es fs (xs ++ woken)
      × (view es ≡ keep_waiting key left w)

module _ (k : Kernel) (key : ℕ) (fs xs : List Ptr) where
  settle :
      (bs : List Entry) (s w : Ptr) (ws : List Ptr) (cs : List Entry) (woken left : List Ptr)
      (k' : Kernel)
      → All (λ f. f.key < key) bs
      → Served bs s key cs fs xs woken left k k'
      → Woke key (view (bs ++ entry s key (w ∷ ws) ∷ cs)) xs woken left k k'
  settle bs s w ws cs woken left k' below d = record {
    rest = d.rest;
    procs = d.procs;
    links = d.links;
    queues = (
      remaining bs s key left cs,
      freed s left fs,
      record {
        asl = Left-IsAsl bs s key cs k'.tables left fs d.asl;
        ready = d.ready;
        outside = d.outside;
      },
      sym (keep_waiting-present s key left bs (entry s key (w ∷ ws)) cs below refl),
    );
  }

  -- The processes that the loop wakes, of those that wait, and what it comes to.
  abbrev Serves : List Entry → ℤ → Kernel → Type 0
  Serves es sum k' =
      let r = served k.tables.procs.res_wait sum (waiting_for key (view es)) in
      Woke key (view es) xs r.0 r.1 k k'

  serve-present :
      (bs : List Entry) (s : Ptr) (ws : List Ptr) (cs : List Entry) (sum : ℤ)
      → Queues k (bs ++ entry s key ws ∷ cs) fs xs
      → Proceeds (λ _ k'. Serves (bs ++ entry s key ws ∷ cs) sum k') (serve_loop rounds key sum k)
  serve-present bs s [] cs sum q = absurd (All-at IsBusy bs (entry s key []) cs q.asl.busy refl)
  serve-present bs s (w ∷ ws) cs sum q =
      let e = entry s key (w ∷ ws) in
      let below = Sorted-before bs e cs q.asl.table.sorted in
      rw (waiting_for-present key bs e cs below refl) (
        Proceeds-mono
          (serve_loop-Served bs s key cs fs below (Sorted-after bs e cs q.asl.table.sorted) (w ∷ ws)
            rounds k xs sum (room k.tables e (All-at _ bs e cs q.asl.table.holds)) q.asl q.ready
            q.outside)
          λ _ k' d. settle bs s w ws cs _ _ k' below d)
    where
      room : (m : Tables) (e : Entry) → Holds m e → length e.waiting < rounds
      room m e h = omega (arith, Holds-short m e h)

  serve-absent :
      (bs cs : List Entry) (sum : ℤ)
      → Queues k (bs ++ cs) fs xs
      → All (λ f. f.key < key) bs
      → All (λ f. key < f.key) cs
      → Proceeds (λ _ k'. Serves (bs ++ cs) sum k') (serve_loop rounds key sum k)
  unfolding served
  serve-absent bs cs sum q below above =
      rw
        (
          waiting_for-absent key bs cs below above,
          serve_loop-absent 20 k key bs cs fs sum q.asl.table below above,
        )
        (proceeds record {
          rest = refl;
          procs = refl;
          links = λ q _ _ _. refl;
          queues = (
            bs ++ cs,
            fs,
            record {
              asl = q.asl;
              ready = subst (Ready k) (sym (append-nil xs)) q.ready;
              outside = subst (λ zs. Outside zs (bs ++ cs)) (sym (append-nil xs)) q.outside;
            },
            sym (keep_waiting-absent key [] bs cs below above),
          );
        })

serve-Woke :
    (k : Kernel) (key : ℕ) (fs xs : List Ptr) (es : List Entry) (sum : ℤ)
    → Queues k es fs xs
    → Proceeds (λ _ k'. Serves k key fs xs es sum k') (serve_loop rounds key sum k)
serve-Woke k key fs xs es sum q = elim (place key es q.asl.table.sorted) [
  | present bs e cs eq is ↦
      subst (λ j. Proceeds (λ _ k'. Serves k j fs xs es sum k') (serve_loop rounds j sum k)) is
        (subst
          (λ zs. Proceeds (λ _ k'. Serves k e.key fs xs zs sum k') (serve_loop rounds e.key sum k))
          (sym eq)
          (serve-present k e.key fs xs bs e.semd e.waiting cs sum
            (subst (λ zs. Queues k zs fs xs) eq q)))
  | absent bs cs eq below above ↦
      subst (λ zs. Proceeds (λ _ k'. Serves k key fs xs zs sum k') (serve_loop rounds key sum k))
        (sym eq)
        (serve-absent k key fs xs bs cs sum (subst (λ zs. Queues k zs fs xs) eq q) below above)
]

module _ (k : Kernel) (key : ℕ) (weight : ℤ) (es : List Entry) where
  -- The value that a V operation leaves, the processes that wait, and what it has for them.
  abbrev pub v_value : ℤ
  v_value = add_int (int_of (k.machine.memory key)) weight

  abbrev pub v_served : List Ptr × List Ptr
  v_served =
      let ws = waiting_for key (view es) in
      let r = k.tables.procs.res_wait in served r (add_int (total r (pos 0) ws) v_value) ws

-- A V operation adds its weight to the value of the semaphore, and then wakes processes in the
-- order in which they wait, as long as what the first one asks for is available: these are at the
-- end of the ready queue now, in that order, wait for nothing and ask for nothing, and the count of
-- blocked processes is lowered by their number. The others wait as before, and nothing else has
-- changed but queue links of those who waited or were ready. Both loops end within their bounds. It
-- is supposed that the semaphore is not NULL, that the semaphore list and the ready queue satisfy
-- their invariants and that nobody is in both; this is so afterwards.
pub verhogen-Woke :
    (k : Kernel) (key : ℕ) (weight : ℤ) (es : List Entry) (fs xs : List Ptr)
    → Queues k es fs xs
    → key ≢ null
    → Proceeds
        (λ _ k'.
          Woke key
            (view es)
            xs
            (v_served k key weight es).0
            (v_served k key weight es).1
            (set_value key (v_value k key weight es) k)
            k')
        (verhogen key weight k)
unfolding verhogen
verhogen-Woke k key weight es fs xs q kne =
    let k1 = set_value key (v_value k key weight es) k in
    let q1 : Queues k1 es fs xs = record { asl = q.asl; ready = q.ready; outside = q.outside } in
    let stored : int_of (k1.machine.memory key) ≡ v_value k key weight es =
      ap int_of (update_self k.machine.memory key (word_of (v_value k key weight es)))
      ∙ int_of-word_of-add_int (int_of (k.machine.memory key)) weight in
    Proceeds-bind (read_int-Proceeds key k kne) λ v _ (e, e0).
      rw (e, e0)
        (nonnull-Proceeds key kne _ _ (
          Proceeds-bind (demand-Proceeds k1 q1) λ sum _ (e1, e2).
            rw (e1, e2)
              (Proceeds-bind (read_int-Proceeds key k1 kne)
                λ w _ (e3, e4). rw (e3, e4, stored) (serve-Woke k1 key fs xs es _ q1))))
  where
    demand-Proceeds :
        (k1 : Kernel)
        → Queues k1 es fs xs
        → Proceeds
            (λ sum k'.
              (sum ≡ total k1.tables.procs.res_wait (pos 0) (waiting_for key (view es)))
              × (k' ≡ k1))
            (demand key k1)
    demand-Proceeds k1 q1 = rw (demand-total k1 key es fs q1.asl) (proceeds (refl, refl))
