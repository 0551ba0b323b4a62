-- ===== src/Asl/Waiting.antt =====
-- The queue of one semaphore in the map of queues that asl.c keeps, and the map with another queue
-- in its place.
use jae_os.Prelude.{
  ℕ, Bool-cases, sym, ap, ◌∙◌, subst, eq_cases, inl, inr, ◌<◌, ◌≡◌, ◌≢◌, refl, arith, List, [], ◌∷◌,
  ◌++◌, Ptr, All, ==_ne, ==_self, ◌==◌, if◌then◌else◌,
}
use jae_os.Asl.View.{Entry, Sorted}
use jae_os.Asl.Find.{place, present, absent, Sorted-before, Sorted-after}
use jae_os.Asl.Release.{entry}
use jae_os.Asl.Woken.{remaining}
use jae_os.Pcb.Queue.{head_or_null}
use jae_os.Asl.Spec.{Waits, view, first, take_first-head}

lt_ne : (a b : ℕ) → a < b → a ≢ b
lt_ne a b h = omega arith

gt_ne : (a b : ℕ) → b < a → a ≢ b
gt_ne a b h = omega arith

-- The processes that wait for `key`.
pub waiting_for : ℕ → Waits → List Ptr
waiting_for key [] = []
waiting_for key ((j, ws) ∷ rest) = if j == key then ws else waiting_for key rest

pub waiting_for-present :
    (key : ℕ) (bs : List Entry) (e : Entry) (cs : List Entry)
    → All (λ f. f.key < key) bs
    → e.key ≡ key
    → waiting_for key (view (bs ++ e ∷ cs)) ≡ e.waiting
unfolding waiting_for
waiting_for-present key [] e cs below is = rw (is, ==_self key) refl
waiting_for-present key (b ∷ bs) e cs below is =
    rw (==_ne b.key key (lt_ne b.key key below.0)) (waiting_for-present key bs e cs below.1 is)

pub waiting_for-absent :
    (key : ℕ) (bs cs : List Entry)
    → All (λ f. f.key < key) bs
    → All (λ f. key < f.key) cs
    → waiting_for key (view (bs ++ cs)) ≡ []
unfolding waiting_for
waiting_for-absent key [] [] below above = refl
waiting_for-absent key [] (c ∷ cs) below above =
    rw (==_ne c.key key (gt_ne c.key key above.0)) (waiting_for-absent key [] cs tt above.1)
waiting_for-absent key (b ∷ bs) cs below above =
    rw (==_ne b.key key (lt_ne b.key key below.0)) (waiting_for-absent key bs cs below.1 above)

unfoldable pub put_queue : ℕ → List Ptr → Waits → Waits
put_queue key [] rest = rest
put_queue key (w ∷ ws) rest = (key, w ∷ ws) ∷ rest

-- The processes `ws`, and no others, wait for `key`, if anybody waits for it now.
pub keep_waiting : ℕ → List Ptr → Waits → Waits
unfolding put_queue
keep_waiting key ws [] = []
keep_waiting key ws ((j, us) ∷ rest) =
    if j == key then put_queue key ws rest else (j, us) ∷ keep_waiting key ws rest

pub keep_waiting-present :
    (s : Ptr) (key : ℕ) (ws : List Ptr) (bs : List Entry) (e : Entry) (cs : List Entry)
    → All (λ f. f.key < key) bs
    → e.key ≡ key
    → keep_waiting key ws (view (bs ++ e ∷ cs)) ≡ view (remaining bs s key ws cs)
unfolding keep_waiting put_queue
keep_waiting-present s key [] [] e cs below is = rw (is, ==_self key) refl
keep_waiting-present s key (w ∷ ws) [] e cs below is = rw (is, ==_self key) refl
keep_waiting-present s key [] (b ∷ bs) e cs below is =
    rw (==_ne b.key key (lt_ne b.key key below.0), keep_waiting-present s key [] bs e cs below.1 is)
      refl
keep_waiting-present s key (w ∷ ws) (b ∷ bs) e cs below is =
    rw
      (
        ==_ne b.key key (lt_ne b.key key below.0),
        keep_waiting-present s key (w ∷ ws) bs e cs below.1 is,
      )
      refl

pub keep_waiting-absent :
    (key : ℕ) (ws : List Ptr) (bs cs : List Entry)
    → All (λ f. f.key < key) bs
    → All (λ f. key < f.key) cs
    → keep_waiting key ws (view (bs ++ cs)) ≡ view (bs ++ cs)
unfolding keep_waiting
keep_waiting-absent key ws [] [] below above = refl
keep_waiting-absent key ws [] (c ∷ cs) below above =
    rw (==_ne c.key key (gt_ne c.key key above.0), keep_waiting-absent key ws [] cs tt above.1) refl
keep_waiting-absent key ws (b ∷ bs) cs below above =
    rw (==_ne b.key key (lt_ne b.key key below.0), keep_waiting-absent key ws bs cs below.1 above)
      refl

waiting_for-remaining :
    (bs : List Entry) (s : Ptr) (key : ℕ) (cs : List Entry)
    → All (λ f. f.key < key) bs
    → All (λ f. key < f.key) cs
    → (ws : List Ptr) → waiting_for key (view (remaining bs s key ws cs)) ≡ ws
waiting_for-remaining bs s key cs below above [] = waiting_for-absent key bs cs below above
waiting_for-remaining bs s key cs below above (w ∷ ws) =
    waiting_for-present key bs (entry s key (w ∷ ws)) cs below refl

-- Where somebody waits, the new queue is the one that is found.
pub waiting_for-keep_waiting :
    (key : ℕ) (ws us : List Ptr) (v : Ptr) (es : List Entry)
    → Sorted es
    → waiting_for key (view es) ≡ v ∷ us
    → waiting_for key (keep_waiting key ws (view es)) ≡ ws
waiting_for-keep_waiting key ws us v es sorted some_wait = elim (place key es sorted) [
  | present bs e cs eq is ↦ at_entry ws bs e cs eq is
  | absent bs cs eq below above ↦ absurd (
      cons_ne _ _ (
        sym some_wait
        ∙ ap (λ zs. waiting_for key (view zs)) eq
        ∙ waiting_for-absent key bs cs below above))
]
  where
    cons_ne : (v : Ptr) (us : List Ptr) → v ∷ us ≢ []
    cons_ne v us d = cc

    at_entry :
        (ws : List Ptr) (bs : List Entry) (e : Entry) (cs : List Entry)
        → es ≡ bs ++ e ∷ cs
        → e.key ≡ key
        → waiting_for key (keep_waiting key ws (view es)) ≡ ws
    at_entry ws bs e cs eq is =
        let below = Sorted-before bs e cs (subst Sorted eq sorted) in
        let above = Sorted-after bs e cs (subst Sorted eq sorted) in
        subst (λ zs. waiting_for key (keep_waiting key ws (view zs)) ≡ ws) (sym eq)
          (subst (λ j. waiting_for j (keep_waiting j ws (view (bs ++ e ∷ cs))) ≡ ws) is
            (ap (waiting_for e.key) (keep_waiting-present e.semd e.key ws bs e cs below refl)
              ∙ waiting_for-remaining bs e.semd e.key cs below above ws))

-- The queue of a semaphore with somebody in it can be replaced again.
pub keep_waiting-again :
    (key : ℕ) (us : List Ptr) (w : Ptr) (ws : List Ptr) (t : Waits)
    → keep_waiting key us (keep_waiting key (w ∷ ws) t) ≡ keep_waiting key us t
unfolding keep_waiting put_queue
keep_waiting-again key us w ws [] = refl
keep_waiting-again key us w ws ((j, vs) ∷ t) = elim (eq_cases j key) [
  | inl e ↦ rw (e, ==_self key) (rw (==_self key) refl)
  | inr ne ↦ rw (==_ne j key ne) (rw (==_ne j key ne, keep_waiting-again key us w ws t) refl)
]

-- What an entry's queue satisfies, the queue of a semaphore does.
pub waiting_for-All :
    (P : List Ptr → Type 0) (key : ℕ) (es : List Entry)
    → P []
    → All (λ e. P e.waiting) es
    → P (waiting_for key (view es))
unfolding waiting_for
waiting_for-All P key [] none_waits all = none_waits
waiting_for-All P key (e ∷ es) none_waits all = elim (eq_cases e.key key) [
  | inl d ↦ rw (d, ==_self key) all.0
  | inr ne ↦ rw (==_ne e.key key ne) (waiting_for-All P key es none_waits all.1)
]

-- The first who waits is the head of the queue.
pub first-waiting_for : (key : ℕ) (t : Waits) → first key t ≡ head_or_null (waiting_for key t)
unfolding first waiting_for
first-waiting_for key [] = refl
first-waiting_for key ((j, ws) ∷ t) = elim (eq_cases j key) [
  | inl e ↦ rw (e, ==_self key) (take_first-head key ws t)
  | inr ne ↦ rw (==_ne j key ne) (first-waiting_for key t)
]

-- A predicate on queues, of those of the map and of the entries.
abbrev pub AllQueues : (List Ptr → Type 0) → Waits → Type 0
AllQueues P = All λ w. P w.1

pub AllQueues-view :
    (P : List Ptr → Type 0) (es : List Entry) → AllQueues P (view es) → All (λ e. P e.waiting) es
AllQueues-view P [] all = tt
AllQueues-view P (e ∷ es) all = (all.0, AllQueues-view P es all.1)

pub view-AllQueues :
    (P : List Ptr → Type 0) (es : List Entry) → All (λ e. P e.waiting) es → AllQueues P (view es)
view-AllQueues P [] all = tt
view-AllQueues P (e ∷ es) all = (all.0, view-AllQueues P es all.1)

put_queue-AllQueues :
    (P : List Ptr → Type 0) (key : ℕ) (ws : List Ptr) (t : Waits)
    → P ws
    → AllQueues P t
    → AllQueues P (put_queue key ws t)
unfolding put_queue
put_queue-AllQueues P key [] t h all = all
put_queue-AllQueues P key (w ∷ ws) t h all = (h, all)

pub keep_waiting-AllQueues :
    (P : List Ptr → Type 0) (key : ℕ) (ws : List Ptr) (t : Waits)
    → P ws
    → AllQueues P t
    → AllQueues P (keep_waiting key ws t)
unfolding keep_waiting
keep_waiting-AllQueues P key ws [] h all = tt
keep_waiting-AllQueues P key ws ((j, us) ∷ t) h all = elim (Bool-cases (j == key)) [
  | inl e ↦ rw e (put_queue-AllQueues P key ws t h all.1)
  | inr e ↦ rw e (all.0, keep_waiting-AllQueues P key ws t h all.1)
]
