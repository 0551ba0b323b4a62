-- ===== src/Asl/Refine.antt =====
-- asl.c implements its specification: each operation on the tables is one on the map of queues.
use jae_os.Prelude.{
  ℕ, ◌≤◌, ◌≡◌, refl, ap, ◌<◌, Option, Bool, ◌∙◌, sym, subst, ◌≢◌, ◌⊎◌, inl, inr, true, false, some,
  List, [], ◌∷◌, ◌++◌, Ptr, null, ok, All, All-at, Returns, returns, Returns-mono,
}
use jae_os.Const.{max_proc}
use jae_os.Asl.{Tables, insert_blocked, remove_blocked, head_blocked}
use jae_os.Asl.View.{Entry, IsTable, IsAsl, IsBusy}
use jae_os.Asl.Find.{present, absent, place, Sorted-before}
use jae_os.Asl.Join.{joined}
use jae_os.Asl.Insert.{
  NotWaiting, insert_blocked-present, insert_blocked-full, insert_blocked-fresh,
}
use jae_os.Asl.Release.{entry}
use jae_os.Asl.Remove.{
  remove_blocked-present, remove_blocked-absent, head_blocked-present, head_blocked-absent,
}
use jae_os.Asl.Spec.{
  Waits, view, block, wake, first, is_active, block-present, block-absent, wake-last, wake-more,
  wake-absent, first-wake, first-present, is_active-absent,
}

-- The tables implement the map `w`.
abbrev pub Implements : Tables → Waits → Type 0
Implements m w = (es : List Entry) × (fs : List Ptr) × IsAsl m es fs × (view es ≡ w)

-- What insertBlocked may answer.
abbrev pub Blocks : Tables → List Entry → List Ptr → ℕ → Ptr → Option Bool × Tables → Type 0
Blocks m es fs key p (r, m') =
    ((r ≡ some false) × Implements m' (block key p (view es)))
    ⊎ ((r ≡ some true) × (m' ≡ m) × (fs ≡ []) × (is_active key (view es) ≡ false))

-- What removeBlocked may answer.
abbrev pub Wakes : List Entry → ℕ → Ptr × Tables → Type 0
Wakes es key (r, m') = (r ≡ (wake key (view es)).0) × Implements m' (wake key (view es)).1

module _ (m : Tables) (key : ℕ) where
  block-at :
      (p : Ptr) (fs : List Ptr) (bs : List Entry) (s : Ptr) (ws : List Ptr) (cs : List Entry)
      → IsAsl m (bs ++ entry s key ws ∷ cs) fs
      → p ≢ null
      → p ≤ max_proc
      → NotWaiting p (bs ++ entry s key ws ∷ cs)
      → Returns (Blocks m (bs ++ entry s key ws ∷ cs) fs key p) (insert_blocked key p m)
  block-at p fs bs s ws cs a ne le out =
      let e = entry s key ws in
      Returns-mono (insert_blocked-present m fs p ne le bs e cs a out) λ (r, m') (is, a', _). inl (
        is,
        (
          bs ++ joined m e p ∷ cs,
          fs,
          a',
          sym (
              block-present key p bs e (joined m e p) cs (Sorted-before bs e cs a.table.sorted) refl
                refl refl),
        ),
      )

  block-new :
      (p : Ptr) (fs : List Ptr) (bs cs : List Entry)
      → key ≢ null
      → IsAsl m (bs ++ cs) fs
      → All (λ f. f.key < key) bs
      → All (λ f. key < f.key) cs
      → p ≢ null
      → p ≤ max_proc
      → NotWaiting p (bs ++ cs)
      → Returns (Blocks m (bs ++ cs) fs key p) (insert_blocked key p m)
  block-new p [] bs cs kne a below above ne le out =
      rw (insert_blocked-full m [] p ne le key bs cs kne a below above)
        (returns (inr (refl, refl, refl, is_active-absent key bs cs below above)))
  block-new p (n ∷ fs) bs cs kne a below above ne le out =
      Returns-mono (insert_blocked-fresh m fs p ne le key n bs cs kne a below above out)
        λ (r, m') (e, a', _, _). inl (
          e,
          (
            bs ++ entry n key (p ∷ []) ∷ cs,
            fs,
            a',
            sym (block-absent key p bs (entry n key (p ∷ [])) cs below above refl refl),
          ),
        )

  wake-at :
      (fs : List Ptr) (bs : List Entry) (s : Ptr) (ws : List Ptr) (cs : List Entry)
      → IsAsl m (bs ++ entry s key ws ∷ cs) fs
      → Returns (Wakes (bs ++ entry s key ws ∷ cs) key) (remove_blocked key m)
  wake-at fs bs s [] cs a = absurd (All-at IsBusy bs (entry s key []) cs a.busy refl)
  wake-at fs bs s (p ∷ []) cs a =
      let e =
        wake-last key p bs (entry s key (p ∷ [])) cs (Sorted-before bs _ cs a.table.sorted) refl
          refl in
      Returns-mono (remove_blocked-present m bs s key cs fs p [] a)
        λ (r, m') (is, left, _). rw e (is, (bs ++ cs, fs ++ s ∷ [], left, refl))
  wake-at fs bs s (p ∷ v ∷ vs) cs a =
      let e =
        wake-more key p v vs bs (entry s key (p ∷ v ∷ vs)) (entry s key (v ∷ vs)) cs
          (Sorted-before bs _ cs a.table.sorted) refl refl refl refl in
      Returns-mono (remove_blocked-present m bs s key cs fs p (v ∷ vs) a)
        λ (r, m') (is, left, _). rw e (is, (bs ++ entry s key (v ∷ vs) ∷ cs, fs, left, refl))

  wake-none :
      (fs : List Ptr) (bs cs : List Entry)
      → key ≢ null
      → IsAsl m (bs ++ cs) fs
      → All (λ f. f.key < key) bs
      → All (λ f. key < f.key) cs
      → Returns (Wakes (bs ++ cs) key) (remove_blocked key m)
  wake-none fs bs cs kne a below above =
      rw (remove_blocked-absent m key bs cs fs a.table below above kne)
        (returns (rw (wake-absent key bs cs below above) (refl, (bs ++ cs, fs, a, refl))))

  head-at :
      (fs : List Ptr) (bs : List Entry) (s : Ptr) (ws : List Ptr) (cs : List Entry)
      → IsTable m (bs ++ entry s key ws ∷ cs) fs
      → head_blocked key m ≡ ok (first key (view (bs ++ entry s key ws ∷ cs)))
  head-at fs bs s ws cs t =
      head_blocked-present m bs s key cs fs ws t
      ∙ ap ok (sym (first-present key bs (entry s key ws) cs (Sorted-before bs _ cs t.sorted) refl))

module _ (m : Tables) (es : List Entry) (fs : List Ptr) (a : IsAsl m es fs) (key : ℕ)
    (kne : key ≢ null) where
  -- In tables that satisfy the invariant, insertBlocked of a process that waits for nothing, at a
  -- semaphore other than NULL, returns: either FALSE, and then the tables hold the map of queues in
  -- which the process waits behind the others; or TRUE with nothing changed, and then no descriptor
  -- is free and the semaphore is not active.
  pub insert_blocked-refines :
      (p : Ptr)
      → p ≢ null
      → p ≤ max_proc
      → NotWaiting p es
      → Returns (Blocks m es fs key p) (insert_blocked key p m)
  insert_blocked-refines p ne le out = elim (place key es a.table.sorted) [
    | present bs e cs eq is ↦
        subst (λ k. Returns (Blocks m es fs k p) (insert_blocked k p m)) is
          (rw eq (
            block-at m e.key p fs bs e.semd e.waiting cs (subst (λ zs. IsAsl m zs fs) eq a) ne le
              (subst (NotWaiting p) eq out)))
    | absent bs cs eq below above ↦ rw eq (
        block-new m key p fs bs cs kne (subst (λ zs. IsAsl m zs fs) eq a) below above ne le
          (subst (NotWaiting p) eq out))
  ]

  -- In tables that satisfy the invariant, removeBlocked of a semaphore other than NULL returns the
  -- first process that waits for it and takes it out of the map of queues, or returns NULL with the
  -- map as it was where nobody waits. The invariant holds again.
  pub remove_blocked-refines : Returns (Wakes es key) (remove_blocked key m)
  remove_blocked-refines = elim (place key es a.table.sorted) [
    | present bs e cs eq is ↦
        subst (λ k. Returns (Wakes es k) (remove_blocked k m)) is
          (rw eq (wake-at m e.key fs bs e.semd e.waiting cs (subst (λ zs. IsAsl m zs fs) eq a)))
    | absent bs cs eq below above ↦
        rw eq (wake-none m key fs bs cs kne (subst (λ zs. IsAsl m zs fs) eq a) below above)
  ]

  -- In tables that satisfy the invariant, headBlocked of a semaphore other than NULL returns the
  -- first process that waits for it, or NULL where nobody waits.
  pub head_blocked-refines : head_blocked key m ≡ ok (first key (view es))
  head_blocked-refines = elim (place key es a.table.sorted) [
    | present bs e cs eq is ↦
        subst (λ k. head_blocked k m ≡ ok (first k (view es))) is
          (rw eq
            (head-at m e.key fs bs e.semd e.waiting cs (subst (λ zs. IsTable m zs fs) eq a.table)))
    | absent bs cs eq below above ↦
        rw (eq, first-wake, wake-absent key bs cs below above)
          (head_blocked-absent m key bs cs fs (subst (λ zs. IsTable m zs fs) eq a.table) below
            above)
  ]
