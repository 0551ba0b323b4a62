-- ===== src/Asl/Find.antt =====
-- findSemd: the search in the active list, which stops early because the list is sorted.
use jae_os.Prelude.{
  ℕ, ◌<◌, ◌≡◌, refl, Bool, sym, ap, ◌∙◌, subst, ◌≢◌, ◌⊎◌, inl, inr, true, false, List, [], ◌∷◌,
  ◌++◌, arith, Ptr, null, Run, ok, ◌>>=◌, All, All-map, All-both, All-append_left, All-at, length,
  length-append, length-map, load, load-ok, ltb, ◌==◌, ◌||◌, All-of_map, ==_self, ==_ne, append-nil,
}
use jae_os.Const.{rounds}
use jae_os.Clist.Ring.{Ring-nonnull}
use jae_os.Clist.Scan.{Passes, clist_foreach-found, clist_foreach-none}
use jae_os.Asl.{Tables, semds, find_semd, stops}
use jae_os.Asl.View.{
  Entry, descriptors, Holds, Sorted, IsTable, descriptors-append, All-descriptors,
}

-- Where the semaphore `key` is in a sorted list, or where it would be.
pub data Place (key : ℕ) (es : List Entry) : Type 0 where
  present :
      (bs : List Entry) (e : Entry) (cs : List Entry)
      → es ≡ bs ++ e ∷ cs
      → e.key ≡ key
      → Place key es
  absent :
      (bs cs : List Entry)
      → es ≡ bs ++ cs
      → All (λ f. f.key < key) bs
      → All (λ f. key < f.key) cs
      → Place key es

Place-cons :
    (key : ℕ) (e : Entry) (es : List Entry) → e.key < key → Place key es → Place key (e ∷ es)
Place-cons key e es lt (present bs f cs eq h) = present (e ∷ bs) f cs (ap (◌∷◌ e) eq) h
Place-cons key e es lt (absent bs cs eq below above) =
    absent (e ∷ bs) cs (ap (◌∷◌ e) eq) (lt, below) above

pub compare_cases : (a b : ℕ) → ((a ≡ b) ⊎ (a < b)) ⊎ (b < a)
compare_cases a b = omega arith

pub place : (key : ℕ) (es : List Entry) → Sorted es → Place key es
place key [] s = absent [] [] refl tt tt
place key (e ∷ es) s = elim (compare_cases e.key key) [
  | inl (inl same) ↦ present [] e es refl same
  | inl (inr lt) ↦ Place-cons key e es lt (place key es s.1)
  | inr gt ↦ absent [] (e ∷ es) refl tt (gt, All-map _ _ es (λ f h. omega arith) s.0)
]

pub Sorted-before :
    (bs : List Entry) (e : Entry) (cs : List Entry)
    → Sorted (bs ++ e ∷ cs)
    → All (λ f. f.key < e.key) bs
Sorted-before [] e cs s = tt
Sorted-before (b ∷ bs) e cs s = (All-at _ bs e cs s.0, Sorted-before bs e cs s.1)

pub Sorted-after :
    (bs : List Entry) (e : Entry) (cs : List Entry)
    → Sorted (bs ++ e ∷ cs)
    → All (λ f. e.key < f.key) cs
Sorted-after [] e cs s = s.0
Sorted-after (b ∷ bs) e cs s = Sorted-after bs e cs s.1

module _ (m : Tables) (es : List Entry) (fs : List Ptr) (t : IsTable m es fs) where
  pub descriptors_ne : All (λ e. e.semd ≢ null) es
  descriptors_ne = All-descriptors (λ s. s ≢ null) es (Ring-nonnull _ _ t.active)

  -- A test of `s_semAdd` at the descriptors is a test of the keys.
  pub tests_key : (r : ℕ → Run Bool) → All (λ e. (do v ← load m.s_sem_add e.semd; r v) ≡ r e.key) es
  tests_key r =
      All-both _ _ _ es (λ e ne (h : Holds m e). rw (load-ok m.s_sem_add e.semd ne, h.key_is))
        descriptors_ne t.holds

  pub few : length es < rounds
  few = omega (arith, t.bounded)

stops-above : (key k : ℕ) → k < key → (key == k || ltb key k) ≡ false
stops-above key k lt = ground arith

stops-at : (key : ℕ) → (key == key || ltb key key) ≡ true
stops-at key = ground arith

stops-below : (key k : ℕ) → key < k → (key == k || ltb key k) ≡ true
stops-below key k lt = ground arith

stops_irrefl : (key k : ℕ) → key < k → key ≢ k
stops_irrefl key k lt = omega arith

module _ (m : Tables) (fs : List Ptr) where
  -- An active semaphore is found.
  pub find_semd-present :
      (bs : List Entry) (e : Entry) (cs : List Entry)
      → IsTable m (bs ++ e ∷ cs) fs
      → find_semd e.key m.aslh m ≡ ok e.semd
  unfolding find_semd
  find_semd-present bs e cs t =
      let tests = tests_key m _ fs t (λ v. ok (e.key == v || ltb e.key v)) in
      let pass : Passes (stops e.key m) (descriptors bs) = All-of_map _ _ bs (
        All-both _ _ _ bs (λ f lt h. h ∙ ap ok (stops-above e.key f.key lt))
          (Sorted-before bs e cs t.sorted) (All-append_left _ bs _ tests)) in
      rw (
        clist_foreach-found rounds (semds m m.aslh) (stops e.key m) _ (descriptors bs) e.semd
            (descriptors cs) t.active (descriptors-append bs e cs) pass
            (All-at _ bs e cs tests ∙ ap ok (stops-at e.key))
            (omega (
              arith,
              length-map (λ (f : Entry). f.semd) bs,
              few m _ fs t,
              length-append bs (e ∷ cs),
            )),
        load-ok m.s_sem_add e.semd (All-at _ bs e cs (descriptors_ne m _ fs t)),
        (All-at _ bs e cs t.holds).key_is,
        ==_self e.key,
      )

  -- One that is not active is not.
  pub find_semd-absent :
      (key : ℕ) (bs cs : List Entry)
      → IsTable m (bs ++ cs) fs
      → All (λ f. f.key < key) bs
      → All (λ f. key < f.key) cs
      → find_semd key m.aslh m ≡ ok null
  unfolding find_semd
  find_semd-absent key bs [] t below above =
      let tests = tests_key m _ fs t (λ v. ok (key == v || ltb key v)) in
      let below' : All (λ f. f.key < key) (bs ++ []) =
        subst (All (λ f. f.key < key)) (sym (append-nil bs)) below in
      let pass : Passes (stops key m) (descriptors (bs ++ [])) =
        All-of_map _ _ _
          (All-both _ _ _ _ (λ f lt h. h ∙ ap ok (stops-above key f.key lt)) below' tests) in
      let (c, e, nf, _) =
        clist_foreach-none rounds (semds m m.aslh) (stops key m) _ t.active pass
          (omega (arith, length-map (λ (f : Entry). f.semd) (bs ++ []), few m _ fs t)) in
      rw (e, nf)
  find_semd-absent key bs (e ∷ cs) t below above =
      let tests = tests_key m _ fs t (λ v. ok (key == v || ltb key v)) in
      let pass : Passes (stops key m) (descriptors bs) = All-of_map _ _ bs (
        All-both _ _ _ bs (λ f lt h. h ∙ ap ok (stops-above key f.key lt)) below
          (All-append_left _ bs _ tests)) in
      rw (
        clist_foreach-found rounds (semds m m.aslh) (stops key m) _ (descriptors bs) e.semd
            (descriptors cs) t.active (descriptors-append bs e cs) pass
            (All-at _ bs e cs tests ∙ ap ok (stops-below key e.key above.0))
            (omega (
              arith,
              length-map (λ (f : Entry). f.semd) bs,
              few m _ fs t,
              length-append bs (e ∷ cs),
            )),
        load-ok m.s_sem_add e.semd (All-at _ bs e cs (descriptors_ne m _ fs t)),
        (All-at _ bs e cs t.holds).key_is,
        ==_ne key e.key (λ d. stops_irrefl key e.key above.0 d),
      )
