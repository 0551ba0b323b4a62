-- ===== src/Asl/Place.antt =====
-- A new descriptor is put in its place in the active list: the end of insertBlocked.
use jae_os.Prelude.{
  ℕ, ◌+◌, ◌<◌, ◌≡◌, refl, sym, ap, ◌∙◌, subst, ◌≢◌, true, false, List, [], ◌∷◌, ◌++◌, arith, Ptr,
  null, ok, All, All-map, All-both, All-append_left, All-at, All-insert, All-of_map, NotIn, length,
  length-map, length-append, Returns, returns, Returns-bind, ltb, append-nil,
}
use mathlib.Core.List.{map-append}
use jae_os.Const.{max_proc, rounds}
use jae_os.Clist.{Clist}
use jae_os.Clist.Ring.{Ring, Ring-frame, SameOutside}
use jae_os.Clist.Ends.{clist_enqueue-append}
use jae_os.Clist.Scan.{Passes, clist_foreach-found, clist_foreach-none}
use jae_os.Clist.Edit.{clist_foreach_add-append}
use jae_os.Asl.{Tables, semds, insert_semd, goes_before}
use jae_os.Asl.View.{Entry, descriptors, descriptors-append, Holds, Holds-relink, IsTable}
use jae_os.Asl.Sort.{Sorted-insert}
use jae_os.Asl.Find.{tests_key, few}

-- Of the tables only the links between descriptors and the head of the active list have changed.
abbrev pub ActiveOnly : Tables → Tables → Type 0
ActiveOnly m m' = m' ≡ record m { s_link = m'.s_link; aslh = m'.aslh }

before_false : (key k : ℕ) → k < key → ltb key k ≡ false
before_false key k lt = ground arith

before_true : (key k : ℕ) → key < k → ltb key k ≡ true
before_true key k lt = ground arith

module _ (m : Tables) (fs : List Ptr) (x : Entry) (holds : Holds m x) (ne : x.semd ≢ null)
    (free : NotIn x.semd fs) where
  -- The table with the links `l`, in which `x` has its place.
  placed :
      (bs cs : List Entry) (l : Clist)
      → IsTable m (bs ++ cs) fs
      → All (λ f. f.key < x.key) bs
      → All (λ f. x.key < f.key) cs
      → length (bs ++ cs) + length fs < max_proc
      → Ring l (descriptors (bs ++ x ∷ cs))
      → SameOutside (x.semd ∷ descriptors (bs ++ cs)) (semds m m.aslh) l
      → IsTable (record m { s_link = l.next; aslh = l.tail }) (bs ++ x ∷ cs) fs
  placed bs cs l t below above room ring same = record {
    active = ring;
    free =
        Ring-frame _ _ fs refl
          (All-both _ _ _ fs (λ f a b. same f ((λ d. b (sym d)), a)) t.apart free) t.free;
    apart =
        All-both _ _ _ fs
          (λ f a b. subst (NotIn f) (sym (descriptors-append bs x cs)) (
            All-insert _ (descriptors bs) x.semd (descriptors cs) (λ d. b (sym d))
              (subst (NotIn f) (map-append _ bs cs) a)))
          t.apart free;
    holds =
        All-map _ _ (bs ++ x ∷ cs) (Holds-relink m l.next l.tail m.semd_free)
          (All-insert _ bs x cs holds t.holds);
    sorted = Sorted-insert x cs bs below above t.sorted;
    bounded = omega (arith, length-append bs (x ∷ cs), length-append bs cs, room);
  }

  pub insert_semd-place :
      (bs cs : List Entry)
      → IsTable m (bs ++ cs) fs
      → NotIn x.semd (descriptors (bs ++ cs))
      → All (λ f. f.key < x.key) bs
      → All (λ f. x.key < f.key) cs
      → length (bs ++ cs) + length fs < max_proc
      → Returns (λ m'. IsTable m' (bs ++ x ∷ cs) fs × ActiveOnly m m') (insert_semd x.key x.semd m)
  unfolding insert_semd
  insert_semd-place bs [] t new below above room =
      let tests = tests_key m _ fs t (λ v. ok (ltb x.key v)) in
      let below' : All (λ f. f.key < x.key) (bs ++ []) =
        subst (All (λ f. f.key < x.key)) (sym (append-nil bs)) below in
      let pass : Passes (goes_before x.key m) (descriptors (bs ++ [])) =
        All-of_map _ _ _
          (All-both _ _ _ _ (λ f lt h. h ∙ ap ok (before_false x.key f.key lt)) below' tests) in
      let (c, e, nf, all) =
        clist_foreach-none rounds (semds m m.aslh) (goes_before x.key m) _ t.active pass
          (omega (arith, length-map (λ (f : Entry). f.semd) (bs ++ []), few m _ fs t)) in
      let ends : descriptors (bs ++ []) ++ x.semd ∷ [] ≡ descriptors (bs ++ x ∷ []) =
        ap (λ zs. descriptors zs ++ x.semd ∷ []) (append-nil bs)
        ∙ sym (descriptors-append bs x []) in
      rw (e, nf, all)
        (Returns-bind (clist_enqueue-append x.semd _ _ t.active ne new) λ l (ring, same).
          returns (placed bs [] l t below above room (subst (Ring l) ends ring) same, refl))
  insert_semd-place bs (c ∷ cs) t new below above room =
      let tests = tests_key m _ fs t (λ v. ok (ltb x.key v)) in
      let pass : Passes (goes_before x.key m) (descriptors bs) = All-of_map _ _ bs (
        All-both _ _ _ bs (λ f lt h. h ∙ ap ok (before_false x.key f.key lt)) below
          (All-append_left _ bs _ tests)) in
      rw
        (clist_foreach-found rounds (semds m m.aslh) (goes_before x.key m) _ (descriptors bs) c.semd
          (descriptors cs) t.active (descriptors-append bs c cs) pass
          (All-at _ bs c cs tests ∙ ap ok (before_true x.key c.key above.0))
          (omega (
            arith,
            length-map (λ (f : Entry). f.semd) bs,
            few m _ fs t,
            length-append bs (c ∷ cs),
          )))
        (Returns-bind
          (clist_foreach_add-append x.semd (semds m m.aslh) _ t.active ne new (descriptors bs)
            c.semd (descriptors cs) true (descriptors-append bs c cs))
          λ l (ring, same). returns (
            placed bs (c ∷ cs) l t below above room
                (subst (Ring l) (sym (descriptors-append bs x (c ∷ cs))) ring) same,
            refl,
          ))
