-- ===== src/Asl/Joins.antt =====
-- insertBlocked and the processes that wait for nothing: they are left alone.
use jae_os.Prelude.{
  ◌≤◌, ◌≡◌, refl, sym, subst, ◌<◌, ℕ, ◌≢◌, ◌⊎◌, inl, inr, true, false, some, Option, Bool, List, [],
  ◌∷◌, ◌++◌, Ptr, null, All, All-map, All-both, All-append, All-at, All-insert, All-replace, NotIn,
  Returns, returns, Returns-mono,
}
use jae_os.Const.{max_proc}
use jae_os.Clist.Ring.{Agree}
use jae_os.Pcb.Queue.{Apart}
use jae_os.Asl.{Tables, insert_blocked}
use jae_os.Asl.View.{Entry, IsAsl}
use jae_os.Asl.Find.{present, absent, place, Sorted-before}
use jae_os.Asl.Join.{joined}
use jae_os.Asl.Insert.{
  NotWaiting, insert_blocked-present, insert_blocked-full, insert_blocked-fresh,
}
use jae_os.Asl.Release.{entry}
use jae_os.Asl.Woken.{Outside}
use jae_os.Asl.Spec.{Waits, view, block, block-present, block-absent}

-- The list after `p` has begun to wait: `xs` are still outside, with the same links, and nothing else of a
-- process has changed.
abbrev pub Joined : Tables → ℕ → Ptr → List Ptr → Waits → Tables → Type 0
Joined m key p xs w m' =
    (es : List Entry) × (fs : List Ptr) × IsAsl m' es fs
    × (view es ≡ block key p w)
    × Outside xs es
    × Agree m'.procs.p_list m.procs.p_list xs
    × (m'.procs ≡ record m.procs { p_list = m'.procs.p_list; p_cursem = m'.procs.p_cursem })

abbrev pub MayJoin : Tables → ℕ → Ptr → List Ptr → Waits → Option Bool × Tables → Type 0
MayJoin m key p xs w (r, m') = (r ≡ some false) × Joined m key p xs w m' ⊎ (r ≡ some true)

module _ (m : Tables) (p : Ptr) (ne : p ≢ null) (le : p ≤ max_proc) (xs : List Ptr)
    (new : NotIn p xs) where
  away : (ws : List Ptr) → Apart ws xs → Apart (ws ++ p ∷ []) xs
  away ws apart =
      All-both _ _ _ xs (λ x a n. All-append _ ws (p ∷ []) a ((λ d. n (sym d)), tt)) apart new

  joins-present :
      (fs : List Ptr) (bs : List Entry) (e : Entry) (cs : List Entry)
      → IsAsl m (bs ++ e ∷ cs) fs
      → NotWaiting p (bs ++ e ∷ cs)
      → Outside xs (bs ++ e ∷ cs)
      → Returns (MayJoin m e.key p xs (view (bs ++ e ∷ cs))) (insert_blocked e.key p m)
  joins-present fs bs e cs a out outside =
      let apart : Apart e.waiting xs = All-at _ bs e cs outside in
      Returns-mono (insert_blocked-present m fs p ne le bs e cs a out) λ (r, m') (is, a', only).
        inl (
          is,
          (
            bs ++ joined m e p ∷ cs,
            fs,
            a',
            sym (
                block-present e.key p bs e (joined m e p) cs (Sorted-before bs e cs a.table.sorted)
                  refl refl refl),
            All-replace _ bs e (joined m e p) cs (away e.waiting apart) outside,
            All-both _ _ _ xs (λ x h n. only.links x ((λ d. n (sym d)), h)) apart new,
            only.rest,
          ),
        )

  joins-absent :
      (key : ℕ) (fs : List Ptr) (bs cs : List Entry)
      → key ≢ null
      → IsAsl m (bs ++ cs) fs
      → All (λ f. f.key < key) bs
      → All (λ f. key < f.key) cs
      → NotWaiting p (bs ++ cs)
      → Outside xs (bs ++ cs)
      → Returns (MayJoin m key p xs (view (bs ++ cs))) (insert_blocked key p m)
  joins-absent key [] bs cs kne a below above out outside =
      rw (insert_blocked-full m [] p ne le key bs cs kne a below above) (returns (inr refl))
  joins-absent key (n ∷ fs) bs cs kne a below above out outside =
      Returns-mono (insert_blocked-fresh m fs p ne le key n bs cs kne a below above out)
        λ (r, m') (is, a', links, rest). inl (
          is,
          (
            bs ++ entry n key (p ∷ []) ∷ cs,
            fs,
            a',
            sym (block-absent key p bs (entry n key (p ∷ [])) cs below above refl refl),
            All-insert _ bs (entry n key (p ∷ [])) cs
                (All-map _ _ xs (λ x n. ((λ d. n (sym d)), tt)) new) outside,
            All-map _ _ xs (λ x n. links x ((λ d. n (sym d)), tt)) new,
            rest,
          ),
        )

  pub insert_blocked-MayJoin :
      (es : List Entry) (fs : List Ptr) (key : ℕ)
      → IsAsl m es fs
      → key ≢ null
      → NotWaiting p es
      → Outside xs es
      → Returns (MayJoin m key p xs (view es)) (insert_blocked key p m)
  insert_blocked-MayJoin es fs key a kne out outside = elim (place key es a.table.sorted) [
    | present bs e cs eq is ↦
        subst (λ j. Returns (MayJoin m j p xs (view es)) (insert_blocked j p m)) is
          (subst (λ zs. Returns (MayJoin m e.key p xs (view zs)) (insert_blocked e.key p m))
            (sym eq)
            (joins-present fs bs e cs (subst (λ zs. IsAsl m zs fs) eq a)
              (subst (NotWaiting p) eq out) (subst (Outside xs) eq outside)))
    | absent bs cs eq below above ↦
        subst (λ zs. Returns (MayJoin m key p xs (view zs)) (insert_blocked key p m)) (sym eq)
          (joins-absent key fs bs cs kne (subst (λ zs. IsAsl m zs fs) eq a) below above
            (subst (NotWaiting p) eq out) (subst (Outside xs) eq outside))
  ]
