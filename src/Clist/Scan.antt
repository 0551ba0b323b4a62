-- ===== src/Clist/Scan.antt =====
-- clist_foreach: where the loop stops.
use jae_os.Prelude.{
  ℕ, zero, suc, ◌<◌, ◌≡◌, refl, sym, subst, ap, ◌∙◌, ◌≢◌, ◌⊎◌, inl, inr, Bool, true, false, List,
  [], ◌∷◌, ◌++◌, arith, Ptr, null, Run, ok, load-ok, ==_self, ==_ne, All, NotIn, All-append_left,
  All-append_right, length, length-append, last_of,
}
use jae_os.Clist.{Clist, Cursor, clist_head, foreach_loop, clist_foreach, clist_foreach_all}
use jae_os.Clist.Ring.{Walk, Walk-split, IsRing, Ring, vacant, filled}

-- The loop's test answers `false` at each of `xs`.
abbrev pub Passes : (Ptr → Run Bool) → List Ptr → Type 0
Passes test = All λ x. test x ≡ ok false

module _ (l : Clist) (test : Ptr → Run Bool) where
  -- The loop goes past elements at which the test is false, with the one before in `tmp`.
  foreach_loop-found :
      (fuel : ℕ) (a p : Ptr) (bs : List Ptr) (s : Ptr)
      → Walk l.next a bs s
      → p ≢ l.tail
      → NotIn l.tail bs
      → NotIn null bs
      → Passes test bs
      → test s ≡ ok true
      → length bs < fuel
      → foreach_loop fuel test l (l.next a) p
        ≡ ok (record { scan = s; tmp = last_of p bs; found = true })
  unfolding foreach_loop
  foreach_loop-found zero a p bs s w ne out nn pass hit lt = absurd (omega arith)
  foreach_loop-found (suc fuel) a p [] s w ne out nn pass hit lt = rw (==_ne p l.tail ne, w, hit)
  foreach_loop-found (suc fuel) a p (b ∷ bs) s w ne out nn pass hit lt =
      rw (==_ne p l.tail ne, w.0, pass.0, load-ok l.next b nn.0)
        (foreach_loop-found fuel b b bs s w.1 out.0 out.1 nn.1 pass.1 hit (omega arith))

  foreach_loop-none :
      (fuel : ℕ) (a p : Ptr) (ys : List Ptr)
      → Walk l.next a ys l.tail
      → p ≢ l.tail
      → NotIn l.tail ys
      → NotIn null (l.tail ∷ ys)
      → Passes test (l.tail ∷ ys)
      → suc (length ys) < fuel
      → foreach_loop fuel test l (l.next a) p
        ≡ ok (record { scan = l.next l.tail; tmp = l.tail; found = false })
  unfolding foreach_loop
  foreach_loop-none zero a p ys w ne out nn pass lt = absurd (omega arith)
  foreach_loop-none (suc zero) a p ys w ne out nn pass lt = absurd (omega arith)
  foreach_loop-none (suc (suc fuel)) a p [] w ne out nn pass lt =
      rw (==_ne p l.tail ne, w, pass.0, load-ok l.next l.tail nn.0, ==_self l.tail)
  foreach_loop-none (suc (suc fuel)) a p (b ∷ bs) w ne out nn pass lt =
      rw (==_ne p l.tail ne, w.0, pass.1.0, load-ok l.next b nn.1.0)
        (foreach_loop-none (suc fuel) b b bs w.1 out.0 out.1 (nn.0, nn.1.1) (pass.0, pass.1.1)
          (omega arith))

-- Two ways to split a list, at its last element and at another one.
pub snoc-split :
    (ys : List Ptr) (t : Ptr) (bs : List Ptr) (s : Ptr) (cs : List Ptr)
    → ys ++ t ∷ [] ≡ bs ++ s ∷ cs
    → ((cs ≡ []) × (ys ≡ bs) × (t ≡ s))
      ⊎ ((ds : List Ptr) × (cs ≡ ds ++ t ∷ []) × (ys ≡ bs ++ s ∷ ds))
snoc-split [] t [] s cs e = inl (cc, refl, cc)
snoc-split [] t (b ∷ []) s cs e = absurd (cc)
snoc-split [] t (b ∷ c ∷ bs) s cs e = absurd (cc)
snoc-split (y ∷ ys) t [] s cs e = inr (ys, cc, cc)
snoc-split (y ∷ ys) t (b ∷ bs) s cs e = elim (snoc-split ys t bs s cs (cc)) [
  | inl (n, d, h) ↦ inl (n, cc, h)
  | inr (ds, n, d) ↦ inr (ds, n, cc)
]

-- What lies before the element `s` of a circular list.
pub record Before (l : Clist) (bs : List Ptr) (s : Ptr) : Type 0 where
  pub walk : Walk l.next l.tail bs s
  pub fresh : NotIn l.tail bs
  pub nonnull : NotIn null bs

module _ (l : Clist) (ys bs : List Ptr) (s : Ptr) (cs : List Ptr) (r : IsRing l ys) where
  pub IsRing-Before : ys ++ l.tail ∷ [] ≡ bs ++ s ∷ cs → Before l bs s
  IsRing-Before e = elim (snoc-split ys l.tail bs s cs e) [
    | inl (n, d, h) ↦ record {
      walk = rw (← d, ← h) r.walk;
      fresh = rw (← d) r.fresh;
      nonnull = rw (← d) r.nonnull;
    }
    | inr (ds, n, d) ↦ record {
      walk =
          (Walk-split l.next l.tail l.tail s bs ds
            (subst (λ zs. Walk l.next l.tail zs l.tail) d r.walk)).0;
      fresh = All-append_left _ bs _ (subst (NotIn l.tail) d r.fresh);
      nonnull = All-append_left _ bs _ (subst (NotIn null) d r.nonnull);
    }
  ]

module _ (fuel : ℕ) (l : Clist) (test : Ptr → Run Bool) where
  -- A clist_foreach loop, whose test holds at an element and at none before it, stops there; `tmp`
  -- is then the element before, or NULL at the head.
  pub clist_foreach-found :
      (xs bs : List Ptr) (s : Ptr) (cs : List Ptr)
      → Ring l xs
      → xs ≡ bs ++ s ∷ cs
      → Passes test bs
      → test s ≡ ok true
      → length bs < fuel
      → clist_foreach fuel test l ≡ ok (record { scan = s; tmp = last_of null bs; found = true })
  unfolding clist_foreach clist_head
  clist_foreach-found xs [] s cs (vacant v empty) e pass hit lt = absurd (cc)
  clist_foreach-found xs (b ∷ bs) s cs (vacant v empty) e pass hit lt = absurd (cc)
  clist_foreach-found xs bs s cs (filled ys r eq) e pass hit lt =
      let b = IsRing-Before l ys bs s cs r (sym eq ∙ e) in
      rw (==_ne _ _ r.tail_ne, load-ok l.next _ r.tail_ne)
        (foreach_loop-found l test fuel l.tail null bs s b.walk (λ d. r.tail_ne (sym d)) b.fresh
          b.nonnull pass hit lt)

  -- A clist_foreach loop, whose test holds at no element, ends within one round more than the list
  -- has elements, and clist_foreach_all tells so.
  pub clist_foreach-none :
      (xs : List Ptr)
      → Ring l xs
      → Passes test xs
      → length xs < fuel
      → (c : Cursor) × (clist_foreach fuel test l ≡ ok c)
        × (c.found ≡ false)
        × (clist_foreach_all c l ≡ true)
  unfolding clist_foreach clist_head clist_foreach_all
  clist_foreach-none xs (vacant v empty) pass lt =
      (record { scan = null; tmp = null; found = false }, rw v, refl, rw v)
  clist_foreach-none xs (filled ys r eq) pass lt =
      let p = subst (Passes test) eq pass in
      (
        record { scan = l.next l.tail; tmp = l.tail; found = false },
        rw (==_ne _ _ r.tail_ne, load-ok l.next _ r.tail_ne)
            (foreach_loop-none l test fuel l.tail null ys r.walk (λ d. r.tail_ne (sym d)) r.fresh
              (r.tail_ne, r.nonnull) ((All-append_right _ ys _ p).0, All-append_left _ ys _ p)
              (omega (arith, length-append ys (l.tail ∷ []), ap length eq))),
        refl,
        rw (==_ne _ _ r.tail_ne, ==_self l.tail),
      )
