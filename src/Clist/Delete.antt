-- ===== src/Clist/Delete.antt =====
-- clist_delete: its loop has no `break`, so it goes round the whole list.
use jae_os.Prelude.{
  ℕ, zero, suc, ◌+◌, ◌-◌, ◌<◌, ◌≡◌, refl, sym, subst, ap, ◌∙◌, ◌≢◌, inl, inr, List, [], ◌∷◌, ◌++◌,
  arith, Ptr, null, Run, ok, load-ok, store-ok, ==_self, ==_ne, NotIn, Distinct, All-append_left,
  All-append_right, All-at, All-last, Distinct-NotIn, last_of-snoc, snoc-cases, length,
  length-append, last_of, append_assoc, append-cons-ne, Returns, returns, Returns-bind, last-split,
  cons-cases, update_ne,
}
use jae_os.Clist.{Clist, clist_head, clist_delete, delete_loop}
use jae_os.Clist.Ring.{
  Walk, Walk-append, Walk-split, Ring, vacant, filled, next-tail, tail_ne, clist_head-ok, Ring-nil,
  Ring-Distinct, Ring-nonnull, SameOutside,
}
use jae_os.Clist.Ends.{clist_dequeue-cons}
use jae_os.Clist.Scan.{snoc-split, Before, IsRing-Before}
use jae_os.Clist.Edit.{unlinked, unlinked-Ring}

-- Behind an element the links lead through the rest of the list back to the head.
Ring-after :
    (l : Clist) (xs ds : List Ptr) (p : Ptr) (cs : List Ptr)
    → Ring l xs
    → xs ≡ ds ++ p ∷ cs
    → Walk l.next p cs (l.next l.tail)
Ring-after l xs ds p cs (vacant v empty) e = absurd (append-cons-ne ds p cs (sym e ∙ empty))
Ring-after l xs ds p cs (filled ys r eq) e = elim (snoc-split ys l.tail ds p cs (sym eq ∙ e)) [
  | inl (n, d, h) ↦ rw n (rw (← h) refl)
  | inr (es, n, d) ↦
      let w =
        (Walk-split l.next l.tail l.tail p ds es
          (subst (λ zs. Walk l.next l.tail zs l.tail) d r.walk)).1 in
      rw n (Walk-append l.next p (l.next l.tail) l.tail es [] w refl)
]

-- A walk through elements other than `e`, and to another one, does not lead to `e` at once.
Walk-first_ne :
    (n : Ptr → Ptr) (a e b : Ptr) (zs : List Ptr) → Walk n a zs b → NotIn e zs → b ≢ e → n a ≢ e
Walk-first_ne n a e b [] w miss ne = λ d. ne (sym w ∙ d)
Walk-first_ne n a e b (z ∷ zs) w miss ne = λ d. miss.0 (sym w.0 ∙ d)

module _ (l : Clist) (elem head : Ptr) (top : l.next l.tail ≡ head) (tail_ne : l.tail ≢ null) where
  head-ok : clist_head l ≡ ok head
  unfolding clist_head
  head-ok = rw (load-ok l.next l.tail tail_ne, top)

  -- A round that does not meet the element.
  delete_loop-miss :
      (fuel : ℕ) (z tmp : Ptr) (retval : ℕ)
      → z ≢ tmp
      → z ≢ null
      → l.next z ≢ elem
      → delete_loop (suc fuel) elem z tmp retval l ≡ delete_loop fuel elem (l.next z) head retval l
  unfolding delete_loop
  delete_loop-miss fuel z tmp retval out nn miss =
      rw (==_ne z tmp out, load-ok l.next z nn, ==_ne _ elem miss, load-ok l.next z nn, head-ok)

  -- A round that does: the element is taken out, and the loop goes on behind it.
  delete_loop-hit :
      (fuel : ℕ) (z tmp : Ptr) (retval : ℕ)
      → z ≢ tmp
      → z ≢ null
      → elem ≢ null
      → l.next z ≡ elem
      → (unlinked l z elem).tail ≢ null
      → delete_loop (suc fuel) elem z tmp retval l
        ≡ delete_loop fuel elem
            ((unlinked l z elem).next z)
            ((unlinked l z elem).next (unlinked l z elem).tail)
            0
            (unlinked l z elem)
  unfolding delete_loop clist_head
  delete_loop-hit fuel z tmp retval out nn en hit tn = rw (
    ==_ne z tmp out,
    load-ok l.next z nn,
    hit,
    ==_self elem,
    load-ok l.next elem en,
    store-ok l.next z _ nn,
    load-ok _ z nn,
    load-ok _ _ tn,
  )

  -- Where the element does not come, the loop goes on to the head and changes nothing.
  delete_loop-skip :
      (fuel : ℕ) (a : Ptr) (zs : List Ptr) (retval : ℕ)
      → Walk l.next a zs head
      → NotIn head zs
      → NotIn elem zs
      → head ≢ elem
      → NotIn null zs
      → length zs < fuel
      → delete_loop fuel elem (l.next a) head retval l ≡ ok (retval, l)
  unfolding delete_loop
  delete_loop-skip zero a zs retval w out miss ne nn lt = absurd (omega arith)
  delete_loop-skip (suc fuel) a [] retval w out miss ne nn lt = rw (w, ==_self head)
  delete_loop-skip (suc fuel) a (z ∷ zs) retval w out miss ne nn lt = rw w.0 (
      delete_loop-miss fuel z head retval out.0 nn.0 (Walk-first_ne _ z elem head zs w.1 miss.1 ne)
      ∙ delete_loop-skip fuel z zs retval w.1 out.1 miss.1 ne nn.1 (omega arith))

  -- The loop up to the element before `elem`; `rest` is what it does from there.
  delete_loop-reach :
      (fuel : ℕ) (a tmp : Ptr) (bs : List Ptr) (retval k : ℕ) (result : Run (ℕ × Clist))
      → Walk l.next a bs elem
      → a ≢ tmp
      → NotIn head bs
      → NotIn elem bs
      → NotIn null (a ∷ bs)
      → length bs + suc k ≡ fuel
      → ((p tmp : Ptr)
          → p ≡ last_of a bs
          → p ≢ tmp
          → delete_loop (suc k) elem p tmp retval l ≡ result)
      → delete_loop fuel elem a tmp retval l ≡ result
  delete_loop-reach fuel a tmp [] retval k result w out nh miss nn e rest =
      let e' : suc k ≡ fuel = omega arith in rw (← e') (rest a tmp refl out)
  delete_loop-reach zero a tmp (b ∷ bs) retval k result w out nh miss nn e rest =
      absurd (omega arith)
  delete_loop-reach (suc fuel) a tmp (b ∷ bs) retval k result w out nh miss nn e rest =
      delete_loop-miss fuel a tmp retval out nn.0 (λ d. miss.0 (sym w.0 ∙ d))
      ∙ rw w.0 (
          delete_loop-reach fuel b head bs retval k result w.1 nh.0 nh.1 miss.1 nn.1 (omega arith)
            rest)

Walk-last : (n : Ptr → Ptr) (a b : Ptr) (bs : List Ptr) → Walk n a bs b → n (last_of a bs) ≡ b
Walk-last n a b [] w = w
Walk-last n a b (x ∷ bs) w = Walk-last n x b bs w.1

Ring-Before :
    (l : Clist) (xs bs : List Ptr) (s : Ptr) (cs : List Ptr)
    → Ring l xs
    → xs ≡ bs ++ s ∷ cs
    → Before l bs s
Ring-Before l xs bs s cs (vacant v empty) e = absurd (append-cons-ne bs s cs (sym e ∙ empty))
Ring-Before l xs bs s cs (filled ys r eq) e = IsRing-Before l ys bs s cs r (sym eq ∙ e)

-- The places around an element `s` that is not the first: `b` is the first.
module _ (l : Clist) (b : Ptr) (bs : List Ptr) (s : Ptr) (cs : List Ptr)
    (r : Ring l (b ∷ (bs ++ s ∷ cs))) where
  unlinked-here : Ring (unlinked l (last_of b bs) s) (b ∷ (bs ++ cs))
  unlinked-here = elim (snoc-cases (b ∷ bs)) [
    | inl n ↦ absurd (cc)
    | inr (ds, p, n) ↦
        let last : last_of b bs ≡ p = ap (last_of null) n ∙ last_of-snoc null ds p in
        let split : b ∷ (bs ++ s ∷ cs) ≡ ds ++ p ∷ s ∷ cs =
          ap (λ zs. zs ++ s ∷ cs) n ∙ append_assoc ds (p ∷ []) (s ∷ cs) in
        let joined : ds ++ p ∷ cs ≡ b ∷ (bs ++ cs) =
          sym (append_assoc ds (p ∷ []) cs) ∙ ap (λ zs. zs ++ cs) (sym n) in
        rw last (
          subst (Ring (unlinked l p s)) joined (unlinked-Ring l ds p s cs (subst (Ring l) split r)))
  ]

  nonnull : NotIn null (b ∷ (bs ++ s ∷ cs))
  nonnull = Ring-nonnull l _ r

  distinct : Distinct (b ∷ (bs ++ s ∷ cs))
  distinct = Ring-Distinct l _ r

  last_ne : last_of b bs ≢ null
  last_ne = All-last (λ x. x ≢ null) b bs (nonnull.0, All-append_left _ bs _ nonnull.1)

  top : (unlinked l (last_of b bs) s).next (unlinked l (last_of b bs) s).tail ≡ b
  top = next-tail _ b _ unlinked-here

  behind :
      Walk
        (unlinked l (last_of b bs) s).next
        (last_of b bs)
        cs
        ((unlinked l (last_of b bs) s).next (unlinked l (last_of b bs) s).tail)
  behind =
      let (ds, e) = last-split b bs in
      Ring-after _ _ ds (last_of b bs) cs unlinked-here
        (ap (λ zs. zs ++ cs) e ∙ append_assoc ds (last_of b bs ∷ []) cs)

  delete_loop-rest :
      (fuel k : ℕ)
      → length bs + suc k ≡ fuel
      → length cs < k
      → delete_loop fuel s b null 1 l ≡ ok (0, unlinked l (last_of b bs) s)
  delete_loop-rest fuel k e lt =
      delete_loop-reach l s b (next-tail l b _ r) (tail_ne l b _ r) fuel b null bs 1 k _
        (Ring-Before l _ (b ∷ bs) s cs r refl).walk.1 nonnull.0 (All-append_left _ bs _ distinct.0)
        (All-append_left _ bs _ (Distinct-NotIn bs s cs distinct.1))
        (nonnull.0, All-append_left _ bs _ nonnull.1) e
        λ p tmp is out. rw is (
          delete_loop-hit l s b (next-tail l b _ r) (tail_ne l b _ r) k (last_of b bs) tmp 1
            (λ d. out (is ∙ d)) last_ne (All-at _ bs s cs nonnull.1)
            (Walk-last l.next b s bs (Ring-Before l _ (b ∷ bs) s cs r refl).walk.1)
            (tail_ne _ b _ unlinked-here)
          ∙ delete_loop-skip _ s _ refl (tail_ne _ b _ unlinked-here) k (last_of b bs) cs 0 behind
              (subst (λ h. NotIn h cs) (sym top) (All-append_right _ bs _ distinct.0).1)
              (All-append_right _ bs _ (Distinct-NotIn bs s cs distinct.1))
              (λ d. All-at _ bs s cs distinct.0 (sym d ∙ top)) (All-append_right _ bs _ nonnull.1).1
              lt)

module _ (fuel : ℕ) (elem : Ptr) (l : Clist) (xs : List Ptr) (ring : Ring l xs)
    (enough : length xs < fuel) where
  -- clist_delete of an element of the list ends within one round more than the list has elements,
  -- returns 0, takes the element out and keeps the order of the others. It writes to no link
  -- outside the list.
  pub clist_delete-append :
      (bs cs : List Ptr)
      → xs ≡ bs ++ elem ∷ cs
      → Returns
          (λ (retval, m). (retval ≡ 0) × Ring m (bs ++ cs) × SameOutside xs l m)
          (clist_delete fuel elem l)
  unfolding clist_delete
  clist_delete-append [] cs e =
      let r = subst (Ring l) e ring in
      rw (==_ne _ _ (tail_ne l elem cs r), clist_head-ok l elem cs r, ==_self elem, e)
        (Returns-bind (clist_dequeue-cons l elem cs r)
          λ m (ring', same). returns (refl, ring', same))
  clist_delete-append (b ∷ bs) cs e =
      let r : Ring l (b ∷ (bs ++ elem ∷ cs)) = subst (Ring l) e ring in
      let ne : b ≢ elem = λ d. All-at _ bs elem cs (Ring-Distinct l _ r).0 (sym d) in
      let count = ap length e in
      rw
        (
          ==_ne _ _ (tail_ne l b _ r),
          clist_head-ok l b _ r,
          ==_ne b elem ne,
          delete_loop-rest l b bs elem cs r fuel (fuel - suc (length bs))
              (omega (arith, length-append bs (elem ∷ cs)))
              (omega (arith, length-append bs (elem ∷ cs))),
        )
        (returns (
          refl,
          unlinked-here l b bs elem cs r,
          λ q h. update_ne _ (last_of b bs) q _ (λ d.
              All-last (λ x. x ≢ q) b bs (All-append_left _ (b ∷ bs) _ (subst (NotIn q) e h))
                (sym d)),
        ))

  -- clist_delete of a structure that is not in the list ends within as many rounds, returns 1 and
  -- changes nothing.
  pub clist_delete-absent : elem ≢ null → NotIn elem xs → clist_delete fuel elem l ≡ ok (1, l)
  unfolding clist_delete
  clist_delete-absent en miss = elim (cons-cases xs) [
    | inl e ↦ rw (Ring-nil l (subst (Ring l) e ring))
    | inr (h, rest, e) ↦
        let r : Ring l (h ∷ rest) = subst (Ring l) e ring in
        let m : NotIn elem (h ∷ rest) = subst (NotIn elem) e miss in
        let nn = Ring-nonnull l _ r in
        let w : Walk l.next h rest h =
          subst (Walk l.next h rest) (next-tail l h rest r) (Ring-after l _ [] h rest r refl) in
        let f : fuel ≡ suc (fuel - 1) = omega arith in
        rw
          (
            ==_ne _ _ (tail_ne l h rest r),
            clist_head-ok l h rest r,
            ==_ne h elem m.0,
            f,
            delete_loop-miss l elem h (next-tail l h rest r) (tail_ne l h rest r) (fuel - 1) h null
                1 nn.0 nn.0 (Walk-first_ne l.next h elem h rest w m.1 m.0),
          )
          (delete_loop-skip l elem h (next-tail l h rest r) (tail_ne l h rest r) (fuel - 1) h rest 1
            w (Ring-Distinct l _ r).0 m.1 m.0 nn.1 (omega (arith, ap length e)))
  ]
