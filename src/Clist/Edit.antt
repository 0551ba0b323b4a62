-- ===== src/Clist/Edit.antt =====
-- Taking an element out of a circular list and putting one in at a place that clist_foreach found.
use jae_os.Prelude.{
  ◌≡◌, refl, sym, subst, ap, ◌∙◌, ◌≢◌, inl, inr, Bool, List, [], ◌∷◌, ◌++◌, Ptr, null, load-ok,
  store-ok, ==_self, ==_ne, All, NotIn, Distinct, All-append, All-append_left, All-append_right,
  All-at, Distinct-drop, All-insert, Distinct-insert, Distinct-NotIn, last_of-snoc, snoc-cases,
  last_of, append_assoc, append-nil, append-cons-ne, update, update_self, update_ne, Returns,
  returns, if◌then◌else◌, ◌==◌,
}
use jae_os.Clist.{Clist, clist_push, clist_foreach_add, clist_foreach_delete}
use jae_os.Clist.Ring.{
  Walk, Walk-frame, Walk-append, Walk-split, Agree-update, Agree-update_two, IsRing, Ring, vacant,
  filled, clist_head-ok, Ring-Distinct, Ring-nonnull, SameOutside,
}
use jae_os.Clist.Ends.{clist_dequeue-cons, clist_push-cons}
use jae_os.Clist.Scan.{snoc-split}

Walk-first :
    (n : Ptr → Ptr) (p t s : Ptr) (es cs : List Ptr)
    → Walk n p es t
    → s ∷ cs ≡ es ++ t ∷ []
    → n p ≡ s
Walk-first n p t s [] cs w e = w ∙ (cc)
Walk-first n p t s (x ∷ es) cs w e = w.0 ∙ (cc)

-- The list without the element `s`, whose predecessor is `p`.
abbrev pub unlinked : Clist → Ptr → Ptr → Clist
unlinked l p s = record {
  tail = if l.tail == s then p else l.tail;
  next = update l.next p (l.next s);
}

module _ (l : Clist) (ds : List Ptr) (p : Ptr) where
  unlink_tail :
      IsRing l (ds ++ p ∷ [])
      → IsRing (record { tail = p; next = update l.next p (l.next l.tail) }) ds
  unlink_tail r =
      let out : NotIn p ds = All-append_left _ ds [] (Distinct-NotIn ds p [] r.distinct) in
      record {
        walk =
            Walk-frame l.next _ l.tail p p ds (update_self _ _ _) (Agree-update _ _ _ ds out)
              (Walk-split l.next l.tail l.tail p ds [] r.walk).0;
        fresh = out;
        distinct = rw append-nil at (Distinct-drop ds p [] r.distinct);
        nonnull = All-append_left _ ds _ r.nonnull;
        tail_ne = All-at _ ds p [] r.nonnull;
      }

  unlink_middle :
      (s : Ptr) (es : List Ptr)
      → IsRing l (ds ++ p ∷ s ∷ es)
      → IsRing (record { tail = l.tail; next = update l.next p (l.next s) }) (ds ++ p ∷ es)
  unlink_middle s es r =
      let out : NotIn p (ds ++ s ∷ es) = Distinct-NotIn ds p (s ∷ es) r.distinct in
      let w = Walk-split l.next l.tail l.tail p ds (s ∷ es) r.walk in
      record {
        walk =
            Walk-append _ l.tail l.tail p ds es
              (Walk-frame l.next _ l.tail p l.tail ds
                (update_ne _ p l.tail _ (λ e. All-at _ ds p _ r.fresh (sym e)))
                (Agree-update _ _ _ ds (All-append_left _ ds _ out)) w.0)
              (Walk-frame l.next _ s l.tail p es (update_self _ _ _)
                (Agree-update _ _ _ es (All-append_right _ ds _ out).1) w.1.1);
        fresh = drop _ r.fresh;
        distinct = rw append_assoc at (
            Distinct-drop (ds ++ p ∷ []) s es
              (rw (← append_assoc ds (p ∷ []) (s ∷ es)) at r.distinct));
        nonnull = drop _ r.nonnull;
        tail_ne = r.tail_ne;
      }
    where
      drop : (P : Ptr → Type 0) → All P (ds ++ p ∷ s ∷ es) → All P (ds ++ p ∷ es)
      drop P h =
          All-append P ds (p ∷ es) (All-append_left P ds _ h)
            (All-at P ds p _ h, (All-append_right P ds _ h).1.1)

  pub unlinked-Ring :
      (s : Ptr) (cs : List Ptr) → Ring l (ds ++ p ∷ s ∷ cs) → Ring (unlinked l p s) (ds ++ p ∷ cs)
  unlinked-Ring s cs (vacant v empty) = absurd (append-cons-ne ds p _ empty)
  unlinked-Ring s cs (filled ys r eq) =
      elim (snoc-split ys l.tail (ds ++ p ∷ []) s cs
        (sym eq ∙ sym (append_assoc ds (p ∷ []) (s ∷ cs)))) [
          | inl (n, d, h) ↦
              rw (n, ← h, ==_self l.tail) (filled ds (unlink_tail (subst (IsRing l) d r)) refl)
          | inr (es, n, d) ↦
              let r' : IsRing l (ds ++ p ∷ s ∷ es) =
                subst (IsRing l) (d ∙ append_assoc ds (p ∷ []) (s ∷ es)) r in
              rw (==_ne l.tail s (λ h. (All-append_right _ ds _ r'.fresh).1.0 (sym h)), n)
                (filled (ds ++ p ∷ es) (unlink_middle s es r')
                  (sym (append_assoc ds (p ∷ es) (l.tail ∷ []))))
        ]

  pub unlinked-SameOutside :
      (s : Ptr) (cs : List Ptr) → SameOutside (ds ++ p ∷ s ∷ cs) l (unlinked l p s)
  unlinked-SameOutside s cs q h = update_ne _ p q _ (λ e. All-at _ ds p _ h (sym e))

module _ (l : Clist) (xs : List Ptr) where
  -- clist_foreach_delete, at the element where a clist_foreach loop is, removes it and keeps the
  -- order of the others. It writes to no link outside the list.
  pub clist_foreach_delete-append :
      (bs : List Ptr) (s : Ptr) (cs : List Ptr) (found : Bool)
      → Ring l xs
      → xs ≡ bs ++ s ∷ cs
      → Returns
          (λ m. Ring m (bs ++ cs) × SameOutside xs l m)
          (clist_foreach_delete (record { scan = s; tmp = last_of null bs; found = found }) l)
  unfolding clist_foreach_delete
  clist_foreach_delete-append [] s cs found r e =
      let r' = subst (Ring l) e r in
      rw (clist_head-ok l s cs r', ==_self s, e) (clist_dequeue-cons l s cs r')
  clist_foreach_delete-append (b ∷ bs) s cs found r e = elim (snoc-cases (b ∷ bs)) [
    | inl n ↦ absurd (cc)
    | inr (ds, p, n) ↦
        let r' : Ring l (b ∷ bs ++ s ∷ cs) = subst (Ring l) e r in
        let ne : b ≢ s = λ d. All-at _ bs s cs (Ring-Distinct l _ r').0 (sym d) in
        let last : last_of null (b ∷ bs) ≡ p = ap (last_of null) n ∙ last_of-snoc null ds p in
        let split : xs ≡ ds ++ p ∷ s ∷ cs =
          e ∙ ap (λ zs. zs ++ s ∷ cs) n ∙ append_assoc ds (p ∷ []) (s ∷ cs) in
        let r'' : Ring l (ds ++ p ∷ s ∷ cs) = subst (Ring l) split r in
        let nn = Ring-nonnull l _ r'' in
        let joined : ds ++ p ∷ cs ≡ (b ∷ bs) ++ cs =
          sym (append_assoc ds (p ∷ []) cs) ∙ ap (λ zs. zs ++ cs) (sym n) in
        rw
          (
            clist_head-ok l b _ r',
            ==_ne b s ne,
            load-ok l.next s ((All-append_right _ ds _ nn).1.0),
            last,
            store-ok l.next p _ (All-at _ ds p _ nn),
          )
          (returns (
            subst (Ring (unlinked l p s)) joined (unlinked-Ring l ds p s cs r''),
            λ q h. unlinked-SameOutside l ds p s cs q (subst (NotIn q) split h),
          ))
  ]

module _ (l : Clist) (ds : List Ptr) (p e : Ptr) (ne : e ≢ null) where
  -- `e` linked in behind `p`.
  inserted : Ptr → Clist
  inserted s = record l { next = update (update l.next e s) p e }

  insert_after-IsRing :
      (s : Ptr) (es : List Ptr)
      → IsRing l (ds ++ p ∷ es)
      → NotIn e (ds ++ p ∷ es)
      → l.tail ≢ e
      → l.next p ≡ s
      → IsRing (inserted s) (ds ++ p ∷ e ∷ es)
  unfolding inserted
  insert_after-IsRing s es r new apart h =
      let out : NotIn p (ds ++ es) = Distinct-NotIn ds p es r.distinct in
      let pe : p ≢ e = All-at _ ds p es new in
      let w = Walk-split l.next l.tail l.tail p ds es r.walk in
      record {
        walk =
            Walk-append _ l.tail l.tail p ds (e ∷ es)
              (Walk-frame l.next _ l.tail p l.tail ds
                (update_ne _ p l.tail _ (λ d. All-at _ ds p _ r.fresh (sym d))
                  ∙ update_ne _ e l.tail _ apart)
                (Agree-update_two l.next e s p e ds (All-append_left _ ds _ new)
                  (All-append_left _ ds _ out))
                w.0)
              (
                update_self _ p e,
                Walk-frame l.next _ p l.tail e es
                    (update_ne _ p e _ (λ d. pe (sym d)) ∙ update_self _ e s ∙ sym h)
                    (Agree-update_two l.next e s p e es (All-append_right _ ds _ new).1
                      (All-append_right _ ds _ out))
                    w.1,
              );
        fresh = put _ (λ d. apart (sym d)) r.fresh;
        distinct = distinct new r.distinct;
        nonnull = put _ ne r.nonnull;
        tail_ne = r.tail_ne;
      }
    where
      put : (P : Ptr → Type 0) → P e → All P (ds ++ p ∷ es) → All P (ds ++ p ∷ e ∷ es)
      put P pe h = subst (All P) (append_assoc ds (p ∷ []) (e ∷ es)) (
          All-insert P (ds ++ p ∷ []) e es pe (subst (All P) (sym (append_assoc ds (p ∷ []) es)) h))

      distinct : NotIn e (ds ++ p ∷ es) → Distinct (ds ++ p ∷ es) → Distinct (ds ++ p ∷ e ∷ es)
      distinct new d = subst Distinct (append_assoc ds (p ∷ []) (e ∷ es)) (
          Distinct-insert (ds ++ p ∷ []) e es
            (subst (NotIn e) (sym (append_assoc ds (p ∷ []) es)) new)
            (subst Distinct (sym (append_assoc ds (p ∷ []) es)) d))

  inserted-Ring :
      (s : Ptr) (cs : List Ptr)
      → Ring l (ds ++ p ∷ s ∷ cs)
      → NotIn e (ds ++ p ∷ s ∷ cs)
      → Ring (inserted s) (ds ++ p ∷ e ∷ s ∷ cs)
  unfolding inserted
  inserted-Ring s cs (vacant v empty) new = absurd (append-cons-ne ds p _ empty)
  inserted-Ring s cs (filled ys r eq) new = elim (snoc-split ys l.tail ds p (s ∷ cs) (sym eq)) [
    | inl (n, d, h) ↦ absurd (cc)
    | inr (es, n, d) ↦
        let new' = subst (NotIn e) eq new in
        let r' : IsRing l (ds ++ p ∷ es) = subst (IsRing l) d r in
        let link = (Walk-split l.next l.tail l.tail p ds es r'.walk).1 in
        filled (ds ++ p ∷ e ∷ es)
          (insert_after-IsRing s es r' (subst (NotIn e) d (All-append_left _ ys _ new'))
            (All-append_right _ ys _ new').0 (Walk-first l.next p l.tail s es cs link n))
          (ap (λ zs. ds ++ p ∷ e ∷ zs) n ∙ sym (append_assoc ds (p ∷ e ∷ es) (l.tail ∷ [])))
  ]

module _ (e : Ptr) (l : Clist) (xs : List Ptr) (ring : Ring l xs) (ne : e ≢ null)
    (new : NotIn e xs) where
  -- clist_foreach_add of a structure that is not in the list, at the element where a clist_foreach
  -- loop is, puts it just before. It writes to no link but those of the list and of the structure.
  pub clist_foreach_add-append :
      (bs : List Ptr) (s : Ptr) (cs : List Ptr) (found : Bool)
      → xs ≡ bs ++ s ∷ cs
      → Returns
          (λ m. Ring m (bs ++ e ∷ s ∷ cs) × SameOutside (e ∷ xs) l m)
          (clist_foreach_add e (record { scan = s; tmp = last_of null bs; found = found }) l)
  unfolding clist_foreach_add inserted
  clist_foreach_add-append [] s cs found eq =
      subst (λ ys. Returns (λ m. Ring m (e ∷ ys) × SameOutside (e ∷ xs) l m) (clist_push e l)) eq
        (clist_push-cons e l xs ring ne new)
  clist_foreach_add-append (b ∷ bs) s cs found eq = elim (snoc-cases (b ∷ bs)) [
    | inl n ↦ absurd (cc)
    | inr (ds, p, n) ↦
        let last : last_of null (b ∷ bs) ≡ p = ap (last_of null) n ∙ last_of-snoc null ds p in
        let split : xs ≡ ds ++ p ∷ s ∷ cs =
          eq ∙ ap (λ zs. zs ++ s ∷ cs) n ∙ append_assoc ds (p ∷ []) (s ∷ cs) in
        let ring' : Ring l (ds ++ p ∷ s ∷ cs) = subst (Ring l) split ring in
        let p_ne : p ≢ null = All-at _ ds p _ (Ring-nonnull l _ ring') in
        let joined : ds ++ p ∷ e ∷ s ∷ cs ≡ (b ∷ bs) ++ e ∷ s ∷ cs =
          sym (append_assoc ds (p ∷ []) (e ∷ s ∷ cs)) ∙ ap (λ zs. zs ++ e ∷ s ∷ cs) (sym n) in
        rw (last, ==_ne p null p_ne, store-ok l.next e s ne, store-ok _ p e p_ne)
          (returns (
            subst (Ring (inserted l ds p e ne s)) joined
                (inserted-Ring l ds p e ne s cs ring' (subst (NotIn e) split new)),
            λ q h.
                update_ne _ p q e (λ d. All-at _ ds p _ (subst (NotIn q) split h.1) (sym d))
                ∙ update_ne _ e q s (λ d. h.0 (sym d)),
          ))
  ]
