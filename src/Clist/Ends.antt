-- ===== src/Clist/Ends.antt =====
-- The operations at the two ends of a circular list: clist_enqueue, clist_push, clist_dequeue.
use jae_os.Prelude.{
  ◌≡◌, refl, sym, subst, ◌∙◌, ◌≢◌, List, [], ◌∷◌, ◌++◌, Ptr, null, update, update_self, update_ne,
  NotIn, Distinct-snoc, All-append, All-append_left, All-append_right, Returns, returns,
  Returns-mono, load-ok, store-ok, ==_self, ==_ne,
}
use jae_os.Clist.{Clist, clist_head, clist_enqueue, clist_push, clist_dequeue}
use jae_os.Clist.Ring.{
  Walk, Walk-frame, Walk-append, Agree, Agree-update, Agree-update_two, IsRing, Ring, vacant,
  filled, SameOutside,
}

-- The list of one element.
single-IsRing :
    (e : Ptr) (n : Ptr → Ptr) → e ≢ null → IsRing (record { tail = e; next = update n e e }) []
single-IsRing e n ne = record {
  walk = update_self n e e;
  fresh = tt;
  distinct = tt;
  nonnull = tt;
  tail_ne = ne;
}

module _ (e : Ptr) (l : Clist) (v : l.tail ≡ null) (ne : e ≢ null) where
  enqueue-vacant : Returns (λ m. Ring m (e ∷ []) × SameOutside (e ∷ []) l m) (clist_enqueue e l)
  unfolding clist_enqueue
  enqueue-vacant =
      rw (v, store-ok l.next e e ne)
        (returns
          (filled [] (single-IsRing e l.next ne) refl, λ q h. update_ne _ e q e (λ d. h.0 (sym d))))

  push-vacant : Returns (λ m. Ring m (e ∷ []) × SameOutside (e ∷ []) l m) (clist_push e l)
  unfolding clist_push
  push-vacant =
      rw (v, store-ok l.next e e ne)
        (returns
          (filled [] (single-IsRing e l.next ne) refl, λ q h. update_ne _ e q e (λ d. h.0 (sym d))))

module _ (e : Ptr) (l : Clist) (ys : List Ptr) (r : IsRing l ys) (ne : e ≢ null)
    (new : NotIn e (ys ++ l.tail ∷ [])) where
  open r use {walk, fresh, distinct, nonnull, tail_ne}

  apart : l.tail ≢ e
  apart = (All-append_right _ ys (l.tail ∷ []) new).0

  new_ys : NotIn e ys
  new_ys = All-append_left _ ys _ new

  linked : Ptr → Ptr
  linked = update (update l.next e (l.next l.tail)) l.tail e

  linked-new : linked e ≡ l.next l.tail
  unfolding linked
  linked-new = update_ne _ l.tail e e (λ d. apart (sym d)) ∙ update_self _ e _

  linked-tail : linked l.tail ≡ e
  unfolding linked
  linked-tail = update_self _ l.tail e

  linked-same : Agree linked l.next ys
  unfolding linked
  linked-same = Agree-update_two _ e _ l.tail e ys new_ys fresh

  linked-outside : (q : Ptr) → NotIn q (e ∷ l.tail ∷ []) → linked q ≡ l.next q
  unfolding linked
  linked-outside q h =
      update_ne _ l.tail q e (λ d. h.1.0 (sym d)) ∙ update_ne _ e q _ (λ d. h.0 (sym d))

  new-Walk : Walk linked e ys l.tail
  new-Walk = Walk-frame l.next linked l.tail l.tail e ys linked-new linked-same walk

  enqueued-IsRing : IsRing (record { tail = e; next = linked }) (ys ++ l.tail ∷ [])
  enqueued-IsRing = record {
    walk = Walk-append linked e e l.tail ys [] new-Walk linked-tail;
    fresh = new;
    distinct = Distinct-snoc l.tail ys fresh distinct;
    nonnull = All-append _ ys _ nonnull (tail_ne, tt);
    tail_ne = ne;
  }

  pushed-IsRing : IsRing (record { tail = l.tail; next = linked }) (e ∷ ys)
  pushed-IsRing = record {
    walk = (linked-tail, new-Walk);
    fresh = (λ d. apart (sym d), fresh);
    distinct = (new_ys, distinct);
    nonnull = (ne, nonnull);
    tail_ne = tail_ne;
  }

  enqueue-filled :
      Returns
        (λ m. Ring m ((ys ++ l.tail ∷ []) ++ e ∷ []) × SameOutside (e ∷ l.tail ∷ []) l m)
        (clist_enqueue e l)
  unfolding clist_enqueue clist_head linked
  enqueue-filled =
      rw
        (
          ==_ne _ _ tail_ne,
          load-ok l.next _ tail_ne,
          store-ok l.next e _ ne,
          store-ok _ _ e tail_ne,
        )
        (returns (filled _ enqueued-IsRing refl, linked-outside))

  push-filled :
      Returns
        (λ m. Ring m (e ∷ ys ++ l.tail ∷ []) × SameOutside (e ∷ l.tail ∷ []) l m)
        (clist_push e l)
  unfolding clist_push clist_head linked
  push-filled =
      rw
        (
          ==_ne _ _ tail_ne,
          load-ok l.next _ tail_ne,
          store-ok l.next e _ ne,
          store-ok _ _ e tail_ne,
        )
        (returns (filled _ pushed-IsRing refl, linked-outside))

-- clist_enqueue of a structure that is not in the list makes it the last element, and writes to no
-- link but those of the list and of the structure.
pub clist_enqueue-append :
    (e : Ptr) (l : Clist) (xs : List Ptr)
    → Ring l xs
    → e ≢ null
    → NotIn e xs
    → Returns (λ m. Ring m (xs ++ e ∷ []) × SameOutside (e ∷ xs) l m) (clist_enqueue e l)
clist_enqueue-append e l xs (vacant v empty) ne new = rw empty (enqueue-vacant e l v ne)
clist_enqueue-append e l xs (filled ys r eq) ne new = rw eq (
    Returns-mono (enqueue-filled e l ys r ne (rw eq at new))
      λ m (ring, same). (ring, λ q h. same q (h.0, All-append_right _ ys _ h.1)))

-- clist_push of a structure that is not in the list makes it the first element, and writes to no
-- link but those of the list and of the structure.
pub clist_push-cons :
    (e : Ptr) (l : Clist) (xs : List Ptr)
    → Ring l xs
    → e ≢ null
    → NotIn e xs
    → Returns (λ m. Ring m (e ∷ xs) × SameOutside (e ∷ xs) l m) (clist_push e l)
clist_push-cons e l xs (vacant v empty) ne new = rw empty (push-vacant e l v ne)
clist_push-cons e l xs (filled ys r eq) ne new = rw eq (
    Returns-mono (push-filled e l ys r ne (rw eq at new))
      λ m (ring, same). (ring, λ q h. same q (h.0, All-append_right _ ys _ h.1)))

dequeue-IsRing :
    (l : Clist) (ys : List Ptr) (x : Ptr) (xs : List Ptr)
    → IsRing l ys
    → x ∷ xs ≡ ys ++ l.tail ∷ []
    → Returns (λ m. Ring m xs × SameOutside (l.tail ∷ []) l m) (clist_dequeue l)
unfolding clist_dequeue
dequeue-IsRing l [] x xs r eq =
    rw (load-ok l.next _ r.tail_ne, r.walk, ==_self l.tail)
      (returns (vacant refl (cc), λ q h. refl))
dequeue-IsRing l (y ∷ zs) x xs r eq =
    rw
      (
        load-ok l.next _ r.tail_ne,
        r.walk.0,
        ==_ne l.tail y (λ d. r.fresh.0 (sym d)),
        load-ok l.next y (r.nonnull.0),
        store-ok l.next _ (l.next y) r.tail_ne,
      )
      (returns (
        filled zs
            (record {
              walk =
                  Walk-frame l.next _ y l.tail l.tail zs (update_self _ _ _)
                    (Agree-update l.next _ _ zs r.fresh.1) r.walk.1;
              fresh = r.fresh.1;
              distinct = r.distinct.1;
              nonnull = r.nonnull.1;
              tail_ne = r.tail_ne;
            })
            (cc),
        λ q h. update_ne _ _ q _ (λ d. h.0 (sym d)),
      ))

module _ (l : Clist) (x : Ptr) (xs : List Ptr) where
  -- clist_dequeue of a list that is not empty removes the first element, and writes to no link
  -- outside the list.
  pub clist_dequeue-cons :
      Ring l (x ∷ xs) → Returns (λ m. Ring m xs × SameOutside (x ∷ xs) l m) (clist_dequeue l)
  clist_dequeue-cons (vacant v empty) = absurd (cc)
  clist_dequeue-cons (filled ys r eq) =
      Returns-mono (dequeue-IsRing l ys x xs r eq)
        λ m (ring, same). (ring, λ q h. same q (All-append_right _ ys _ (subst (NotIn q) eq h)))
