-- ===== src/Clist/Ring.antt =====
-- What the links of a circular list stand for: the list of its elements, from the head to the tail.
use jae_os.Prelude.{
  ◌≡◌, refl, ◌∙◌, ◌≢◌, List, [], ◌∷◌, ◌++◌, Ptr, null, update, update_ne, All, NotIn, Distinct,
  All-All, All-append, All-append_left, All-append_right, Distinct-snoc, load-ok, ok,
}
use jae_os.Clist.{Clist, clist_head}

-- From `a` the links lead through `xs` to `b`.
abbrev pub Walk : (Ptr → Ptr) → Ptr → List Ptr → Ptr → Type 0
Walk n a [] b = n a ≡ b
Walk n a (x ∷ xs) b = (n a ≡ x) × Walk n x xs b

-- Two link maps agree at each of `xs`.
abbrev pub Agree : (Ptr → Ptr) → (Ptr → Ptr) → List Ptr → Type 0
Agree m n = All λ q. m q ≡ n q

-- A walk needs the links of the elements only, and of its start only where it leads.
pub Walk-frame :
    (n m : Ptr → Ptr) (a b c : Ptr) (xs : List Ptr)
    → m c ≡ n a
    → Agree m n xs
    → Walk n a xs b
    → Walk m c xs b
Walk-frame n m a b c [] e same w = e ∙ w
Walk-frame n m a b c (x ∷ xs) e same w = (e ∙ w.0, Walk-frame n m x b x xs same.0 same.1 w.1)

pub Walk-append :
    (n : Ptr → Ptr) (a b c : Ptr) (xs ys : List Ptr)
    → Walk n a xs c
    → Walk n c ys b
    → Walk n a (xs ++ c ∷ ys) b
Walk-append n a b c [] ys v w = (v, w)
Walk-append n a b c (x ∷ xs) ys v w = (v.0, Walk-append n x b c xs ys v.1 w)

pub Walk-split :
    (n : Ptr → Ptr) (a b c : Ptr) (xs ys : List Ptr)
    → Walk n a (xs ++ c ∷ ys) b
    → Walk n a xs c × Walk n c ys b
Walk-split n a b c [] ys w = w
Walk-split n a b c (x ∷ xs) ys w = let (v, u) = Walk-split n x b c xs ys w.1 in ((w.0, v), u)

pub Agree-update :
    (n : Ptr → Ptr) (p v : Ptr) (xs : List Ptr) → NotIn p xs → Agree (update n p v) n xs
Agree-update n p v [] h = tt
Agree-update n p v (x ∷ xs) h = (update_ne n p x v h.0, Agree-update n p v xs h.1)

pub Agree-update_two :
    (n : Ptr → Ptr) (p v q w : Ptr) (xs : List Ptr)
    → NotIn p xs
    → NotIn q xs
    → Agree (update (update n p v) q w) n xs
Agree-update_two n p v q w [] h k = tt
Agree-update_two n p v q w (x ∷ xs) h k =
    (update_ne _ q x w k.0 ∙ update_ne n p x v h.0, Agree-update_two n p v q w xs h.1 k.1)

-- A circular list that is not empty: `ys` are its elements but for the tail.
pub record IsRing (l : Clist) (ys : List Ptr) : Type 0 where
  pub walk : Walk l.next l.tail ys l.tail
  pub fresh : NotIn l.tail ys
  pub distinct : Distinct ys
  pub nonnull : NotIn null ys
  pub tail_ne : l.tail ≢ null

-- The list `l` holds the elements `xs`, in this order.
pub data Ring (l : Clist) (xs : List Ptr) : Type 0 where
  vacant : l.tail ≡ null → xs ≡ [] → Ring l xs
  filled : (ys : List Ptr) → IsRing l ys → xs ≡ ys ++ l.tail ∷ [] → Ring l xs

-- Only the links of the elements `xs` may differ.
abbrev pub SameOutside : List Ptr → Clist → Clist → Type 0
SameOutside xs l m = (q : Ptr) → NotIn q xs → m.next q ≡ l.next q

-- The head is the first element.
head-IsRing :
    (l : Clist) (ys : List Ptr) (x : Ptr) (xs : List Ptr)
    → IsRing l ys
    → x ∷ xs ≡ ys ++ l.tail ∷ []
    → l.next l.tail ≡ x
head-IsRing l [] x xs r eq = r.walk ∙ (cc)
head-IsRing l (y ∷ zs) x xs r eq = r.walk.0 ∙ (cc)

pub clist_head-tail : (l : Clist) → l.tail ≢ null → clist_head l ≡ ok (l.next l.tail)
unfolding clist_head
clist_head-tail l ne = rw (load-ok l.next l.tail ne) refl

module _ (l : Clist) (x : Ptr) (xs : List Ptr) where
  pub tail_ne : Ring l (x ∷ xs) → l.tail ≢ null
  tail_ne (vacant v empty) = absurd (cc)
  tail_ne (filled ys r eq) = r.tail_ne

  pub next-tail : Ring l (x ∷ xs) → l.next l.tail ≡ x
  next-tail (vacant v empty) = absurd (cc)
  next-tail (filled ys r eq) = head-IsRing l ys x xs r eq

  pub clist_head-ok : Ring l (x ∷ xs) → clist_head l ≡ ok x
  unfolding clist_head
  clist_head-ok r = rw (load-ok l.next _ (tail_ne r), next-tail r)

module _ (l : Clist) (xs : List Ptr) where
  pub Ring-nonnull : Ring l xs → NotIn null xs
  Ring-nonnull (vacant v empty) = rw empty tt
  Ring-nonnull (filled ys r eq) = rw eq (All-append _ ys _ r.nonnull (r.tail_ne, tt))

  pub Ring-Distinct : Ring l xs → Distinct xs
  Ring-Distinct (vacant v empty) = rw empty tt
  Ring-Distinct (filled ys r eq) = rw eq (Distinct-snoc l.tail ys r.fresh r.distinct)

pub Ring-nil : (l : Clist) → Ring l [] → l.tail ≡ null
Ring-nil l (vacant v empty) = v
Ring-nil l (filled [] r eq) = absurd (cc)
Ring-nil l (filled (y ∷ ys) r eq) = absurd (cc)

pub IsRing-frame :
    (l m : Clist) (ys : List Ptr)
    → m.tail ≡ l.tail
    → Agree m.next l.next (ys ++ l.tail ∷ [])
    → IsRing l ys
    → IsRing m ys
IsRing-frame l m ys e same r = record {
  walk = rw e (
      Walk-frame l.next m.next l.tail l.tail l.tail ys (All-append_right _ ys _ same).0
        (All-append_left _ ys _ same) r.walk);
  fresh = rw e r.fresh;
  distinct = r.distinct;
  nonnull = r.nonnull;
  tail_ne = rw e r.tail_ne;
}

-- A list is not affected by writes to links of other elements.
pub Ring-frame :
    (l m : Clist) (xs : List Ptr) → m.tail ≡ l.tail → Agree m.next l.next xs → Ring l xs → Ring m xs
Ring-frame l m xs e same (vacant v empty) = vacant (e ∙ v) empty
Ring-frame l m xs e same (filled ys r eq) =
    filled ys (IsRing-frame l m ys e (rw eq at same) r) (rw e eq)

pub Agree-refl : (n : Ptr → Ptr) (xs : List Ptr) → Agree n n xs
Agree-refl n xs = All-All _ xs (λ q. refl)
