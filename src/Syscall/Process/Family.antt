-- ===== src/Syscall/Process/Family.antt =====
-- The families of processes in the tables of source/pcb.c, as source/syscall.c walks through them.
use jae_os.Prelude.{
  ◌≡◌, sym, ◌∙◌, List, [], ◌∷◌, ◌++◌, Ptr, All, All-All, All-map, All-both, All-append,
  All-append_left, All-append_right, All-at, All-drop, Distinct, Distinct-NotIn,
}
use jae_os.Clist.Ring.{Ring-frame}
use jae_os.Pcb.{Procs}
use jae_os.Pcb.Queue.{Apart, Apart-sym}
use jae_os.Pcb.Tree.{IsChildren}

-- The children of a process from one on: the child, its own children, and the next children.
pub data Forest : Type 0 where
  no_more : Forest
  and_also : Ptr → Forest → Forest → Forest

abbrev pub roots : Forest → List Ptr
roots no_more = []
roots (and_also r gs fs) = r ∷ roots fs

-- All of them, each after its own children.
abbrev pub descendants : Forest → List Ptr
descendants no_more = []
descendants (and_also r gs fs) = descendants gs ++ r ∷ descendants fs

-- Those that are no roots.
abbrev pub below : Forest → List Ptr
below no_more = []
below (and_also r gs fs) = descendants gs ++ below fs

-- Each of them has the children that the forest says.
abbrev pub IsTrees : Procs → Forest → Type 0
IsTrees m no_more = Unit
IsTrees m (and_also r gs fs) = IsChildren m r (roots gs) × (IsTrees m gs × IsTrees m fs)

abbrev pub IsForest : Procs → Ptr → Forest → Type 0
IsForest m p fs = IsChildren m p (roots fs) × IsTrees m fs

pub All-roots : (P : Ptr → Type 0) (fs : Forest) → All P (descendants fs) → All P (roots fs)
All-roots P no_more all = tt
All-roots P (and_also r gs fs) all = (
  All-at P (descendants gs) r (descendants fs) all,
  All-roots P fs (
      All-append_right P (descendants gs) (descendants fs)
        (All-drop P (descendants gs) r (descendants fs) all)),
)

pub All-below : (P : Ptr → Type 0) (fs : Forest) → All P (descendants fs) → All P (below fs)
All-below P no_more all = tt
All-below P (and_also r gs fs) all =
    let others = All-drop P (descendants gs) r (descendants fs) all in
    All-append P (descendants gs) (below fs) (All-append_left P (descendants gs) _ others)
      (All-below P fs (All-append_right P (descendants gs) (descendants fs) others))

pub Distinct-left : (xs ys : List Ptr) → Distinct (xs ++ ys) → Distinct xs
Distinct-left [] ys d = tt
Distinct-left (x ∷ xs) ys d = (All-append_left _ xs ys d.0, Distinct-left xs ys d.1)

pub Distinct-right : (xs ys : List Ptr) → Distinct (xs ++ ys) → Distinct ys
Distinct-right [] ys d = d
Distinct-right (x ∷ xs) ys d = Distinct-right xs ys d.1

pub Distinct-Apart : (xs ys : List Ptr) → Distinct (xs ++ ys) → Apart xs ys
Distinct-Apart [] ys d = All-All _ ys (λ y. tt)
Distinct-Apart (x ∷ xs) ys d =
    All-both _ _ _ ys (λ y n a. ((λ e. n (sym e)), a)) (All-append_right _ xs ys d.0)
      (Distinct-Apart xs ys d.1)

-- Among different processes the roots are not below.
pub roots-Apart : (fs : Forest) → Distinct (descendants fs) → Apart (roots fs) (below fs)
roots-Apart no_more d = tt
roots-Apart (and_also r gs fs) d =
    let ds = descendants gs in
    let es = descendants fs in
    let away = Distinct-NotIn ds r es d in
    let right = Distinct-right ds (r ∷ es) d in
    let apart = Distinct-Apart ds (r ∷ es) d in
    All-append _ ds (below fs)
      (All-both _ _ _ ds (λ y n o. ((λ e. n (sym e)), o)) (All-append_left _ ds es away)
        (Apart-sym ds (roots fs) (All-roots _ fs apart.1)))
      (All-both _ _ _ (below fs) (λ y n o. ((λ e. n (sym e)), o))
        (All-below _ fs (All-append_right _ ds es away)) (roots-Apart fs right.1))

-- What a family rests on.
abbrev pub SameHeader : Procs → Procs → Ptr → Type 0
SameHeader m m' q = m'.p_children q ≡ m.p_children q

abbrev pub SameLinks : Procs → Procs → Ptr → Type 0
SameLinks m m' q = (m'.p_siblings q ≡ m.p_siblings q) × (m'.p_parent q ≡ m.p_parent q)

module _ (m m' : Procs) where
  pub IsChildren-same :
      (p : Ptr) (cs : List Ptr)
      → SameHeader m m' p
      → All (SameLinks m m') cs
      → IsChildren m p cs
      → IsChildren m' p cs
  IsChildren-same p cs header links is = record {
    ring = Ring-frame _ _ cs header (All-map _ _ cs (λ q s. s.0) links) is.ring;
    parents = All-both _ _ _ cs (λ q s e. s.1 ∙ e) links is.parents;
  }

  pub IsTrees-frame :
      (fs : Forest)
      → All (SameHeader m m') (descendants fs)
      → All (SameLinks m m') (below fs)
      → IsTrees m fs
      → IsTrees m' fs
  IsTrees-frame no_more headers links is = tt
  IsTrees-frame (and_also r gs fs) headers links is =
      let ds = descendants gs in
      let ours = All-append_left _ ds (below fs) links in
      let others = All-drop _ ds r (descendants fs) headers in
      (
        IsChildren-same r (roots gs) (All-at _ ds r (descendants fs) headers) (All-roots _ gs ours)
            is.0,
        (
          IsTrees-frame gs (All-append_left _ ds (descendants fs) others) (All-below _ gs ours)
              is.1.0,
          IsTrees-frame fs (All-append_right _ ds (descendants fs) others)
              (All-append_right _ ds (below fs) links) is.1.1,
        ),
      )
