-- ===== src/Pcb/Tree.antt =====
-- The process tree of pcb.c: emptyChild, insertChild, removeChild, outChild.
use jae_os.Prelude.{
  ◌<◌, ◌+◌, ◌>>=◌, ap, subst, append-nil, arith, length-append, Returns-mono, ◌≡◌, refl, ◌∙◌, ◌≢◌,
  true, false, List, [], ◌∷◌, ◌++◌, Ptr, null, ok, All, All-map, All-both, NotIn, All-append,
  All-at, All-drop, Distinct-NotIn, load-ok, store-ok, ==_ne, length, Returns, returns,
  Returns-bind, update, update_self, update_ne,
}
use jae_os.Const.{rounds}
use jae_os.Clist.Ring.{
  Ring, Ring-nil, Ring-frame, Ring-Distinct, Ring-nonnull, tail_ne, clist_head-ok, Agree-refl,
}
use jae_os.Clist.Ends.{clist_enqueue-append, clist_dequeue-cons}
use jae_os.Clist.Delete.{clist_delete-append}
use jae_os.Pcb.{Procs, children, empty_child, insert_child, remove_child, out_child}
use jae_os.Pcb.Queue.{Apart}

-- `cs` are the children of `p`: they are in its list, and each names it as its parent.
pub record IsChildren (m : Procs) (p : Ptr) (cs : List Ptr) : Type 0 where
  pub ring : Ring (children m p) cs
  pub parents : All (λ c. m.p_parent c ≡ p) cs

-- Of the descriptors' fields at most the tree's links have changed: the parent of `c`, the header of
-- the children of `p`, and the sibling links of `xs`.
pub record TreeOnly (p c : Ptr) (xs : List Ptr) (m m' : Procs) : Type 0 where
  pub rest :
      m'
      ≡ record m { p_parent = m'.p_parent; p_children = m'.p_children; p_siblings = m'.p_siblings }
  pub parents : (q : Ptr) → q ≢ c → m'.p_parent q ≡ m.p_parent q
  pub headers : (q : Ptr) → q ≢ p → m'.p_children q ≡ m.p_children q
  pub siblings : (q : Ptr) → NotIn q xs → m'.p_siblings q ≡ m.p_siblings q

-- Children other than `c` keep their parent when that of `c` is cleared.
parents-orphan :
    (m : Procs) (p c : Ptr) (xs : List Ptr)
    → All (λ x. m.p_parent x ≡ p) xs
    → NotIn c xs
    → All (λ x. update m.p_parent c null x ≡ p) xs
parents-orphan m p c xs h out = All-both _ _ _ xs (λ x e d. update_ne _ c x null d ∙ e) h out

module _ (m : Procs) (p : Ptr) (ne : p ≢ null) where
  -- emptyChild tells whether there are children.
  pub empty_child-nil : IsChildren m p [] → empty_child p m ≡ ok true
  unfolding empty_child
  empty_child-nil is = rw (load-ok m.p_children p ne, Ring-nil _ is.ring)

  pub empty_child-cons :
      (c : Ptr) (cs : List Ptr) → IsChildren m p (c ∷ cs) → empty_child p m ≡ ok false
  unfolding empty_child
  empty_child-cons c cs is = rw (load-ok m.p_children p ne, ==_ne _ null (tail_ne _ c cs is.ring))

  -- insertChild of a process that is no child of the parent makes it the last child. Of the tree's
  -- links it changes only those of the parent and of its children.
  pub insert_child-append :
      (c : Ptr) (cs : List Ptr)
      → IsChildren m p cs
      → c ≢ null
      → NotIn c cs
      → Returns
          (λ m'. IsChildren m' p (cs ++ c ∷ []) × TreeOnly p c (c ∷ cs) m m')
          (insert_child p c m)
  unfolding insert_child
  insert_child-append c cs is cne new = rw (load-ok m.p_children p ne) (
      Returns-bind (clist_enqueue-append c (children m p) cs is.ring cne new) λ l (ring, same).
        returns (
          record {
            ring =
                Ring-frame l _ _ (update_self _ p l.tail) (Agree-refl l.next (cs ++ c ∷ [])) ring;
            parents = All-append _ cs _ (parents-kept cs is.parents new) (update_self _ c p, tt);
          },
          record {
            rest = refl;
            parents = λ q h. update_ne _ c q p h;
            headers = λ q h. update_ne _ p q l.tail h;
            siblings = same;
          },
        ))
    where
      parents-kept :
          (xs : List Ptr)
          → All (λ x. m.p_parent x ≡ p) xs
          → NotIn c xs
          → All (λ x. update m.p_parent c p x ≡ p) xs
      parents-kept xs h out = All-both _ _ _ xs (λ x e d. update_ne _ c x p d ∙ e) h out

  -- removeChild of a process with children returns the first, which becomes an orphan; the others
  -- keep their order. Of the tree's links it changes only those of the parent and of its children.
  pub remove_child-cons :
      (c : Ptr) (cs : List Ptr)
      → IsChildren m p (c ∷ cs)
      → Returns
          (λ (r, m').
            (r ≡ c) × IsChildren m' p cs × (m'.p_parent c ≡ null) × TreeOnly p c (c ∷ cs) m m')
          (remove_child p m)
  unfolding remove_child
  remove_child-cons c cs is =
      rw
        (
          empty_child-cons c cs is,
          clist_head-ok _ c cs is.ring,
          store-ok m.p_parent c null ((Ring-nonnull _ _ is.ring).0),
        )
        (Returns-bind (clist_dequeue-cons _ c cs is.ring) λ l (ring, same). returns (
          refl,
          record {
            ring = Ring-frame l _ _ (update_self _ p l.tail) (Agree-refl l.next cs) ring;
            parents = parents-orphan m p c cs is.parents.1 (Ring-Distinct _ _ is.ring).0;
          },
          update_self _ c null,
          record {
            rest = refl;
            parents = λ q h. update_ne _ c q null h;
            headers = λ q h. update_ne _ p q l.tail h;
            siblings = same;
          },
        ))

  pub remove_child-nil : IsChildren m p [] → remove_child p m ≡ ok (null, m)
  unfolding remove_child
  remove_child-nil is = rw (empty_child-nil is)

  -- outChild of one of at most twenty children returns it and takes it out of its parent's list
  -- wherever it stands; the others keep their order, and it becomes an orphan. Of the tree's links
  -- it changes only those of the parent and of its children.
  pub out_child-append :
      (bs : List Ptr) (c : Ptr) (cs : List Ptr)
      → IsChildren m p (bs ++ c ∷ cs)
      → length (bs ++ c ∷ cs) < rounds
      → Returns
          (λ (r, m').
            (r ≡ c)
            × IsChildren m' p (bs ++ cs)
            × (m'.p_parent c ≡ null)
            × TreeOnly p c (bs ++ c ∷ cs) m m')
          (out_child c m)
  unfolding out_child
  out_child-append bs c cs is small =
      let e : m.p_parent c ≡ p = All-at _ bs c cs is.parents in
      rw (load-ok m.p_parent c (All-at _ bs c cs (Ring-nonnull _ _ is.ring)), e, ==_ne p null ne)
        (Returns-bind (clist_delete-append rounds c (children m p) _ is.ring small bs cs refl)
          λ (retval, l) (_, ring, same). returns (
            refl,
            record {
              ring = Ring-frame l _ _ (update_self _ p l.tail) (Agree-refl l.next (bs ++ cs)) ring;
              parents =
                  parents-orphan m p c (bs ++ cs) (All-drop _ bs c cs is.parents)
                    (Distinct-NotIn bs c cs (Ring-Distinct _ _ is.ring));
            },
            update_self _ c null,
            record {
              rest = refl;
              parents = λ q h. update_ne _ c q null h;
              headers = λ q h. update_ne _ p q l.tail h;
              siblings = same;
            },
          ))

-- outChild of a process without parent returns NULL and changes nothing.
pub out_child-orphan :
    (m : Procs) (c : Ptr) → c ≢ null → m.p_parent c ≡ null → out_child c m ≡ ok (null, m)
unfolding out_child
out_child-orphan m c ne e = rw (load-ok m.p_parent c ne, e)

-- The children of another process are not affected.
pub IsChildren-frame :
    (m m' : Procs) (p c q : Ptr) (xs ds : List Ptr)
    → TreeOnly p c xs m m'
    → q ≢ p
    → NotIn c ds
    → Apart xs ds
    → IsChildren m q ds
    → IsChildren m' q ds
IsChildren-frame m m' p c q xs ds only ne out apart is = record {
  ring = Ring-frame _ _ ds (only.headers q ne) (All-map _ _ ds only.siblings apart) is.ring;
  parents = All-both _ _ _ ds (λ d e h. only.parents d h ∙ e) is.parents out;
}

-- insertChild of a process that is no child of the parent, and then outChild of it, returns the
-- process and gives the parent back the children it had, in the same order; the process is an
-- orphan then. Of the tree's links at most those of the parent, of the process and of the children
-- have changed, and nothing else. For fewer than twenty children.
pub insert_child-out_child :
    (m : Procs) (p c : Ptr) (cs : List Ptr)
    → p ≢ null
    → IsChildren m p cs
    → c ≢ null
    → NotIn c cs
    → length cs + 1 < rounds
    → Returns
        (λ (r, m').
          (r ≡ c)
          × IsChildren m' p cs
          × (m'.p_parent c ≡ null)
          × ((q : Ptr) → q ≢ c → m'.p_parent q ≡ m.p_parent q)
          × ((q : Ptr) → q ≢ p → m'.p_children q ≡ m.p_children q)
          × ((q : Ptr) → NotIn q (c ∷ cs) → m'.p_siblings q ≡ m.p_siblings q)
          × (m' ≡ record m {
            p_parent = m'.p_parent;
            p_children = m'.p_children;
            p_siblings = m'.p_siblings;
          }))
        (insert_child p c m >>= out_child c)
insert_child-out_child m p c cs ne is c_ne new few =
    Returns-bind (insert_child-append m p ne c cs is c_ne new) λ m1 (is1, only1).
      Returns-mono
        (out_child-append m1 p ne cs c [] is1 (omega (arith, few, length-append cs (c ∷ []))))
        λ (r, m2) (is_c, left, alone, only2). (
          is_c,
          subst (IsChildren m2 p) (append-nil cs) left,
          alone,
          λ q h. only2.parents q h ∙ only1.parents q h,
          λ q h. only2.headers q h ∙ only1.headers q h,
          λ q h. only2.siblings q (All-append _ cs (c ∷ []) h.1 (h.0, tt)) ∙ only1.siblings q h,
          only2.rest
              ∙ ap {A = Procs}
                  (λ ps. record ps {
                    p_parent = m2.p_parent;
                    p_children = m2.p_children;
                    p_siblings = m2.p_siblings;
                  })
                  only1.rest,
        )
