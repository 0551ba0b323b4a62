-- ===== src/Asl/Sort.antt =====
-- Sorted lists of entries under insertion, removal and replacement.
use jae_os.Prelude.{
  ◌<◌, ◌≡◌, sym, ◌∙◌, List, [], ◌∷◌, ◌++◌, All, All-drop, All-insert, All-replace, All-at, ap,
}
use jae_os.Asl.View.{Entry, Sorted, descriptors, descriptors-append}

module _ (e : Entry) (cs : List Entry) where
  pub Sorted-drop : (bs : List Entry) → Sorted (bs ++ e ∷ cs) → Sorted (bs ++ cs)
  Sorted-drop [] s = s.1
  Sorted-drop (b ∷ bs) s = (All-drop _ bs e cs s.0, Sorted-drop bs s.1)

  pub Sorted-insert :
      (bs : List Entry)
      → All (λ f. f.key < e.key) bs
      → All (λ f. e.key < f.key) cs
      → Sorted (bs ++ cs)
      → Sorted (bs ++ e ∷ cs)
  Sorted-insert [] below above s = (above, s)
  Sorted-insert (b ∷ bs) below above s =
      (All-insert _ bs e cs below.0 s.0, Sorted-insert bs below.1 above s.1)

  module _ (f : Entry) (same : f.key ≡ e.key) where
    pub Sorted-replace : (bs : List Entry) → Sorted (bs ++ e ∷ cs) → Sorted (bs ++ f ∷ cs)
    Sorted-replace [] s = (rw same s.0, s.1)
    Sorted-replace (b ∷ bs) s =
        (All-replace _ bs e f cs (rw same (All-at _ bs e cs s.0)) s.0, Sorted-replace bs s.1)

  pub descriptors-replace :
      (f : Entry) (bs : List Entry)
      → f.semd ≡ e.semd
      → descriptors (bs ++ f ∷ cs) ≡ descriptors (bs ++ e ∷ cs)
  descriptors-replace f bs same =
      descriptors-append bs f cs
      ∙ ap (λ s. descriptors bs ++ s ∷ descriptors cs) same
      ∙ sym (descriptors-append bs e cs)
