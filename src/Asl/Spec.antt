-- ===== src/Asl/Spec.antt =====
-- What asl.c promises, with no descriptor in sight: a map from semaphores to queues of processes,
-- in ascending order of the semaphores' addresses, that holds no empty queue.
use jae_os.Prelude.{
  ℕ, ◌<◌, ◌≡◌, refl, ◌≢◌, Bool, true, false, List, [], ◌∷◌, ◌++◌, map, arith, Ptr, null, All, ==_ne,
  ==_self, ltb, ◌==◌, if◌then◌else◌,
}
use jae_os.Pcb.Queue.{head_or_null}
use jae_os.Asl.View.{Entry}

abbrev pub Waits : Type 0
Waits = List (ℕ × List Ptr)

abbrev pub view : List Entry → Waits
view = map λ e. (e.key, e.waiting)

-- `p` begins to wait for `key`.
pub block : ℕ → Ptr → Waits → Waits
block key p [] = (key, p ∷ []) ∷ []
block key p ((k, ws) ∷ rest) =
    if k == key
    then (k, ws ++ p ∷ []) ∷ rest
    else if ltb key k
    then (key, p ∷ []) ∷ (k, ws) ∷ rest
    else (k, ws) ∷ block key p rest

pub take_first : ℕ → List Ptr → Waits → Ptr × Waits
take_first k [] rest = (null, rest)
take_first k (w ∷ []) rest = (w, rest)
take_first k (w ∷ v ∷ vs) rest = (w, (k, v ∷ vs) ∷ rest)

pub take_first-head :
    (k : ℕ) (ws : List Ptr) (rest : Waits) → (take_first k ws rest).0 ≡ head_or_null ws
unfolding take_first
take_first-head k [] rest = refl
take_first-head k (w ∷ []) rest = refl
take_first-head k (w ∷ v ∷ vs) rest = refl

-- The first process that waits for `key` stops waiting.
pub wake : ℕ → Waits → Ptr × Waits
unfolding take_first
wake key [] = (null, [])
wake key ((k, ws) ∷ rest) =
    if k == key
    then take_first k ws rest
    else (let (p, woken) = wake key rest in (p, (k, ws) ∷ woken))

-- The first process that waits for `key`, or NULL.
unfoldable pub first : ℕ → Waits → Ptr
first key [] = null
first key ((k, ws) ∷ rest) = if k == key then (take_first k ws rest).0 else first key rest

-- Some process waits for `key`.
pub is_active : ℕ → Waits → Bool
is_active key [] = false
is_active key ((k, ws) ∷ rest) = if k == key then true else is_active key rest

lt_ne : (a b : ℕ) → a < b → a ≢ b
lt_ne a b h = omega arith

gt_ne : (a b : ℕ) → b < a → a ≢ b
gt_ne a b h = omega arith

lt_false : (a b : ℕ) → b < a → ltb a b ≡ false
lt_false a b h = ground arith

lt_true : (a b : ℕ) → a < b → ltb a b ≡ true
lt_true a b h = ground arith

-- The functions at an entry behind those with smaller keys.
module _ (key : ℕ) where
  pub block-present :
      (p : Ptr) (bs : List Entry) (e : Entry) (e' : Entry) (cs : List Entry)
      → All (λ f. f.key < key) bs
      → e.key ≡ key
      → e'.key ≡ key
      → e'.waiting ≡ e.waiting ++ p ∷ []
      → block key p (view (bs ++ e ∷ cs)) ≡ view (bs ++ e' ∷ cs)
  unfolding block
  block-present p [] e e' cs below is is' w = rw (is, ==_self key, is', w)
  block-present p (b ∷ bs) e e' cs below is is' w = rw (
    ==_ne b.key key (lt_ne b.key key below.0),
    lt_false key b.key below.0,
    block-present p bs e e' cs below.1 is is' w,
  )

  pub block-absent :
      (p : Ptr) (bs : List Entry) (e' : Entry) (cs : List Entry)
      → All (λ f. f.key < key) bs
      → All (λ f. key < f.key) cs
      → e'.key ≡ key
      → e'.waiting ≡ p ∷ []
      → block key p (view (bs ++ cs)) ≡ view (bs ++ e' ∷ cs)
  unfolding block
  block-absent p [] e' [] below above is w = rw (is, w)
  block-absent p [] e' (c ∷ cs) below above is w =
      rw (==_ne c.key key (gt_ne c.key key above.0), lt_true key c.key above.0, is, w)
  block-absent p (b ∷ bs) e' cs below above is w = rw (
    ==_ne b.key key (lt_ne b.key key below.0),
    lt_false key b.key below.0,
    block-absent p bs e' cs below.1 above is w,
  )

  pub wake-last :
      (p : Ptr) (bs : List Entry) (e : Entry) (cs : List Entry)
      → All (λ f. f.key < key) bs
      → e.key ≡ key
      → e.waiting ≡ p ∷ []
      → wake key (view (bs ++ e ∷ cs)) ≡ (p, view (bs ++ cs))
  unfolding wake
  wake-last p [] e cs below is w = rw (is, ==_self key, w)
  wake-last p (b ∷ bs) e cs below is w =
      rw (==_ne b.key key (lt_ne b.key key below.0), wake-last p bs e cs below.1 is w)

  pub wake-more :
      (p v : Ptr) (vs : List Ptr) (bs : List Entry) (e e' : Entry) (cs : List Entry)
      → All (λ f. f.key < key) bs
      → e.key ≡ key
      → e.waiting ≡ p ∷ v ∷ vs
      → e'.key ≡ key
      → e'.waiting ≡ v ∷ vs
      → wake key (view (bs ++ e ∷ cs)) ≡ (p, view (bs ++ e' ∷ cs))
  unfolding wake
  wake-more p v vs [] e e' cs below is w is' w' = rw (is, ==_self key, w, is', w')
  wake-more p v vs (b ∷ bs) e e' cs below is w is' w' =
      rw
        (==_ne b.key key (lt_ne b.key key below.0), wake-more p v vs bs e e' cs below.1 is w is' w')

  pub wake-absent :
      (bs cs : List Entry)
      → All (λ f. f.key < key) bs
      → All (λ f. key < f.key) cs
      → wake key (view (bs ++ cs)) ≡ (null, view (bs ++ cs))
  unfolding wake
  wake-absent [] [] below above = refl
  wake-absent [] (c ∷ cs) below above =
      rw (==_ne c.key key (gt_ne c.key key above.0), wake-absent [] cs tt above.1)
  wake-absent (b ∷ bs) cs below above =
      rw (==_ne b.key key (lt_ne b.key key below.0), wake-absent bs cs below.1 above)

pub first-present :
    (key : ℕ) (bs : List Entry) (e : Entry) (cs : List Entry)
    → All (λ f. f.key < key) bs
    → e.key ≡ key
    → first key (view (bs ++ e ∷ cs)) ≡ head_or_null e.waiting
unfolding first
first-present key [] e cs below is = rw (is, ==_self key) (take_first-head key e.waiting (view cs))
first-present key (b ∷ bs) e cs below is =
    rw (==_ne b.key key (lt_ne b.key key below.0)) (first-present key bs e cs below.1 is)

pub first-wake : (key : ℕ) (t : Waits) → first key t ≡ (wake key t).0
unfolding first wake
first-wake key [] = refl
first-wake key ((k, ws) ∷ rest) = ground (arith, first-wake key rest)

pub is_active-absent :
    (key : ℕ) (bs cs : List Entry)
    → All (λ f. f.key < key) bs
    → All (λ f. key < f.key) cs
    → is_active key (view (bs ++ cs)) ≡ false
unfolding is_active
is_active-absent key [] [] below above = refl
is_active-absent key [] (c ∷ cs) below above =
    rw (==_ne c.key key (gt_ne c.key key above.0), is_active-absent key [] cs tt above.1)
is_active-absent key (b ∷ bs) cs below above =
    rw (==_ne b.key key (lt_ne b.key key below.0), is_active-absent key bs cs below.1 above)
