-- ===== src/Syscall/Process/Bury.antt =====
-- What becomes of a process that waits for a semaphore when it is killed, in source/syscall.c: the
-- test on `p_cursem` in terminate_children and lookfor_progeny, with no descriptor in sight.
use jae_os.Prelude.{
  ℕ, ◌≡◌, refl, ap, ◌∙◌, Bool, true, false, Bool-cases, inl, inr, Option, none, some, List, [], ◌∷◌,
  ◌++◌, Ptr, NotIn, ==_ne, ==_self, ◌==◌, if◌then◌else◌, update,
}
use jae_os.Prelude.Int.{ℤ, pos, ◌-ℤ◌, sub_int, int_of, word_of}
use jae_os.Arch.{Arch}
use jae_os.Asl.View.{Entry}
use jae_os.Asl.Insert.{NotWaiting}
use jae_os.Asl.Release.{entry}
use jae_os.Asl.Woken.{remaining}
use jae_os.Asl.Spec.{Waits, view}
use jae_os.Asl.Waiting.{put_queue}
use jae_os.Syscall.Process.{is_device_sem}

is_in : Ptr → List Ptr → Bool
is_in q [] = false
is_in q (w ∷ ws) = if w == q then true else is_in q ws

-- `ws` without `q`.
without : Ptr → List Ptr → List Ptr
without q [] = []
without q (w ∷ ws) = if w == q then ws else w ∷ without q ws

-- The semaphore for which `q` waits.
pub queue_of : Ptr → Waits → Option ℕ
unfolding is_in
queue_of q [] = none
queue_of q ((j, ws) ∷ t) = if is_in q ws then some j else queue_of q t

pub unwait : Ptr → Waits → Waits
unfolding is_in without
unwait q [] = []
unwait q ((j, ws) ∷ t) = if is_in q ws then put_queue j (without q ws) t else (j, ws) ∷ unwait q t

-- The queues, the memory and the count of blocked processes.
pub record Tolls : Type 0 where
  pub waits : Waits
  pub memory : ℕ → ℕ
  pub blocked : ℤ

-- What a process has asked for goes back to the value of its semaphore, but not to a device's.
abbrev pub returned : Arch → ℕ → ℤ → (ℕ → ℕ) → ℕ → ℕ
returned a key weight mem =
    if is_device_sem a key
    then mem
    else update mem key (word_of (sub_int (int_of (mem key)) weight))

abbrev pub tolls : Waits → (ℕ → ℕ) → ℤ → Tolls
tolls w mem n = record { waits = w; memory = mem; blocked = n }

released : Arch → (Ptr → ℤ) → Ptr → Option ℕ → Tolls → Tolls
unfolding unwait
released a wait q none t = t
released a wait q (some key) t =
    tolls (unwait q t.waits) (returned a key (wait q) t.memory) (t.blocked -ℤ pos 1)

-- `q` waits no more.
pub bury : Arch → (Ptr → ℤ) → Ptr → Tolls → Tolls
unfolding released queue_of
bury a wait q t = released a wait q (queue_of q t.waits) t

is_in-at : (q : Ptr) (us vs : List Ptr) → is_in q (us ++ q ∷ vs) ≡ true
unfolding is_in
is_in-at q [] vs = rw (==_self q) refl
is_in-at q (u ∷ us) vs = elim (Bool-cases (u == q)) [
  | inl e ↦ rw e refl
  | inr e ↦ rw e (is_in-at q us vs)
]

is_in-NotIn : (q : Ptr) (ws : List Ptr) → NotIn q ws → is_in q ws ≡ false
unfolding is_in
is_in-NotIn q [] out = refl
is_in-NotIn q (w ∷ ws) out = rw (==_ne w q out.0) (is_in-NotIn q ws out.1)

without-at : (q : Ptr) (us vs : List Ptr) → NotIn q us → without q (us ++ q ∷ vs) ≡ us ++ vs
unfolding without
without-at q [] vs out = rw (==_self q) refl
without-at q (u ∷ us) vs out = rw (==_ne u q out.0, without-at q us vs out.1) refl

module _ (q : Ptr) where
  queue_of-NotWaiting : (es : List Entry) → NotWaiting q es → queue_of q (view es) ≡ none
  unfolding queue_of
  queue_of-NotWaiting [] out = refl
  queue_of-NotWaiting (e ∷ es) out =
      rw (is_in-NotIn q e.waiting out.0) (queue_of-NotWaiting es out.1)

  queue_of-at :
      (bs : List Entry) (s : Ptr) (key : ℕ) (us vs : List Ptr) (cs : List Entry)
      → NotWaiting q bs
      → queue_of q (view (bs ++ entry s key (us ++ q ∷ vs) ∷ cs)) ≡ some key
  unfolding queue_of
  queue_of-at [] s key us vs cs out = rw (is_in-at q us vs) refl
  queue_of-at (b ∷ bs) s key us vs cs out =
      rw (is_in-NotIn q b.waiting out.0) (queue_of-at bs s key us vs cs out.1)

  put_queue-remaining :
      (s : Ptr) (key : ℕ) (ws : List Ptr) (cs : List Entry)
      → put_queue key ws (view cs) ≡ view (remaining [] s key ws cs)
  unfolding put_queue
  put_queue-remaining s key [] cs = refl
  put_queue-remaining s key (w ∷ ws) cs = refl

  remaining-cons :
      (b : Entry) (bs : List Entry) (s : Ptr) (key : ℕ) (ws : List Ptr) (cs : List Entry)
      → b ∷ remaining bs s key ws cs ≡ remaining (b ∷ bs) s key ws cs
  remaining-cons b bs s key [] cs = refl
  remaining-cons b bs s key (w ∷ ws) cs = refl

  unwait-at :
      (bs : List Entry) (s : Ptr) (key : ℕ) (us vs : List Ptr) (cs : List Entry)
      → NotWaiting q bs
      → NotIn q us
      → unwait q (view (bs ++ entry s key (us ++ q ∷ vs) ∷ cs))
        ≡ view (remaining bs s key (us ++ vs) cs)
  unfolding unwait
  unwait-at [] s key us vs cs out new =
      rw (is_in-at q us vs, without-at q us vs new) (put_queue-remaining s key (us ++ vs) cs)
  unwait-at (b ∷ bs) s key us vs cs out new = rw (is_in-NotIn q b.waiting out.0) (
      ap (λ t. (b.key, b.waiting) ∷ t) (unwait-at bs s key us vs cs out.1 new)
      ∙ ap view (remaining-cons b bs s key (us ++ vs) cs))

module _ (a : Arch) (wait : Ptr → ℤ) (q : Ptr) (mem : ℕ → ℕ) (n : ℤ) where
  pub bury-NotWaiting :
      (es : List Entry)
      → NotWaiting q es
      → bury a wait q (tolls (view es) mem n) ≡ tolls (view es) mem n
  unfolding bury released
  bury-NotWaiting es out = rw (queue_of-NotWaiting q es out) refl

  pub bury-at :
      (bs : List Entry) (s : Ptr) (key : ℕ) (us vs : List Ptr) (cs : List Entry)
      → NotWaiting q bs
      → NotIn q us
      → bury a wait q (tolls (view (bs ++ entry s key (us ++ q ∷ vs) ∷ cs)) mem n)
        ≡ tolls (view (remaining bs s key (us ++ vs) cs)) (returned a key (wait q) mem) (n -ℤ pos 1)
  unfolding bury released
  bury-at bs s key us vs cs out new =
      rw (queue_of-at q bs s key us vs cs out, unwait-at q bs s key us vs cs out new) refl

-- All of `qs` wait no more, one after the other.
pub bury_all : Arch → (Ptr → ℤ) → List Ptr → Tolls → Tolls
unfolding bury
bury_all a wait [] t = t
bury_all a wait (q ∷ qs) t = bury_all a wait qs (bury a wait q t)

pub bury_all-append :
    (a : Arch) (wait : Ptr → ℤ) (qs rs : List Ptr) (t : Tolls)
    → bury_all a wait (qs ++ rs) t ≡ bury_all a wait rs (bury_all a wait qs t)
unfolding bury_all
bury_all-append a wait [] rs t = refl
bury_all-append a wait (q ∷ qs) rs t = bury_all-append a wait qs rs (bury a wait q t)

pub bury_all-one :
    (a : Arch) (wait : Ptr → ℤ) (q : Ptr) (t : Tolls) → bury_all a wait (q ∷ []) t ≡ bury a wait q t
unfolding bury_all
bury_all-one a wait q t = refl

pub bury_all-nobody : (a : Arch) (wait : Ptr → ℤ) (t : Tolls) → bury_all a wait [] t ≡ t
unfolding bury_all
bury_all-nobody a wait t = refl
