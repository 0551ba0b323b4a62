-- ===== src/Asl/View.antt =====
-- What the active semaphore list stands for: its semaphores in ascending order, each with its
-- descriptor and the processes that wait for it, first come first.
use jae_os.Prelude.{
  ℕ, ◌+◌, ◌<◌, ◌≤◌, ◌≡◌, refl, sym, ap, ◌∙◌, subst, ◌≢◌, List, [], ◌∷◌, ◌++◌, map, Ptr, null, All,
  All-map, All-both, All-All, NotIn, length, Distinct, Distinct-NotIn, pigeonhole,
}
use mathlib.Core.List.{map-append}
use jae_os.Const.{max_proc}
use jae_os.Clist.Ring.{Ring, Ring-frame, Ring-Distinct, Ring-nonnull, Agree}
use jae_os.Pcb.{queue}
use jae_os.Pcb.Queue.{Apart}
use jae_os.Asl.{Tables, semds}

pub record Entry : Type 0 where
  pub semd : Ptr
  pub key : ℕ
  pub waiting : List Ptr

abbrev pub descriptors : List Entry → List Ptr
descriptors = map λ e. e.semd

-- The descriptor of the entry, and the queue of its processes.
pub record Holds (m : Tables) (e : Entry) : Type 0 where
  pub key_is : m.s_sem_add e.semd ≡ e.key
  pub ring : Ring (queue m.procs (m.s_procq e.semd)) e.waiting
  pub cursem : All (λ p. m.procs.p_cursem p ≡ e.semd) e.waiting
  pub valid : All (λ p. p ≤ max_proc) e.waiting
  pub key_ne : e.key ≢ null

abbrev pub Sorted : List Entry → Type 0
Sorted [] = Unit
Sorted (e ∷ es) = All (λ f. e.key < f.key) es × Sorted es

-- `es` are the entries of the list and `fs` the free descriptors. A queue may be empty.
pub record IsTable (m : Tables) (es : List Entry) (fs : List Ptr) : Type 0 where
  pub active : Ring (semds m m.aslh) (descriptors es)
  pub free : Ring (semds m m.semd_free) fs
  pub apart : Apart (descriptors es) fs
  pub holds : All (Holds m) es
  pub sorted : Sorted es
  pub bounded : length es + length fs ≤ max_proc

abbrev pub IsBusy : Entry → Type 0
IsBusy e = e.waiting ≢ []

-- The invariant of asl.c: a table in which some process waits for each active semaphore.
pub record IsAsl (m : Tables) (es : List Entry) (fs : List Ptr) : Type 0 where
  pub table : IsTable m es fs
  pub busy : All IsBusy es

-- What an entry's content rests on.
pub record SameEntry (m m' : Tables) (e : Entry) : Type 0 where
  pub key : m'.s_sem_add e.semd ≡ m.s_sem_add e.semd
  pub header : m'.s_procq e.semd ≡ m.s_procq e.semd
  pub links : Agree m'.procs.p_list m.procs.p_list e.waiting
  pub cursem : All (λ p. m'.procs.p_cursem p ≡ m.procs.p_cursem p) e.waiting

pub Holds-frame : (m m' : Tables) (e : Entry) → SameEntry m m' e → Holds m e → Holds m' e
Holds-frame m m' e same h = record {
  key_is = same.key ∙ h.key_is;
  ring = Ring-frame _ _ e.waiting same.header same.links h.ring;
  cursem = All-both _ _ _ e.waiting (λ p c d. c ∙ d) same.cursem h.cursem;
  valid = h.valid;
  key_ne = h.key_ne;
}

-- Processes that wait for different descriptors are different: each names its own.
pub Holds-Apart :
    (m : Tables) (e f : Entry) → Holds m e → Holds m f → e.semd ≢ f.semd → Apart e.waiting f.waiting
Holds-Apart m e f he hf ne =
    All-map _ _ f.waiting
      (λ y hy. All-map _ _ e.waiting (λ x hx d. ne (sym hx ∙ ap m.procs.p_cursem d ∙ hy)) he.cursem)
      hf.cursem

module _ (bs : List Entry) (e : Entry) (cs : List Entry) where
  pub descriptors-append : descriptors (bs ++ e ∷ cs) ≡ descriptors bs ++ e.semd ∷ descriptors cs
  descriptors-append = map-append _ bs (e ∷ cs)

pub All-descriptors :
    (P : Ptr → Type 0) (es : List Entry) → All P (descriptors es) → All (λ e. P e.semd) es
All-descriptors P [] h = tt
All-descriptors P (e ∷ es) h = (h.0, All-descriptors P es h.1)

-- The entries around `e` have other descriptors.
pub others_ne :
    (m : Tables) (h : Ptr) (bs : List Entry) (e : Entry) (cs : List Entry)
    → Ring (semds m h) (descriptors (bs ++ e ∷ cs))
    → All (λ f. f.semd ≢ e.semd) (bs ++ cs)
others_ne m h bs e cs ring =
    let d : Distinct (descriptors bs ++ e.semd ∷ descriptors cs) =
      subst Distinct (descriptors-append bs e cs) (Ring-Distinct _ _ ring) in
    All-descriptors (λ s. s ≢ e.semd) (bs ++ cs)
      (subst (NotIn e.semd) (sym (map-append _ bs cs))
        (Distinct-NotIn (descriptors bs) e.semd (descriptors cs) d))

-- A queue is no longer than the process table.
pub Holds-short : (m : Tables) (e : Entry) → Holds m e → length e.waiting ≤ max_proc
Holds-short m e h =
    pigeonhole max_proc e.waiting (Ring-Distinct _ _ h.ring) (Ring-nonnull _ _ h.ring) h.valid

-- What an entry holds does not rest on the links between descriptors.
pub Holds-relink :
    (m : Tables) (link : Ptr → Ptr) (h g : Ptr) (e : Entry)
    → Holds m e
    → Holds (record m { s_link = link; aslh = h; semd_free = g }) e
Holds-relink m link h g e = Holds-frame m _ e (record {
  key = refl;
  header = refl;
  links = All-All _ e.waiting (λ q. refl);
  cursem = All-All _ e.waiting (λ q. refl);
})
