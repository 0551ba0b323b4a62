-- ===== src/Syscall/Process/Unblock.antt =====
-- unblock: a process that is killed leaves the queue of its semaphore, if it waits for one.
use jae_os.Prelude.{
  ℕ, ◌≡◌, ◌≢◌, refl, sym, ap, ◌∙◌, subst, Bool-cases, eq_cases, inl, inr, List, [], ◌∷◌, ◌++◌, Ptr,
  null, All-append_left, All-map, All-both, All-at, All-drop, All-insert, NotIn, NotIn-cases,
  Distinct-NotIn, ==_ne, if◌then◌else◌,
}
use jae_os.Prelude.Int.{ℤ, pos, ◌-ℤ◌, sub_int}
use jae_os.Arch.{Arch}
use jae_os.Clist.Ring.{Ring-frame, Ring-Distinct, Ring-nonnull}
use jae_os.Pcb.Alloc.{Free}
use jae_os.Pcb.Queue.{LinksOnly}
use jae_os.Asl.{Tables}
use jae_os.Asl.View.{Entry, Holds, IsAsl}
use jae_os.Asl.Find.{descriptors_ne}
use jae_os.Asl.Insert.{NotWaiting}
use jae_os.Asl.Release.{entry, Left}
use jae_os.Asl.Out.{out_blocked-Left}
use jae_os.Asl.Woken.{
  remaining, freed, Outside, Outside-remaining, All-remaining, Left-IsAsl, woken-NotWaiting,
}
use jae_os.Asl.Spec.{view}
use jae_os.Kernel.{Kernel, ◌>>=◌, skip, read_int, write_int}
use jae_os.Kernel.Runs.{
  Proceeds, proceeds, Proceeds-bind, nonnull-Proceeds, from_run-Proceeds, read_int-Proceeds,
}
use jae_os.Syscall.Process.{unblock, is_device_sem}
use jae_os.Syscall.Process.Bury.{tolls, bury, bury-NotWaiting, bury-at, returned}

-- Where `q` waits.
pub data Position (q : Ptr) (es : List Entry) : Type 0 where
  nowhere : NotWaiting q es → Position q es
  waits_in :
      (bs : List Entry) (s : Ptr) (key : ℕ) (us vs : List Ptr) (cs : List Entry)
      → es ≡ bs ++ entry s key (us ++ q ∷ vs) ∷ cs
      → NotWaiting q bs
      → Position q es

position : (q : Ptr) (es : List Entry) → Position q es
position q [] = nowhere tt
position q (e ∷ es) = elim (NotIn-cases q e.waiting) [
  | inr (us, vs, is) ↦
      waits_in [] e.semd e.key us vs es (ap (λ ws. entry e.semd e.key ws ∷ es) is) tt
  | inl out ↦ elim (position q es) [
    | nowhere rest ↦ nowhere (out, rest)
    | waits_in bs s key us vs cs eq rest ↦
        waits_in (e ∷ bs) s key us vs cs (ap (◌∷◌ e) eq) (out, rest)
  ]
]

-- A process that names a semaphore waits for it.
abbrev pub Named : Kernel → List Entry → Ptr → Type 0
Named k es q = k.tables.procs.p_cursem q ≢ null → NotWaiting q es → ⊥

-- The queue link of `p` is the same.
abbrev pub SameLink : Kernel → Kernel → Ptr → Type 0
SameLink k k' p = k'.tables.procs.p_list p ≡ k.tables.procs.p_list p

-- `q` waits no more: the list has the entries `es'`, and the queues, the memory and the count of
-- blocked processes are as `bury` says. Of the descriptors only queue links have changed, and none of
-- the free ones.
pub record Unblocked (a : Arch) (q : Ptr) (es es' : List Entry) (fs' free : List Ptr)
    (k k' : Kernel) : Type 0 where
  pub asl : IsAsl k'.tables es' fs'
  pub tolls_are :
      tolls (view es') k'.machine.memory k'.soft_block_count
      ≡ bury a k.tables.procs.res_wait q (tolls (view es) k.machine.memory k.soft_block_count)
  pub free_kept : Free k'.tables.procs free
  pub outside : Outside free es'
  pub gone : NotWaiting q es'
  pub kept : (p : Ptr) → p ≢ q → NotWaiting p es' → NotWaiting p es
  pub idle : (p : Ptr) → NotWaiting p es → SameLink k k' p × NotWaiting p es'
  pub rest : k' ≡ record k {
    tables = k'.tables;
    soft_block_count = k'.soft_block_count;
    machine = record k.machine { memory = k'.machine.memory };
  }
  pub procs : k'.tables.procs ≡ record k.tables.procs { p_list = k'.tables.procs.p_list }

-- A process that names no semaphore waits for none.
null-NotWaiting :
    (k : Kernel) (es : List Entry) (fs : List Ptr) (q : Ptr)
    → IsAsl k.tables es fs
    → k.tables.procs.p_cursem q ≡ null
    → NotWaiting q es
null-NotWaiting k es fs q a is =
    All-both _ _ _ es
      (λ e (h : Holds k.tables e) ne.
        All-map _ _ e.waiting (λ y c d. ne (sym c ∙ ap k.tables.procs.p_cursem d ∙ is)) h.cursem)
      a.table.holds (descriptors_ne k.tables es fs a.table)

-- Who waits after `q` has gone waited before.
still_waiting :
    (q p : Ptr) (bs : List Entry) (s : Ptr) (key : ℕ) (us vs : List Ptr) (cs : List Entry)
    → p ≢ q
    → NotWaiting p (remaining bs s key (us ++ vs) cs)
    → NotWaiting p (bs ++ entry s key (us ++ q ∷ vs) ∷ cs)
still_waiting q p bs s key us vs cs ne out = back us vs (us ++ vs) refl out
  where
    back :
        (us vs ws : List Ptr)
        → us ++ vs ≡ ws
        → NotWaiting p (remaining bs s key ws cs)
        → NotWaiting p (bs ++ entry s key (us ++ q ∷ vs) ∷ cs)
    back us vs [] is out =
        All-insert _ bs (entry s key (us ++ q ∷ vs)) cs
          (All-insert _ us q vs (λ d. ne (sym d)) (subst (NotIn p) (sym is) tt)) out
    back us vs (w ∷ ws) is out =
        All-insert _ bs (entry s key (us ++ q ∷ vs)) cs
          (All-insert _ us q vs (λ d. ne (sym d))
            (subst (NotIn p) (sym is) (All-at _ bs (entry s key (w ∷ ws)) cs out)))
          (All-drop _ bs (entry s key (w ∷ ws)) cs out)

-- The nucleus when what `q` has asked for has gone back to the semaphore `key`.
abbrev repaid : Arch → ℕ → ℤ → Kernel → Kernel
repaid a key w k = record k {
  machine = record k.machine { memory = returned a key w k.machine.memory };
}

module _ (a : Arch) (k : Kernel) where
  repay :
      (key : ℕ) (w : ℤ)
      → key ≢ null
      → Proceeds
          (λ _ k'. k' ≡ repaid a key w k)
          ((if is_device_sem a key
              then skip
              else (read_int key >>= λ value. write_int key (sub_int value w)))
            k)
  repay key w kne = elim (Bool-cases (is_device_sem a key)) [
    | inl e ↦ rw e (proceeds refl)
    | inr e ↦ rw e (
        Proceeds-bind (read_int-Proceeds key k kne)
          λ v _ (e1, e2). rw (e1, e2, ==_ne key null kne) (proceeds refl))
  ]

  module _ (free : List Ptr) (ring : Free k.tables.procs free) (fs : List Ptr) where
    -- The state after outBlocked, in the list with the entries around that of `q`.
    Unblocked-there :
        (bs : List Entry) (s : Ptr) (key : ℕ) (us : List Ptr) (q : Ptr) (vs : List Ptr)
        (cs : List Entry) (m : Tables)
        → (let es = bs ++ entry s key (us ++ q ∷ vs) ∷ cs in
            IsAsl k.tables es fs
            → NotWaiting q bs
            → Outside free es
            → Left m bs s key (us ++ vs) cs fs
            → LinksOnly (us ++ q ∷ vs) k.tables.procs m.procs
            → Unblocked a q es
                (remaining bs s key (us ++ vs) cs)
                (freed s (us ++ vs) fs)
                free
                k
                (record (repaid a key (k.tables.procs.res_wait q) k) {
                  tables = m;
                  soft_block_count = k.soft_block_count -ℤ pos 1;
                }))
    Unblocked-there bs s key us q vs cs m i before out left only =
        let e = entry s key (us ++ q ∷ vs) in
        let h : Holds k.tables e = All-at _ bs e cs i.table.holds in
        let new = All-append_left _ us vs (Distinct-NotIn us q vs (Ring-Distinct _ _ h.ring)) in
        record {
          asl = Left-IsAsl bs s key cs m (us ++ vs) fs left;
          tolls_are = sym (
              bury-at a k.tables.procs.res_wait q k.machine.memory k.soft_block_count bs s key us vs
                cs before new);
          free_kept =
              rw only.rest
                (Ring-frame _ _ free refl (All-map _ _ free only.same (All-at _ bs e cs out)) ring);
          outside = Outside-remaining bs s key cs free us q vs out;
          gone = woken-NotWaiting bs s key cs k.tables us q vs fs i.table;
          kept = λ p ne n. still_waiting q p bs s key us vs cs ne n;
          idle = λ p n. (
            only.same p (All-at _ bs e cs n),
            All-remaining bs s key cs _ (us ++ vs) (All-drop _ us q vs (All-at _ bs e cs n))
                (All-drop _ bs e cs n),
          );
          rest = refl;
          procs = only.rest;
        }

    abbrev Unblocks : Ptr → List Entry → Kernel → Type 0
    Unblocks q es k' = (es' : List Entry) × (fs' : List Ptr) × Unblocked a q es es' fs' free k k'

    unblock-waits :
        (bs : List Entry) (s : Ptr) (key : ℕ) (us : List Ptr) (q : Ptr) (vs : List Ptr)
        (cs : List Entry)
        → (let es = bs ++ entry s key (us ++ q ∷ vs) ∷ cs in
            IsAsl k.tables es fs
            → NotWaiting q bs
            → Outside free es
            → Proceeds (λ _ k'. Unblocks q es k') (unblock a q k))
    unfolding unblock
    unblock-waits bs s key us q vs cs i before out =
        let e = entry s key (us ++ q ∷ vs) in
        let h : Holds k.tables e = All-at _ bs e cs i.table.holds in
        let ne : q ≢ null = All-at _ us q vs (Ring-nonnull _ _ h.ring) in
        let s_ne : s ≢ null = All-at _ bs e cs (descriptors_ne k.tables _ fs i.table) in
        let w = k.tables.procs.res_wait q in
        nonnull-Proceeds q ne _ _ (
          rw (All-at _ us q vs h.cursem, ==_ne s null s_ne)
            (nonnull-Proceeds q ne _ _ (
              rw h.key_is (
                Proceeds-bind (repay key w h.key_ne) λ _ k1 e1. rw e1 (
                  Proceeds-bind
                    (from_run-Proceeds {A = Ptr × Tables} (λ r k. record k { tables = r.1 })
                      (λ r. r.0) (repaid a key w k)
                      (out_blocked-Left k.tables bs s key cs fs us q vs i))
                    λ _ k2 ((_, m), (_, left, only), _, e2). rw e2 (
                      proceeds (
                        remaining bs s key (us ++ vs) cs,
                        freed s (us ++ vs) fs,
                        Unblocked-there bs s key us q vs cs m i before out left only,
                      )))))))

    unblock-nobody :
        (q : Ptr) (es : List Entry)
        → IsAsl k.tables es fs
        → q ≢ null
        → k.tables.procs.p_cursem q ≡ null
        → Outside free es
        → Proceeds (λ _ k'. Unblocks q es k') (unblock a q k)
    unfolding unblock
    unblock-nobody q es i ne is out =
        let gone = null-NotWaiting k es fs q i is in
        nonnull-Proceeds q ne _ _ (
          rw is (
            proceeds (
              es,
              fs,
              record {
                asl = i;
                tolls_are = sym (
                    bury-NotWaiting a k.tables.procs.res_wait q k.machine.memory k.soft_block_count
                      es gone);
                free_kept = ring;
                outside = out;
                gone = gone;
                kept = λ p _ n. n;
                idle = λ p n. (refl, n);
                rest = refl;
                procs = refl;
              },
            )))

    pub unblock-Unblocked :
        (q : Ptr) (es : List Entry)
        → IsAsl k.tables es fs
        → q ≢ null
        → Named k es q
        → Outside free es
        → Proceeds (λ _ k'. Unblocks q es k') (unblock a q k)
    unblock-Unblocked q es i ne named out = elim (eq_cases (k.tables.procs.p_cursem q) null) [
      | inl is ↦ unblock-nobody q es i ne is out
      | inr waits ↦ elim (position q es) [
        | nowhere n ↦ absurd (named waits n)
        | waits_in bs s key us vs cs eq before ↦
            subst (λ zs. Proceeds (λ _ k'. Unblocks q zs k') (unblock a q k)) (sym eq)
              (unblock-waits bs s key us q vs cs (subst (λ zs. IsAsl k.tables zs fs) eq i) before
                (subst (Outside free) eq out))
      ]
    ]
