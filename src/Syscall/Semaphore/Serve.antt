-- ===== src/Syscall/Semaphore/Serve.antt =====
-- Which of the waiting processes a V operation of source/syscall.c wakes, and one turn of its loop.
use jae_os.Prelude.{
  ◌≡◌, All-All, sym, refl, ap, ◌∙◌, ℕ, ◌≢◌, Bool, Bool-cases, not, ◌&&◌, inl, inr, if◌then◌else◌,
  List, [], ◌∷◌, ◌++◌, Ptr, null, All, All-map, All-both, All-at, NotIn, update, update_ne,
}
use jae_os.Prelude.Int.{ℤ, pos, ltb_ℤ, eqb_ℤ, ◌-ℤ◌, add_int, sub_int}
use jae_os.Clist.Ring.{Ring-frame, Ring-nonnull}
use jae_os.Pcb.{Procs}
use jae_os.Pcb.Queue.{Apart-sym, LinksOnly, insert_proc_q-append}
use jae_os.Asl.{Tables}
use jae_os.Asl.View.{Entry, Holds, IsAsl}
use jae_os.Asl.Insert.{NotWaiting}
use jae_os.Asl.Release.{entry, Left}
use jae_os.Asl.Woken.{
  remaining, Outside, Left-IsAsl, IsAsl-Left, Outside-append, Outside-remaining, woken-NotWaiting,
  procs-IsAsl,
}
use jae_os.Asl.Out.{out_blocked-Left}
use jae_os.Kernel.{Kernel}
use jae_os.Kernel.Runs.{Proceeds, Proceeds-bind, Proceeds-mono, nonnull-Proceeds, from_run-Proceeds}
use jae_os.Syscall.Semaphore.{wake_first}
use jae_os.Scheduler.{put_ready}
use jae_os.Scheduler.Ready.{Ready}

-- The demand `wanted` of the first process, a negative weight, is met by what is available.
abbrev pub is_met : ℤ → ℤ → Bool
is_met wanted sum = not (ltb_ℤ wanted (sub_int (pos 0) sum)) && not (eqb_ℤ sum (pos 0))

-- Of the processes `ws` that wait, in order: those that can go on with what is available, each
-- after those before it have had their share, and the others.
unfoldable pub served : (Ptr → ℤ) → ℤ → List Ptr → List Ptr × List Ptr
served wait sum [] = ([], [])
served wait sum (w ∷ ws) =
    if is_met (wait w) sum
    then (let (woken, left) = served wait (add_int sum (wait w)) ws in (w ∷ woken, left))
    else ([], w ∷ ws)

-- What all who wait satisfy, those who are woken and those who are left do.
pub served-All :
    (P : Ptr → Type 0) (wait : Ptr → ℤ) (sum : ℤ) (ws : List Ptr)
    → All P ws
    → All P (served wait sum ws).0 × All P (served wait sum ws).1
unfolding served
served-All P wait sum [] all = (tt, tt)
served-All P wait sum (w ∷ ws) all =
    let rest = served-All P wait (add_int sum (wait w)) ws all.1 in
    elim (Bool-cases (is_met (wait w) sum)) [
      | inl e ↦ rw e ((all.0, rest.0), rest.1)
      | inr e ↦ rw e (tt, all)
    ]

-- What those who are woken and those who are left satisfy, all who wait do.
pub All-served :
    (P : Ptr → Type 0) (wait : Ptr → ℤ) (sum : ℤ) (ws : List Ptr)
    → All P (served wait sum ws).0
    → All P (served wait sum ws).1
    → All P ws
unfolding served
All-served P wait sum [] = λ woken left. tt
All-served P wait sum (w ∷ ws) = elim (Bool-cases (is_met (wait w) sum)) [
  | inl e ↦ rw e λ woken left. (woken.0, All-served P wait (add_int sum (wait w)) ws woken.1 left)
  | inr e ↦ rw e λ woken left. left
]

-- `f`, cleared at each of `ps`.
abbrev pub clear : {A : Type 0} → A → List Ptr → (Ptr → A) → Ptr → A
clear a [] f = f
clear a (p ∷ ps) f = clear a ps (update f p a)

abbrev pub lowered : ℤ → List Ptr → ℤ
lowered n [] = n
lowered n (p ∷ ps) = lowered (n -ℤ pos 1) ps

-- The processes `woken` have gone from the queue of `s` to the end of the ready queue, where `xs`
-- were; `left` still wait.
pub record Served (bs : List Entry) (s : Ptr) (key : ℕ) (cs : List Entry)
    (fs xs woken left : List Ptr) (k k' : Kernel) : Type 0 where
  pub rest : k' ≡ record k {
    tables = k'.tables;
    readyqueue = k'.readyqueue;
    soft_block_count = lowered k.soft_block_count woken;
  }
  pub procs : k'.tables.procs ≡ record k.tables.procs {
    p_list = k'.tables.procs.p_list;
    p_cursem = clear null woken k.tables.procs.p_cursem;
    res_wait = clear (pos 0) woken k.tables.procs.res_wait;
  }
  pub links :
      (q : Ptr)
      → NotIn q woken
      → NotIn q left
      → NotIn q xs
      → k'.tables.procs.p_list q ≡ k.tables.procs.p_list q
  pub asl : Left k'.tables bs s key left cs fs
  pub ready : Ready k' (xs ++ woken)
  pub outside : Outside (xs ++ woken) (remaining bs s key left cs)

module _ (bs : List Entry) (s : Ptr) (key : ℕ) (cs : List Entry) (fs xs : List Ptr) (p : Ptr)
    (vs : List Ptr) (k : Kernel) where
  -- The nucleus when the process has left the queue, with the tables `m` of the list.
  abbrev let_go : Tables → Kernel
  let_go m = record k {
    tables = record m {
      procs = record m.procs {
        p_cursem = update m.procs.p_cursem p null;
        res_wait = update m.procs.res_wait p (pos 0);
      };
    };
    soft_block_count = k.soft_block_count -ℤ pos 1;
  }

  requeued :
      (m : Tables) (q : Ptr) (r : Procs)
      → LinksOnly (p ∷ vs) k.tables.procs m.procs
      → LinksOnly (p ∷ xs) (let_go m).tables.procs r
      → Left m bs s key vs cs fs
      → NotWaiting p (remaining bs s key vs cs)
      → Outside xs (remaining bs s key vs cs)
      → Ready (put_ready q r (let_go m)) (xs ++ p ∷ [])
      → Served bs s key cs fs xs (p ∷ []) vs k (put_ready q r (let_go m))
  requeued m q r only only2 left gone out ring = record {
    rest = refl;
    procs =
        only2.rest
        ∙ ap
            (λ (ps : Procs). record ps {
              p_list = r.p_list;
              p_cursem = update ps.p_cursem p null;
              res_wait = update ps.res_wait p (pos 0);
            })
            only.rest;
    links = λ y n nv nx. only2.same y (n.0, nx) ∙ only.same y (n.0, nv);
    asl = IsAsl-Left bs s key cs _ vs fs (
        procs-IsAsl (let_go m).tables r _ _
          (procs-IsAsl m (let_go m).tables.procs _ _ (Left-IsAsl bs s key cs m vs fs left) (
            All-map _ _ _
              (λ f n. (
                All-All _ f.waiting (λ q. refl),
                All-map _ _ f.waiting (λ y ne. update_ne _ p y null ne) n,
              ))
              gone))
          (All-both _ _ _ _
            (λ f n a. (
              All-both _ _ _ f.waiting (λ y ne o. only2.same y ((λ d. ne (sym d)), o)) n
                  (Apart-sym f.waiting xs a),
              All-All _ f.waiting (λ q. ap (λ (ps : Procs). ps.p_cursem q) only2.rest),
            ))
            gone out));
    ready = ring;
    outside = Outside-append xs p _ out gone;
  }

  pub wake_first-Served :
      IsAsl k.tables (bs ++ entry s key (p ∷ vs) ∷ cs) fs
      → Ready k xs
      → Outside xs (bs ++ entry s key (p ∷ vs) ∷ cs)
      → Proceeds (λ _ k'. Served bs s key cs fs xs (p ∷ []) vs k k') (wake_first p k)
  unfolding wake_first
  wake_first-Served a ring out =
      let e = entry s key (p ∷ vs) in
      let h : Holds k.tables e = All-at _ bs e cs a.table.holds in
      let ne : p ≢ null = (Ring-nonnull _ _ h.ring).0 in
      let apart = All-at _ bs e cs out in
      Proceeds-bind
        (from_run-Proceeds {A = Ptr × Tables} (λ r k. record k { tables = r.1 }) (λ r. r.0) k
          (out_blocked-Left k.tables bs s key cs fs [] p vs a))
        λ tmp k1 ((r, m), (is, left, only), e, e1).
          rw (e, is, e1)
            (nonnull-Proceeds p ne _ _ (
              nonnull-Proceeds p ne _ _ (
                Proceeds-mono
                  (from_run-Proceeds (λ r. put_ready r.0 r.1) (λ _. tt) (let_go m)
                    (insert_proc_q-append (let_go m).tables.procs k.readyqueue xs
                      (Ring-frame _ _ xs refl (All-map _ _ xs only.same apart) ring) p ne
                      (All-map _ _ xs (λ x n d. n.0 (sym d)) apart)))
                  λ _ k' ((q, r), (ring2, only2), _, e2). rw e2 (
                    requeued m q r only only2 left
                      (woken-NotWaiting bs s key cs k.tables [] p vs fs a.table)
                      (Outside-remaining bs s key cs xs [] p vs out) ring2))))
