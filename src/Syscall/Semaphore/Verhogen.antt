-- ===== src/Syscall/Semaphore/Verhogen.antt =====
-- The V operation in semaphore_operation of source/syscall.c: its loop, and the whole of it.
use jae_os.Prelude.{
  ◌≡◌, true, false, refl, ap, ◌∙◌, sym, subst, ℕ, zero, suc, ◌<◌, Bool-cases, inl, inr, List, [],
  ◌∷◌, ◌++◌, append_assoc, append-nil, arith, Ptr, null, All, All-map, All-at, All-append, ◌≢◌,
  NotIn, update_ne, length, ==_ne,
}
use jae_os.Prelude.Int.{ℤ, pos, add_int}
use jae_os.Clist.Ring.{Ring-nonnull, Ring-Distinct}
use jae_os.Pcb.{Procs}
use jae_os.Asl.{head_blocked}
use jae_os.Asl.View.{Entry, Holds, IsAsl, IsTable}
use jae_os.Asl.Release.{entry, Left}
use jae_os.Asl.Woken.{remaining, Outside}
use jae_os.Asl.Remove.{head_blocked-present, head_blocked-absent}
use jae_os.Kernel.{Kernel, next, ◌>>◌}
use jae_os.Kernel.Runs.{asks_eq, nonnull_eq, Proceeds, proceeds, Proceeds-bind, Proceeds-mono}
use jae_os.Scheduler.Ready.{Ready}
use jae_os.Syscall.Semaphore.{serve_loop, wake_first}
use jae_os.Syscall.Semaphore.Serve.{
  lowered, served, is_met, clear, Served, All-served, wake_first-Served,
}

served-frame :
    (r r' : Ptr → ℤ) (sum : ℤ) (ws : List Ptr)
    → All (λ w. r' w ≡ r w) ws
    → served r' sum ws ≡ served r sum ws
unfolding served
served-frame r r' sum [] same = refl
served-frame r r' sum (w ∷ ws) same =
    rw (same.0, served-frame r r' (add_int sum (r w)) ws same.1) refl

-- The loop where nobody waits for the semaphore.
pub serve_loop-absent :
    (fuel : ℕ) (k : Kernel) (key : ℕ) (bs cs : List Entry) (fs : List Ptr) (sum : ℤ)
    → IsTable k.tables (bs ++ cs) fs
    → All (λ f. f.key < key) bs
    → All (λ f. key < f.key) cs
    → serve_loop (suc fuel) key sum k ≡ next tt k
unfolding serve_loop
serve_loop-absent fuel k key bs cs fs sum t below above =
    asks_eq (head_blocked key) k _ (head_blocked-absent k.tables key bs cs fs t below above) refl

module _ (bs : List Entry) (s : Ptr) (key : ℕ) (cs : List Entry) (fs : List Ptr) where
  same_Served :
      (xs ws : List Ptr) (k : Kernel)
      → Left k.tables bs s key ws cs fs
      → Ready k xs
      → Outside xs (remaining bs s key ws cs)
      → Served bs s key cs fs xs [] ws k k
  same_Served xs ws k a ring out = record {
    rest = refl;
    procs = refl;
    links = λ q _ _ _. refl;
    asl = a;
    ready = subst (Ready k) (sym (append-nil xs)) ring;
    outside = subst (λ zs. Outside zs (remaining bs s key ws cs)) (sym (append-nil xs)) out;
  }

  -- One process, and then others.
  cons_Served :
      (xs : List Ptr) (p : Ptr) (vs woken left : List Ptr) (k k1 k2 : Kernel)
      → Served bs s key cs fs xs (p ∷ []) vs k k1
      → Served bs s key cs fs (xs ++ p ∷ []) woken left k1 k2
      → ((q : Ptr) → NotIn q woken → NotIn q left → NotIn q vs)
      → Served bs s key cs fs xs (p ∷ woken) left k k2
  cons_Served xs p vs woken left k k1 k2 one more joint = record {
    rest =
        more.rest
        ∙ ap
            (λ (j : Kernel). record j {
              tables = k2.tables;
              readyqueue = k2.readyqueue;
              soft_block_count = lowered j.soft_block_count woken;
            })
            one.rest;
    procs =
        more.procs
        ∙ ap
            (λ (ps : Procs). record ps {
              p_list = k2.tables.procs.p_list;
              p_cursem = clear null woken ps.p_cursem;
              res_wait = clear (pos 0) woken ps.res_wait;
            })
            one.procs;
    links = λ q n nl nx.
        more.links q n.1 nl (All-append _ xs (p ∷ []) nx (n.0, tt))
        ∙ one.links q (n.0, tt) (joint q n.1 nl) nx;
    asl = more.asl;
    ready = subst (Ready k2) (append_assoc xs (p ∷ []) woken) more.ready;
    outside =
        subst (λ zs. Outside zs (remaining bs s key left cs)) (append_assoc xs (p ∷ []) woken)
          more.outside;
  }

  module _ (below : All (λ f. f.key < key) bs) (above : All (λ f. key < f.key) cs) where
    -- The loop when nobody is woken any more.
    serve_loop-stops :
        (fuel : ℕ) (k : Kernel) (xs : List Ptr) (sum : ℤ) (w : Ptr) (ws : List Ptr)
        → IsAsl k.tables (bs ++ entry s key (w ∷ ws) ∷ cs) fs
        → is_met (k.tables.procs.res_wait w) sum ≡ false
        → serve_loop (suc fuel) key sum k ≡ next tt k
    unfolding serve_loop
    serve_loop-stops fuel k xs sum w ws a stop =
        let h : Holds k.tables (entry s key (w ∷ ws)) = All-at _ bs _ cs a.table.holds in
        let ne = (Ring-nonnull _ (w ∷ ws) h.ring).0 in
        asks_eq (head_blocked key) k _
          (head_blocked-present k.tables bs s key cs fs (w ∷ ws) a.table)
          (rw (==_ne w null ne) (nonnull_eq w ne _ _ (rw stop refl)))

    serve_loop-wakes :
        (fuel : ℕ) (k : Kernel) (xs : List Ptr) (sum : ℤ) (w : Ptr) (ws : List Ptr)
        → IsAsl k.tables (bs ++ entry s key (w ∷ ws) ∷ cs) fs
        → is_met (k.tables.procs.res_wait w) sum ≡ true
        → serve_loop (suc fuel) key sum k
          ≡ (wake_first w >> serve_loop fuel key (add_int sum (k.tables.procs.res_wait w))) k
    unfolding serve_loop wake_first
    serve_loop-wakes fuel k xs sum w ws a go =
        let h : Holds k.tables (entry s key (w ∷ ws)) = All-at _ bs _ cs a.table.holds in
        let ne = (Ring-nonnull _ (w ∷ ws) h.ring).0 in
        asks_eq (head_blocked key) k _
          (head_blocked-present k.tables bs s key cs fs (w ∷ ws) a.table)
          (rw (==_ne w null ne) (nonnull_eq w ne _ _ (rw go refl)))

    abbrev pub Serves : List Ptr → ℤ → List Ptr → Kernel → Kernel → Type 0
    Serves xs sum ws k k' =
        let r = served k.tables.procs.res_wait sum ws in Served bs s key cs fs xs r.0 r.1 k k'

    pub serve_loop-Served :
        (ws : List Ptr) (fuel : ℕ) (k : Kernel) (xs : List Ptr) (sum : ℤ)
        → length ws < fuel
        → Left k.tables bs s key ws cs fs
        → Ready k xs
        → Outside xs (remaining bs s key ws cs)
        → Proceeds (λ _ k'. Serves xs sum ws k k') (serve_loop fuel key sum k)
    unfolding served
    serve_loop-Served ws zero k xs sum enough a ring out = absurd (omega arith)
    serve_loop-Served [] (suc fuel) k xs sum enough a ring out =
        rw (serve_loop-absent fuel k key bs cs _ sum a.table below above)
          (proceeds (same_Served xs [] k a ring out))
    serve_loop-Served (w ∷ ws) (suc fuel) k xs sum enough a ring out =
        let r = k.tables.procs.res_wait in
        elim (Bool-cases (is_met (r w) sum)) [
          | inl go ↦
              rw (go, serve_loop-wakes fuel k xs sum w ws a go)
                (Proceeds-bind (wake_first-Served bs s key cs fs xs w ws k a ring out) λ _ k1 one.
                  Proceeds-mono
                    (serve_loop-Served ws fuel k1 (xs ++ w ∷ []) (add_int sum (r w)) (omega arith)
                      one.asl one.ready one.outside)
                    λ _ k2 more.
                      cons_Served xs w ws _ _ k k1 k2 one
                        (subst (λ t. Served bs s key cs fs (xs ++ w ∷ []) t.0 t.1 k1 k2)
                          (served-frame r k1.tables.procs.res_wait (add_int sum (r w)) ws (
                            All-map _ _ ws
                              (λ y ne.
                                ap (λ (ps : Procs). ps.res_wait y) one.procs
                                ∙ update_ne r w y (pos 0) ne)
                              (next_ones k w ws a)))
                          more)
                        λ q. All-served (λ y. y ≢ q) r (add_int sum (r w)) ws)
          | inr stop ↦
              rw (stop, serve_loop-stops fuel k xs sum w ws a stop)
                (proceeds (same_Served xs (w ∷ ws) k a ring out))
        ]
      where
        next_ones :
            (k : Kernel) (w : Ptr) (ws : List Ptr)
            → IsAsl k.tables (bs ++ entry s key (w ∷ ws) ∷ cs) fs
            → NotIn w ws
        next_ones k w ws a =
            let h : Holds k.tables (entry s key (w ∷ ws)) = All-at _ bs _ cs a.table.holds in
            (Ring-Distinct _ _ h.ring).0
