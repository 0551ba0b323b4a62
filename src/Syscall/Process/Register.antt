-- ===== src/Syscall/Process/Register.antt =====
-- The second half of create_process in source/syscall.c: the child gets its id and becomes ready.
use jae_os.Prelude.{
  ◌≡◌, ◌≢◌, refl, ap, ◌∙◌, ℕ, ◌+◌, ◌*◌, ◌^◌, ◌%◌, ◌≤◌, List, [], ◌∷◌, ◌++◌, Ptr, null, NotIn,
  update, update_self, ==_ne,
}
use jae_os.Prelude.Int.{pos, ◌+ℤ◌}
use jae_os.Pcb.{Procs}
use jae_os.Pcb.Queue.{insert_proc_q-append}
use jae_os.Kernel.{
  Kernel, K, ◌>>=◌, ◌>>◌, proc, gets, asks, set_proc, set_procs, modify, incr_process_count,
}
use jae_os.Kernel.Runs.{
  Proceeds, proceeds, Proceeds-bind, nonnull-Proceeds, asks-Proceeds, from_run-Proceeds,
}
use jae_os.Scheduler.{insert_ready, put_ready}
use jae_os.Scheduler.Ready.{Ready}
use jae_os.Syscall.Pid.{pid_generator}
use jae_os.Syscall.Pid.Digits.{HasDigits, pid_generator-digits}

-- The digits of `y`, of which there are n + 1, behind those of `x`.
abbrev pub joined_id : ℕ → ℕ → ℕ → ℕ
joined_id x y n = (x * 10 ^ (n + 1) + y) % 2 ^ 32

abbrev pub register : Ptr → K ℕ
register child = do
  x ← proc (λ m. m.pid) child
  y ← gets (λ k. k.counter)
  id ← asks (λ _. pid_generator x y)
  set_proc child (λ m. record m { pid = update m.pid child id })
  modify (λ k. record k { counter = (k.counter + 1) % 2 ^ 32 })
  insert_ready child
  incr_process_count
  proc (λ m. m.pid) child

-- The child is the last of the ready processes, and is counted.
pub record Registered (x id : ℕ) (rs : List Ptr) (k : Kernel) (r : ℕ) (k' : Kernel) : Type 0 where
  pub result : r ≡ id
  pub ready : Ready k' (rs ++ x ∷ [])
  pub procs : k'.tables.procs ≡ record k.tables.procs {
    p_list = k'.tables.procs.p_list;
    pid = update k.tables.procs.pid x id;
  }
  pub links : (q : Ptr) → NotIn q (x ∷ rs) → k'.tables.procs.p_list q ≡ k.tables.procs.p_list q
  pub rest : k' ≡ record k {
    tables = record k.tables { procs = k'.tables.procs };
    readyqueue = k'.readyqueue;
    counter = (k.counter + 1) % 2 ^ 32;
    process_count = k.process_count +ℤ pos 1;
  }

module _ (x : Ptr) (ne : x ≢ null) (rs : List Ptr) (new : NotIn x rs) where
  -- The nucleus with the child's id, before it is ready.
  abbrev with_id : ℕ → Kernel → Kernel
  with_id id k =
      record (set_procs (record k.tables.procs { pid = update k.tables.procs.pid x id }) k) {
        counter = (k.counter + 1) % 2 ^ 32;
      }

  pub register-Registered :
      (k : Kernel) (n : ℕ)
      → Ready k rs
      → n ≤ 8
      → HasDigits k.counter n
      → Proceeds (Registered x (joined_id (k.tables.procs.pid x) k.counter n) rs k) (register x k)
  register-Registered k n ring few digits =
      let id = joined_id (k.tables.procs.pid x) k.counter n in
      nonnull-Proceeds x ne _ _ (
        Proceeds-bind
          (asks-Proceeds (λ _. pid_generator (k.tables.procs.pid x) k.counter) k
            (pid_generator-digits (k.tables.procs.pid x) k.counter n few digits))
          λ i _ (e, e1).
            rw (e, e1)
              (nonnull-Proceeds x ne _ _ (
                Proceeds-bind
                  (from_run-Proceeds (λ r. put_ready r.0 r.1) (λ _. tt) (with_id id k)
                    (insert_proc_q-append (with_id id k).tables.procs k.readyqueue rs ring x ne
                      new))
                  λ _ k' ((q, m), (ring2, only), _, e2).
                    rw (e2, ==_ne x null ne)
                      (proceeds record {
                        result =
                            ap (λ (ps : Procs). ps.pid x) only.rest
                            ∙ update_self k.tables.procs.pid x id;
                        ready = ring2;
                        procs = only.rest;
                        links = only.same;
                        rest = refl;
                      }))))
