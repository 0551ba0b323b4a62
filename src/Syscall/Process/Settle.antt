-- ===== src/Syscall/Process/Settle.antt =====
-- create_process in source/syscall.c, from the descriptor that it gets on.
use jae_os.Prelude.{
  ◌≡◌, ◌≢◌, refl, sym, ap, ◌∙◌, ℕ, ◌+◌, ◌%◌, ◌^◌, ◌≤◌, List, [], ◌∷◌, ◌++◌, Ptr, null, NotIn,
  All-All, update,
}
use jae_os.Prelude.Int.{pos, ◌+ℤ◌}
use jae_os.Const.{State}
use jae_os.Arch.{Arch}
use jae_os.Clist.Ring.{Ring-frame}
use jae_os.Pcb.{Procs, insert_child}
use jae_os.Pcb.Tree.{IsChildren, TreeOnly, insert_child-append}
use jae_os.Kernel.{Kernel, K, ◌>>=◌, ◌>>◌, set_proc, set_procs, on_procs_only, current}
use jae_os.Kernel.Runs.{Proceeds, Proceeds-bind, Proceeds-mono, nonnull-Proceeds, from_run-Proceeds}
use jae_os.Scheduler.Ready.{Ready}
use jae_os.Syscall.Process.{state_at}
use jae_os.Syscall.Process.Family.{IsChildren-same}
use jae_os.Syscall.Process.Register.{register, Registered, joined_id, register-Registered}
use jae_os.Syscall.Pid.Digits.{HasDigits}

-- The tables with the child's times and state.
abbrev pub configured : Ptr → State → Procs → Procs
configured x s m = record m {
  kernel_time = update m.kernel_time x 0;
  global_time = update m.global_time x 0;
  p_s = update m.p_s x s;
}

-- What create_process does with the descriptor from allocPcb.
abbrev pub settle : Arch → ℕ → Ptr → K ℕ
settle a statep child = do
  set_proc child λ m. record m {
    kernel_time = update m.kernel_time child 0;
    global_time = update m.global_time child 0;
  }
  s ← state_at a statep
  set_proc child (λ m. record m { p_s = update m.p_s child s })
  parent ← current
  on_procs_only (insert_child parent child)
  register child

pub record Settled (x p id : ℕ) (s : State) (cs rs : List Ptr) (k : Kernel) (r : ℕ) (k' : Kernel)
    : Type 0 where
  pub result : r ≡ id
  pub children : IsChildren k'.tables.procs p (cs ++ x ∷ [])
  pub ready : Ready k' (rs ++ x ∷ [])
  pub procs : k'.tables.procs ≡ record (configured x s k.tables.procs) {
    p_parent = k'.tables.procs.p_parent;
    p_children = k'.tables.procs.p_children;
    p_siblings = k'.tables.procs.p_siblings;
    p_list = k'.tables.procs.p_list;
    pid = update k.tables.procs.pid x id;
  }
  pub parents : (q : Ptr) → q ≢ x → k'.tables.procs.p_parent q ≡ k.tables.procs.p_parent q
  pub siblings :
      (q : Ptr) → NotIn q (x ∷ cs) → k'.tables.procs.p_siblings q ≡ k.tables.procs.p_siblings q
  pub headers : (q : Ptr) → q ≢ p → k'.tables.procs.p_children q ≡ k.tables.procs.p_children q
  pub links : (q : Ptr) → NotIn q (x ∷ rs) → k'.tables.procs.p_list q ≡ k.tables.procs.p_list q
  pub rest : k' ≡ record k {
    tables = record k.tables { procs = k'.tables.procs };
    readyqueue = k'.readyqueue;
    counter = (k.counter + 1) % 2 ^ 32;
    process_count = k.process_count +ℤ pos 1;
  }

module _ (x : Ptr) (ne : x ≢ null) (cs rs : List Ptr) (stranger : NotIn x cs)
    (new : NotIn x rs) where
  settle-after :
      (s : State) (k : Kernel) (m' : Procs) (id r : ℕ) (k' : Kernel)
      → IsChildren m' k.current_process (cs ++ x ∷ [])
      → TreeOnly k.current_process x (x ∷ cs) (configured x s k.tables.procs) m'
      → Registered x id rs (set_procs m' k) r k'
      → Settled x k.current_process id s cs rs k r k'
  settle-after s k m' id r k' kids only g = record {
    result = g.result;
    children =
        IsChildren-same m' k'.tables.procs k.current_process (cs ++ x ∷ [])
          (ap (λ (ps : Procs). ps.p_children k.current_process) g.procs)
          (All-All _ (cs ++ x ∷ []) λ q. (
            ap (λ (ps : Procs). ps.p_siblings q) g.procs,
            ap (λ (ps : Procs). ps.p_parent q) g.procs,
          ))
          kids;
    ready = g.ready;
    procs =
        g.procs
        ∙ ap {A = Procs}
            (λ ps. record ps { p_list = k'.tables.procs.p_list; pid = update ps.pid x id })
            only.rest
        ∙ rw
            (
              ap (λ (ps : Procs). ps.p_parent) g.procs,
              ap (λ (ps : Procs). ps.p_children) g.procs,
              ap (λ (ps : Procs). ps.p_siblings) g.procs,
            )
            refl;
    parents = λ q h. ap (λ (ps : Procs). ps.p_parent q) g.procs ∙ only.parents q h;
    siblings = λ q h. ap (λ (ps : Procs). ps.p_siblings q) g.procs ∙ only.siblings q h;
    headers = λ q h. ap (λ (ps : Procs). ps.p_children q) g.procs ∙ only.headers q h;
    links = λ q h. g.links q h ∙ ap (λ (ps : Procs). ps.p_list q) only.rest;
    rest = g.rest;
  }

  pub settle-Settled :
      (a : Arch) (statep : ℕ) (k : Kernel) (n : ℕ)
      → statep ≢ null
      → k.current_process ≢ null
      → IsChildren k.tables.procs k.current_process cs
      → Ready k rs
      → n ≤ 8
      → HasDigits k.counter n
      → Proceeds
          (Settled x k.current_process
            (joined_id (k.tables.procs.pid x) k.counter n)
            (a.read_state k.machine.memory statep)
            cs
            rs
            k)
          (settle a statep x k)
  settle-Settled a statep k n statep_ne lives kids ring few digits =
      let s = a.read_state k.machine.memory statep in
      let m = configured x s k.tables.procs in
      let p = k.current_process in
      nonnull-Proceeds x ne _ _ (
        nonnull-Proceeds statep statep_ne _ _ (
          nonnull-Proceeds x ne _ _ (
            Proceeds-bind
              (from_run-Proceeds set_procs (λ _. tt) (set_procs m k)
                (insert_child-append m p lives x cs
                  (IsChildren-same k.tables.procs m p cs refl (All-All _ cs λ q. (refl, refl)) kids)
                  ne stranger))
              λ _ k' (m', (kids2, only), _, e). rw e (
                rw (sym (ap (λ (ps : Procs). ps.pid x) only.rest)) (
                  Proceeds-mono
                    (register-Registered x ne rs new (set_procs m' k) n
                      (Ring-frame _ _ rs refl
                        (All-All _ rs λ q. ap (λ (ps : Procs). ps.p_list q) only.rest) ring)
                      few digits)
                    (λ r k'' g. settle-after s k m' _ r k'' kids2 only g))))))
