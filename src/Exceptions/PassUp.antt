-- ===== src/Exceptions/PassUp.antt =====
-- Passing an exception up: what the three handlers of source/exceptions.c do for a process that has
-- a handler of its own.
use jae_os.Prelude.{
  ◌≡◌, refl, ap, ◌∙◌, sym, ℕ, suc, ◌≢◌, Ptr, null, update, subst, update_same, update_again,
  update_self,
}
use jae_os.Prelude.Int.{add_word, sub_word}
use jae_os.Const.{State}
use jae_os.Arch.{Arch}
use jae_os.Kernel.{Kernel, K, Exit, ldst, ◌>>◌, get_tod_lo}
use jae_os.Kernel.Runs.{Leaves, leaves, nonnull-Leaves}
use jae_os.Scheduler.Ready.{enable}
use jae_os.Syscall.Handlers.{copy_state, set_area}
use jae_os.Exceptions.{charge_kernel_time, pass_up}

-- The areas of the process when the exception has been stored in `old` and the parameters in `new`.
abbrev pub handed : Arch → ℕ → ℕ → State → (State → State) → (ℕ → State) → ℕ → State
handed a old new state f areas =
    let stored = update areas old state in
    let given = update stored new (f (stored new)) in update given new (enable a (given new))

-- Control goes to the handler that the current process `p` has given in its area `new`. The area
-- `old` has the state in which the exception arose, the time since the nucleus was entered is charged
-- to the process, and nothing else has changed but the reading of the clock.
pub record PassedUp (a : Arch) (old new : ℕ) (state : State) (f : State → State) (k : Kernel)
    (e : Exit) (k' : Kernel) : Type 0 where
  pub exit :
      e ≡ ldst (enable a (f (update (k.tables.procs.oldnew_areas k.current_process) old state new)))
  pub kernel : k' ≡ record k {
    tables = record k.tables {
      procs = record k.tables.procs {
        oldnew_areas =
            update k.tables.procs.oldnew_areas k.current_process
              (handed a old new state f (k.tables.procs.oldnew_areas k.current_process));
        kernel_time = update k.tables.procs.kernel_time k.current_process (
            add_word
              (k.tables.procs.kernel_time k.current_process)
              (sub_word (k.machine.clock k.machine.reads) k.kernel_start));
      };
    };
    machine = record k.machine { reads = suc k.machine.reads };
  }

-- The nucleus with other areas and times of processes.
abbrev charging : (Ptr → ℕ → State) → (Ptr → ℕ) → ℕ → Kernel → Kernel
charging g t r k = record k {
  tables = record k.tables { procs = record k.tables.procs { oldnew_areas = g; kernel_time = t } };
  machine = record k.machine { reads = r };
}

module _ (a : Arch) (k : Kernel) (ne : k.current_process ≢ null) (g : Ptr → ℕ → State) where
  -- The areas of the current process are `areas`.
  abbrev with_areas : (ℕ → State) → (Ptr → ℕ) → ℕ → Kernel
  with_areas areas t r = charging (update g k.current_process areas) t r k

  set_again :
      (areas : ℕ → State) (i : ℕ) (f : State → State)
      → (let h = update g k.current_process areas in
          update h k.current_process (update (h k.current_process) i (f (h k.current_process i)))
          ≡ update g k.current_process (update areas i (f (areas i))))
  set_again areas i f =
      update_again g k.current_process areas _
      ∙ ap (λ x. update g k.current_process (update x i (f (x i))))
          (update_self g k.current_process areas)

  set_area-charging :
      {Q : Exit → Kernel → Type 0} (areas : ℕ → State) (t : Ptr → ℕ) (r i : ℕ) (f : State → State)
      (m : K (Unit {0}))
      → Leaves Q (m (with_areas (update areas i (f (areas i))) t r))
      → Leaves Q ((set_area k.current_process i f >> m) (with_areas areas t r))
  set_area-charging {Q = Q} areas t r i f m h =
      nonnull-Leaves k.current_process ne _ _
        (subst (λ x. Leaves Q (m (charging x t r k))) (sym (set_again areas i f)) h)

  abbrev charged : (Ptr → ℕ) → ℕ → Ptr → ℕ
  charged t r =
      update t k.current_process
        (add_word (t k.current_process) (sub_word (k.machine.clock r) k.kernel_start))

  charge-charging :
      {Q : Exit → Kernel → Type 0} (areas : ℕ → State) (t : Ptr → ℕ) (r : ℕ) (m : K (Unit {0}))
      → Leaves Q (m (with_areas areas (charged t r) (suc r)))
      → Leaves Q ((charge_kernel_time >> m) (with_areas areas t r))
  unfolding get_tod_lo
  charge-charging areas t r m h = nonnull-Leaves k.current_process ne _ _ h

  pass_up-charging :
      {Q : Exit → Kernel → Type 0} (areas : ℕ → State) (t : Ptr → ℕ) (r new : ℕ)
      → Q (ldst (enable a (areas new))) (with_areas (update areas new (enable a (areas new))) t r)
      → Leaves Q (pass_up a new (with_areas areas t r))
  pass_up-charging {Q = Q} areas t r new q = set_area-charging {Q = Q} areas t r new (enable a) _ (
      nonnull-Leaves k.current_process ne _ _ (
        leaves (
          subst (λ x. Q (ldst x) (with_areas (update areas new (enable a (areas new))) t r))
            (sym (
              ap (λ (x : ℕ → State). x new) (update_self g k.current_process _)
              ∙ update_self areas new _))
            q)))

-- The statements with which each of the three handlers ends.
abbrev pub hand_over : Arch → ℕ → ℕ → State → (State → State) → K (Unit {0})
hand_over a old new state f k =
    (do
      set_area k.current_process old (λ area. copy_state area state)
      set_area k.current_process new f
      charge_kernel_time
      pass_up a new)
      k

module _ (a : Arch) (old new : ℕ) (state : State) (f : State → State) where
  pub hand_over-PassedUp :
      (k : Kernel)
      → k.current_process ≢ null
      → Leaves (PassedUp a old new state f k) (hand_over a old new state f k)
  unfolding copy_state
  hand_over-PassedUp k ne =
      let p = k.current_process in
      let m = k.tables.procs in
      let g = m.oldnew_areas in
      let here = update_same g p in
      let stored = update (g p) old state in
      let Q : Exit → Kernel → Type 0 = λ e k'. PassedUp a old new state f k e k' in
      subst
        (λ x. Leaves Q (hand_over a old new state f (charging x m.kernel_time k.machine.reads k)))
        here
        (set_area-charging a k ne g {Q = Q} (g p) m.kernel_time k.machine.reads old (λ _. state) _
          (set_area-charging a k ne g {Q = Q} stored m.kernel_time k.machine.reads new f _ (
            charge-charging a k ne g {Q = Q} (update stored new (f (stored new))) m.kernel_time
              k.machine.reads _
              (pass_up-charging a k ne g {Q = Q} (update stored new (f (stored new)))
                (charged a k ne g m.kernel_time k.machine.reads) (suc k.machine.reads) new
                (record {
                  exit = ap (λ s. ldst (enable a s)) (update_self stored new (f (stored new)));
                  kernel = refl;
                })))))
