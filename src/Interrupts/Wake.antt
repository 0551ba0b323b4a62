-- ===== src/Interrupts/Wake.antt =====
-- The devices in source/interrupts.c: who waits for a device gets its status and goes on.
use jae_os.Prelude.{
  ◌≡◌, refl, ap, ◌∙◌, subst, ℕ, zero, suc, ◌+◌, ◌*◌, ◌≢◌, true, List, [], ◌∷◌, arith, Ptr, ok, null,
  All-All, length, update, NotIn,
}
use jae_os.Prelude.Int.{pos, ltb_ℤ}
use jae_os.Prelude.Small.{minus}
use jae_os.Arch.{Arch, device_sem_at}
use jae_os.Asl.{head_blocked}
use jae_os.Asl.View.{Entry}
use jae_os.Asl.Spec.{view}
use jae_os.Asl.Woken.{procs-IsAsl}
use jae_os.Asl.Waiting.{waiting_for, first-waiting_for}
use jae_os.Pcb.Queue.{head_or_null}
use jae_os.Asl.Refine.{head_blocked-refines}
use jae_os.Kernel.{K, modify, set_procs, Kernel, Step, null_pointer, ◌>>◌}
use jae_os.Kernel.Runs.{
  Proceeds, proceeds, Proceeds-bind, nonnull-Proceeds, read_int-Proceeds, asks_eq, asks-Proceeds,
  read_int_eq,
}
use jae_os.Syscall.Semaphore.Passeren.{set_value}
use jae_os.Syscall.Semaphore.Wakes.{Queues, Woke}
use jae_os.Syscall.Semaphore.Units.{IsUnit, waiting-nonnull, semaphore_operation-unit}
use jae_os.Interrupts.{wake_waiting, dev_handler, find_dnum}

-- The process has the status of the device in its register a1.
abbrev pub answered : Ptr → ℕ → Kernel → Kernel
answered w status k =
    let m = k.tables.procs in
    set_procs (record m { p_s = update m.p_s w (record (m.p_s w) { a1 = status }) }) k

answered-Queues :
    (k : Kernel) (es : List Entry) (fs xs : List Ptr) (w : Ptr) (status : ℕ)
    → Queues k es fs xs
    → Queues (answered w status k) es fs xs
answered-Queues k es fs xs w status q = record {
  asl =
      procs-IsAsl k.tables (answered w status k).tables.procs es fs q.asl
        (All-All _ es (λ e. (All-All _ e.waiting (λ p. refl), All-All _ e.waiting (λ p. refl))));
  ready = q.ready;
  outside = q.outside;
}

-- What it comes to when `ws` wait for a device.
abbrev pub AfterWake : List Ptr → ℕ → List Entry → List Ptr → ℕ → Kernel → Step (Unit {0}) → Type 0
AfterWake [] sem es xs status k s = s ≡ null_pointer
AfterWake (w ∷ ws) sem es xs status k s =
    Proceeds
      (λ _ k'.
        Woke sem (view es) xs (w ∷ []) ws (set_value sem (minus (length ws)) (answered w status k))
          k')
      s

module _ (a : Arch) (sem : ℕ) (status : ℕ) (k : Kernel) (es : List Entry) (fs xs : List Ptr)
    (q : Queues k es fs xs) (sne : sem ≢ null) where
  below_one : (n : ℕ) → ltb_ℤ (minus n) (pos 1) ≡ true
  below_one zero = refl
  below_one (suc n) = ground arith

  head_of :
      (ws : List Ptr)
      → waiting_for sem (view es) ≡ ws
      → head_blocked sem k.tables ≡ ok (head_or_null ws)
  head_of ws is =
      head_blocked-refines k.tables es fs q.asl sem sne
      ∙ ap ok (first-waiting_for sem (view es) ∙ ap head_or_null is)

  wake_waiting-at :
      (ws : List Ptr)
      → waiting_for sem (view es) ≡ ws
      → IsUnit k sem ws
      → AfterWake ws sem es xs status k (wake_waiting a sem status k)
  unfolding wake_waiting
  wake_waiting-at [] is unit =
      read_int_eq sem k _ sne (rw unit.value (asks_eq (head_blocked sem) k _ (head_of [] is) refl))
  wake_waiting-at (w ∷ ws) is unit = Proceeds-bind (read_int-Proceeds sem k sne) λ v _ (e, e1).
      rw (e, e1, unit.value, below_one (suc (length ws)))
        (Proceeds-bind (asks-Proceeds (head_blocked sem) k (head_of (w ∷ ws) is)) λ tmp _ (t, e2).
          rw (t, e2)
            (nonnull-Proceeds w (subst (NotIn null) is (waiting-nonnull k sem es fs xs q)).0 _ _ (
              semaphore_operation-unit a (answered w status k) sem es fs xs w ws
                (answered-Queues k es fs xs w status q) sne is
                (record { value = unit.value; wants = unit.wants }))))

abbrev pub acknowledged : Arch → ℕ → Kernel → Kernel
acknowledged a reg k = record k {
  machine = record k.machine { dtp_command = update k.machine.dtp_command reg a.dev_c_ack };
}

-- The same, and then the device is told that its interrupt has been seen.
abbrev pub AfterDevice :
    Arch → ℕ → List Ptr → ℕ → List Entry → List Ptr → ℕ → Kernel → Step (Unit {0}) → Type 0
AfterDevice a reg [] sem es xs status k s = s ≡ null_pointer
AfterDevice a reg (w ∷ ws) sem es xs status k s =
    Proceeds
      (λ _ k'.
        (k1 : Kernel) × Woke sem (view es) xs (w ∷ []) ws
          (set_value sem (minus (length ws)) (answered w status k)) k1
        × (k' ≡ acknowledged a reg k1))
      s

module _ (a : Arch) (int_type : ℕ) (k : Kernel) where
  -- The first device of the line that is pending, its register and its semaphore.
  abbrev pub device : ℕ
  device = find_dnum (k.machine.memory (a.cdev_bitmap_addr int_type))

  abbrev pub device_reg : ℕ
  device_reg = a.dev_reg_addr int_type device

  abbrev pub device_key : ℕ
  device_key = device_sem_at a (a.ext_il_index int_type * a.dev_per_int + device)

  then_ack :
      (ws : List Ptr) (sem : ℕ) (es : List Entry) (xs : List Ptr) (status reg : ℕ)
      (m : K (Unit {0}))
      → AfterWake ws sem es xs status k (m k)
      → AfterDevice a reg ws sem es xs status k ((m >> modify (acknowledged a reg)) k)
  then_ack [] sem es xs status reg m h = ap (λ s. ((λ _. s) >> modify (acknowledged a reg)) k) h
  then_ack (w ∷ ws) sem es xs status reg m h =
      Proceeds-bind h λ _ k1 woke. proceeds (k1, woke, refl)

  -- The handler of a line's interrupt serves the first device that is pending. If processes wait
  -- for that device, the first of them gets the status of the device in its register a1 and goes
  -- from the semaphore to the end of the ready queue, and the device is acknowledged; if none
  -- waits, the handler writes through NULL. It is supposed that the semaphore is not at NULL, that
  -- the semaphore list and the ready queue satisfy their invariants, that nobody is in both, and
  -- that whoever waits for the device waits for one unit and is counted in its value.
  pub dev_handler-AfterDevice :
      (es : List Entry) (fs xs : List Ptr)
      → Queues k es fs xs
      → device_key ≢ null
      → IsUnit k device_key (waiting_for device_key (view es))
      → AfterDevice a device_reg
          (waiting_for device_key (view es))
          device_key
          es
          xs
          (k.machine.dtp_status device_reg)
          k
          (dev_handler a int_type k)
  unfolding dev_handler
  dev_handler-AfterDevice es fs xs q sne unit =
      then_ack (waiting_for device_key (view es)) device_key es xs (k.machine.dtp_status device_reg)
        device_reg (wake_waiting a device_key (k.machine.dtp_status device_reg))
        (wake_waiting-at a device_key (k.machine.dtp_status device_reg) k es fs xs q sne
          (waiting_for device_key (view es)) refl unit)
