-- ===== src/Exceptions/Device.antt =====
-- The service IODEVOP of syscall_handler in source/exceptions.c, with io_devop of source/syscall.c.
use jae_os.Prelude.{
  ◌≡◌, ◌≢◌, refl, ap, subst, sym, ℕ, ◌+◌, ◌*◌, ◌≤◌, List, [], eq_cases, inl, inr, true, ◌==◌,
  ==_self, ==_ne, null, update_self, All-All,
}
use jae_os.Prelude.Int.{pos, negsuc, ltb_ℤ, add_int, int_of, ◌+ℤ◌}
use jae_os.Const.{State, max_proc, load_next}
use jae_os.Arch.{Arch, device_sem_at}
use jae_os.Asl.{Tables}
use jae_os.Asl.View.{Entry, IsAsl}
use jae_os.Asl.Woken.{procs-IsAsl}
use jae_os.Asl.Insert.{NotWaiting}
use jae_os.Asl.Spec.{Waits, view, block}
use jae_os.Asl.Refine.{Implements}
use jae_os.Kernel.{Kernel, Machine}
use jae_os.Kernel.Runs.{Proceeds, proceeds, Proceeds-bind, Proceeds-mono}
use jae_os.Syscall.Semaphore.{semaphore_operation}
use jae_os.Syscall.Semaphore.Passeren.{AfterP, Stopped, set_value, passeren-AfterP}
use jae_os.Syscall.Device.{io_devop, term_read}
use jae_os.Exceptions.{dispatch_syscall}

-- The semaphore of a device.
abbrev pub sem_of : Arch → ℕ → ℕ → ℕ
sem_of a line dnum =
    device_sem_at a (a.ext_il_index line * a.dev_per_int + term_read a line dnum + dnum)

-- The value of the device's semaphore after a P operation is negative, so that the process must wait.
abbrev pub Busy : Arch → ℕ → ℕ → Kernel → Type 0
Busy a line dnum k =
    ltb_ℤ (add_int (int_of (k.machine.memory (sem_of a line dnum))) (negsuc 0)) (pos 0) ≡ true

-- The device has the command, and its status is the answer: of the half of a terminal that is meant.
pub data Commanded (a : Arch) (command line dnum : ℕ) (m m' : Machine) (status : ℕ) : Type 0 where
  transmitter :
      line ≡ a.int_terminal
      → term_read a line dnum ≡ 0
      → m'.transm_command (a.dev_reg_addr line dnum) ≡ command
      → status ≡ m.transm_status (a.dev_reg_addr line dnum)
      → Commanded a command line dnum m m' status
  receiver :
      line ≡ a.int_terminal
      → term_read a line dnum ≢ 0
      → m'.recv_command (a.dev_reg_addr line dnum) ≡ command
      → status ≡ m.recv_status (a.dev_reg_addr line dnum)
      → Commanded a command line dnum m m' status
  other_device :
      line ≢ a.int_terminal
      → m'.dtp_command (a.dev_reg_addr line dnum) ≡ command
      → status ≡ m.dtp_status (a.dev_reg_addr line dnum)
      → Commanded a command line dnum m m' status

-- The process that was current waits for the device, and finds the status in its register a1.
pub record Requested (a : Arch) (command line dnum : ℕ) (es : List Entry) (k k' : Kernel)
    : Type 0 where
  pub current : k'.current_process ≡ null
  pub flag : k'.flag ≡ load_next
  pub blocked : k'.soft_block_count ≡ k.soft_block_count +ℤ pos 1
  pub waiting : Implements k'.tables (block (sem_of a line dnum) k.current_process (view es))
  pub status :
      Commanded a command line dnum k.machine k'.machine
        ((k'.tables.procs.p_s k.current_process).a1)

test_true : (x y : ℕ) → x ≡ y → (x == y) ≡ true
test_true x y e = rw e (==_self y)

-- The list does not rest on the saved states.
states-Implements :
    (f : ℕ → State) (m : Tables) (w : Waits)
    → Implements m w
    → Implements (record m { procs = record m.procs { p_s = f } }) w
states-Implements f m w (es, fs, i, is) = (
  es,
  fs,
  procs-IsAsl m (record m.procs { p_s = f }) es fs i
      (All-All _ es λ e. (All-All _ e.waiting (λ q. refl), All-All _ e.waiting (λ q. refl))),
  is,
)

module _ (a : Arch) (command line dnum : ℕ) (k : Kernel) (es : List Entry) (fs : List ℕ)
    (i : IsAsl k.tables es fs) (lives : k.current_process ≢ null)
    (le : k.current_process ≤ max_proc) (out : NotWaiting k.current_process es) (free : fs ≢ [])
    (sem_ne : sem_of a line dnum ≢ null) (busy : Busy a line dnum k) where
  abbrev reg : ℕ
  reg = a.dev_reg_addr line dnum

  abbrev enabled : Kernel
  enabled = record k {
    machine = record k.machine { status = a.status_all_int_enable k.machine.status };
  }

  abbrev waiting_state : Kernel
  waiting_state =
      let key = sem_of a line dnum in
      set_value key (add_int (int_of (k.machine.memory key)) (negsuc 0)) enabled

  waits :
      Proceeds
        (λ _ k'. Stopped (sem_of a line dnum) es waiting_state k')
        (semaphore_operation a (sem_of a line dnum) (negsuc 0) enabled)
  unfolding semaphore_operation
  waits =
      let key = sem_of a line dnum in
      let v = add_int (int_of (k.machine.memory key)) (negsuc 0) in
      rw (==_ne key null sem_ne) (
        Proceeds-mono (passeren-AfterP enabled es fs i key sem_ne lives le out free (negsuc 0))
          λ _ k' after. subst (λ b. AfterP b key v es enabled k') busy after)

  -- What is left of the process's request when it has stopped.
  record Asked (r : ℕ) (k' : Kernel) : Type 0 where
    pub current : k'.current_process ≡ null
    pub flag : k'.flag ≡ load_next
    pub blocked : k'.soft_block_count ≡ k.soft_block_count +ℤ pos 1
    pub waiting : Implements k'.tables (block (sem_of a line dnum) k.current_process (view es))
    pub status : Commanded a command line dnum k.machine k'.machine r

  asked :
      (r : ℕ) (k1 : Kernel) (m : Machine)
      → Stopped (sem_of a line dnum) es waiting_state k1
      → Commanded a command line dnum k.machine m r
      → Asked r (record k1 { machine = m })
  asked r k1 m s c = record {
    current = s.current;
    flag = s.flag;
    blocked = s.blocked;
    waiting = s.waiting;
    status = c;
  }

  io_devop-Busy : Proceeds Asked (io_devop a command line dnum k)
  unfolding io_devop
  io_devop-Busy = Proceeds-bind waits λ _ k' s. elim (eq_cases line a.int_terminal) [
    | inl e ↦ elim (eq_cases (term_read a line dnum) 0) [
      | inl e' ↦
          rw (test_true (term_read a line dnum) 0 e', test_true line a.int_terminal e)
            (proceeds (
              asked _ k' _ s (
                transmitter e e' (update_self k'.machine.transm_command reg command)
                  (ap (λ (m : Machine). m.transm_status reg) s.machine))))
      | inr e' ↦
          rw (==_ne (term_read a line dnum) 0 e', test_true line a.int_terminal e)
            (proceeds (
              asked _ k' _ s (
                receiver e e' (update_self k'.machine.recv_command reg command)
                  (ap (λ (m : Machine). m.recv_status reg) s.machine))))
    ]
    | inr e ↦ rw (==_ne line a.int_terminal e) (
        proceeds (
          asked _ k' _ s (
            other_device e (update_self k'.machine.dtp_command reg command)
              (ap (λ (m : Machine). m.dtp_status reg) s.machine))))
  ]

  -- The service IODEVOP, where the semaphore of the device gets negative by the P operation: the
  -- process stops and waits behind the others at this semaphore, it is counted as blocked and there
  -- is no current process, the device has the command, and the saved register a1 of the process has
  -- the status which the device had; at a terminal these are those of the half that is meant. It is
  -- supposed that the semaphore is not NULL, that the semaphore list satisfies its invariant and a
  -- descriptor is free, and that there is a current process, which is in the table and waits for
  -- nothing.
  pub dispatch_syscall-Busy :
      Proceeds
        (λ _ k'. Requested a command line dnum es k k')
        (dispatch_syscall a 10 command line dnum k)
  unfolding dispatch_syscall
  dispatch_syscall-Busy = Proceeds-bind io_devop-Busy λ r k1 s.
      rw (==_ne k.current_process null lives) (
        proceeds record {
          current = s.current;
          flag = s.flag;
          blocked = s.blocked;
          waiting = states-Implements _ k1.tables _ s.waiting;
          status =
              subst (Commanded a command line dnum k.machine k1.machine)
                (sym
                  (ap (λ (s : State). s.a1) (update_self k1.tables.procs.p_s k.current_process _)))
                s.status;
        })
