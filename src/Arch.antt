-- ===== src/Arch.antt =====
-- What JaeOS takes from the headers of the uARM emulator (arch.h, uARMconst.h, uARMtypes.h) and from
-- the linker: constants, macros and addresses. The kernel's functions take it as a parameter.
use jae_os.Prelude.{ℕ, Bool, ◌+◌, ◌*◌, ◌%◌, ◌^◌}
use jae_os.Const.{State}

pub record Arch : Type 0 where
  -- the processor's status word and the system control register
  pub status_all_int_disable : ℕ → ℕ
  pub status_all_int_enable : ℕ → ℕ
  pub status_enable_timer : ℕ → ℕ
  pub status_null : ℕ
  pub status_sys_mode : ℕ
  pub status_user_mode : ℕ
  pub cp15_disable_vm : ℕ → ℕ
  -- the cause register
  pub cause_ip_get : ℕ → ℕ → Bool
  pub cause_exccode_get : ℕ → ℕ
  pub cause_exccode_set : ℕ → ℕ → ℕ
  pub exc_syscall : ℕ
  pub exc_reservedinstr : ℕ
  -- interrupt lines and devices
  pub int_timer : ℕ
  pub int_disk : ℕ
  pub int_tape : ℕ
  pub int_unused : ℕ
  pub int_printer : ℕ
  pub int_terminal : ℕ
  pub ext_il_index : ℕ → ℕ
  pub dev_per_int : ℕ
  pub max_devices : ℕ
  pub clock_sem : ℕ
  pub cdev_bitmap_addr : ℕ → ℕ
  pub dev_reg_addr : ℕ → ℕ → ℕ
  pub dev_c_ack : ℕ
  pub dev_trcv_s_charrecv : ℕ
  pub dev_ttrs_s_chartrsm : ℕ
  pub word_size : ℕ
  pub ram_top : ℕ
  pub frame_size : ℕ
  -- the `state_t` that lies at an address of the memory
  pub read_state : (ℕ → ℕ) → ℕ → State
  -- where the linker has put `device_sem` and the functions whose addresses are taken, and where
  -- the local variable `tmp` of allocPcb lies
  pub device_sem : ℕ
  pub test : ℕ
  pub interrupt_handler : ℕ
  pub tlb_handler : ℕ
  pub pgmtrap_handler : ℕ
  pub syscall_handler : ℕ
  pub alloc_tmp : ℕ

-- `&device_sem[i]`: an `int` has four bytes, and addresses wrap.
abbrev pub device_sem_at : Arch → ℕ → ℕ
device_sem_at a i = (a.device_sem + 4 * i) % 2 ^ 32
