-- ===== src/Tests/Boot.antt =====
-- A concrete emulator and nucleus.
use jae_os.Prelude.{◌+◌, ◌-◌, ◌*◌, ◌%◌, ◌==◌}
use jae_os.Prelude.Int.{pos}
use jae_os.Arch.{Arch}
use jae_os.Pcb.{zero_state}
use jae_os.Kernel.{Machine, Kernel}
use jae_os.Tests.Data.{tables}

-- An emulator and a nucleus for the tests.
abbrev pub arch : Arch
arch = record {
  status_all_int_disable = λ s. s - s % 256;
  status_all_int_enable = λ s. s + 256;
  status_enable_timer = λ w. w;
  status_null = 0;
  status_sys_mode = 31;
  status_user_mode = 16;
  cp15_disable_vm = λ w. w;
  cause_ip_get = λ c i. c == i;
  cause_exccode_get = λ c. c;
  cause_exccode_set = λ c e. e;
  exc_syscall = 8;
  exc_reservedinstr = 10;
  int_timer = 2;
  int_disk = 3;
  int_tape = 4;
  int_unused = 5;
  int_printer = 6;
  int_terminal = 7;
  ext_il_index = λ i. i - 3;
  dev_per_int = 8;
  max_devices = 49;
  clock_sem = 48;
  cdev_bitmap_addr = λ w. w;
  dev_reg_addr = λ i n. i + n;
  dev_c_ack = 1;
  dev_trcv_s_charrecv = 5;
  dev_ttrs_s_chartrsm = 5;
  word_size = 4;
  ram_top = 65536;
  frame_size = 4096;
  read_state = λ m p. zero_state;
  device_sem = 1000;
  test = 8192;
  interrupt_handler = 300;
  tlb_handler = 310;
  pgmtrap_handler = 320;
  syscall_handler = 330;
  alloc_tmp = 60000;
}

abbrev pub machine : Machine
machine = record {
  memory = λ n. 0;
  status = 0;
  timer = 0;
  cause = 0;
  entry_hi = 0;
  processor = zero_state;
  clock = λ n. n * 10;
  reads = 0;
  int_oldarea = zero_state;
  tlb_oldarea = zero_state;
  pgmtrap_oldarea = zero_state;
  sysbk_oldarea = zero_state;
  int_newarea = zero_state;
  tlb_newarea = zero_state;
  pgmtrap_newarea = zero_state;
  sysbk_newarea = zero_state;
  dtp_status = λ n. 0;
  dtp_command = λ n. 0;
  recv_status = λ n. 0;
  recv_command = λ n. 0;
  transm_status = λ n. 0;
  transm_command = λ n. 0;
}

-- The processes 1, 2 and 3 wait for the semaphore at 100, 9 is ready and 8 is current.
abbrev pub kernel : Kernel
kernel = record {
  tables = tables;
  process_count = pos 5;
  soft_block_count = pos 3;
  readyqueue = 9;
  current_process = 8;
  flag = 0;
  pseudoclockflag = 0;
  kernel_start = 0;
  counter = 0;
  start_tod = 0;
  pseudo_start = 0;
  machine = machine;
}
