-- ===== src/Syscall/Device.antt =====
-- io_devop of source/syscall.c: a command for a device.
use jae_os.Prelude.{ℕ, ◌+◌, ◌*◌, ◌/◌, ◌^◌, ◌==◌, ◌&&◌, not, if◌then◌else◌, update}
use jae_os.Prelude.Int.{negsuc}
use jae_os.Arch.{Arch, device_sem_at}
use jae_os.Kernel.{K, ◌>>=◌, ◌>>◌, gets, modify, get_status, set_status}
use jae_os.Syscall.Semaphore.{semaphore_operation}

module _ (a : Arch) where
  -- `term_read`: a terminal is read where the top bit of `dnum` is set.
  abbrev pub term_read : ℕ → ℕ → ℕ
  term_read int_l_no dnum =
      if int_l_no == a.int_terminal && not (dnum / 2 ^ 31 == 0) then a.dev_per_int else 0

  unfoldable pub io_devop : ℕ → ℕ → ℕ → K ℕ
  unfolding semaphore_operation
  io_devop command int_l_no dnum = do
    s ← get_status
    set_status (a.status_all_int_enable s)
    let reads = term_read int_l_no dnum
    semaphore_operation a (device_sem_at a (a.ext_il_index int_l_no * a.dev_per_int + reads + dnum))
        (negsuc 0)
    let reg = a.dev_reg_addr int_l_no dnum
    if int_l_no == a.int_terminal
        then (if reads == 0
            then (do
              modify λ k. record k {
                machine = record k.machine {
                  transm_command = update k.machine.transm_command reg command;
                };
              }
              gets (λ k. k.machine.transm_status reg))
            else do
              modify λ k. record k {
                machine = record k.machine {
                  recv_command = update k.machine.recv_command reg command;
                };
              }
              gets (λ k. k.machine.recv_status reg))
        else do
          modify λ k. record k {
            machine = record k.machine { dtp_command = update k.machine.dtp_command reg command };
          }
          gets (λ k. k.machine.dtp_status reg)
