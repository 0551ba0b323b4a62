-- ===== src/Syscall/Handlers.antt =====
-- The services of source/syscall.c by which a process handles its own exceptions: specify_sysbp,
-- specify_tlb, specify_pgmtrap and exit_trap; and copy_state of source/exceptions.c.
use Prim.Native.Nat.{bit_and, bit_or}
use jae_os.Prelude.{ℕ, ◌==◌, ◌≡◌, refl, if◌then◌else◌, Ptr, update}
use jae_os.Const.{
  State, sys, tlb, pgmtp, excp_sys_old, excp_tlb_old, excp_pgmt_old, excp_sys_new, excp_tlb_new,
  excp_pgmt_new,
}
use jae_os.Arch.{Arch}
use jae_os.Kernel.{K, ◌>>=◌, ◌>>◌, ldst, gets, exits, skip, proc, set_proc, current}
use jae_os.Scheduler.{scheduler}
use jae_os.Syscall.Process.{terminate_process}

-- `dest` after `copy_state(dest, src)`.
unfoldable pub copy_state : State → State → State
copy_state dest src = record dest {
  a1 = src.a1;
  a2 = src.a2;
  a3 = src.a3;
  a4 = src.a4;
  v1 = src.v1;
  v2 = src.v2;
  v3 = src.v3;
  v4 = src.v4;
  v5 = src.v5;
  v6 = src.v6;
  sl = src.sl;
  fp = src.fp;
  ip = src.ip;
  sp = src.sp;
  lr = src.lr;
  pc = src.pc;
  cpsr = src.cpsr;
  cp15_control = src.cp15_control;
  cp15_entry_hi = src.cp15_entry_hi;
  cp15_cause = src.cp15_cause;
  tod_hi = src.tod_hi;
  tod_low = src.tod_low;
}

-- `p->oldnew_areas[i] = f(p->oldnew_areas[i])` and `p->tags[i] = t`.
abbrev pub set_area : Ptr → ℕ → (State → State) → K (Unit {0})
set_area p i f = set_proc p λ m. record m {
  oldnew_areas = update m.oldnew_areas p (update (m.oldnew_areas p) i (f (m.oldnew_areas p i)));
}

abbrev pub set_tag : Ptr → ℕ → ℕ → K (Unit {0})
set_tag p i t = set_proc p λ m. record m { tags = update m.tags p (update (m.tags p) i t) }

-- The new area of a handler with this code, stack and flags.
abbrev pub handler_area : ℕ → ℕ → ℕ → ℕ → State → State
handler_area pc sp flags asid s = record s {
  pc = pc;
  sp = sp;
  cpsr = bit_or (bit_and s.cpsr 0x7fff_fff8) (bit_and flags 0x8000_0007);
  cp15_entry_hi = asid;
}

module _ (a : Arch) where
  -- The three functions differ in the tag and in the two areas.
  unfoldable pub specify : ℕ → ℕ → ℕ → ℕ → ℕ → ℕ → K (Unit {0})
  unfolding terminate_process scheduler copy_state
  specify kind old new pc sp flags = do
    p ← current
    tag ← proc (λ m. m.tags) p
    if tag kind == 1
        then (do id ← proc (λ m. m.pid) p; terminate_process a id; scheduler a)
        else skip
    p ← current
    set_tag p kind 1
    here ← gets (λ k. k.machine.processor)
    set_area p old (λ _. here)
    saved ← proc (λ m. m.p_s) p
    set_area p new (λ area. copy_state area saved)
    asid ← gets (λ k. k.machine.entry_hi)
    set_area p new (handler_area pc sp flags asid)

  unfoldable pub specify_sysbp : ℕ → ℕ → ℕ → K (Unit {0})
  unfolding specify
  specify_sysbp = specify sys excp_sys_old excp_sys_new

  unfoldable pub specify_tlb : ℕ → ℕ → ℕ → K (Unit {0})
  unfolding specify
  specify_tlb = specify tlb excp_tlb_old excp_tlb_new

  unfoldable pub specify_pgmtrap : ℕ → ℕ → ℕ → K (Unit {0})
  unfolding specify
  specify_pgmtrap = specify pgmtp excp_pgmt_old excp_pgmt_new

-- One case of the `switch` in exit_trap.
abbrev pub return_to : ℕ → ℕ → K (Unit {0})
return_to old retval = do
  p ← current
  set_area p old (λ s. record s { a1 = retval })
  areas ← proc (λ m. m.oldnew_areas) p
  exits (ldst (areas old))

unfoldable pub exit_trap : ℕ → ℕ → K (Unit {0})
exit_trap excptype retval =
    if excptype == sys
    then return_to excp_sys_old retval
    else if excptype == tlb
    then return_to excp_tlb_old retval
    else if excptype == pgmtp
    then return_to excp_pgmt_old retval
    else skip

-- copy_state copies every field: nothing of the old state is left.
pub copy_state-all : (dest src : State) → copy_state dest src ≡ src
unfolding copy_state
copy_state-all dest src = refl
