-- ===== src/Tests/Turns.antt =====
-- Runs of the nucleus as a whole.
use jae_os.Prelude.{ℕ, inl, inr, arith, ◌≡◌, refl, sym, ◌∙◌, load, store, update}
use jae_os.Prelude.Int.{◌+ℤ◌, negsuc, int_of, word_of, add_int}
use jae_os.Clist.{clist_head, clist_dequeue, clist_enqueue, clist_foreach, clist_foreach_all}
use jae_os.Const.{load_next}
use jae_os.Scheduler.{scheduler}
use jae_os.Syscall.Pid.{pid_generator}
use jae_os.Syscall.Process.{create_process}
use jae_os.Pcb.{insert_child, initialise, alloc_pcb, init_pcbs, insert_proc_q, remove_proc_q}
use jae_os.Asl.{init_asl, insert_blocked, find_semd, join_queue, insert_semd}
use jae_os.Kernel.{Kernel, Step, Exit, next, leave, null_pointer, no_fuel, halt}
use jae_os.Initial.{main, clear_semaphores}
use jae_os.Initial.Start.{loaded}
use jae_os.Syscall.Semaphore.{passeren}
use jae_os.Nucleus.{Sound}
use jae_os.Nucleus.Reach.{none_yet, and_then, requests, creates, chooses, main-Turns-Sound}
use jae_os.Tests.Data.{differ}
use jae_os.Tests.Boot.{arch, kernel}

abbrev state_of : {A : Type 0} → Step A → Kernel
state_of (next a k) = k
state_of (leave e k) = k
state_of null_pointer = kernel
state_of no_fuel = kernel

abbrev exit_of : {A : Type 0} → Step A → Exit
exit_of (next a k) = halt
exit_of (leave e k) = e
exit_of null_pointer = halt
exit_of no_fuel = halt

booted : Kernel
unfolding main
booted = state_of (main arch (loaded kernel))

boots : main arch (loaded kernel) ≡ leave (exit_of (main arch (loaded kernel))) booted
unfolding main booted alloc_pcb init_asl init_pcbs clist_head load clist_dequeue update store
    insert_proc_q clist_enqueue remove_proc_q
boots = refl

running : booted.current_process ≡ 1
unfolding main booted alloc_pcb init_asl init_pcbs clist_head load clist_dequeue update store
    insert_proc_q clist_enqueue remove_proc_q
running = refl

counted : booted.counter ≡ 1
unfolding main booted alloc_pcb init_asl init_pcbs clist_head load clist_dequeue update store
    insert_proc_q clist_enqueue remove_proc_q
counted = refl

parent : Kernel
unfolding create_process
parent = state_of (create_process arch 5000 booted)

name_of : Step ℕ → ℕ
name_of (next r k) = r
name_of (leave e k) = 0
name_of null_pointer = 0
name_of no_fuel = 0

creation : create_process arch 5000 booted ≡ next (name_of (create_process arch 5000 booted)) parent
unfolding main booted create_process parent name_of clear_semaphores alloc_pcb init_asl init_pcbs
    clist_head load clist_dequeue update store insert_proc_q clist_enqueue remove_proc_q
    pid_generator insert_child ◌+ℤ◌ initialise
creation = refl

still_running : parent.current_process ≡ 1
unfolding main booted create_process parent name_of clear_semaphores alloc_pcb init_asl init_pcbs
    clist_head load clist_dequeue update store insert_proc_q clist_enqueue remove_proc_q
    pid_generator insert_child ◌+ℤ◌ initialise
still_running = refl

blocked : Kernel
unfolding passeren
blocked = state_of (passeren 200 (negsuc 0) parent)

blocks : passeren 200 (negsuc 0) parent ≡ next tt blocked
unfolding main booted create_process parent passeren blocked int_of word_of add_int clear_semaphores
    insert_blocked find_semd clist_foreach join_queue insert_semd clist_foreach_all alloc_pcb
    init_asl init_pcbs clist_head load clist_dequeue update store insert_proc_q clist_enqueue
    remove_proc_q pid_generator insert_child ◌+ℤ◌ initialise
blocks = refl

turn : blocked.flag ≡ load_next
unfolding main booted create_process parent passeren blocked scheduler int_of word_of add_int
    clear_semaphores insert_blocked find_semd clist_foreach join_queue insert_semd clist_foreach_all
    alloc_pcb init_asl init_pcbs clist_head load clist_dequeue update store insert_proc_q
    clist_enqueue remove_proc_q pid_generator insert_child ◌+ℤ◌ initialise
turn = refl

waiting : blocked.readyqueue ≡ 2
unfolding main booted create_process parent passeren blocked scheduler int_of word_of add_int
    clear_semaphores insert_blocked find_semd clist_foreach join_queue insert_semd clist_foreach_all
    alloc_pcb init_asl init_pcbs clist_head load clist_dequeue update store insert_proc_q
    clist_enqueue remove_proc_q pid_generator insert_child ◌+ℤ◌ initialise
waiting = refl

second : Kernel
unfolding scheduler
second = state_of (scheduler arch blocked)

loads : scheduler arch blocked ≡ leave (exit_of (scheduler arch blocked)) second
unfolding main booted create_process parent passeren blocked second scheduler int_of word_of add_int
    clear_semaphores insert_blocked find_semd clist_foreach join_queue insert_semd clist_foreach_all
    alloc_pcb init_asl init_pcbs clist_head load clist_dequeue update store insert_proc_q
    clist_enqueue remove_proc_q pid_generator insert_child ◌+ℤ◌ initialise
loads = refl

-- The first process makes another and waits; the other one is loaded.
main-Turns-Sound_example : Sound second
main-Turns-Sound_example =
    main-Turns-Sound arch kernel (exit_of (main arch (loaded kernel))) booted second boots (
      and_then
        (and_then
          (and_then none_yet (
            creates 5000 0 (name_of (create_process arch 5000 booted)) (differ 5000 0 refl)
              (λ e. differ 1 0 refl (sym running ∙ e)) (omega arith)
              (rw counted (omega arith, inl refl)) creation))
          (requests 200 (negsuc 0) (differ 200 0 refl)
            (λ e. differ 1 0 refl (sym still_running ∙ e)) blocks))
        (chooses (exit_of (scheduler arch blocked)) (inr (inr turn))
          (inr λ e. differ 2 0 refl (sym waiting ∙ e)) loads))
