-- ===== src/Initial/Devices.antt =====
-- The loop of main in source/initial.c that clears the semaphores of the devices and of the clock.
use jae_os.Prelude.{
  refl, null, [], ◌∷◌, ap, ◌∙◌, ℕ, zero, suc, ◌+◌, ◌<◌, ◌≤◌, ◌≡◌, inl, inr, arith, eq_cases, update,
  update_self, subst,
}
use jae_os.Arch.{Arch, device_sem_at}
use jae_os.Clist.Ring.{vacant}
use jae_os.Pcb.{pcb_at}
use jae_os.Pcb.Alloc.{pcbs_from, init_pcbs-Free, alloc_pcb-cons}
use jae_os.Pcb.Queue.{insert_proc_q-append}
use jae_os.Asl.{init_asl}
use jae_os.Kernel.{Kernel, set_procs, get_tod_lo}
use jae_os.Kernel.Runs.{Leaves, Leaves-mono, Proceeds-Leaves, from_run-Proceeds}
use jae_os.Scheduler.{put_ready, scheduler}
use jae_os.Scheduler.Ticks.{loadnext-Ticks}
use jae_os.Initial.{clear_semaphores, with_areas, initialised, main}
use jae_os.Initial.Start.{loaded, prepared, at_start, differ}

module _ (a : Arch) where
  -- What is 0 stays 0.
  clear_semaphores-zero :
      (n i : ℕ) (memory : ℕ → ℕ) (x : ℕ) → memory x ≡ 0 → clear_semaphores a n i memory x ≡ 0
  unfolding clear_semaphores update
  clear_semaphores-zero zero i memory x e = e
  clear_semaphores-zero (suc n) i memory x e =
      clear_semaphores-zero n (i + 1) (update memory (device_sem_at a i) 0) x (kept e)
    where
      kept : memory x ≡ 0 → update memory (device_sem_at a i) 0 x ≡ 0
      kept e = ground arith

  cleared :
      (n i j : ℕ) (memory : ℕ → ℕ)
      → i ≤ j
      → j < i + n
      → clear_semaphores a n i memory (device_sem_at a j) ≡ 0
  unfolding clear_semaphores
  cleared zero i j memory le lt = absurd (omega arith)
  cleared (suc n) i j memory le lt = elim (eq_cases i j) [
    | inl e ↦
        clear_semaphores-zero n (i + 1) (update memory (device_sem_at a i) 0) (device_sem_at a j) (
          subst (λ j. update memory (device_sem_at a i) 0 (device_sem_at a j) ≡ 0) e
            (update_self memory (device_sem_at a i) 0))
    | inr ne ↦ cleared n (i + 1) j (update memory (device_sem_at a i) 0) (omega arith) (omega arith)
  ]

  clear_semaphores-all :
      (n j : ℕ) (memory : ℕ → ℕ) → j < n → clear_semaphores a n 0 memory (device_sem_at a j) ≡ 0
  clear_semaphores-all n j memory lt = cleared n 0 j memory (omega arith) (omega arith)

  -- When main leaves the nucleus for the first process, the semaphore of each device and that of
  -- the pseudo-clock are 0, whatever the memory held before.
  pub main-Cleared :
      (k : Kernel) (j : ℕ)
      → j < a.max_devices
      → Leaves (λ _ k'. k'.machine.memory (device_sem_at a j) ≡ 0) (main a (loaded k))
  unfolding main scheduler init_asl get_tod_lo
  main-Cleared k j small =
      let k1 = initialised a (with_areas a (loaded k)) in
      Proceeds-Leaves
        (from_run-Proceeds (λ r. set_procs r.1) (λ r. r.0) k1
          (alloc_pcb-cons a.alloc_tmp k1.tables.procs (pcb_at 0) (pcbs_from 1 19)
            (init_pcbs-Free k.tables.procs)))
        λ p k' (r, (is, _, _, _, _, _), b, e).
          rw (b, is, e)
            (Proceeds-Leaves
              (from_run-Proceeds (λ r. put_ready r.0 r.1) (λ _. tt) (prepared a r.1 k1)
                (insert_proc_q-append (prepared a r.1 k1).tables.procs null [] (vacant refl refl) 1
                  (differ 1 0 refl) tt))
              λ _ k2 ((q, m), (ring, _), _, e2). rw e2 (
                Leaves-mono
                  (loadnext-Ticks a (at_start a (put_ready q m (prepared a r.1 k1))) (1 ∷ []) 1 []
                    ring (differ 1 0 refl, tt) refl)
                  λ _ k4 t.
                    ap (λ f. f (device_sem_at a j)) t.memory
                    ∙ clear_semaphores-all a.max_devices j k.machine.memory small))
