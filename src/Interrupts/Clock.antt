-- ===== src/Interrupts/Clock.antt =====
-- The tick of the pseudo-clock: the loop of timer_handler in source/interrupts.c.
use jae_os.Prelude.{
  ◌≡◌, refl, ap, ◌∙◌, subst, ℕ, zero, suc, ◌<◌, ◌≤◌, ◌≢◌, true, List, [], ◌∷◌, ◌++◌, append_assoc,
  arith, Ptr, null, All-append, Distinct, length, update, update_again, ◌==◌,
}
use jae_os.Prelude.Int.{pos, ltb_ℤ, word_of}
use jae_os.Prelude.Small.{minus}
use jae_os.Const.{max_proc, reset, sched_bogus_slice}
use jae_os.Arch.{Arch, device_sem_at}
use jae_os.Pcb.{Procs}
use jae_os.Asl.View.{Entry}
use jae_os.Asl.Spec.{Waits, view}
use jae_os.Asl.Waiting.{waiting_for, waiting_for-keep_waiting, keep_waiting, keep_waiting-again}
use jae_os.Kernel.{Kernel, ◌>>◌}
use jae_os.Kernel.Runs.{Proceeds, proceeds, Proceeds-bind, Proceeds-mono, read_int-Proceeds}
use jae_os.Syscall.Semaphore.{semaphore_operation}
use jae_os.Syscall.Semaphore.Passeren.{set_value}
use jae_os.Syscall.Semaphore.Serve.{clear, lowered}
use jae_os.Syscall.Semaphore.Wakes.{Queues, Woke}
use jae_os.Syscall.Semaphore.Units.{IsUnit, waiting-Distinct, semaphore_operation-unit, Woke-IsUnit}
use jae_os.Interrupts.{tick_loop, timer_handler}

-- One process, and then others.
Woke-cons :
    (key n : ℕ) (t : Waits) (xs : List Ptr) (w v : Ptr) (vs : List Ptr) (k k1 k2 : Kernel)
    (t1 : Waits)
    → Woke key t xs (w ∷ []) (v ∷ vs) (set_value key (minus n) k) k1
    → t1 ≡ keep_waiting key (v ∷ vs) t
    → Woke key t1 (xs ++ w ∷ []) (v ∷ vs) [] (set_value key (pos 0) k1) k2
    → Woke key t xs (w ∷ v ∷ vs) [] (set_value key (pos 0) k) k2
Woke-cons key n t xs w v vs k k1 k2 t1 one is more = record {
  rest =
      more.rest
      ∙ ap
          (λ (j : Kernel). record j {
            tables = k2.tables;
            readyqueue = k2.readyqueue;
            soft_block_count = lowered j.soft_block_count (v ∷ vs);
            machine = record j.machine { memory = update j.machine.memory key (word_of (pos 0)) };
          })
          one.rest
      ∙ ap
          (λ f. record k {
            tables = k2.tables;
            readyqueue = k2.readyqueue;
            soft_block_count = lowered k.soft_block_count (w ∷ v ∷ vs);
            machine = record k.machine { memory = f };
          })
          (update_again k.machine.memory key _ (word_of (pos 0)));
  procs =
      more.procs
      ∙ ap
          (λ (ps : Procs). record ps {
            p_list = k2.tables.procs.p_list;
            p_cursem = clear null (v ∷ vs) ps.p_cursem;
            res_wait = clear (pos 0) (v ∷ vs) ps.res_wait;
          })
          one.procs;
  links = λ q n nl nx.
      more.links q n.1 tt (All-append _ xs (w ∷ []) nx (n.0, tt)) ∙ one.links q (n.0, tt) n.1 nx;
  queues =
      let (es, fs, q, e) = more.queues in
      (
        es,
        fs,
        subst (Queues k2 es fs) (append_assoc xs (w ∷ []) (v ∷ vs)) q,
        e ∙ ap (keep_waiting key []) is ∙ keep_waiting-again key [] v vs t,
      );
}

below_zero : (n : ℕ) → ltb_ℤ (minus (suc n)) (pos 0) ≡ true
below_zero n = ground arith

module _ (key : ℕ) (k : Kernel) (es : List Entry) (fs xs : List Ptr) (w : Ptr) (ws : List Ptr)
    (q : Queues k es fs xs) (is : waiting_for key (view es) ≡ w ∷ ws) where
  all_Distinct : Distinct (w ∷ ws)
  all_Distinct = subst Distinct is (waiting-Distinct k key es fs xs q).0

  fewer : length ws ≤ max_proc
  fewer =
      let few : length (w ∷ ws) ≤ max_proc =
        subst (λ zs. length zs ≤ max_proc) is (waiting-Distinct k key es fs xs q).1 in
      omega arith

module _ (a : Arch) (kne : device_sem_at a a.clock_sem ≢ null) where
  abbrev clock : ℕ
  clock = device_sem_at a a.clock_sem

  tick_loop-stops :
      (fuel : ℕ) (k : Kernel)
      → IsUnit k clock []
      → Proceeds (λ _ k'. k' ≡ k) (tick_loop a (suc fuel) k)
  unfolding tick_loop
  tick_loop-stops fuel k unit =
      Proceeds-bind (read_int-Proceeds clock k kne)
        λ v _ (e, e1). rw (e, e1, unit.value) (proceeds refl)

  tick_loop-wakes :
      (fuel : ℕ) (k : Kernel) (w : Ptr) (ws : List Ptr) (Q : Kernel → Type 0)
      → IsUnit k clock (w ∷ ws)
      → Proceeds (λ _ k'. Q k') ((semaphore_operation a clock (pos 1) >> tick_loop a fuel) k)
      → Proceeds (λ _ k'. Q k') (tick_loop a (suc fuel) k)
  unfolding tick_loop
  tick_loop-wakes fuel k w ws Q unit h =
      Proceeds-bind (read_int-Proceeds clock k kne)
        λ v _ (e, e1). rw (e, e1, unit.value, below_zero (length ws)) h

  tick_loop-Woke :
      (ws : List Ptr) (w : Ptr) (fuel : ℕ) (k : Kernel) (es : List Entry) (fs xs : List Ptr)
      → length (w ∷ ws) < fuel
      → Queues k es fs xs
      → waiting_for clock (view es) ≡ w ∷ ws
      → IsUnit k clock (w ∷ ws)
      → Proceeds
          (λ _ k'. Woke clock (view es) xs (w ∷ ws) [] (set_value clock (pos 0) k) k')
          (tick_loop a fuel k)
  tick_loop-Woke ws w zero k es fs xs enough q is unit = absurd (omega arith)
  tick_loop-Woke ws w (suc zero) k es fs xs enough q is unit = absurd (omega arith)
  tick_loop-Woke [] w (suc (suc fuel)) k es fs xs enough q is unit =
      tick_loop-wakes (suc fuel) k w [] _ unit (
        Proceeds-bind (semaphore_operation-unit a k clock es fs xs w [] q kne is unit) λ _ k1 one.
          Proceeds-mono
            (tick_loop-stops fuel k1 (
              Woke-IsUnit a k clock es fs xs w [] k1 one unit
                (all_Distinct clock k es fs xs w [] q is) (omega arith)))
            λ _ k' e. rw e one)
  tick_loop-Woke (v ∷ vs) w (suc (suc fuel)) k es fs xs enough q is unit =
      tick_loop-wakes (suc fuel) k w (v ∷ vs) _ unit (
        Proceeds-bind (semaphore_operation-unit a k clock es fs xs w (v ∷ vs) q kne is unit)
          λ _ k1 one.
            let (es1, fs1, q1, e1) = one.queues in
            Proceeds-mono
              (tick_loop-Woke vs v (suc fuel) k1 es1 fs1 (xs ++ w ∷ []) (omega arith) q1
                (ap (waiting_for clock) e1
                  ∙ waiting_for-keep_waiting clock (v ∷ vs) (v ∷ vs) w es q.asl.table.sorted is)
                (Woke-IsUnit a k clock es fs xs w (v ∷ vs) k1 one unit
                  (all_Distinct clock k es fs xs w (v ∷ vs) q is)
                  (fewer clock k es fs xs w (v ∷ vs) q is)))
              λ _ k' more.
                Woke-cons clock (length (v ∷ vs)) (view es) xs w v vs k k1 k' (view es1) one e1
                  more)

  -- What the tick comes to when `ws` wait for the clock.
  abbrev pub AfterTick : List Ptr → List Entry → List Ptr → Kernel → Kernel → Type 0
  AfterTick [] es xs k k' = k' ≡ k
  AfterTick (w ∷ ws) es xs k k' = Woke clock (view es) xs (w ∷ ws) [] (set_value clock (pos 0) k) k'

  tick_loop-AfterTick :
      (ws : List Ptr) (fuel : ℕ) (k : Kernel) (es : List Entry) (fs xs : List Ptr)
      → length ws < fuel
      → Queues k es fs xs
      → waiting_for clock (view es) ≡ ws
      → IsUnit k clock ws
      → Proceeds (λ _ k'. AfterTick ws es xs k k') (tick_loop a fuel k)
  tick_loop-AfterTick ws zero k es fs xs enough q is unit = absurd (omega arith)
  tick_loop-AfterTick [] (suc fuel) k es fs xs enough q is unit = tick_loop-stops fuel k unit
  tick_loop-AfterTick (w ∷ ws) (suc fuel) k es fs xs enough q is unit =
      tick_loop-Woke ws w (suc fuel) k es fs xs enough q is unit

  -- When the pseudo-clock ticks, timer_handler wakes every process that waits for the clock, in the
  -- order in which they began to wait: they are at the end of the ready queue, the value of the
  -- clock is 0 and nobody waits for it any more. Then it sets the mode RESET and the timer. It is
  -- supposed that the semaphore of the clock is not at NULL, that the semaphore list and the ready
  -- queue satisfy their invariants, that nobody is in both, and that whoever waits for the clock
  -- waits for one unit and is counted in its value; then as many turns of the loop as the process
  -- table has places, and one more, are enough.
  pub timer_handler-AfterTick :
      (fuel : ℕ) (k : Kernel) (es : List Entry) (fs xs : List Ptr)
      → max_proc < fuel
      → Queues k es fs xs
      → IsUnit k clock (waiting_for clock (view es))
      → k.pseudoclockflag ≡ 1
      → Proceeds
          (λ _ k'.
            (k1 : Kernel) × AfterTick (waiting_for clock (view es)) es xs k k1
            × (k' ≡ record k1 {
              flag = reset;
              machine = record k1.machine { timer = sched_bogus_slice };
            }))
          (timer_handler a fuel k)
  unfolding timer_handler
  timer_handler-AfterTick fuel k es fs xs enough q unit ticks =
      let few = (waiting-Distinct k clock es fs xs q).1 in
      let t : (k.pseudoclockflag == 1) ≡ true = ap (λ n. n == 1) ticks in
      rw t (
        Proceeds-bind
          {P = λ _ k2.
            (k1 : Kernel) × AfterTick (waiting_for clock (view es)) es xs k k1
            × (k2 ≡ record k1 { flag = reset })}
          (Proceeds-bind
            (tick_loop-AfterTick (waiting_for clock (view es)) fuel k es fs xs (omega arith) q refl
              unit)
            λ _ k1 after. proceeds (k1, after, refl))
          λ _ k2 (k1, after, e). proceeds (
            k1,
            after,
            ap
                (λ (j : Kernel). record j {
                  machine = record j.machine { timer = sched_bogus_slice };
                })
                e,
          ))
