-- ===== src/Syscall/Semaphore/Units.antt =====
-- Semaphores of units in source/syscall.c: whoever waits asks for one, and the value is minus the
-- number of those who wait. The semaphores of the devices and of the clock are of this kind.
use jae_os.Prelude.{
  ◌≡◌, refl, ap, ◌∙◌, subst, ℕ, suc, ◌+◌, ◌<◌, ◌≤◌, ◌^◌, ◌≢◌, List, [], ◌∷◌, arith, Ptr, null, All,
  All-map, All-both, NotIn, Distinct, length, update_self, update_ne, ==_ne,
}
use jae_os.Prelude.Int.{ℤ, pos, negsuc, add_int, sub_int, ◌-ℤ◌, ◌+ℤ◌, int_of, word_of}
use jae_os.Prelude.Small.{
  minus, int_of-word_of-pos, int_of-word_of-negsuc, add_int-minus, sub_int-minus, add_int-one,
}
use jae_os.Const.{max_proc}
use jae_os.Arch.{Arch}
use jae_os.Clist.Ring.{Ring-Distinct, Ring-nonnull}
use jae_os.Pcb.{Procs}
use jae_os.Asl.View.{Entry, Holds, Holds-short}
use jae_os.Asl.Spec.{view}
use jae_os.Asl.Waiting.{waiting_for, waiting_for-All}
use jae_os.Kernel.{Kernel}
use jae_os.Kernel.Runs.{Proceeds, Proceeds-mono}
use jae_os.Syscall.Semaphore.{semaphore_operation}
use jae_os.Syscall.Semaphore.Demand.{total}
use jae_os.Syscall.Semaphore.Passeren.{set_value}
use jae_os.Syscall.Semaphore.Serve.{served}
use jae_os.Syscall.Semaphore.Wakes.{Queues, Woke, v_value, v_served, verhogen-Woke}

-- The processes `ws` wait for the semaphore `key`, for a unit each.
pub record IsUnit (k : Kernel) (key : ℕ) (ws : List Ptr) : Type 0 where
  pub value : int_of (k.machine.memory key) ≡ minus (length ws)
  pub wants : All (λ w. k.tables.procs.res_wait w ≡ negsuc 0) ws

-- Those that wait for a semaphore are different, and no more than there are processes.
pub waiting-Distinct :
    (k : Kernel) (key : ℕ) (es : List Entry) (fs xs : List Ptr)
    → Queues k es fs xs
    → Distinct (waiting_for key (view es)) × (length (waiting_for key (view es)) ≤ max_proc)
waiting-Distinct k key es fs xs q =
    waiting_for-All (λ ws. Distinct ws × (length ws ≤ max_proc)) key es (tt, omega arith)
      (All-map _ _ es
        (λ e (h : Holds k.tables e). (Ring-Distinct _ _ h.ring, Holds-short k.tables e h))
        q.asl.table.holds)

pub waiting-nonnull :
    (k : Kernel) (key : ℕ) (es : List Entry) (fs xs : List Ptr)
    → Queues k es fs xs
    → NotIn null (waiting_for key (view es))
waiting-nonnull k key es fs xs q =
    waiting_for-All (NotIn null) key es tt
      (All-map _ _ es (λ e (h : Holds k.tables e). Ring-nonnull _ _ h.ring) q.asl.table.holds)

total-units :
    (wait : Ptr → ℤ) (ws : List Ptr) (m : ℕ)
    → All (λ w. wait w ≡ negsuc 0) ws
    → m + length ws < 2 ^ 31
    → total wait (pos m) ws ≡ pos (m + length ws)
total-units wait [] m units small = ap pos (omega arith)
total-units wait (w ∷ ws) m units small =
    rw (units.0, sub_int-minus m (omega arith))
      (total-units wait ws (m + 1) units.1 (omega arith) ∙ ap pos (omega arith))

-- One unit is for the first who waits.
served-unit :
    (wait : Ptr → ℤ) (w : Ptr) (ws : List Ptr)
    → All (λ w. wait w ≡ negsuc 0) (w ∷ ws)
    → served wait (pos 1) (w ∷ ws) ≡ (w ∷ [], ws)
unfolding served sub_int add_int ◌-ℤ◌ ◌+ℤ◌ int_of word_of
served-unit wait w [] units = rw units.0 refl
served-unit wait w (v ∷ ws) units = rw (units.0, units.1.0) refl

v_served-unit :
    (k : Kernel) (key : ℕ) (es : List Entry) (w : Ptr) (ws : List Ptr)
    → waiting_for key (view es) ≡ w ∷ ws
    → IsUnit k key (w ∷ ws)
    → length (w ∷ ws) ≤ max_proc
    → v_served k key (pos 1) es ≡ (w ∷ [], ws)
v_served-unit k key es w ws is unit few =
    rw
      (
        is,
        unit.value,
        total-units k.tables.procs.res_wait (w ∷ ws) 0 unit.wants (omega arith)
            ∙ ap pos (zero_add (suc (length ws))),
        add_int-minus (length ws) (omega arith),
        add_int-one (length ws),
      )
      (served-unit k.tables.procs.res_wait w ws unit.wants)
  where
    zero_add : (n : ℕ) → 0 + n ≡ n
    zero_add n = omega arith

module _ (a : Arch) (k : Kernel) (key : ℕ) (es : List Entry) (fs xs : List Ptr) (w : Ptr)
    (ws : List Ptr) where
  -- A V operation with weight 1 makes the first process ready.
  pub semaphore_operation-unit :
      Queues k es fs xs
      → key ≢ null
      → waiting_for key (view es) ≡ w ∷ ws
      → IsUnit k key (w ∷ ws)
      → Proceeds
          (λ _ k'. Woke key (view es) xs (w ∷ []) ws (set_value key (minus (length ws)) k) k')
          (semaphore_operation a key (pos 1) k)
  unfolding semaphore_operation
  semaphore_operation-unit q kne is unit =
      let few = subst (λ zs. length zs ≤ max_proc) is (waiting-Distinct k key es fs xs q).1 in
      let v : v_value k key (pos 1) es ≡ minus (length ws) =
        ap (λ z. add_int z (pos 1)) unit.value ∙ add_int-minus (length ws) (omega arith) in
      rw (==_ne key null kne) (
        Proceeds-mono (verhogen-Woke k key (pos 1) es fs xs q kne) λ _ k' done.
          subst (λ z. Woke key (view es) xs (w ∷ []) ws (set_value key z k) k') v
            (subst
              (λ r. Woke key (view es) xs r.0 r.1 (set_value key (v_value k key (pos 1) es) k) k')
              (v_served-unit k key es w ws is unit few) done))

  -- The semaphore and the processes that still wait are of the same kind afterwards.
  pub Woke-IsUnit :
      (k' : Kernel)
      → Woke key (view es) xs (w ∷ []) ws (set_value key (minus (length ws)) k) k'
      → IsUnit k key (w ∷ ws)
      → Distinct (w ∷ ws)
      → length ws ≤ max_proc
      → IsUnit k' key ws
  Woke-IsUnit k' done unit distinct few = record {
    value =
        ap (λ (j : Kernel). int_of (j.machine.memory key)) done.rest
        ∙ ap int_of (update_self k.machine.memory key (word_of (minus (length ws))))
        ∙ back ws few;
    wants =
        All-both _ _ _ ws
          (λ y ne h. ap (λ (ps : Procs). ps.res_wait y) done.procs ∙ update_ne _ w y (pos 0) ne ∙ h)
          distinct.0 unit.wants.1;
  }
    where
      back :
          (ws : List Ptr)
          → length ws ≤ max_proc
          → int_of (word_of (minus (length ws))) ≡ minus (length ws)
      back [] few = int_of-word_of-pos 0 (omega arith)
      back (v ∷ vs) few = int_of-word_of-negsuc (length vs) (omega arith)
