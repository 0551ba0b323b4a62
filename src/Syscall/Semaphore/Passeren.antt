-- ===== src/Syscall/Semaphore/Passeren.antt =====
-- The P operation in semaphore_operation of source/syscall.c.
use jae_os.Prelude.{
  ℕ, suc, ◌≤◌, ◌≡◌, ◌≢◌, refl, if◌then◌else◌, true, false, Option, Bool, List, [], Ptr, null,
  update, update_self, All-All, inl, inr,
}
use jae_os.Prelude.Int.{ℤ, pos, ltb_ℤ, ◌+ℤ◌, int_of, word_of, add_int, add_word, sub_word}
use jae_os.Prelude.Words.{int_of-word_of-add_int}
use jae_os.Const.{max_proc, load_next}
use jae_os.Asl.{Tables}
use jae_os.Asl.View.{Entry, IsAsl}
use jae_os.Asl.Woken.{procs-IsAsl}
use jae_os.Asl.Insert.{NotWaiting}
use jae_os.Asl.Spec.{view, block}
use jae_os.Asl.Refine.{Implements, insert_blocked-refines}
use jae_os.Kernel.{Kernel, get_tod_lo, skip}
use jae_os.Kernel.Runs.{
  Proceeds, proceeds, Proceeds-bind, nonnull-Proceeds, read_int-Proceeds, from_run-Proceeds,
}
use jae_os.Syscall.Semaphore.{passeren, block_current}

-- The invariant of the semaphore list does not rest on what a process is charged and waits for.
abbrev pub charge : (Ptr → ℤ) → (Ptr → ℕ) → (Ptr → ℕ) → Tables → Tables
charge r f g m = record m {
  procs = record m.procs { res_wait = r; kernel_time = f; global_time = g };
}

pub charge-IsAsl :
    (r : Ptr → ℤ) (f g : Ptr → ℕ) (m : Tables) (es : List Entry) (fs : List Ptr)
    → IsAsl m es fs
    → IsAsl (charge r f g m) es fs
charge-IsAsl r f g m es fs a =
    procs-IsAsl m (charge r f g m).procs es fs a
      (All-All _ es (λ e. (All-All _ e.waiting (λ q. refl), All-All _ e.waiting (λ q. refl))))

-- The nucleus as block_current calls insertBlocked: the process has been charged its times.
abbrev pub about_to_block : ℤ → Kernel → Kernel
about_to_block weight k =
    let p = k.current_process in
    let m = k.tables.procs in
    let since_kernel = sub_word (k.machine.clock k.machine.reads) k.kernel_start in
    let since_start = sub_word (k.machine.clock (suc k.machine.reads)) k.start_tod in
    record k {
      tables =
          charge (update m.res_wait p weight)
            (update m.kernel_time p (add_word (m.kernel_time p) since_kernel))
            (update m.global_time p (add_word (m.global_time p) since_start)) k.tables;
      machine = record k.machine { reads = suc (suc k.machine.reads) };
    }

-- `v` is written to the semaphore at `key`.
abbrev pub set_value : ℕ → ℤ → Kernel → Kernel
set_value key v k = record k {
  machine = record k.machine { memory = update k.machine.memory key (word_of v) };
}

-- The current process has stopped and waits for the semaphore.
pub record Stopped (key : ℕ) (es : List Entry) (k k' : Kernel) : Type 0 where
  pub current : k'.current_process ≡ null
  pub flag : k'.flag ≡ load_next
  pub blocked : k'.soft_block_count ≡ k.soft_block_count +ℤ pos 1
  pub waiting : Implements k'.tables (block key k.current_process (view es))
  pub machine : k'.machine ≡ record k.machine { reads = suc (suc k.machine.reads) }

-- What a P operation comes to, by whether the new value `v` is negative.
abbrev pub AfterP : Bool → ℕ → ℤ → List Entry → Kernel → Kernel → Type 0
AfterP true key v es k k' = Stopped key es (set_value key v k) k'
AfterP false key v es k k' = k' ≡ set_value key v k

module _ (k : Kernel) (es : List Entry) (fs : List Ptr) (a : IsAsl k.tables es fs) (key : ℕ)
    (kne : key ≢ null) (ne : k.current_process ≢ null) (le : k.current_process ≤ max_proc)
    (out : NotWaiting k.current_process es) (free : fs ≢ []) where
  block_current-Stopped :
      (weight : ℤ) → Proceeds (λ _ k'. Stopped key es k k') (block_current key weight k)
  unfolding block_current get_tod_lo
  block_current-Stopped weight = nonnull-Proceeds k.current_process ne _ _ (
      nonnull-Proceeds k.current_process ne _ _ (
        nonnull-Proceeds k.current_process ne _ _ (
          Proceeds-bind
            (from_run-Proceeds {A = Option Bool × Tables} (λ r k. record k { tables = r.1 })
              (λ r. r.0) (about_to_block weight k)
              (insert_blocked-refines _ es fs (charge-IsAsl _ _ _ k.tables es fs a) key kne
                k.current_process ne le out))
            λ full k' (r, how, is, e). elim how [
              | inl (blocked, held) ↦
                  rw (is, blocked, e)
                    (proceeds record {
                      current = refl;
                      flag = refl;
                      blocked = refl;
                      waiting = held;
                      machine = refl;
                    })
              | inr (_, _, none_free, _) ↦ absurd (free none_free)
            ])))

module _ (k : Kernel) (es : List Entry) (fs : List Ptr) (a : IsAsl k.tables es fs) (key : ℕ)
    (kne : key ≢ null) (ne : k.current_process ≢ null) (le : k.current_process ≤ max_proc)
    (out : NotWaiting k.current_process es) (free : fs ≢ []) where
  abbrev new_value : ℤ → ℤ
  new_value weight = add_int (int_of (k.machine.memory key)) weight

  decide :
      (weight : ℤ) (negative : Bool)
      → Proceeds
          (λ _ k'. AfterP negative key (new_value weight) es k k')
          ((if negative then block_current key weight else skip)
            (set_value key (new_value weight) k))
  decide weight true =
      block_current-Stopped (set_value key (new_value weight) k) es fs a key kne ne le out free
        weight
  decide weight false = proceeds refl

  -- A P operation adds its weight to the value of the semaphore. If the result is negative, the
  -- current process stops and waits behind the others; else nothing but the value changes. It is
  -- supposed that the semaphore is not NULL, that the semaphore list satisfies its invariant, that
  -- the process is in the table and waits for nothing, and that a descriptor is free.
  pub passeren-AfterP :
      (weight : ℤ)
      → Proceeds
          (λ _ k'.
            AfterP
              (ltb_ℤ (add_int (int_of (k.machine.memory key)) weight) (pos 0))
              key
              (add_int (int_of (k.machine.memory key)) weight)
              es
              k
              k')
          (passeren key weight k)
  unfolding passeren
  passeren-AfterP weight = Proceeds-bind (read_int-Proceeds key k kne) λ v k1 (e, e1).
      rw (e, e1)
        (nonnull-Proceeds key kne _ _ (
          Proceeds-bind (read_int-Proceeds key (set_value key (new_value weight) k) kne)
            λ v k2 (e, e2).
              rw
                (
                  e,
                  e2,
                  update_self k.machine.memory key (word_of (new_value weight)),
                  int_of-word_of-add_int (int_of (k.machine.memory key)) weight,
                )
                (decide weight (ltb_ℤ (new_value weight) (pos 0)))))
