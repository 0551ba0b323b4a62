-- ===== src/Nucleus/Stops.antt =====
-- A P operation of source/syscall.c keeps each process in its place.
use jae_os.Prelude.{
  arith, ◌≢◌, refl, ℕ, inl, inr, true, false, Option, Bool, List, ◌++◌, ap, Ptr, null, All-map,
  All-both, All-append, All-append_left, All-append_right, if◌then◌else◌,
}
use jae_os.Prelude.Int.{ℤ, pos, ltb_ℤ, add_int, int_of}
use jae_os.Clist.Ring.{Ring-frame, Ring-nonnull}
use jae_os.Pcb.{Procs}
use jae_os.Asl.{Tables}
use jae_os.Asl.View.{Entry, Holds}
use jae_os.Asl.Joins.{insert_blocked-MayJoin}
use jae_os.Kernel.{Kernel, get_tod_lo, skip}
use jae_os.Kernel.Runs.{
  Safe, goes, stops, nonnull-Safe, Proceeds-Safe, from_run-Proceeds, read_int-Proceeds,
}
use jae_os.Syscall.Semaphore.{passeren, block_current}
use jae_os.Syscall.Semaphore.Passeren.{about_to_block, charge-IsAsl, set_value}
use jae_os.Nucleus.{InPlace, Sound}
use jae_os.Nucleus.Pool.{Spare-frame, Spare-same}

module _ (k : Kernel) (es : List Entry) (fs xs free : List Ptr) (i : InPlace k es fs xs free)
    (key : ℕ) (kne : key ≢ null) (ne : k.current_process ≢ null) where
  block_current-Sound : (weight : ℤ) → Safe (λ _ k'. Sound k') (block_current key weight k)
  unfolding block_current get_tod_lo
  block_current-Sound weight = nonnull-Safe k.current_process ne _ _ (
      nonnull-Safe k.current_process ne _ _ (
        nonnull-Safe k.current_process ne _ _ (
          Proceeds-Safe
            (from_run-Proceeds {A = Option Bool × Tables} (λ r k. record k { tables = r.1 })
              (λ r. r.0) (about_to_block weight k)
              (insert_blocked-MayJoin _ k.current_process ne i.current_valid (xs ++ free)
                (All-append _ xs free i.not_ready i.spare.not_current) es fs key
                (charge-IsAsl _ _ _ k.tables es fs i.queues.asl) kne i.not_waiting
                (All-both _ _ _ es (λ f. All-append _ xs free) i.queues.outside
                  i.spare.not_waiting)))
            λ full k' ((r, m), how, is, e). elim how [
              | inl (blocked, (es', fs', a, v, out, links, rest)) ↦
                  rw (is, blocked, e)
                    (goes (
                      es',
                      fs',
                      xs,
                      free,
                      record {
                        queues = record {
                          asl = a;
                          ready =
                              Ring-frame _ _ xs refl (All-append_left _ xs free links)
                                i.queues.ready;
                          outside = All-map _ _ es' (λ f. All-append_left _ xs free) out;
                        };
                        not_ready = Ring-nonnull _ xs i.queues.ready;
                        not_waiting =
                            All-map _ _ es' (λ f (h : Holds m f). Ring-nonnull _ _ h.ring)
                              a.table.holds;
                        current_valid = omega arith;
                        ready_valid = i.ready_valid;
                        spare =
                            Spare-frame k _ es es' xs xs free i.spare
                              (record {
                                free = ap (λ (ps : Procs). ps.pcb_free) rest;
                                children = ap (λ (ps : Procs). ps.p_children) rest;
                                siblings = ap (λ (ps : Procs). ps.p_siblings) rest;
                                parents = ap (λ (ps : Procs). ps.p_parent) rest;
                              })
                              (All-append_right _ xs free links)
                              (All-map _ _ es' (λ f. All-append_right _ xs free) out)
                              i.spare.not_ready (Ring-nonnull _ free i.spare.ring);
                      },
                    ))
              | inr refused ↦ rw (is, refused) stops
            ])))

-- A new value of a semaphore moves nobody.
pub set_value-InPlace :
    (key : ℕ) (v : ℤ) (k : Kernel) (es : List Entry) (fs xs free : List Ptr)
    → InPlace k es fs xs free
    → InPlace (set_value key v k) es fs xs free
set_value-InPlace key v k es fs xs free i = record {
  queues = record { asl = i.queues.asl; ready = i.queues.ready; outside = i.queues.outside };
  not_ready = i.not_ready;
  not_waiting = i.not_waiting;
  current_valid = i.current_valid;
  ready_valid = i.ready_valid;
  spare = Spare-same k (set_value key v k) es xs free i.spare refl refl;
}

pub passeren-Sound :
    (k : Kernel) (key : ℕ) (weight : ℤ)
    → Sound k
    → key ≢ null
    → k.current_process ≢ null
    → Safe (λ _ k'. Sound k') (passeren key weight k)
unfolding passeren
passeren-Sound k key weight (es, fs, xs, free, i) kne ne =
    let v = add_int (int_of (k.machine.memory key)) weight in
    let j = set_value-InPlace key v k es fs xs free i in
    Proceeds-Safe (read_int-Proceeds key k kne) λ _ _ (e, e1).
      rw (e, e1)
        (nonnull-Safe key kne _ _ (
          Proceeds-Safe (read_int-Proceeds key (set_value key v k) kne)
            λ w _ (_, e2). rw e2 (decide (set_value key v k) es fs xs free j ne (ltb_ℤ w (pos 0)))))
  where
    decide :
        (k1 : Kernel) (es : List Entry) (fs xs free : List Ptr)
        → InPlace k1 es fs xs free
        → k1.current_process ≢ null
        → (b : Bool) → Safe (λ _ k'. Sound k') ((if b then block_current key weight else skip) k1)
    decide k1 es fs xs free j here true = block_current-Sound k1 es fs xs free j key kne here weight
    decide k1 es fs xs free j here false = goes (es, fs, xs, free, j)
