-- ===== src/Tests/Data.antt =====
-- The inputs of the tests: three descriptors 1, 2 and 3 in a circle and 9 in another, as lists of include/clist.h, a
-- queue and a family of source/pcb.c, and the queue of a semaphore of source/asl.c.
use jae_os.Prelude.{
  ℕ, ◌≡◌, ◌≢◌, refl, false, NotIn, List, [], ◌∷◌, arith, Ptr, null, ◌==◌, if◌then◌else◌,
}
use jae_os.Prelude.Int.{pos}
use jae_os.Clist.{Clist}
use jae_os.Clist.Ring.{Ring, IsRing, filled}
use jae_os.Pcb.{Procs, zero_state}
use jae_os.Pcb.Tree.{IsChildren}
use jae_os.Asl.{Tables}
use jae_os.Asl.View.{Entry, IsAsl}

pub differ : (a b : ℕ) → (a == b) ≡ false → a ≢ b
differ a b e d = ground arith

abbrev pub circle : Ptr → Ptr
circle q = if q == 1 then 2 else if q == 2 then 3 else if q == 9 then 9 else 1

abbrev pub three : Clist
three = record { tail = 3; next = circle }

abbrev pub three_items : List Ptr
three_items = 1 ∷ 2 ∷ 3 ∷ []

pub seven_new : NotIn 7 three_items
seven_new = (differ 1 7 refl, (differ 2 7 refl, (differ 3 7 refl, tt)))

three-IsRing : IsRing three (1 ∷ 2 ∷ [])
three-IsRing = record {
  walk = (refl, (refl, refl));
  fresh = (differ 1 3 refl, (differ 2 3 refl, tt));
  distinct = ((differ 2 1 refl, tt), (tt, tt));
  nonnull = (differ 1 0 refl, (differ 2 0 refl, tt));
  tail_ne = differ 3 0 refl;
}

pub three-Ring : Ring three three_items
three-Ring = filled (1 ∷ 2 ∷ []) three-IsRing refl

-- Three processes: children of 9 in this order, and waiting at the descriptor 5.
abbrev pub procs : Procs
procs = record {
  p_parent = λ q. if q == 9 then null else 9;
  p_cursem = λ q. 5;
  p_s = λ q. zero_state;
  p_list = circle;
  p_children = λ q. if q == 9 then 3 else null;
  p_siblings = circle;
  pid = λ q. 0;
  res_wait = λ q. pos 0;
  kernel_time = λ q. 0;
  global_time = λ q. 0;
  oldnew_areas = λ q i. zero_state;
  tags = λ q i. 0;
  pcb_free = 3;
}

pub procs-IsChildren : IsChildren procs 9 three_items
procs-IsChildren = record { ring = three-Ring; parents = (refl, (refl, (refl, tt))) }

-- The semaphore at 100 has the descriptor 5, and 6 and 7 are free.
abbrev pub tables : Tables
tables = record {
  procs = procs;
  s_sem_add = λ s. 100;
  s_link = λ s. if s == 6 then 7 else if s == 7 then 6 else 5;
  s_procq = λ s. 3;
  aslh = 5;
  semd_free = 7;
}

abbrev pub waiting : Entry
waiting = record { semd = 5; key = 100; waiting = three_items }

abbrev pub entries : List Entry
entries = waiting ∷ []

abbrev pub free_entries : List Ptr
free_entries = 6 ∷ 7 ∷ []

pub tables-IsAsl : IsAsl tables entries free_entries
tables-IsAsl = record {
  table = record {
    active =
        filled []
          (record {
            walk = refl;
            fresh = tt;
            distinct = tt;
            nonnull = tt;
            tail_ne = differ 5 0 refl;
          })
          refl;
    free =
        filled (6 ∷ [])
          (record {
            walk = (refl, refl);
            fresh = (differ 6 7 refl, tt);
            distinct = (tt, tt);
            nonnull = (differ 6 0 refl, tt);
            tail_ne = differ 7 0 refl;
          })
          refl;
    apart = ((differ 5 6 refl, tt), ((differ 5 7 refl, tt), tt));
    holds = (
      record {
        key_is = refl;
        ring = three-Ring;
        cursem = (refl, (refl, (refl, tt)));
        valid = (omega arith, (omega arith, (omega arith, tt)));
        key_ne = differ 100 0 refl;
      },
      tt,
    );
    sorted = (tt, tt);
    bounded = omega arith;
  };
  busy = (λ e. cc, tt);
}
