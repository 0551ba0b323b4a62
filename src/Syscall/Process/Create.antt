-- ===== src/Syscall/Process/Create.antt =====
-- create_process in source/syscall.c.
use jae_os.Prelude.{
  ◌≡◌, ◌≢◌, refl, sym, ap, subst, ◌∙◌, ℕ, ◌+◌, ◌%◌, ◌^◌, ◌≤◌, List, [], ◌∷◌, ◌++◌, Ptr, null, NotIn,
  All-map, All-both, ◌<◌, update_self, update_ne, ==_ne,
}
use jae_os.Prelude.Int.{pos, ◌+ℤ◌}
use jae_os.Arch.{Arch}
use jae_os.Clist.Ring.{Ring-frame, Ring-nonnull, Ring-Distinct, vacant}
use jae_os.Pcb.{Procs, alloc_pcb}
use jae_os.Pcb.Alloc.{Free, alloc_pcb-cons, alloc_pcb-nil, IsFresh, SameFields}
use jae_os.Pcb.Queue.{Apart, Apart-sym}
use jae_os.Pcb.Tree.{IsChildren}
use jae_os.Kernel.{Kernel, next, set_procs}
use jae_os.Kernel.Runs.{on_procs_eq, Proceeds, Proceeds-bind, Proceeds-mono, from_run-Proceeds}
use jae_os.Scheduler.Ready.{Ready}
use jae_os.Syscall.Process.{create_process}
use jae_os.Syscall.Process.Family.{IsChildren-same}
use jae_os.Syscall.Process.Register.{joined_id}
use jae_os.Syscall.Pid.Digits.{HasDigits}
use jae_os.Syscall.Process.Settle.{Settled, settle-Settled}

-- What a process has but for its links is the same.
pub record SameProcess (m m' : Procs) (q : Ptr) : Type 0 where
  pub cursem : m'.p_cursem q ≡ m.p_cursem q
  pub state : m'.p_s q ≡ m.p_s q
  pub id : m'.pid q ≡ m.pid q
  pub waits : m'.res_wait q ≡ m.res_wait q
  pub kernel : m'.kernel_time q ≡ m.kernel_time q
  pub global : m'.global_time q ≡ m.global_time q
  pub areas : m'.oldnew_areas q ≡ m.oldnew_areas q
  pub handlers : m'.tags q ≡ m.tags q

-- What is known of the new process `x`, of the lists around it, and of the other processes.
pub record Created (a : Arch) (statep x : Ptr) (xs cs rs : List Ptr) (n : ℕ) (k : Kernel) (r : ℕ)
    (k' : Kernel) : Type 0 where
  pub result : r ≡ joined_id a.alloc_tmp k.counter n
  pub named : k'.tables.procs.pid x ≡ r
  pub state : k'.tables.procs.p_s x ≡ a.read_state k.machine.memory statep
  pub kernel_time : k'.tables.procs.kernel_time x ≡ 0
  pub global_time : k'.tables.procs.global_time x ≡ 0
  pub running : k'.tables.procs.p_cursem x ≡ null
  pub childless : IsChildren k'.tables.procs x []
  pub no_handlers : (i : ℕ) → i < 3 → k'.tables.procs.tags x i ≡ 0
  pub child : IsChildren k'.tables.procs k.current_process (cs ++ x ∷ [])
  pub ready : Ready k' (rs ++ x ∷ [])
  pub left : Free k'.tables.procs xs
  pub asks_nothing : k'.tables.procs.res_wait x ≡ pos 0
  pub areas : k'.tables.procs.oldnew_areas x ≡ k.tables.procs.oldnew_areas x
  pub others : (q : Ptr) → q ≢ x → SameProcess k.tables.procs k'.tables.procs q
  pub parents : (q : Ptr) → q ≢ x → k'.tables.procs.p_parent q ≡ k.tables.procs.p_parent q
  pub headers :
      (q : Ptr)
      → q ≢ x
      → q ≢ k.current_process
      → k'.tables.procs.p_children q ≡ k.tables.procs.p_children q
  pub siblings :
      (q : Ptr) → NotIn q (x ∷ cs) → k'.tables.procs.p_siblings q ≡ k.tables.procs.p_siblings q
  pub links :
      (q : Ptr) → NotIn q (x ∷ xs) → NotIn q rs → k'.tables.procs.p_list q ≡ k.tables.procs.p_list q
  pub rest : k' ≡ record k {
    tables = record k.tables { procs = k'.tables.procs };
    readyqueue = k'.readyqueue;
    counter = (k.counter + 1) % 2 ^ 32;
    process_count = k.process_count +ℤ pos 1;
  }

module _ (a : Arch) (statep : ℕ) (k : Kernel) where
  created :
      (x : Ptr) (xs cs rs : List Ptr) (n : ℕ) (m : Procs) (r : ℕ) (k' : Kernel)
      → x ≢ k.current_process
      → NotIn x xs
      → Apart rs xs
      → Free m xs
      → IsFresh a.alloc_tmp x m
      → ((q : Ptr) → q ≢ x → SameFields k.tables.procs m q)
      → ((q : Ptr) → NotIn q (x ∷ xs) → m.p_list q ≡ k.tables.procs.p_list q)
      → (m.oldnew_areas ≡ k.tables.procs.oldnew_areas)
      → Settled x k.current_process
          (joined_id a.alloc_tmp k.counter n)
          (a.read_state k.machine.memory statep)
          cs
          rs
          (set_procs m k)
          r
          k'
      → Created a statep x xs cs rs n k r k'
  created x xs cs rs n m r k' differs out apart free fresh others links areas d = record {
    result = d.result;
    named =
        ap (λ (ps : Procs). ps.pid x) d.procs
        ∙ update_self m.pid x (joined_id a.alloc_tmp k.counter n)
        ∙ sym d.result;
    state = ap (λ (ps : Procs). ps.p_s x) d.procs ∙ update_self m.p_s x _;
    kernel_time = ap (λ (ps : Procs). ps.kernel_time x) d.procs ∙ update_self m.kernel_time x 0;
    global_time = ap (λ (ps : Procs). ps.global_time x) d.procs ∙ update_self m.global_time x 0;
    running = ap (λ (ps : Procs). ps.p_cursem x) d.procs ∙ fresh.cursem;
    childless = record {
      ring = vacant (d.headers x differs ∙ fresh.no_children) refl;
      parents = tt;
    };
    no_handlers = λ i h. ap (λ (ps : Procs). ps.tags x i) d.procs ∙ fresh.no_handlers i h;
    child = d.children;
    ready = d.ready;
    left =
        Ring-frame _ _ xs (ap (λ (ps : Procs). ps.pcb_free) d.procs)
          (All-map _ _ xs d.links (All-both _ _ _ xs (λ y o f. ((λ e. o (sym e)), f)) out apart))
          free;
    asks_nothing = ap (λ (ps : Procs). ps.res_wait x) d.procs ∙ fresh.waits;
    areas = ap (λ (ps : Procs). ps.oldnew_areas x) d.procs ∙ ap (λ f. f x) areas;
    others = λ q h. record {
      cursem = ap (λ (ps : Procs). ps.p_cursem q) d.procs ∙ (others q h).cursem;
      state = ap (λ (ps : Procs). ps.p_s q) d.procs ∙ update_ne m.p_s x q _ h ∙ (others q h).state;
      id = ap (λ (ps : Procs). ps.pid q) d.procs ∙ update_ne m.pid x q _ h ∙ (others q h).id;
      waits = ap (λ (ps : Procs). ps.res_wait q) d.procs ∙ (others q h).waits;
      kernel =
          ap (λ (ps : Procs). ps.kernel_time q) d.procs
          ∙ update_ne m.kernel_time x q 0 h
          ∙ (others q h).kernel;
      global =
          ap (λ (ps : Procs). ps.global_time q) d.procs
          ∙ update_ne m.global_time x q 0 h
          ∙ (others q h).global;
      areas = ap (λ (ps : Procs). ps.oldnew_areas q) d.procs ∙ (others q h).areas;
      handlers = ap (λ (ps : Procs). ps.tags q) d.procs ∙ (others q h).handlers;
    };
    parents = λ q h. d.parents q h ∙ (others q h).parent;
    headers = λ q h here. d.headers q here ∙ (others q h).children;
    siblings = λ q h. d.siblings q h ∙ (others q (λ e. h.0 (sym e))).siblings;
    links = λ q h h'. d.links q (h.0, h') ∙ links q h;
    rest = d.rest;
  }

  -- create_process with a free descriptor takes it and answers the new id of the process, the
  -- digits of the counter behind those of the address from which allocPcb takes the id. The process
  -- has the state at statep, no times, no semaphore, no children and no handlers; it becomes the
  -- last child of the current process and the last ready one, and leaves the free descriptors;
  -- process_count and the counter grow by one. Of another process nothing changes but queue links,
  -- where it is free or ready, and links of the tree, where it is the current process or one of its
  -- children; nothing else of the nucleus changes. It is supposed that statep is not NULL, that
  -- there is a current process, that the counter has at most nine digits, that the free descriptor
  -- is neither the current process nor one of its children, and that no ready process is free.
  pub create_process-Created :
      (x : Ptr) (xs cs rs : List Ptr) (n : ℕ)
      → Free k.tables.procs (x ∷ xs)
      → IsChildren k.tables.procs k.current_process cs
      → Ready k rs
      → statep ≢ null
      → k.current_process ≢ null
      → x ≢ k.current_process
      → NotIn x cs
      → Apart (x ∷ xs) rs
      → n ≤ 8
      → HasDigits k.counter n
      → Proceeds (Created a statep x xs cs rs n k) (create_process a statep k)
  unfolding create_process
  create_process-Created x xs cs rs n free kids ring statep_ne lives differs stranger apart few
        digits =
      Proceeds-bind
        (from_run-Proceeds (λ r. set_procs r.1) (λ r. r.0) k
          (alloc_pcb-cons a.alloc_tmp k.tables.procs x xs free))
        λ y k' ((r, m), (is, left, fresh, others, links, areas), e1, e2).
          let ne = (Ring-nonnull _ _ free).0 in
          let away = Apart-sym (x ∷ xs) rs apart in
          rw (e1, e2, is, ==_ne x null ne)
            (Proceeds-mono
              (settle-Settled x ne cs rs stranger away.0 a statep (set_procs m k) n statep_ne lives
                (IsChildren-same k.tables.procs m k.current_process cs
                  ((others k.current_process λ e. differs (sym e)).children)
                  (All-map _ _ cs (λ q h. ((others q h).siblings, (others q h).parent)) stranger)
                  kids)
                (Ring-frame _ _ rs refl (All-map _ _ rs links apart) ring) few digits)
              λ r k' d.
                created x xs cs rs n m r k' differs (Ring-Distinct _ _ free).0 away.1 left fresh
                  others links areas
                  (subst
                    (λ i.
                      Settled x k.current_process (joined_id i k.counter n)
                        (a.read_state k.machine.memory statep) cs rs (set_procs m k) r k')
                    fresh.id d))

  -- Without a free descriptor it answers -1 and changes nothing.
  pub create_process-full : Free k.tables.procs [] → create_process a statep k ≡ next 0xffff_ffff k
  unfolding create_process
  create_process-full free =
      on_procs_eq (alloc_pcb a.alloc_tmp) k _ (alloc_pcb-nil a.alloc_tmp k.tables.procs free) refl
