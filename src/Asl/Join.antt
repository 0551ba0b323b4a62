-- ===== src/Asl/Join.antt =====
-- A process joins the queue of a descriptor: the part of insertBlocked that both its branches share.
use jae_os.Prelude.{
  ◌≤◌, ◌≡◌, refl, sym, ap, ◌∙◌, ◌≢◌, List, [], ◌∷◌, ◌++◌, Ptr, null, All, All-map, All-both,
  All-append, NotIn, load-ok, store-ok, update, update_self, update_ne, Returns, returns,
  Returns-bind,
}
use jae_os.Const.{max_proc}
use jae_os.Clist.Ring.{Ring, Ring-frame, Agree-refl}
use jae_os.Pcb.{Procs, queue}
use jae_os.Pcb.Queue.{Apart, insert_proc_q-append}
use jae_os.Asl.{Tables, join_queue}
use jae_os.Asl.View.{Entry, Holds, SameEntry}

-- Only the descriptor `s` and its queue, the links of `ws` and the process `p` have changed.
pub record QueueOnly (s p : Ptr) (ws : List Ptr) (m m' : Tables) : Type 0 where
  pub rest : m'.procs ≡ record m.procs { p_list = m'.procs.p_list; p_cursem = m'.procs.p_cursem }
  pub list : m'.s_link ≡ m.s_link
  pub active : m'.aslh ≡ m.aslh
  pub free : m'.semd_free ≡ m.semd_free
  pub keys : (q : Ptr) → q ≢ s → m'.s_sem_add q ≡ m.s_sem_add q
  pub headers : (q : Ptr) → q ≢ s → m'.s_procq q ≡ m.s_procq q
  pub links : (q : Ptr) → NotIn q ws → m'.procs.p_list q ≡ m.procs.p_list q
  pub cursems : (q : Ptr) → q ≢ p → m'.procs.p_cursem q ≡ m.procs.p_cursem q

-- An entry that has none of these is as it was.
pub QueueOnly-SameEntry :
    (s p : Ptr) (ws : List Ptr) (m m' : Tables) (f : Entry)
    → QueueOnly s p ws m m'
    → f.semd ≢ s
    → NotIn p f.waiting
    → Apart ws f.waiting
    → SameEntry m m' f
QueueOnly-SameEntry s p ws m m' f only ne out apart = record {
  key = only.keys f.semd ne;
  header = only.headers f.semd ne;
  links = All-map _ _ f.waiting only.links apart;
  cursem = All-map _ _ f.waiting only.cursems out;
}

module _ (m : Tables) (e : Entry) (p : Ptr) where
  open e use {semd, key, waiting}

  abbrev pub joined : Entry
  joined = record { semd = semd; key = key; waiting = waiting ++ p ∷ [] }

  pub join_queue-Holds :
      semd ≢ null
      → key ≢ null
      → p ≢ null
      → p ≤ max_proc
      → Ring (queue m.procs (m.s_procq semd)) waiting
      → NotIn p waiting
      → All (λ q. m.procs.p_cursem q ≡ semd) waiting
      → All (λ q. q ≤ max_proc) waiting
      → Returns
          (λ m'. Holds m' joined × QueueOnly semd p (p ∷ waiting) m m')
          (join_queue key semd p m)
  unfolding join_queue
  join_queue-Holds sne kne ne le ring out cursem valid =
      rw
        (
          store-ok m.procs.p_cursem p semd ne,
          store-ok m.s_sem_add semd key sne,
          load-ok m.s_procq semd sne,
        )
        (Returns-bind
          (insert_proc_q-append (record m.procs { p_cursem = update m.procs.p_cursem p semd }) _
            waiting (Ring-frame _ _ waiting refl (Agree-refl m.procs.p_list waiting) ring) p ne out)
          λ (q', procs') (ring', only).
            let same = ap (λ (r : Procs). r.p_cursem) only.rest in
            returns (
              record {
                key_is = update_self _ semd key;
                ring = Ring-frame _ _ _ (update_self _ semd q') (Agree-refl procs'.p_list _) ring';
                cursem = rw same (
                    All-append _ waiting _
                      (All-both _ _ _ waiting (λ x d c. update_ne _ p x semd d ∙ c) out cursem)
                      (update_self _ p semd, tt));
                valid = All-append _ waiting _ valid (le, tt);
                key_ne = kne;
              },
              record {
                rest =
                    only.rest
                    ∙ ap
                        (λ (c : Ptr → Ptr). record m.procs { p_list = procs'.p_list; p_cursem = c })
                        (sym same);
                list = refl;
                active = refl;
                free = refl;
                keys = λ q d. update_ne _ semd q key d;
                headers = λ q d. update_ne _ semd q q' d;
                links = only.same;
                cursems = λ q d. ap (λ (c : Ptr → Ptr). c q) same ∙ update_ne _ p q semd d;
              },
            ))
