-- ===== src/System/Safety.antt =====
-- What holds in every state that the server reaches: queue lengths, replies, idle signals, tasks.
use horus_app_eval.Prelude.{
  ℕ, ◌+◌, ◌<◌, ◌≤◌, ◌^◌, ◌≡◌, sym, ap, true, false, arith, [], length, total, total_zero, some, u16,
  pred32, ◌==◌, if◌then◌else◌, inl, inr, le-total,
}
use mathlib.Core.Path.{subst}
use native.Mathlib.Decide.{ℕ_discrete}
use horus_app_eval.Message.{Message, pkt_type_task_done_idle, swap_uint16}
use horus_app_eval.Mempool.Count.{available}
use horus_app_eval.Mempool.Available.{alloc_room}
use horus_app_eval.Context.{Contexts, context_alloc}
use horus_app_eval.Context.Count.{context_alloc-cases}
use horus_app_eval.Server.{Server, processed, finished, preempted, waiting}
use horus_app_eval.Worker.{new_qlen, reply}
use horus_app_eval.Dispatcher.{handle_finished, handle_preempted, admit_all, count_new}
use horus_app_eval.System.{System, Reach}
use horus_app_eval.System.View.{
  view, CoreInv, Inv, load, holds, AllTyped, Stage, load_bound, task_room,
}
use horus_app_eval.System.Steps.{Reach-Inv}
use horus_app_eval.System.Steps.Accept.{admit_all-Inv}
use horus_app_eval.System.Steps.Return.{
  finished_eq, stage_of_finished, stage_of_preempted, requeued, preempted_some, length-requeued,
}

-- The server when the loops start, after each worker's `init_worker`: nothing is queued or running.
pub record IsFresh (n cap room : ℕ) (s : System) : Type 0 where
  pub few : n ≤ 16
  pub small : cap ≤ 2 ^ 16
  pub enough : cap ≤ room
  pub contexts : available s.server.contexts.contexts ≡ cap
  pub tasks : available s.server.task_pool ≡ room
  pub empty : (c : ℕ) → s.server.tskq c ≡ []
  pub idle : (c : ℕ) → (s.server.responses c).flag ≡ processed
  pub unused : (c : ℕ) → (s.server.dispatcher_requests c).flag ≡ waiting
  pub zero_length : (c : ℕ) → s.server.queue_length c ≡ 0
  pub zero_state : (c : ℕ) → s.server.worker_state c ≡ 0
  pub at_rest : (c : ℕ) → s.busy c ≡ false
  pub no_batch : s.server.networker_pointers.cnt ≡ 0

fresh-CoreInv : {n cap room : ℕ} (s : System) (c : ℕ) → IsFresh n cap room s → CoreInv c (view s c)
fresh-CoreInv s c f = record {
  counted = omega (arith, f.zero_length c, ap length (f.empty c), ap holds (f.idle c));
  typed = subst (AllTyped c) (sym (f.empty c)) tt;
  stage =
      subst (λ e. Stage c e (s.server.dispatcher_requests c).type (s.server.responses c).type)
        (sym (f.idle c)) tt;
  at_work = λ b. absurd (cc (b, f.at_rest c));
  handed = λ a. absurd (cc (a, f.unused c));
  state = omega (arith, f.zero_state c);
  idle = λ e. absurd (cc (e, f.idle c));
}

fresh-Inv : {n cap room : ℕ} (s : System) → IsFresh n cap room s → Inv n cap room s
fresh-Inv {n} s f = record {
  few = f.few;
  small = f.small;
  enough = f.enough;
  contexts = omega (
    arith,
    total_zero n (λ c. load (view s c))
        (λ c. omega (arith, ap length (f.empty c), ap holds (f.idle c))),
    f.contexts,
  );
  tasks = omega (
    arith,
    total_zero n (λ c. length (s.server.tskq c)) (λ c. omega (arith, ap length (f.empty c))),
    f.tasks,
  );
  core = λ c lt. fresh-CoreInv s c f;
  batch = record {
    few = omega (arith, f.no_batch);
    known = λ i lt. absurd (omega (arith, lt, f.no_batch));
    filled = λ i lt. absurd (omega (arith, lt, f.no_batch));
  };
}

-- The counts of a core and the free contexts stay within a word.
load_room :
    {n cap room : ℕ} (s : System) (i : ℕ)
    → Inv n cap room s
    → i < n
    → load (view s i) + available s.server.contexts.contexts ≤ 2 ^ 16
load_room {n} s i inv lt =
    omega (arith, le-total n (λ c. load (view s c)) i lt, inv.contexts, inv.small)

taken_one :
    (cs : Contexts) (cont : ℕ) (d : Contexts)
    → context_alloc cs ≡ (some cont, d)
    → 0 < available cs.contexts
taken_one cs cont d got = elim (context_alloc-cases cs) [
  | inl (d', none_left, _) ↦ absurd (cc (got, none_left))
  | inr (cont', d', found, count) ↦ omega (arith, count)
]

reply-of_length :
    (s : Server) (c : ℕ) (req stack : Message) (k : ℕ)
    → s.queue_length c ≡ k + 1
    → k < 2 ^ 16
    → (reply s c req stack).qlen ≡ u16 (swap_uint16 k)
unfolding reply new_qlen
reply-of_length s c req stack k count small =
    let left : u16 (pred32 (s.queue_length c)) ≡ k = omega (arith, count, small) in
    ap (λ q. u16 (swap_uint16 q)) left

count_new-length :
    (s : Server) (core c k : ℕ)
    → s.queue_length c ≡ k + 1
    → s.queue_length c ≤ 2 ^ 16
    → (count_new s core).queue_length c ≡ k + (if core == c then 1 else 0) + 1
unfolding count_new
count_new-length s core c k count small = elim (ℕ_discrete core c) [
  | yes e ↦ rw e (ground (arith, count, small))
  | no ne ↦ ground (arith, count, ne)
]

module _ {n cap room : ℕ} {s t : System} (fresh : IsFresh n cap room s) (r : Reach n s t) where
  pub reached : Inv n cap room t
  reached = Reach-Inv r (fresh-Inv s fresh)

  -- The counter of each worker is the number of its queued tasks, and one more while the worker has
  -- a task that the dispatcher has not taken back.
  pub queue_length-counts :
      (c : ℕ)
      → c < n
      → t.server.queue_length c ≡ length (t.server.tskq c) + holds (t.server.responses c).flag
  queue_length-counts c lt = (reached.core c lt).counted

  -- While a worker runs a task, also when `handle_networker` has done the first `k` slots of a batch, the
  -- length that its reply carries is, byte-swapped, that of its queue. Once the context for the next slot is
  -- taken and the task counted, but not queued yet, the reply of the worker for whom it is carries one more.
  pub reply-qlen :
      (now k : ℕ) (v : Server) (c : ℕ) (req stack : Message)
      → c < n
      → t.busy c ≡ true
      → k ≤ t.server.networker_pointers.cnt
      → admit_all k 0 now t.server ≡ some v
      → ((reply v c req stack).qlen ≡ u16 (swap_uint16 (length (v.tskq c))))
        × ((core cont : ℕ) (cs : Contexts)
            → context_alloc v.contexts ≡ (some cont, cs)
            → (reply (count_new (record v { contexts = cs }) core) c req stack).qlen
              ≡ u16 (swap_uint16 (length (v.tskq c) + (if core == c then 1 else 0))))
  reply-qlen now k v c req stack lt busy few run =
      let between = admit_all-Inv k 0 now t v (omega (arith, few)) reached run in
      let w = between.core c lt in
      let count : v.queue_length c ≡ length (v.tskq c) + 1 =
        omega (arith, w.counted, ap holds (w.at_work busy).0) in
      (
        reply-of_length v c req stack (length (v.tskq c)) count
            (omega (arith, load_room (record t { server = v }) c between lt, count, w.counted)),
        λ core cont cs got.
            reply-of_length (count_new (record v { contexts = cs }) core) c req stack
              (length (v.tskq c) + (if core == c then 1 else 0))
              (count_new-length (record v { contexts = cs }) core c _ count
                (omega (arith, load_room (record t { server = v }) c between lt, w.counted)))
              (ground (
                arith,
                load_room (record t { server = v }) c between lt,
                count,
                w.counted,
                taken_one v.contexts cont cs got,
              )),
      )

  -- With each handler of the dispatcher, and each worker's reply with its `finish_request`, as one step: where
  -- `handle_finished` takes back a finished task of a worker and lets its idle mark go, the reply that the
  -- worker made last was TASK_DONE_IDLE, whether or not `udp_send_one` then sent it.
  pub idle_mark-signalled :
      (c : ℕ) (u : Server)
      → c < n
      → (t.server.responses c).flag ≡ finished
      → handle_finished t.server c ≡ some u
      → 0 < t.server.worker_state c
      → u.worker_state c ≡ 0
      → t.last_reply c ≡ pkt_type_task_done_idle
  idle_mark-signalled c u lt flag e pos cleared =
      let v = reached.core c lt in
      let same = finished_eq c t.server u e (stage_of_finished v flag) in
      let last : t.server.queue_length c ≡ 1 = ground (
        arith,
        ap (λ (w : Server). w.worker_state c) same,
        cleared,
        pos,
        v.counted,
        ap holds flag,
        load_bound t c reached lt,
      ) in
      v.idle flag last pos

  -- Contexts are conserved: each is free or belongs to a task that is queued or with a worker.
  pub contexts-conserved :
      total n (λ c. length (t.server.tskq c) + holds (t.server.responses c).flag)
        + available t.server.contexts.contexts
      ≡ cap
  contexts-conserved = reached.contexts

  -- A preempted task is never lost: `handle_preempted` finds memory and queues it again.
  pub handle_preempted-requeues :
      (c : ℕ)
      → c < n
      → (t.server.responses c).flag ≡ preempted
      → (u : Server) × (handle_preempted t.server c ≡ some u)
        × (length (u.tskq c) ≡ length (t.server.tskq c) + 1)
  handle_preempted-requeues c lt flag =
      let (cell, pool, got, count) =
        alloc_room t.server.task_pool (task_room t c reached lt (omega (arith, ap holds flag))) in
      (
        requeued c t.server cell pool,
        preempted_some c cell t.server pool got (stage_of_preempted (reached.core c lt) flag),
        length-requeued c cell t.server pool,
      )
