-- ===== src/System/View.antt =====
-- What one core's part of the invariant speaks of, and how a step at one core changes the sums.
use horus_app_eval.Prelude.{
  ℕ, ◌+◌, ◌<◌, ◌≤◌, ◌^◌, ◌≡◌, ◌≢◌, sym, ap, Bool, true, List, [], ◌∷◌, arith, length, total,
  total_change, total_gap, total_ext, le-total,
}
use mathlib.Core.Path.{subst}
use native.Mathlib.Decide.{ℕ_discrete}
use horus_app_eval.Message.{pkt_type_task_done_idle}
use horus_app_eval.Mempool.Count.{available}
use horus_app_eval.Server.{
  Task, WorkerFlag, WorkerResponse, DispatcherRequest, running, finished, processed, waiting,
  active,
}
use horus_app_eval.System.{System, Batch}

pub record View : Type 0 where
  pub queue_length : ℕ
  pub worker_state : ℕ
  pub tasks : List Task
  pub response : WorkerResponse
  pub request : DispatcherRequest
  pub busy : Bool
  pub last_reply : ℕ

abbrev pub view : System → ℕ → View
view s c = record {
  queue_length = s.server.queue_length c;
  worker_state = s.server.worker_state c;
  tasks = s.server.tskq c;
  response = s.server.responses c;
  request = s.server.dispatcher_requests c;
  busy = s.busy c;
  last_reply = s.last_reply c;
}

-- 1 while the worker has a task that `handle_worker` has not yet taken back
abbrev pub holds : WorkerFlag → ℕ
holds processed = 0
holds _ = 1

abbrev pub load : View → ℕ
load v = length v.tasks + holds v.response.flag

abbrev pub AllTyped : ℕ → List Task → Type 0
AllTyped c [] = Unit {0}
AllTyped c (t ∷ ts) = (t.type ≡ c) × AllTyped c ts

-- the record that holds the task names its core: the dispatcher's request or the worker's response
abbrev pub Stage : ℕ → WorkerFlag → ℕ → ℕ → Type 0
Stage c running requested returned = requested ≡ c
Stage c processed requested returned = Unit {0}
Stage c _ requested returned = returned ≡ c

pub record CoreInv (c : ℕ) (v : View) : Type 0 where
  pub counted : v.queue_length ≡ load v
  pub typed : AllTyped c v.tasks
  pub stage : Stage c v.response.flag v.request.type v.response.type
  pub at_work : v.busy ≡ true → (v.response.flag ≡ running) × (v.request.flag ≡ waiting)
  pub handed : v.request.flag ≡ active → v.response.flag ≡ running
  pub state : v.worker_state ≤ 1
  pub idle :
      v.response.flag ≡ finished
      → v.queue_length ≡ 1
      → 0 < v.worker_state
      → v.last_reply ≡ pkt_type_task_done_idle

-- `n` workers, `cap` contexts and room for `room` tasks
pub record Inv (n cap room : ℕ) (s : System) : Type 0 where
  pub few : n ≤ 16
  pub small : cap ≤ 2 ^ 16
  pub enough : cap ≤ room
  pub contexts : total n (λ c. load (view s c)) + available s.server.contexts.contexts ≡ cap
  pub tasks : total n (λ c. length (s.server.tskq c)) + available s.server.task_pool ≡ room
  pub core : (c : ℕ) → c < n → CoreInv c (view s c)
  pub batch : Batch n s.server.networker_pointers

-- A step that touches the core `i` only, and balances the two sums.
pub Inv-change :
    {n cap room : ℕ} (s t : System) (i : ℕ) (v : View)
    → Inv n cap room s
    → i < n
    → ((c : ℕ) → i ≢ c → view s c ≡ view t c)
    → view t i ≡ v
    → CoreInv i v
    → load v + available t.server.contexts.contexts
      ≡ load (view s i) + available s.server.contexts.contexts
    → length v.tasks + available t.server.task_pool
      ≡ length (s.server.tskq i) + available s.server.task_pool
    → Batch n t.server.networker_pointers
    → Inv n cap room t
Inv-change {n} s t i v inv lt same here mine ctxs tasks batch = record {
  few = inv.few;
  small = inv.small;
  enough = inv.enough;
  contexts = omega (
    arith,
    total_change n (λ c. load (view s c)) (λ c. load (view t c)) i lt (λ c ne. ap load (same c ne)),
    inv.contexts,
    ctxs,
    ap load here,
  );
  tasks = omega (
    arith,
    total_change n (λ c. length (s.server.tskq c)) (λ c. length (t.server.tskq c)) i lt
        (λ c ne. ap (λ (v : View). length v.tasks) (same c ne)),
    inv.tasks,
    tasks,
    ap (λ (w : View). length w.tasks) here,
  );
  core = λ c lc. core_of c lc;
  batch = batch;
}
  where
    core_of : (c : ℕ) → c < n → CoreInv c (view t c)
    core_of c lc = elim (ℕ_discrete i c) [
      | yes e ↦ subst (λ k. CoreInv k (view t k)) e (subst (CoreInv i) (sym here) mine)
      | no ne ↦ subst (CoreInv c) (same c ne) (inv.core c lc)
    ]

-- No count of a reachable state comes near the end of its word.
pub load_bound :
    {n cap room : ℕ} (s : System) (i : ℕ) → Inv n cap room s → i < n → load (view s i) ≤ 2 ^ 16
load_bound {n} s i inv lt =
    omega (arith, le-total n (λ c. load (view s c)) i lt, inv.contexts, inv.small)

-- A worker's task is room in the task pool.
pub task_room :
    {n cap room : ℕ} (s : System) (i : ℕ)
    → Inv n cap room s
    → i < n
    → 0 < holds (s.server.responses i).flag + available s.server.contexts.contexts
    → 0 < available s.server.task_pool
task_room {n} s i inv lt h = omega (
  arith,
  total_gap n (λ c. length (s.server.tskq c)) (λ c. load (view s c)) i
      (holds (s.server.responses i).flag) lt (λ c. omega arith) (omega arith),
  inv.contexts,
  inv.tasks,
  inv.enough,
)

-- A step that changes no core's view, and no count.
pub Inv-same :
    {n cap room : ℕ} (s t : System)
    → Inv n cap room s
    → ((c : ℕ) → view s c ≡ view t c)
    → available t.server.contexts.contexts ≡ available s.server.contexts.contexts
    → available t.server.task_pool ≡ available s.server.task_pool
    → Batch n t.server.networker_pointers
    → Inv n cap room t
Inv-same {n} s t inv same ctxs tasks batch = record {
  few = inv.few;
  small = inv.small;
  enough = inv.enough;
  contexts = omega (
    arith,
    total_ext n (λ c. load (view s c)) (λ c. load (view t c)) (λ c lc. ap load (same c)),
    inv.contexts,
    ctxs,
  );
  tasks = omega (
    arith,
    total_ext n (λ c. length (s.server.tskq c)) (λ c. length (t.server.tskq c))
        (λ c lc. ap (λ (v : View). length v.tasks) (same c)),
    inv.tasks,
    tasks,
  );
  core = λ c lc. subst (CoreInv c) (same c) (inv.core c lc);
  batch = batch;
}
