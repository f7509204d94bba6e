-- ===== src/System/Steps/Accept.antt =====
-- `handle_networker` keeps the invariant: each slot becomes a task, or its request is returned.
use horus_app_eval.Prelude.{
  ℕ, zero, suc, ◌+◌, ◌<◌, ◌≤◌, ◌≡◌, ◌≢◌, refl, sym, ap, ◌∙◌, List, [], ◌∷◌, ◌++◌, arith, length,
  u32, update, ◌⊎◌, inl, inr, Option, none, some, if◌then◌else◌, ◌==◌, ◌&&◌, Option-cases,
  length-append, ◌>>=◌, >>=_some,
}
use mathlib.Core.Path.{subst}
use native.Mathlib.Decide.{ℕ_discrete}
use horus_app_eval.Message.{worker_state_idle}
use horus_app_eval.Mempool.{Mempool, alloc}
use horus_app_eval.Context.{Contexts, context_alloc}
use horus_app_eval.Context.Count.{context_alloc-cases}
use horus_app_eval.Mempool.Available.{alloc_room}
use horus_app_eval.Mempool.Count.{available}
use horus_app_eval.Server.{Server, Task, FiniCell, Category, NetworkerPointers}
use horus_app_eval.TaskQueue.{tskq_enqueue_tail, request_enqueue}
use horus_app_eval.Dispatcher.{admit, admit_all, close_batch, handle_networker}
use horus_app_eval.System.{System}
use horus_app_eval.System.View.{
  View, view, CoreInv, Inv, Inv-change, Inv-same, holds, load_bound, task_room,
}
use horus_app_eval.System.Steps.Return.{AllTyped-snoc}
use horus_app_eval.System.Steps.Close.{SameCores, no-Batch, close_batch-SameCores}

-- the server after a slot was returned for want of a context
abbrev returned : Server → Contexts → List FiniCell → Mempool → Server
returned s d cells pool = record s { contexts = d; frqueue = cells; fini_pool = pool }

returned_eq :
    (i now : ℕ) (s t : Server) (d : Contexts)
    → context_alloc s.contexts ≡ (none, d)
    → admit i now s ≡ some t
    → t ≡ returned s d t.frqueue t.fini_pool
unfolding admit request_enqueue
returned_eq i now s t d got e = ground arith

abbrev new_task : ℕ → ℕ → ℕ → Option ℕ → ℕ → Task
new_task c core cont req now = record {
  cell = c;
  runnable = cont;
  req = req;
  type = core;
  category = Category.packet;
  timestamp = now;
}

-- the server after the slot `i` with the request `r` became a task in the cell `c`
abbrev queued : ℕ → ℕ → Server → Contexts → ℕ → ℕ → ℕ → Mempool → Server
queued i now s d cont r c pool =
    let core = s.networker_pointers.types i in
    record s {
      contexts = d;
      queue_length = update s.queue_length core (u32 (s.queue_length core + 1));
      worker_state =
          if (s.requests r).type == worker_state_idle && s.worker_state core == 0
          then update s.worker_state core 1
          else s.worker_state;
      tskq = update s.tskq core (s.tskq core ++ (new_task c core cont (some r) now ∷ []));
      task_pool = pool;
    }

queued_eq :
    (i now r c cont : ℕ) (s t : Server) (d : Contexts) (pool : Mempool)
    → context_alloc s.contexts ≡ (some cont, d)
    → s.networker_pointers.reqs i ≡ some r
    → alloc s.task_pool ≡ (some c, pool)
    → admit i now s ≡ some t
    → t ≡ queued i now s d cont r c pool
unfolding admit tskq_enqueue_tail
queued_eq i now r c cont s t d pool taken filled got e = ground arith

queued-Inv :
    {n cap room : ℕ} (i now r c cont : ℕ) (s : System) (d : Contexts) (pool : Mempool)
    → s.server.networker_pointers.types i < n
    → Inv n cap room s
    → available s.server.contexts.contexts ≡ available d.contexts + 1
    → available s.server.task_pool ≡ available pool + 1
    → Inv n cap room (record s { server = queued i now s.server d cont r c pool })
queued-Inv i now r c cont s d pool lt inv contexts room =
    Inv-change s _ core after inv lt (λ c ne. ground arith) (ground arith)
      (record {
        counted = omega (arith, v.counted, longer, load_bound s core inv lt);
        typed = AllTyped-snoc core (s.server.tskq core) t v.typed refl;
        stage = v.stage;
        at_work = v.at_work;
        handed = v.handed;
        state = ground (arith, v.state);
        idle = λ e one pos.
            absurd (omega (arith, ap holds e, v.counted, load_bound s core inv lt, one));
      })
      (omega (arith, longer, contexts)) (omega (arith, longer, room)) inv.batch
  where
    core : ℕ
    core = s.server.networker_pointers.types i

    v : CoreInv core (view s core)
    v = inv.core core lt

    t : Task
    t = new_task c core cont (some r) now

    after : View
    after = record (view s core) {
      queue_length = u32 (s.server.queue_length core + 1);
      worker_state =
          if (s.server.requests r).type == worker_state_idle && s.server.worker_state core == 0
          then 1
          else s.server.worker_state core;
      tasks = s.server.tskq core ++ (t ∷ []);
    }

    longer : length after.tasks ≡ length (s.server.tskq core) + 1
    longer = length-append (s.server.tskq core) (t ∷ [])

-- One slot: the invariant stays, and the slots are left as they are.
pub admit-Inv :
    {n cap room : ℕ} (i now : ℕ) (s : System) (t : Server)
    → i < s.server.networker_pointers.cnt
    → Inv n cap room s
    → admit i now s.server ≡ some t
    → Inv n cap room (record s { server = t })
      × (t.networker_pointers ≡ s.server.networker_pointers)
admit-Inv {n} {cap} {room} i now s t slot inv e = elim (context_alloc-cases s.server.contexts) [
  | inl (d, got, count) ↦
      let same = returned_eq i now s.server t d got e in
      (
        subst (λ u. Inv n cap room (record s { server = u })) (sym same)
            (Inv-same s _ inv (λ c. refl) count refl inv.batch),
        ap (λ (u : Server). u.networker_pointers) same,
      )
  | inr (cont, d, got, count) ↦
      let (r, filled) = slot_filled (Option-cases (s.server.networker_pointers.reqs i)) in
      let (c, pool, cell, left) =
        alloc_room s.server.task_pool (task_room s core inv lt (omega (arith, count))) in
      let same = queued_eq i now r c cont s.server t d pool got filled cell e in
      (
        subst (λ u. Inv n cap room (record s { server = u })) (sym same)
            (queued-Inv i now r c cont s d pool lt inv count left),
        ap (λ (u : Server). u.networker_pointers) same,
      )
]
  where
    core : ℕ
    core = s.server.networker_pointers.types i

    lt : core < n
    lt = inv.batch.known i slot

    slot_filled :
        (s.server.networker_pointers.reqs i ≡ none)
          ⊎ ((r : ℕ) × (s.server.networker_pointers.reqs i ≡ some r))
        → (r : ℕ) × (s.server.networker_pointers.reqs i ≡ some r)
    slot_filled (inl bad) = absurd (inv.batch.filled i slot bad)
    slot_filled (inr found) = found

stopped : {s t : Server} → ◌≡◌ {A = Option Server} (some s) (some t) → s ≡ t
stopped h = cc

pub admit_all-Inv :
    {n cap room : ℕ} (k i now : ℕ) (s : System) (t : Server)
    → i + k ≤ s.server.networker_pointers.cnt
    → Inv n cap room s
    → admit_all k i now s.server ≡ some t
    → Inv n cap room (record s { server = t })
unfolding admit_all
admit_all-Inv {n} {cap} {room} zero i now s t slots inv e =
    subst (λ u. Inv n cap room (record s { server = u })) (stopped e) inv
admit_all-Inv (suc k) i now s t slots inv e =
    let (u, first, rest) = >>=_some (admit i now s.server) (admit_all k (i + 1) now) e in
    let (inv', same) = admit-Inv i now s u (omega arith) inv first in
    admit_all-Inv k (i + 1) now (record s { server = u }) t
      (omega (arith, ap (λ (p : NetworkerPointers). p.cnt) same)) inv' rest

handle_networker-idle :
    (now : ℕ) (s : Server) → s.networker_pointers.cnt ≡ 0 → handle_networker now s ≡ some s
unfolding handle_networker
handle_networker-idle now s e = rw e

handle_networker-batch :
    (now : ℕ) (s : Server)
    → s.networker_pointers.cnt ≢ 0
    → handle_networker now s
      ≡ (admit_all s.networker_pointers.cnt 0 now s >>= λ u. some (close_batch u))
unfolding handle_networker
handle_networker-batch now s ne = ground arith

closed-Inv :
    {n cap room : ℕ} (s : System) (u : Server)
    → Inv n cap room (record s { server = u })
    → Inv n cap room (record s { server = close_batch u })
closed-Inv s u inv =
    Inv-same (record s { server = u }) (record s { server = close_batch u }) inv
      (λ c i. record {
        queue_length = same.queue_length i c;
        worker_state = same.worker_state i c;
        tasks = same.tskq i c;
        response = same.responses i c;
        request = same.dispatcher_requests i c;
        busy = s.busy c;
        last_reply = s.last_reply c;
      })
      (ap (λ (d : Contexts). available d.contexts) (sym same.contexts))
      (ap available (sym same.task_pool)) (no-Batch _ (close_batch-SameCores u).1)
  where
    same : SameCores u (close_batch u)
    same = (close_batch-SameCores u).0

-- A run of `handle_networker` keeps the invariant.
pub handle_networker-Inv :
    {n cap room : ℕ} (now : ℕ) (s : System) (t : Server)
    → Inv n cap room s
    → handle_networker now s.server ≡ some t
    → Inv n cap room (record s { server = t })
handle_networker-Inv {n} {cap} {room} now s t inv e =
    elim (ℕ_discrete s.server.networker_pointers.cnt 0) [
      | yes none_new ↦
          subst (λ u. Inv n cap room (record s { server = u }))
            (stopped (sym (handle_networker-idle now s.server none_new) ∙ e)) inv
      | no some_new ↦
          let (u, first, closed) =
            >>=_some (admit_all s.server.networker_pointers.cnt 0 now s.server)
              (λ u. some (close_batch u))
              (sym (handle_networker-batch now s.server some_new) ∙ e) in
          let inv' =
            admit_all-Inv s.server.networker_pointers.cnt 0 now s u (omega arith) inv first in
          subst (λ v. Inv n cap room (record s { server = v })) (stopped closed)
            (closed-Inv s u inv')
    ]
