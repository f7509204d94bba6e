-- ===== src/Dispatcher.antt =====
-- dp/core/dispatcher.c of shinjuku-rocksdb: the dispatcher core's loop. A fault is `none`.
use horus_app_eval.Prelude.{
  ℕ, zero, suc, ◌+◌, ◌-◌, true, false, ◌&&◌, Option, none, some, if◌then◌else◌, ltb, ◌==◌, u8, u32,
  pred32, update, ◌>>=◌,
}
use mathlib.Core.Option
use horus_app_eval.Message.{worker_state_idle, eth_rx_max_batch}
use horus_app_eval.Context.{Contexts, context_alloc, context_free}
use horus_app_eval.Server.{Server, Task, running, finished, preempted, processed, active, Category}
use horus_app_eval.TaskQueue.{
  Item, tskq_enqueue_head, tskq_enqueue_tail, tskq_dequeue, request_enqueue, request_dequeue,
}

-- the last two lines of `handle_finished` and `handle_preempted`
mark_processed : ℕ → Server → Server
mark_processed i s = record s {
  preempt_check = update s.preempt_check i false;
  responses = update s.responses i (record (s.responses i) { flag = processed });
}

-- `queue_length` and `worker_state` of the core that finished a task
count_finished : Server → ℕ → Server
count_finished s core =
    let left = pred32 (s.queue_length core) in
    record s {
      queue_length = update s.queue_length core left;
      worker_state =
          if left == 0 && ltb 0 (s.worker_state core)
          then update s.worker_state core (s.worker_state core - 1)
          else s.worker_state;
    }

unfoldable pub handle_finished : Server → ℕ → Option Server
unfolding mark_processed count_finished
handle_finished s i = do
  let r = s.responses i
  let freed : Server = record s { contexts = context_free s.contexts r.rnbl }
  done ← request_enqueue (count_finished freed r.type) r.req
  some (mark_processed i done)

unfoldable pub handle_preempted : Server → ℕ → Option Server
unfolding mark_processed
handle_preempted s i = do
  let r = s.responses i
  let x : Item = record {
    runnable = r.rnbl;
    req = r.req;
    type = r.type;
    category = r.category;
    timestamp = r.timestamp;
  }
  back ←
      if s.queue_settings r.type
      then tskq_enqueue_head s r.type x
      else some (tskq_enqueue_tail s r.type x)
  some (mark_processed i back)

start_task : ℕ → ℕ → Option Task × Server → Server
start_task i now (none, s) = s
start_task i now (some t, s) = record s {
  responses = update s.responses i (record (s.responses i) { flag = running });
  dispatcher_requests = update s.dispatcher_requests i (record {
    flag = active;
    rnbl = t.runnable;
    req = t.req;
    type = t.type;
    category = t.category;
    timestamp = t.timestamp;
  });
  timestamps = update s.timestamps i now;
  preempt_check = update s.preempt_check i true;
}

-- `dispatch_request`, with `naive_tskq_dequeue` on the queue `(uint8_t) i`
unfoldable pub dispatch_request : ℕ → ℕ → Server → Server
unfolding start_task
dispatch_request i now s = start_task i now (tskq_dequeue s (u8 i))

unfoldable pub handle_worker : Server → ℕ → ℕ → Option Server
unfolding handle_finished handle_preempted dispatch_request
handle_worker s i now = elim (s.responses i).flag [
  | running ↦ some s
  | finished ↦ Option.map (dispatch_request i now) (handle_finished s i)
  | preempted ↦ Option.map (dispatch_request i now) (handle_preempted s i)
  | processed ↦ some (dispatch_request i now s)
]

-- `++queue_length[core_id]`, the first store for a new task
unfoldable pub count_new : Server → ℕ → Server
count_new s core = record s {
  queue_length = update s.queue_length core (u32 (s.queue_length core + 1));
}

-- the second one: the leaf has taken the worker off its idle list
mark_idle : Server → ℕ → ℕ → Server
mark_idle s core r = record s {
  worker_state =
      if (s.requests r).type == worker_state_idle && s.worker_state core == 0
      then update s.worker_state core 1
      else s.worker_state;
}

-- the request at a slot is read: a NULL pointer is a fault
enqueue_new : Server → ℕ → ℕ → ℕ → Option ℕ → Option Server
unfolding count_new mark_idle
enqueue_new s core cont now none = none
enqueue_new s core cont now (some r) = some (
    tskq_enqueue_tail (mark_idle (count_new s core) core r) core (record {
      runnable = cont;
      req = some r;
      type = core;
      category = Category.packet;
      timestamp = now;
    }))

-- Without a context the request is returned as if it were done.
admit_with : Server → ℕ → ℕ → Option ℕ × Contexts → Option Server
unfolding enqueue_new
admit_with s i now (none, cs) =
    request_enqueue (record s { contexts = cs }) (s.networker_pointers.reqs i)
admit_with s i now (some cont, cs) =
    enqueue_new (record s { contexts = cs }) (s.networker_pointers.types i) cont now
      (s.networker_pointers.reqs i)

-- one round of the first loop of `handle_networker`, at the slot `i`
unfoldable pub admit : ℕ → ℕ → Server → Option Server
unfolding admit_with
admit i now s = admit_with s i now (context_alloc s.contexts)

-- the first loop, with `n` slots to go
unfoldable pub admit_all : ℕ → ℕ → ℕ → Server → Option Server
admit_all zero i now s = some s
admit_all (suc n) i now s = admit i now s >>= admit_all n (i + 1) now

unfoldable pub give_back : ℕ → ℕ → Server → Server
give_back i req s =
    let np = s.networker_pointers in
    record s {
      networker_pointers = record np {
        reqs = update np.reqs i (some req);
        free_cnt = u8 (np.free_cnt + 1);
      };
    }

-- one round of the second loop, and the rounds after it unless no finished request was left
unfoldable pub return_one : (Server → Server) → ℕ → Option ℕ × Server → Server
unfolding give_back
return_one more i (none, s) = s
return_one more i (some req, s) = more (give_back i req s)

-- the second loop, with `n` slots to go
unfoldable pub return_finished : ℕ → ℕ → Server → Server
return_finished zero i s = s
return_finished (suc n) i s = return_one (return_finished n (i + 1)) i (request_dequeue s)

-- the second loop of `handle_networker`, and the reset of `cnt`
unfoldable pub close_batch : Server → Server
close_batch s =
    let returned = return_finished eth_rx_max_batch 0 s in
    record returned { networker_pointers = record (returned.networker_pointers) { cnt = 0 } }

unfoldable pub handle_networker : ℕ → Server → Option Server
handle_networker now s =
    if s.networker_pointers.cnt == 0
    then some s
    else admit_all s.networker_pointers.cnt 0 now s >>= λ admitted. some (close_batch admitted)

-- the inner loop of `do_dispatching`, with `n` workers to go
unfoldable pub handle_workers : ℕ → ℕ → ℕ → Server → Option Server
handle_workers zero i now s = some s
handle_workers (suc n) i now s = handle_worker s i now >>= handle_workers n (i + 1) now

-- one round of the loop of `do_dispatching`, with `n` workers at the time `now`
unfoldable pub dispatch_round : ℕ → ℕ → Server → Option Server
dispatch_round n now s = handle_workers n 0 now s >>= handle_networker now
