-- ===== src/System/Steps/Close.antt =====
-- The second loop of `handle_networker` and the reset of `cnt` touch nothing that the cores work on.
use horus_app_eval.Prelude.{ℕ, zero, suc, ◌+◌, ◌≡◌, refl, ◌∙◌, arith, Option, none, some}
use horus_app_eval.Message.{eth_rx_max_batch}
use horus_app_eval.Server.{Server, NetworkerPointers}
use horus_app_eval.TaskQueue.{request_dequeue}
use horus_app_eval.Dispatcher.{return_finished, return_one, give_back, close_batch}
use horus_app_eval.System.{Batch}

-- what the second loop and the reset of `cnt` leave alone
pub record SameCores (s t : Server) : Type 0 where
  pub queue_length : s.queue_length ≡ t.queue_length
  pub worker_state : s.worker_state ≡ t.worker_state
  pub tskq : s.tskq ≡ t.tskq
  pub task_pool : s.task_pool ≡ t.task_pool
  pub contexts : s.contexts ≡ t.contexts
  pub responses : s.responses ≡ t.responses
  pub dispatcher_requests : s.dispatcher_requests ≡ t.dispatcher_requests

SameCores-refl : (s : Server) → SameCores s s
SameCores-refl s = record {
  queue_length = refl;
  worker_state = refl;
  tskq = refl;
  task_pool = refl;
  contexts = refl;
  responses = refl;
  dispatcher_requests = refl;
}

SameCores-trans : (s t u : Server) → SameCores s t → SameCores t u → SameCores s u
SameCores-trans s t u p q = record {
  queue_length = p.queue_length ∙ q.queue_length;
  worker_state = p.worker_state ∙ q.worker_state;
  tskq = p.tskq ∙ q.tskq;
  task_pool = p.task_pool ∙ q.task_pool;
  contexts = p.contexts ∙ q.contexts;
  responses = p.responses ∙ q.responses;
  dispatcher_requests = p.dispatcher_requests ∙ q.dispatcher_requests;
}

return_one-SameCores :
    (more : Server → Server) (i : ℕ) (s : Server) (r : Option ℕ × Server)
    → ((t : Server) → SameCores t (more t))
    → SameCores s r.1
    → SameCores s (return_one more i r)
unfolding return_one
return_one-SameCores more i s (none, t) same here = here
return_one-SameCores more i s (some q, t) same here = SameCores-trans s t _ here (record {
  queue_length = rest.queue_length;
  worker_state = rest.worker_state;
  tskq = rest.tskq;
  task_pool = rest.task_pool;
  contexts = rest.contexts;
  responses = rest.responses;
  dispatcher_requests = rest.dispatcher_requests;
})
  where
    rest : SameCores (give_back i q t) (more (give_back i q t))
    rest = same (give_back i q t)

request_dequeue-SameCores : (s : Server) → SameCores s (request_dequeue s).1
unfolding request_dequeue
request_dequeue-SameCores s = record {
  queue_length = ground arith;
  worker_state = ground arith;
  tskq = ground arith;
  task_pool = ground arith;
  contexts = ground arith;
  responses = ground arith;
  dispatcher_requests = ground arith;
}

return_finished-SameCores : (k i : ℕ) (s : Server) → SameCores s (return_finished k i s)
unfolding return_finished
return_finished-SameCores zero i s = SameCores-refl s
return_finished-SameCores (suc k) i s =
    return_one-SameCores (return_finished k (i + 1)) i s (request_dequeue s)
      (return_finished-SameCores k (i + 1)) (request_dequeue-SameCores s)

pub no-Batch : {n : ℕ} (np : NetworkerPointers) → np.cnt ≡ 0 → Batch n np
no-Batch np e = record {
  few = omega (arith, e);
  known = λ i lt. absurd (omega (arith, lt, e));
  filled = λ i lt. absurd (omega (arith, lt, e));
}

pub close_batch-SameCores :
    (s : Server) → SameCores s (close_batch s) × ((close_batch s).networker_pointers.cnt ≡ 0)
unfolding close_batch
close_batch-SameCores s =
    let same = return_finished-SameCores eth_rx_max_batch 0 s in
    (
      record {
        queue_length = same.queue_length;
        worker_state = same.worker_state;
        tskq = same.tskq;
        task_pool = same.task_pool;
        contexts = same.contexts;
        responses = same.responses;
        dispatcher_requests = same.dispatcher_requests;
      },
      refl,
    )
