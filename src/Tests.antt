-- ===== src/Tests.antt =====
-- Tests by evaluation, and each theorem at an input that meets its hypotheses.
mod Samples
mod Units
mod Search
mod Net
mod Client
mod Timers
mod Loop
mod Configuration
mod Queues
use horus_app_eval.Prelude.{
  ℕ, zero, suc, ◌+◌, ◌<◌, ◌≤◌, ◌≡◌, ◌≢◌, ◌⊎◌, refl, Bool, true, false, Option, none, some, List, [],
  ◌∷◌, arith, length, u16, update, total, ltb, ◌==◌, if◌then◌else◌, pred32, u32, u8,
}
use horus_app_eval.Prelude.Int.{pos, ltb_ℤ}
use horus_app_eval.Mempool.{Mempool, alloc, free}
use horus_app_eval.Mempool.Count.{available, cells}
use horus_app_eval.Context.{Contexts, context_alloc, context_free}
use horus_app_eval.Message.{swap_uint16}
use mathlib.Core.Path.{subst}
use horus_app_eval.Server.{
  Server, NetworkerPointers, processed, running, finished, preempted, waiting, active,
}
use horus_app_eval.TaskQueue.{
  tskq_enqueue_tail, tskq_enqueue_head, tskq_dequeue, request_enqueue, request_dequeue,
}
use horus_app_eval.Dispatcher.{
  handle_worker, handle_networker, handle_finished, handle_preempted, admit, admit_all, close_batch,
  return_finished, return_one, dispatch_request, count_new,
}
use horus_app_eval.Worker.{
  take_request, finish_request, run_request, reply_type, new_qlen, reply, Outcome,
}
use horus_app_eval.System.{
  System, Reach, here, next, Step, serve, accept, receive, take, finish, complete, Batch,
}
use horus_app_eval.System.View.{holds}
use horus_app_eval.System.Safety.{
  IsFresh, queue_length-counts, reply-qlen, idle_mark-signalled, contexts-conserved,
  handle_preempted-requeues,
}
use horus_app_eval.System.Between.{reply_type-between}
use Samples.{
  fresh, received, queued, dispatched, working, answered, stopped, one_request, idle_selected,
  small_pool, half_request, or_else,
}

fresh-IsFresh : IsFresh 1 4 4 fresh
unfolding available cells
fresh-IsFresh = record {
  few = omega arith;
  small = omega arith;
  enough = omega arith;
  contexts = refl;
  tasks = refl;
  empty = λ c. refl;
  idle = λ c. refl;
  unused = λ c. refl;
  zero_length = λ c. refl;
  zero_state = λ c. refl;
  at_rest = λ c. refl;
  no_batch = refl;
}

one_request-Batch : Batch 1 one_request
one_request-Batch = record {
  few = omega arith;
  known = λ i lt. omega arith;
  filled = λ i lt e. cc e;
}

Reach-queued : Reach 1 fresh queued
unfolding handle_networker admit admit_all close_batch return_finished return_one context_alloc
    alloc tskq_enqueue_tail request_dequeue take_request
Reach-queued =
    next (next here (receive one_request idle_selected refl one_request-Batch))
      (accept 3 queued.server refl)

Reach-working : Reach 1 fresh working
unfolding handle_networker handle_worker dispatch_request tskq_dequeue admit admit_all close_batch
    return_finished return_one context_alloc alloc free tskq_enqueue_tail request_dequeue
Reach-working =
    next (next Reach-queued (serve 0 4 dispatched.server (omega arith) refl))
      (take 0 (omega arith) refl refl)

Reach-answered : Reach 1 fresh answered
Reach-answered = next Reach-working (finish 0 Outcome.replied true (omega arith) refl (λ e. cc e))

Reach-stopped : Reach 1 fresh stopped
Reach-stopped =
    next Reach-working (finish 0 Outcome.interrupted true (omega arith) refl (λ e. cc e))

queue_length-counts_example :
    working.server.queue_length 0
    ≡ length (working.server.tskq 0) + holds (working.server.responses 0).flag
queue_length-counts_example = queue_length-counts fresh-IsFresh Reach-working 0 (omega arith)

-- Another request for the worker comes while it works.
abbrev pressed : System
pressed = record working {
  server = record (working.server) { networker_pointers = one_request; requests = idle_selected };
}

Reach-pressed : Reach 1 fresh pressed
unfolding take_request handle_worker handle_networker admit_all admit context_alloc alloc
    close_batch return_finished return_one request_dequeue tskq_enqueue_tail tskq_dequeue
Reach-pressed = next Reach-working (receive one_request idle_selected refl one_request-Batch)

reply-qlen_example :
    ((reply pressed.server 0 half_request half_request).qlen
      ≡ u16 (swap_uint16 (length (pressed.server.tskq 0))))
    × ((core cont : ℕ) (cs : Contexts)
        → context_alloc pressed.server.contexts ≡ (some cont, cs)
        → (reply
            (count_new (record (pressed.server) { contexts = cs }) core)
            0
            half_request
            half_request).qlen
          ≡ u16 (swap_uint16 (length (pressed.server.tskq 0) + (if core == 0 then 1 else 0))))
unfolding admit_all
reply-qlen_example =
    reply-qlen fresh-IsFresh Reach-pressed 7 0 pressed.server 0 half_request half_request
      (omega arith) refl (omega arith) refl

-- Two workers: a request for the second one comes while the first works.
abbrev for_second : NetworkerPointers
for_second = record one_request { types = λ _. 1 }

abbrev shared : System
shared = record working {
  server = record (working.server) { networker_pointers = for_second; requests = idle_selected };
}

abbrev admitted : Server
admitted = or_else (admit_all 1 0 7 shared.server) shared.server

fresh-two : IsFresh 2 4 4 fresh
unfolding available cells
fresh-two = record {
  few = omega arith;
  small = omega arith;
  enough = omega arith;
  contexts = refl;
  tasks = refl;
  empty = λ c. refl;
  idle = λ c. refl;
  unused = λ c. refl;
  zero_length = λ c. refl;
  zero_state = λ c. refl;
  at_rest = λ c. refl;
  no_batch = refl;
}

one_slot : (np : NetworkerPointers) → np.cnt ≡ 1 → np.types 0 < 2 → np.reqs 0 ≢ none → Batch 2 np
one_slot np one core req = record {
  few = omega arith;
  known = λ i lt. let e : 0 ≡ i = omega arith in subst (λ j. np.types j < 2) e core;
  filled = λ i lt. let e : 0 ≡ i = omega arith in subst (λ j. np.reqs j ≢ none) e req;
}

Reach-shared : Reach 2 fresh shared
unfolding handle_networker handle_worker dispatch_request tskq_dequeue admit admit_all close_batch
    return_finished return_one context_alloc alloc free tskq_enqueue_tail request_dequeue
    take_request
Reach-shared =
    next
      (next
        (next
          (next
            (next here (
              receive one_request idle_selected refl
                (one_slot one_request refl (omega arith) (λ e. cc e))))
            (accept 3 queued.server refl))
          (serve 0 4 dispatched.server (omega arith) refl))
        (take 0 (omega arith) refl refl))
      (receive for_second idle_selected refl (one_slot for_second refl (omega arith) (λ e. cc e)))

reply_type-between_example :
    (shared.server.queue_length 0 ≡ 1)
    × ((cont : ℕ) (cs : Contexts)
        → 0 < shared.server.networker_pointers.cnt
        → context_alloc shared.server.contexts ≡ (some cont, cs)
        → (count_new
              (record (shared.server) { contexts = cs })
              (shared.server.networker_pointers.types 0)).queue_length
            0
          ≡ 1)
    × (shared.server.worker_state 0 ≡ admitted.worker_state 0)
    × (reply_type shared.server 0 ≡ 3)
unfolding take_request handle_worker handle_networker admit_all admit context_alloc alloc
    close_batch return_finished return_one request_dequeue tskq_enqueue_tail tskq_dequeue
    dispatch_request free
reply_type-between_example =
    reply_type-between fresh-two Reach-shared 7 0 shared.server admitted 0 (omega arith) refl
      (omega arith) refl refl refl (omega arith)

abbrev cleared : Server
cleared = or_else (handle_finished answered.server 0) answered.server

idle_mark-signalled_example : answered.last_reply 0 ≡ 3
unfolding handle_networker handle_worker handle_finished request_enqueue dispatch_request
    tskq_dequeue admit admit_all close_batch return_finished return_one context_alloc context_free
    alloc free tskq_enqueue_tail request_dequeue complete finish_request run_request take_request
idle_mark-signalled_example =
    idle_mark-signalled fresh-IsFresh Reach-answered 0 cleared (omega arith) refl refl (omega arith)
      refl

contexts-conserved_example :
    total 1 (λ c. length (working.server.tskq c) + holds (working.server.responses c).flag)
      + available working.server.contexts.contexts
    ≡ 4
contexts-conserved_example = contexts-conserved fresh-IsFresh Reach-working

handle_preempted-requeues_example :
    (u : Server) × (handle_preempted stopped.server 0 ≡ some u)
    × (length (u.tskq 0) ≡ length (stopped.server.tskq 0) + 1)
unfolding complete finish_request run_request handle_networker handle_worker dispatch_request
    tskq_dequeue admit admit_all close_batch return_finished return_one context_alloc alloc free
    tskq_enqueue_tail request_dequeue take_request
handle_preempted-requeues_example =
    handle_preempted-requeues fresh-IsFresh Reach-stopped 0 (omega arith) refl
