-- ===== src/Tests/Queues.antt =====
-- The theorem on the linked task queues at a concrete input.
use horus_app_eval.Prelude.{ℕ, ◌≡◌, refl, none, some, List, [], ◌∷◌, arith}
use horus_app_eval.Mempool.{alloc, free}
use horus_app_eval.Mempool.Count.{cells}
use horus_app_eval.Server.{packet}
use horus_app_eval.TaskQueue.{Item}
use horus_app_eval.TaskQueue.Links.{
  Queues, Call, to_head, to_tail, from_head, run_queues, run_sequences, enqueue_head, enqueue_tail,
  dequeue,
}
use horus_app_eval.TaskQueue.Links.Traces.{IsEmpty, run_queues-sequences}
use horus_app_eval.Tests.Samples.{small_pool, fresh_server}

abbrev item : ℕ → Item
item r = record { runnable = r; req = none; type = 0; category = packet; timestamp = 0 }

abbrev queues : Queues
queues = record {
  cells = λ _. record { item = item 0; next = none };
  head = λ _. none;
  tail = λ _. none;
  pool = small_pool;
}

abbrev calls : List Call
calls =
    to_tail 0 (item 1)
    ∷ to_tail 1 (item 2)
    ∷ to_tail 0 (item 3)
    ∷ to_head 0 (item 4)
    ∷ from_head 0
    ∷ from_head 0
    ∷ from_head 0
    ∷ from_head 0
    ∷ []

empty : IsEmpty 2 queues fresh_server
unfolding cells
empty = record {
  no_head = λ q lt. refl;
  no_tail = λ q lt. refl;
  no_task = λ q. refl;
  same_pool = refl;
  distinct = λ a. ground arith;
}

run_queues-sequences_example : run_queues calls queues ≡ run_sequences calls fresh_server
run_queues-sequences_example = run_queues-sequences 2 calls queues fresh_server (omega arith) empty

order : run_queues calls queues ≡ some (some (item 4) ∷ some (item 1) ∷ some (item 3) ∷ none ∷ [])
unfolding run_queues enqueue_head enqueue_tail dequeue alloc free
order = refl
