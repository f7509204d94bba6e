-- ===== src/TaskQueue/Links.antt =====
-- The task queues of inc/ix/dispatch.h (shinjuku-rocksdb) with their pointers: struct task with `next`, struct
-- task_queue with `head` and `tail`. A fault, `none`, is a dereference of NULL.
pub mod Chain
pub mod Push
pub mod Related
pub mod Pop
pub mod Traces
use horus_app_eval.Prelude.{ℕ, Option, none, some, List, [], ◌∷◌, update, ◌>>=◌}
use horus_app_eval.Mempool.{Mempool, alloc, free}
use horus_app_eval.Server.{Server, Task}
use horus_app_eval.TaskQueue.{Item, tskq_enqueue_head, tskq_enqueue_tail, tskq_dequeue}

-- struct task
pub record TaskCell : Type 0 where
  pub item : Item
  pub next : Option ℕ

-- `tskq`, the memory of the tasks, and `task_mempool`
pub record Queues : Type 0 where
  pub cells : ℕ → TaskCell
  pub head : ℕ → Option ℕ
  pub tail : ℕ → Option ℕ
  pub pool : Mempool

-- the branches on `tq->head` of `tskq_enqueue_head`, with the task `c`
unfoldable pub link_head : Queues → ℕ → Item → ℕ → Option ℕ → Queues
link_head p q x c (some first) = record p {
  cells = update p.cells c (record { item = x; next = some first });
  head = update p.head q (some c);
}
link_head p q x c none = record p {
  cells = update p.cells c (record { item = x; next = none });
  head = update p.head q (some c);
  tail = update p.tail q (some c);
}

new_head : Queues → ℕ → Item → Option ℕ × Mempool → Option Queues
new_head p q x (none, pool) = none
new_head p q x (some c, pool) = some (link_head (record p { pool = pool }) q x c (p.head q))

unfoldable pub enqueue_head : Queues → ℕ → Item → Option Queues
unfolding new_head link_head
enqueue_head p q x = new_head p q x (alloc p.pool)

-- `tq->tail->next = tsk`
unfoldable pub set_next : Queues → Option ℕ → ℕ → Option Queues
set_next p none c = none
set_next p (some l) c =
    some (record p { cells = update p.cells l (record (p.cells l) { next = some c }) })

-- `tsk->next = NULL`
unfoldable pub end_at : Queues → ℕ → Queues
end_at p c = record p { cells = update p.cells c (record (p.cells c) { next = none }) }

-- the branches on `tq->head` of `tskq_enqueue_tail`, with the task `c`
unfoldable pub link_tail : Queues → ℕ → ℕ → Option ℕ → Option Queues
unfolding set_next end_at
link_tail p q c (some first) = set_next p (p.tail q) c >>= λ p'.
    some (end_at (record p' { tail = update p'.tail q (some c) }) c)
link_tail p q c none =
    some (end_at (record p { head = update p.head q (some c); tail = update p.tail q (some c) }) c)

new_tail : Queues → ℕ → Item → Option ℕ × Mempool → Option Queues
new_tail p q x (none, pool) = some (record p { pool = pool })
new_tail p q x (some c, pool) =
    link_tail (record p { cells = update p.cells c (record (p.cells c) { item = x }); pool = pool })
      q c (p.head q)

unfoldable pub enqueue_tail : Queues → ℕ → Item → Option Queues
unfolding new_tail link_tail
enqueue_tail p q x = new_tail p q x (alloc p.pool)

-- `if (tq->head == NULL) tq->tail = NULL`
unfoldable pub clear_tail : Queues → ℕ → Option ℕ → Queues
clear_tail p q none = record p { tail = update p.tail q none }
clear_tail p q (some first) = p

unfoldable pub take_head : Queues → ℕ → Option ℕ → Option Item × Queues
unfolding clear_tail
take_head p q none = (none, p)
take_head p q (some c) = (
  some ((p.cells c).item),
  clear_tail (record p { head = update p.head q (p.cells c).next; pool = free p.pool c }) q
      (p.cells c).next,
)

-- `tskq_dequeue`: what it stores through its pointers, or none for the return value -1
unfoldable pub dequeue : Queues → ℕ → Option Item × Queues
unfolding take_head
dequeue p q = take_head p q (p.head q)

-- the operations in the order of their calls, each on a queue
pub data Call : Type 0 where
  to_head : ℕ → Item → Call
  to_tail : ℕ → Item → Call
  from_head : ℕ → Call

-- the results of the dequeues, with the pointers
unfoldable pub run_queues : List Call → Queues → Option (List (Option Item))
run_queues [] p = some []
run_queues (to_head q x ∷ cs) p = enqueue_head p q x >>= run_queues cs
run_queues (to_tail q x ∷ cs) p = enqueue_tail p q x >>= run_queues cs
run_queues (from_head q ∷ cs) p = let d = dequeue p q in run_queues cs d.1 >>= λ rs. some (d.0 ∷ rs)

abbrev pub item_of : Task → Item
item_of t = record {
  runnable = t.runnable;
  req = t.req;
  type = t.type;
  category = t.category;
  timestamp = t.timestamp;
}

abbrev pub item? : Option Task → Option Item
item? none = none
item? (some t) = some (item_of t)

-- the same with the queues as sequences
unfoldable pub run_sequences : List Call → Server → Option (List (Option Item))
run_sequences [] s = some []
run_sequences (to_head q x ∷ cs) s = tskq_enqueue_head s q x >>= run_sequences cs
run_sequences (to_tail q x ∷ cs) s = run_sequences cs (tskq_enqueue_tail s q x)
run_sequences (from_head q ∷ cs) s =
    let d = tskq_dequeue s q in run_sequences cs d.1 >>= λ rs. some (item? d.0 ∷ rs)
