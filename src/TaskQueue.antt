-- ===== src/TaskQueue.antt =====
-- The queues of inc/ix/dispatch.h: `tskq`, one queue of tasks for each worker, and `frqueue`, the
-- stack of requests whose work is done. A fault is `none`.
pub mod Links
use horus_app_eval.Prelude.{ℕ, Option, none, some, [], ◌∷◌, ◌++◌, update}
use horus_app_eval.Mempool.{Mempool, alloc, free}
use horus_app_eval.Server.{Server, Task, Category}

-- the arguments of an enqueue, and what a dequeue stores through its pointers
pub record Item : Type 0 where
  pub runnable : ℕ
  pub req : Option ℕ
  pub type : ℕ
  pub category : Category
  pub timestamp : ℕ

abbrev pub to_task : ℕ → Item → Task
to_task c x = record {
  cell = c;
  runnable = x.runnable;
  req = x.req;
  type = x.type;
  category = x.category;
  timestamp = x.timestamp;
}

unfoldable pub push_head : Server → ℕ → Item → Option ℕ × Mempool → Option Server
push_head s q x (none, pool) = none
push_head s q x (some c, pool) =
    some (record s { tskq = update s.tskq q (to_task c x ∷ s.tskq q); task_pool = pool })

-- `tskq_enqueue_head(&tskq[q], …)`: no test for NULL
unfoldable pub tskq_enqueue_head : Server → ℕ → Item → Option Server
unfolding push_head
tskq_enqueue_head s q x = push_head s q x (alloc s.task_pool)

unfoldable pub push_tail : Server → ℕ → Item → Option ℕ × Mempool → Server
push_tail s q x (none, pool) = record s { task_pool = pool }
push_tail s q x (some c, pool) = record s {
  tskq = update s.tskq q (s.tskq q ++ (to_task c x ∷ []));
  task_pool = pool;
}

-- `tskq_enqueue_tail(&tskq[q], …)`: without memory the task is dropped
unfoldable pub tskq_enqueue_tail : Server → ℕ → Item → Server
unfolding push_tail
tskq_enqueue_tail s q x = push_tail s q x (alloc s.task_pool)

-- `tskq_dequeue(&tskq[q], …)`: the task, or none for the return value -1
unfoldable pub tskq_dequeue : Server → ℕ → Option Task × Server
tskq_dequeue s q = elim (s.tskq q) [
  | [] ↦ (none, s)
  | t ∷ ts ↦ (some t, record s { tskq = update s.tskq q ts; task_pool = free s.task_pool t.cell })
]

push_fini : Server → ℕ → Option ℕ × Mempool → Option Server
push_fini s req (none, pool) = none
push_fini s req (some c, pool) =
    some (record s { frqueue = record { cell = c; req = req } ∷ s.frqueue; fini_pool = pool })

-- `request_enqueue`: NULL is ignored; no test of the allocation
unfoldable pub request_enqueue : Server → Option ℕ → Option Server
unfolding push_fini
request_enqueue s none = some s
request_enqueue s (some req) = push_fini s req (alloc s.fini_pool)

-- `request_dequeue`
unfoldable pub request_dequeue : Server → Option ℕ × Server
request_dequeue s = elim s.frqueue [
  | [] ↦ (none, s)
  | c ∷ cs ↦ (some c.req, record s { frqueue = cs; fini_pool = free s.fini_pool c.cell })
]
