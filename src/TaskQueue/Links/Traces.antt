-- ===== src/TaskQueue/Links/Traces.antt =====
-- Sequences of calls on the pointers and on the sequences.
use horus_app_eval.Prelude.{
  ℕ, ◌≤◌, ◌<◌, ◌≡◌, refl, ap, arith, none, List, [], ◌∷◌, total_zero, ◌>>=◌,
}
use horus_app_eval.Mempool.Count.{cells}
use horus_app_eval.Server.{Server}
use horus_app_eval.TaskQueue.{tskq_enqueue_tail}
use horus_app_eval.TaskQueue.Links.{
  Queues, Call, to_head, to_tail, from_head, run_queues, run_sequences,
}
use horus_app_eval.TaskQueue.Links.Chain.{at}
use horus_app_eval.TaskQueue.Links.Related.{
  Same, both_fault, both_run, free_at, enqueue_head-Alike, enqueue_tail-Same,
}
use horus_app_eval.TaskQueue.Links.Pop.{dequeue-Same}

-- the calls are on the first `n` queues
abbrev pub Within : ℕ → List Call → Type 0
Within n [] = Unit {0}
Within n (to_head q x ∷ cs) = (q < n) × Within n cs
Within n (to_tail q x ∷ cs) = (q < n) × Within n cs
Within n (from_head q ∷ cs) = (q < n) × Within n cs

run-Same :
    (n : ℕ) (cs : List Call) (p : Queues) (s : Server)
    → Within n cs
    → Same n p s
    → run_queues cs p ≡ run_sequences cs s
unfolding run_queues run_sequences
run-Same n [] p s within same = refl
run-Same n (to_head q x ∷ cs) p s (lt, within) same = elim (enqueue_head-Alike n p s same q lt x) [
  | both_fault e e' ↦ rw (e, e', ◌>>=◌) refl
  | both_run p' s' e e' same' ↦ rw (e, e', ◌>>=◌) (run-Same n cs p' s' within same')
]
run-Same n (to_tail q x ∷ cs) p s (lt, within) same =
    let (p', e, same') = enqueue_tail-Same n p s same q lt x in
    rw (e, ◌>>=◌) (run-Same n cs p' (tskq_enqueue_tail s q x) within same')
run-Same n (from_head q ∷ cs) p s (lt, within) same =
    let (result, same') = dequeue-Same n p s same q lt in
    rw (run-Same n cs _ _ within same', result) refl

-- the queues at the start: no task, and every free element once in the pool
pub record IsEmpty (n : ℕ) (p : Queues) (s : Server) : Type 0 where
  pub no_head : (q : ℕ) → q < n → p.head q ≡ none
  pub no_tail : (q : ℕ) → q < n → p.tail q ≡ none
  pub no_task : (q : ℕ) → s.tskq q ≡ []
  pub same_pool : p.pool ≡ s.task_pool
  pub distinct : (a : ℕ) → free_at a (cells s.task_pool) ≤ 1

IsEmpty-Same : (n : ℕ) (p : Queues) (s : Server) → IsEmpty n p s → Same n p s
IsEmpty-Same n p s h = record {
  pools = h.same_pool;
  linked = λ q lt. rw (h.no_task q) (h.no_head q lt);
  tails = λ q lt. rw (h.no_task q) (h.no_tail q lt);
  once = λ a.
      omega
        (arith, h.distinct a, total_zero n (λ q. at a (s.tskq q)) (λ q. ap (at a) (h.no_task q)));
}

-- From empty queues every sequence of enqueues, at the head or the tail, and dequeues on the first `n` queues
-- gives on the linked tasks what it gives on the sequences: the dequeues return the same tasks in the
-- same order, and one run dereferences NULL if and only if the other faults.
pub run_queues-sequences :
    (n : ℕ) (cs : List Call) (p : Queues) (s : Server)
    → Within n cs
    → IsEmpty n p s
    → run_queues cs p ≡ run_sequences cs s
run_queues-sequences n cs p s within h = run-Same n cs p s within (IsEmpty-Same n p s h)
