-- ===== src/TaskQueue/Links/Pop.antt =====
-- `tskq_dequeue` on the pointers and on the sequences, from related states.
use horus_app_eval.Prelude.{
  ℕ, ◌<◌, ◌≡◌, ◌≢◌, refl, ap, sym, ◌∙◌, arith, Option, none, some, List, [], ◌∷◌, update,
  update_self, update_ne, inl, inr, List-cases, total_change,
}
use native.Mathlib.Decide.{ℕ_discrete}
use horus_app_eval.Mempool.{Mempool, free}
use horus_app_eval.Mempool.Count.{cells-free}
use horus_app_eval.Server.{Server, Task}
use horus_app_eval.TaskQueue.{tskq_dequeue}
use horus_app_eval.TaskQueue.Links.{Queues, item?, clear_tail, take_head, dequeue}
use horus_app_eval.TaskQueue.Links.Chain.{at, Linked, last_cell}
use horus_app_eval.TaskQueue.Links.Related.{Same, free_at}

record Popped (p p' : Queues) (q : ℕ) (ts : List Task) : Type 0 where
  pub chain : Linked p'.cells (p'.head q) ts
  pub ends : p'.tail q ≡ last_cell ts
  pub heads : (j : ℕ) → q ≢ j → p'.head j ≡ p.head j
  pub ends_kept : (j : ℕ) → q ≢ j → p'.tail j ≡ p.tail j
  pub memory : p'.cells ≡ p.cells

abbrev advanced : Queues → ℕ → ℕ → Queues
advanced p q c = record p { head = update p.head q (p.cells c).next; pool = free p.pool c }

clear_cases :
    (p : Queues) (q c : ℕ) (o : Option ℕ) (t : Task) (ts : List Task)
    → (p.cells c).next ≡ o
    → Linked p.cells o ts
    → p.tail q ≡ last_cell (t ∷ ts)
    → Popped p (clear_tail (advanced p q c) q o) q ts
      × ((clear_tail (advanced p q c) q o).pool ≡ free p.pool c)
unfolding clear_tail
clear_cases p q c none t [] e h end = (
  record {
    chain = update_self p.head q _ ∙ e;
    ends = update_self p.tail q none;
    heads = λ j ne. update_ne p.head q j _ ne;
    ends_kept = λ j ne. update_ne p.tail q j none ne;
    memory = refl;
  },
  refl,
)
clear_cases p q c none t (t' ∷ ts) e h end = absurd (cc (h.0))
clear_cases p q c (some f) t [] e h end = absurd (cc h)
clear_cases p q c (some f) t (t' ∷ ts) e h end = (
  record {
    chain = rw (update_self p.head q ((p.cells c).next) ∙ e) h;
    ends = end;
    heads = λ j ne. update_ne p.head q j _ ne;
    ends_kept = λ j ne. refl;
    memory = refl;
  },
  refl,
)

module _ (n : ℕ) (p : Queues) (s : Server) (same : Same n p s) (q : ℕ) (lt : q < n) where
  Popped-Same :
      (p' : Queues) (t : Task) (ts : List Task)
      → s.tskq q ≡ t ∷ ts
      → Popped p p' q ts
      → p'.pool ≡ free p.pool t.cell
      → Same n p' (record s { tskq = update s.tskq q ts; task_pool = free s.task_pool t.cell })
  Popped-Same p' t ts e popped pools = record {
    pools = pools ∙ ap (λ (m : Mempool). free m t.cell) (same.pools);
    linked = λ j lt'. elim (ℕ_discrete q j) [
      | yes e' ↦ rw (← e') (rw (update_self s.tskq q ts) (popped.chain))
      | no ne ↦
          rw (popped.heads j ne, update_ne s.tskq q j ts ne, popped.memory) (same.linked j lt')
    ];
    tails = λ j lt'. elim (ℕ_discrete q j) [
      | yes e' ↦ rw (← e') (rw (update_self s.tskq q ts) (popped.ends))
      | no ne ↦ rw (popped.ends_kept j ne, update_ne s.tskq q j ts ne) (same.tails j lt')
    ];
    once = λ a. omega (
      arith,
      same.once a,
      ap (free_at a) (cells-free s.task_pool t.cell),
      ap (at a) e,
      ap (at a) (update_self s.tskq q ts),
      total_change n (λ k. at a (s.tskq k)) (λ k. at a (update s.tskq q ts k)) q lt
          (λ j ne. ap (at a) (sym (update_ne s.tskq q j ts ne))),
    );
  }

  from_empty : s.tskq q ≡ [] → tskq_dequeue s q ≡ (none, s)
  unfolding tskq_dequeue
  from_empty e = ground (arith, e)

  from_first :
      (t : Task) (ts : List Task)
      → s.tskq q ≡ t ∷ ts
      → tskq_dequeue s q
        ≡ (some t, record s { tskq = update s.tskq q ts; task_pool = free s.task_pool t.cell })
  unfolding tskq_dequeue
  from_first t ts e = ground (arith, e)

  -- The same result, and related states.
  pub dequeue-Same :
      ((dequeue p q).0 ≡ item? (tskq_dequeue s q).0) × Same n (dequeue p q).1 (tskq_dequeue s q).1
  unfolding dequeue take_head
  dequeue-Same = elim (List-cases (s.tskq q)) [
    | inl e ↦
        let linked : Linked p.cells (p.head q) [] = rw e at (same.linked q lt) in
        rw (linked, from_empty e) (refl, same)
    | inr (t, ts, e) ↦
        let linked : Linked p.cells (p.head q) (t ∷ ts) = rw e at (same.linked q lt) in
        let end : p.tail q ≡ last_cell (t ∷ ts) = rw e at (same.tails q lt) in
        let (popped, pools) = clear_cases p q t.cell (p.cells t.cell).next t ts refl linked.2 end in
        rw (linked.0, from_first t ts e) (ap some (linked.1), Popped-Same _ t ts e popped pools)
  ]
