-- ===== src/TaskQueue/Links/Related.antt =====
-- One operation on the pointers and on the sequences, from related states.
use horus_app_eval.Prelude.{
  ℕ, ◌+◌, ◌≤◌, ◌<◌, ◌≡◌, ◌≢◌, refl, ap, sym, arith, Option, none, some, List, [], ◌∷◌, ◌==◌,
  if◌then◌else◌, update, update_self, update_ne, total, total-update, le-total, total_change,
}
use native.Mathlib.Decide.{ℕ_discrete}
use horus_app_eval.Mempool.{Mempool, alloc}
use horus_app_eval.Mempool.Count.{cells, Allocated, alloc-Allocated}
use horus_app_eval.Server.{Server, Task}
use horus_app_eval.TaskQueue.{
  Item, to_task, push_head, push_tail, tskq_enqueue_head, tskq_enqueue_tail,
}
use horus_app_eval.TaskQueue.Links.{
  Queues, link_head, new_head, enqueue_head, new_tail, enqueue_tail,
}
use horus_app_eval.TaskQueue.Links.Push.{Pushed, link_head-Pushed, link_tail-Pushed}
use horus_app_eval.TaskQueue.Links.Chain.{at, at-append, at-last, Linked, last_cell, Linked-frame}

-- how often a free cell stands in a list
abbrev pub free_at : ℕ → List ℕ → ℕ
free_at a [] = 0
free_at a (c ∷ cs) = (if c == a then 1 else 0) + free_at a cs

-- The pointers stand for the sequences, and no task is twice in the queues and among the free elements.
pub record Same (n : ℕ) (p : Queues) (s : Server) : Type 0 where
  pub pools : p.pool ≡ s.task_pool
  pub linked : (q : ℕ) → q < n → Linked p.cells (p.head q) (s.tskq q)
  pub tails : (q : ℕ) → q < n → p.tail q ≡ last_cell (s.tskq q)
  pub once : (a : ℕ) → free_at a (cells s.task_pool) + total n (λ q. at a (s.tskq q)) ≤ 1

pair-le-total : (n : ℕ) (f : ℕ → ℕ) (i j : ℕ) → i < n → j < n → i ≢ j → f i + f j ≤ total n f
pair-le-total n f i j lt lt' ne =
    omega (arith, total-update n f i 0 lt, le-total n (update f i 0) j lt', update_ne f i j 0 ne)

module _ (n : ℕ) (p : Queues) (s : Server) (same : Same n p s) (q c : ℕ) (lt : q < n)
    (pool : Mempool) (taken : cells s.task_pool ≡ c ∷ cells pool) where
  -- how often the addresses stand among the free elements and in the queues
  before :
      (a : ℕ)
      → (if c == a then 1 else 0) + free_at a (cells pool) + total n (λ k. at a (s.tskq k)) ≤ 1
  before a = omega (arith, same.once a, ap (free_at a) taken)

  fresh : (j : ℕ) → j < n → at c (s.tskq j) ≡ 0
  fresh j lt' =
      let self : ◌≡◌ {A = ℕ} (if c == c then 1 else 0) 1 = ground arith in
      omega (arith, before c, self, le-total n (λ k. at c (s.tskq k)) j lt')

  at_most_once : (a : ℕ) → at a (s.tskq q) ≤ 1
  at_most_once a = omega (arith, before a, le-total n (λ k. at a (s.tskq k)) q lt)

  Pushed-Same :
      (p' : Queues) (ts' : List Task)
      → Pushed p p' q c (s.tskq q) ts'
      → p'.pool ≡ pool
      → ((a : ℕ) → at a ts' ≡ at a (s.tskq q) + (if c == a then 1 else 0))
      → Same n p' (record s { tskq = update s.tskq q ts'; task_pool = pool })
  Pushed-Same p' ts' pushed pools more = record {
    pools = pools;
    linked = λ j lt'. elim (ℕ_discrete q j) [
      | yes e ↦ rw (← e) (rw (update_self s.tskq q ts') (pushed.chain))
      | no ne ↦
          rw (pushed.heads j ne, update_ne s.tskq q j ts' ne)
            (Linked-frame p.cells p'.cells (p.head j) (s.tskq j)
              (λ a h.
                pushed.others a
                  (λ e. absurd (omega (arith, h, fresh j lt', ap (λ (k : ℕ). at k (s.tskq j)) e)))
                  (λ e. absurd (
                    omega (
                      arith,
                      h,
                      before a,
                      at-last (s.tskq q) a e,
                      pair-le-total n (λ k. at a (s.tskq k)) q j lt lt' ne,
                    ))))
              (same.linked j lt'))
    ];
    tails = λ j lt'. elim (ℕ_discrete q j) [
      | yes e ↦ rw (← e) (rw (update_self s.tskq q ts') (pushed.ends))
      | no ne ↦ rw (pushed.ends_kept j ne, update_ne s.tskq q j ts' ne) (same.tails j lt')
    ];
    once = λ a. omega (
      arith,
      before a,
      more a,
      ap (at a) (update_self s.tskq q ts'),
      total_change n (λ k. at a (s.tskq k)) (λ k. at a (update s.tskq q ts' k)) q lt
          (λ j ne. ap (at a) (sym (update_ne s.tskq q j ts' ne))),
    );
  }

repooled :
    (p : Queues) (pool : Mempool) {p' : Queues} {q c : ℕ} {ts ts' : List Task}
    → Pushed (record p { pool = pool }) p' q c ts ts'
    → Pushed p p' q c ts ts'
repooled p pool h = record {
  chain = h.chain;
  ends = h.ends;
  heads = h.heads;
  ends_kept = h.ends_kept;
  others = h.others;
}

link_head-pool :
    (p : Queues) (q : ℕ) (x : Item) (c : ℕ) (o : Option ℕ) → (link_head p q x c o).pool ≡ p.pool
unfolding link_head
link_head-pool p q x c none = refl
link_head-pool p q x c (some f) = refl

-- Both runs fault, or neither does and they end in related states.
pub data Alike (n : ℕ) (o : Option Queues) (o' : Option Server) : Type 0 where
  both_fault : o ≡ none → o' ≡ none → Alike n o o'
  both_run : (p : Queues) (s : Server) → o ≡ some p → o' ≡ some s → Same n p s → Alike n o o'

module _ (n : ℕ) (p : Queues) (s : Server) (same : Same n p s) (q : ℕ) (lt : q < n) (x : Item) where
  head_cases :
      (r : Option ℕ × Mempool)
      → Allocated s.task_pool r
      → Alike n (new_head p q x r) (push_head s q x r)
  unfolding new_head push_head
  head_cases (none, pool) h = both_fault refl refl
  head_cases (some c, pool) h =
      let p1 : Queues = record p { pool = pool } in
      both_run (link_head p1 q x c (p.head q)) _ refl refl (
        Pushed-Same n p s same q c lt pool h _ _
          (repooled p pool (
            link_head-Pushed p1 q x c (p.head q) (s.tskq q) (same.linked q lt) (same.tails q lt)
              (fresh n p s same q c lt pool h q lt)))
          (link_head-pool p1 q x c (p.head q)) (λ a. omega arith))

  pub enqueue_head-Alike : Alike n (enqueue_head p q x) (tskq_enqueue_head s q x)
  unfolding enqueue_head tskq_enqueue_head
  enqueue_head-Alike =
      rw (same.pools) (head_cases (alloc s.task_pool) (alloc-Allocated s.task_pool))

  tail_cases :
      (r : Option ℕ × Mempool)
      → Allocated s.task_pool r
      → (p' : Queues) × (new_tail p q x r ≡ some p') × Same n p' (push_tail s q x r)
  unfolding new_tail push_tail
  tail_cases (none, pool) h = (
    record p { pool = pool },
    refl,
    record {
      pools = refl;
      linked = same.linked;
      tails = same.tails;
      once = λ a. omega (arith, same.once a, ap (λ (m : Mempool). free_at a (cells m)) (h.1));
    },
  )
  tail_cases (some c, pool) h =
      let (p', e, pushed, pools) =
        link_tail-Pushed p pool q x c (p.head q) (s.tskq q) refl (same.linked q lt)
          (same.tails q lt) (fresh n p s same q c lt pool h q lt)
          (at_most_once n p s same q c lt pool h) in
      (
        p',
        e,
        Pushed-Same n p s same q c lt pool h p' _ pushed pools
            (λ a. omega (arith, at-append a (s.tskq q) (to_task c x ∷ []))),
      )

  pub enqueue_tail-Same :
      (p' : Queues) × (enqueue_tail p q x ≡ some p') × Same n p' (tskq_enqueue_tail s q x)
  unfolding enqueue_tail tskq_enqueue_tail
  enqueue_tail-Same = rw (same.pools) (tail_cases (alloc s.task_pool) (alloc-Allocated s.task_pool))
