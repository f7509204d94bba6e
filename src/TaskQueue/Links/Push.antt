-- ===== src/TaskQueue/Links/Push.antt =====
-- What the pushes do to the pointers of a queue, and what they leave.
use horus_app_eval.Prelude.{
  ℕ, ◌≤◌, ◌≡◌, ◌≢◌, refl, ap, sym, ◌∙◌, arith, Option, none, some, List, [], ◌∷◌, ◌++◌, update,
  update_self, update_ne, ◌>>=◌,
}
use horus_app_eval.Mempool.{Mempool}
use horus_app_eval.Server.{Task}
use horus_app_eval.TaskQueue.{Item, to_task}
use horus_app_eval.TaskQueue.Links.{TaskCell, Queues, link_head, set_next, end_at, link_tail}
use horus_app_eval.TaskQueue.Links.Chain.{
  at, at-last, Linked, last_cell, last_cell-push, Linked-frame, push-Linked,
}

-- what a push of the cell `c` into the queue `q` does to the pointers
pub record Pushed (p p' : Queues) (q c : ℕ) (ts ts' : List Task) : Type 0 where
  pub chain : Linked p'.cells (p'.head q) ts'
  pub ends : p'.tail q ≡ last_cell ts'
  pub heads : (j : ℕ) → q ≢ j → p'.head j ≡ p.head j
  pub ends_kept : (j : ℕ) → q ≢ j → p'.tail j ≡ p.tail j
  pub others : (a : ℕ) → c ≢ a → last_cell ts ≢ some a → p'.cells a ≡ p.cells a

pub link_head-Pushed :
    (p : Queues) (q : ℕ) (x : Item) (c : ℕ) (o : Option ℕ) (ts : List Task)
    → Linked p.cells o ts
    → p.tail q ≡ last_cell ts
    → at c ts ≡ 0
    → Pushed p (link_head p q x c o) q c ts (to_task c x ∷ ts)
unfolding link_head
link_head-Pushed p q x c none [] h end fresh = record {
  chain = (
    update_self p.head q (some c),
    ap (λ (k : TaskCell). k.item) (update_self p.cells c _),
    ap (λ (k : TaskCell). k.next) (update_self p.cells c _),
  );
  ends = update_self p.tail q (some c);
  heads = λ j ne. update_ne p.head q j (some c) ne;
  ends_kept = λ j ne. update_ne p.tail q j (some c) ne;
  others = λ a ne _. update_ne p.cells c a _ ne;
}
link_head-Pushed p q x c none (t ∷ ts) h end fresh = absurd (cc (h.0))
link_head-Pushed p q x c (some f) [] h end fresh = absurd (cc h)
link_head-Pushed p q x c (some f) (t ∷ ts) h end fresh =
    let g = update p.cells c (record { item = x; next = some f }) in
    let set_c = update_self p.cells c (record { item = x; next = some f }) in
    record {
      chain = (
        update_self p.head q (some c),
        ap (λ (k : TaskCell). k.item) set_c,
        rw set_c (
            Linked-frame p.cells g (some f) (t ∷ ts)
              (λ a h'.
                update_ne p.cells c a _
                  (λ e. absurd (omega (arith, h', fresh, ap (λ (k : ℕ). at k (t ∷ ts)) e))))
              h),
      );
      ends = end;
      heads = λ j ne. update_ne p.head q j (some c) ne;
      ends_kept = λ j ne. refl;
      others = λ a ne _. update_ne p.cells c a _ ne;
    }

last_cell-some : (t : Task) (ts : List Task) → (l : ℕ) × (last_cell (t ∷ ts) ≡ some l)
last_cell-some t [] = (t.cell, refl)
last_cell-some t (t' ∷ ts) = last_cell-some t' ts

-- the memory after each of the three writes of `tskq_enqueue_tail` to the tasks
module _ (f : ℕ → TaskCell) (c l : ℕ) (x : Item) where
  abbrev filled : ℕ → TaskCell
  filled = update f c (record (f c) { item = x })

  abbrev joined : ℕ → TaskCell
  joined = update filled l (record (filled l) { next = some c })

  abbrev ended : ℕ → TaskCell
  ended = update joined c (record (joined c) { next = none })

  ended_new : c ≢ l → ended c ≡ record { item = x; next = none }
  ended_new ne =
      update_self joined c _
      ∙ ap (λ (k : TaskCell). record k { next = none })
          (update_ne filled l c _ (λ e. ne (sym e)) ∙ update_self f c _)

  ended_last : c ≢ l → ended l ≡ record (f l) { next = some c }
  ended_last ne =
      update_ne joined c l _ ne
      ∙ update_self filled l _
      ∙ ap (λ (k : TaskCell). record k { next = some c }) (update_ne f c l _ ne)

  ended_other : (a : ℕ) → a ≢ c → a ≢ l → ended a ≡ f a
  ended_other a ne ne' =
      update_ne joined c a _ (λ e. ne (sym e))
      ∙ update_ne filled l a _ (λ e. ne' (sym e))
      ∙ update_ne f c a _ (λ e. ne (sym e))

abbrev pub with_item : Queues → Mempool → ℕ → Item → Queues
with_item p pool c x = record p {
  cells = update p.cells c (record (p.cells c) { item = x });
  pool = pool;
}

pub link_tail-Pushed :
    (p : Queues) (pool : Mempool) (q : ℕ) (x : Item) (c : ℕ) (o : Option ℕ) (ts : List Task)
    → p.head q ≡ o
    → Linked p.cells o ts
    → p.tail q ≡ last_cell ts
    → at c ts ≡ 0
    → ((a : ℕ) → at a ts ≤ 1)
    → (p' : Queues) × (link_tail (with_item p pool c x) q c o ≡ some p')
      × Pushed p p' q c ts (ts ++ (to_task c x ∷ []))
      × (p'.pool ≡ pool)
unfolding link_tail end_at set_next
link_tail-Pushed p pool q x c none [] first h end fresh once =
    let f1 = update p.cells c (record (p.cells c) { item = x }) in
    let set_c = update_self p.cells c (record (p.cells c) { item = x }) in
    let cut = update_self f1 c (record (f1 c) { next = none }) in
    (
      end_at
          (record (with_item p pool c x) {
            head = update p.head q (some c);
            tail = update p.tail q (some c);
          })
          c,
      refl,
      record {
        chain = (
          update_self p.head q (some c),
          ap (λ (k : TaskCell). k.item) cut ∙ ap (λ (k : TaskCell). k.item) set_c,
          ap (λ (k : TaskCell). k.next) cut,
        );
        ends = update_self p.tail q (some c);
        heads = λ j ne. update_ne p.head q j (some c) ne;
        ends_kept = λ j ne. update_ne p.tail q j (some c) ne;
        others = λ a ne _. update_ne f1 c a _ ne ∙ update_ne p.cells c a _ ne;
      },
      refl,
    )
link_tail-Pushed p pool q x c none (t ∷ ts) first h end fresh once = absurd (cc (h.0))
link_tail-Pushed p pool q x c (some f) [] first h end fresh once = absurd (cc h)
link_tail-Pushed p pool q x c (some f) (t ∷ ts) first h end fresh once =
    let (l, is_last) = last_cell-some t ts in
    let ne : c ≢ l = λ e.
      absurd (omega (arith, fresh, at-last (t ∷ ts) l is_last, ap (λ (k : ℕ). at k (t ∷ ts)) e)) in
    (
      record (with_item p pool c x) {
        cells = ended p.cells c l x;
        tail = update p.tail q (some c);
      },
      rw (end ∙ is_last, ◌>>=◌) refl,
      record {
        chain = rw first (
            push-Linked p.cells (ended p.cells c l x) c l x (some f) (t ∷ ts)
              (ended_new p.cells c l x ne) (ended_last p.cells c l x ne)
              (λ a n n'. ended_other p.cells c l x a n n') once fresh is_last h);
        ends = update_self p.tail q (some c) ∙ sym (last_cell-push (t ∷ ts) (to_task c x));
        heads = λ j ne'. refl;
        ends_kept = λ j ne'. update_ne p.tail q j (some c) ne';
        others = λ a n n'.
            ended_other p.cells c l x a (λ e. n (sym e)) (λ e. n' (is_last ∙ ap some (sym e)));
      },
      refl,
    )
