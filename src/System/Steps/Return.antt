-- ===== src/System/Steps/Return.antt =====
-- `handle_finished` and `handle_preempted` keep the invariant and leave the worker without a task.
use horus_app_eval.Prelude.{
  ℕ, ◌+◌, ◌-◌, ◌<◌, ◌≡◌, refl, sym, ap, false, List, [], ◌∷◌, ◌++◌, arith, length, update, inl, inr,
  some, if◌then◌else◌, ltb, ◌==◌, ◌&&◌, pred32, Bool-cases, length-append,
}
use mathlib.Core.Path.{subst}
use horus_app_eval.Mempool.{Mempool, alloc}
use horus_app_eval.Context.{context_free}
use horus_app_eval.Context.Count.{context_free-count}
use horus_app_eval.Mempool.Available.{alloc_room}
use horus_app_eval.Mempool.Count.{available}
use horus_app_eval.Server.{Server, Task, FiniCell, processed, finished, preempted}
use horus_app_eval.TaskQueue.{to_task, tskq_enqueue_head, tskq_enqueue_tail, request_enqueue}
use horus_app_eval.Dispatcher.{handle_finished, handle_preempted}
use horus_app_eval.System.{System}
use horus_app_eval.System.View.{
  View, view, CoreInv, Inv, Inv-change, AllTyped, holds, Stage, load_bound, task_room,
}

-- what `handle_finished` leaves behind, for a task of the core `i`
abbrev pub done_server : ℕ → Server → List FiniCell → Mempool → Server
done_server i s cells pool = record s {
  queue_length = update s.queue_length i (pred32 (s.queue_length i));
  worker_state =
      if pred32 (s.queue_length i) == 0 && ltb 0 (s.worker_state i)
      then update s.worker_state i (s.worker_state i - 1)
      else s.worker_state;
  contexts = context_free s.contexts (s.responses i).rnbl;
  frqueue = cells;
  fini_pool = pool;
  preempt_check = update s.preempt_check i false;
  responses = update s.responses i (record (s.responses i) { flag = processed });
}

pub finished_eq :
    (i : ℕ) (s t : Server)
    → handle_finished s i ≡ some t
    → (s.responses i).type ≡ i
    → t ≡ done_server i s t.frqueue t.fini_pool
unfolding handle_finished request_enqueue
finished_eq i s t e own = ground arith

done-Inv :
    {n cap room : ℕ} (i : ℕ) (s : System) (cells : List FiniCell) (pool : Mempool)
    → i < n
    → Inv n cap room s
    → (s.server.responses i).flag ≡ finished
    → Inv n cap room (record s { server = done_server i s.server cells pool })
done-Inv i s cells pool lt inv flag =
    Inv-change s _ i after inv lt (λ c ne. ground arith) (ground arith)
      (record {
        counted = omega (arith, v.counted, ap holds flag, load_bound s i inv lt);
        typed = v.typed;
        stage = tt;
        at_work = λ b. absurd (cc (flag, (v.at_work b).0));
        handed = λ a. absurd (cc (flag, v.handed a));
        state = ground (arith, v.state);
        idle = λ bad. cc;
      })
      (omega
        (arith, ap holds flag, context_free-count s.server.contexts (s.server.responses i).rnbl))
      refl inv.batch
  where
    v : CoreInv i (view s i)
    v = inv.core i lt

    after : View
    after = record (view s i) {
      queue_length = pred32 (s.server.queue_length i);
      worker_state =
          if pred32 (s.server.queue_length i) == 0 && ltb 0 (s.server.worker_state i)
          then s.server.worker_state i - 1
          else s.server.worker_state i;
      response = record (s.server.responses i) { flag = processed };
    }

pub stage_of_finished :
    {c : ℕ} {v : View} → CoreInv c v → v.response.flag ≡ finished → v.response.type ≡ c
stage_of_finished {c} {v} inv e = subst (λ f. Stage c f v.request.type v.response.type) e inv.stage

pub stage_of_preempted :
    {c : ℕ} {v : View} → CoreInv c v → v.response.flag ≡ preempted → v.response.type ≡ c
stage_of_preempted {c} {v} inv e = subst (λ f. Stage c f v.request.type v.response.type) e inv.stage

-- After `handle_finished` the invariant holds and the worker is free.
pub finished-Inv :
    {n cap room : ℕ} (i : ℕ) (s : System) (t : Server)
    → i < n
    → Inv n cap room s
    → (s.server.responses i).flag ≡ finished
    → handle_finished s.server i ≡ some t
    → Inv n cap room (record s { server = t }) × ((t.responses i).flag ≡ processed)
finished-Inv {n} {cap} {room} i s t lt inv flag e = (
  subst (λ u. Inv n cap room (record s { server = u })) (sym same)
      (done-Inv i s t.frqueue t.fini_pool lt inv flag),
  ground (arith, ap (λ (u : Server). (u.responses i).flag) same),
)
  where
    same : t ≡ done_server i s.server t.frqueue t.fini_pool
    same = finished_eq i s.server t e (stage_of_finished (inv.core i lt) flag)

-- what `handle_preempted` leaves behind, for a task of the core `i` in the cell `c`
abbrev pub requeued_task : ℕ → Server → ℕ → Task
requeued_task i s c = to_task c (record {
  runnable = (s.responses i).rnbl;
  req = (s.responses i).req;
  type = (s.responses i).type;
  category = (s.responses i).category;
  timestamp = (s.responses i).timestamp;
})

abbrev pub requeued : ℕ → Server → ℕ → Mempool → Server
requeued i s c pool =
    let t = requeued_task i s c in
    record s {
      tskq = update s.tskq i (if s.queue_settings i then t ∷ s.tskq i else s.tskq i ++ (t ∷ []));
      task_pool = pool;
      preempt_check = update s.preempt_check i false;
      responses = update s.responses i (record (s.responses i) { flag = processed });
    }

preempted_eq :
    (i c : ℕ) (s t : Server) (pool : Mempool)
    → alloc s.task_pool ≡ (some c, pool)
    → handle_preempted s i ≡ some t
    → (s.responses i).type ≡ i
    → t ≡ requeued i s c pool
unfolding handle_preempted tskq_enqueue_head tskq_enqueue_tail
preempted_eq i c s t pool got e own = ground arith

pub preempted_some :
    (i c : ℕ) (s : Server) (pool : Mempool)
    → alloc s.task_pool ≡ (some c, pool)
    → (s.responses i).type ≡ i
    → handle_preempted s i ≡ some (requeued i s c pool)
unfolding handle_preempted tskq_enqueue_head tskq_enqueue_tail
preempted_some i c s pool got own = ground arith

pub length-requeued :
    (i c : ℕ) (s : Server) (pool : Mempool)
    → length ((requeued i s c pool).tskq i) ≡ length (s.tskq i) + 1
length-requeued i c s pool = ground (arith, length-append {0} (s.tskq i) (requeued_task i s c ∷ []))

pub AllTyped-snoc :
    (c : ℕ) (ts : List Task) (t : Task) → AllTyped c ts → t.type ≡ c → AllTyped c (ts ++ (t ∷ []))
AllTyped-snoc c [] t h e = (e, tt)
AllTyped-snoc c (u ∷ ts) t h e = (h.0, AllTyped-snoc c ts t h.1 e)

requeued-Inv :
    {n cap room : ℕ} (i c : ℕ) (s : System) (pool : Mempool)
    → i < n
    → Inv n cap room s
    → (s.server.responses i).flag ≡ preempted
    → available s.server.task_pool ≡ available pool + 1
    → Inv n cap room (record s { server = requeued i s.server c pool })
requeued-Inv i c s pool lt inv flag room =
    Inv-change s _ i after inv lt (λ c ne. ground arith) (ground arith)
      (record {
        counted = omega (arith, v.counted, ap holds flag, longer);
        typed = typed;
        stage = tt;
        at_work = λ b. absurd (cc (flag, (v.at_work b).0));
        handed = λ a. absurd (cc (flag, v.handed a));
        state = v.state;
        idle = λ bad. cc;
      })
      (omega (arith, ap holds flag, longer)) (omega (arith, longer, room)) inv.batch
  where
    v : CoreInv i (view s i)
    v = inv.core i lt

    t : Task
    t = requeued_task i s.server c

    after : View
    after = record (view s i) {
      tasks =
          if s.server.queue_settings i then t ∷ s.server.tskq i else s.server.tskq i ++ (t ∷ []);
      response = record (s.server.responses i) { flag = processed };
    }

    longer : length after.tasks ≡ length (s.server.tskq i) + 1
    longer = ground (arith, length-append {0} (s.server.tskq i) (t ∷ []))

    own : t.type ≡ i
    own = stage_of_preempted v flag

    typed : AllTyped i after.tasks
    typed = elim (Bool-cases (s.server.queue_settings i)) [
      | inl e ↦ rw e (own, v.typed)
      | inr e ↦ rw e (AllTyped-snoc i (s.server.tskq i) t v.typed own)
    ]

-- After `handle_preempted` the invariant holds and the worker is free: the task is in its queue again.
pub preempted-Inv :
    {n cap room : ℕ} (i : ℕ) (s : System) (t : Server)
    → i < n
    → Inv n cap room s
    → (s.server.responses i).flag ≡ preempted
    → handle_preempted s.server i ≡ some t
    → Inv n cap room (record s { server = t }) × ((t.responses i).flag ≡ processed)
preempted-Inv {n} {cap} {room} i s t lt inv flag e =
    let (c, pool, got, count) =
      alloc_room s.server.task_pool (task_room s i inv lt (omega (arith, ap holds flag))) in
    let same = preempted_eq i c s.server t pool got e (stage_of_preempted (inv.core i lt) flag) in
    (
      subst (λ u. Inv n cap room (record s { server = u })) (sym same)
          (requeued-Inv i c s pool lt inv flag count),
      ground (arith, ap (λ (u : Server). (u.responses i).flag) same),
    )
