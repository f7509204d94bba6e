-- ===== src/System/Steps/Dispatch.antt =====
-- `dispatch_request` keeps the invariant: a queued task becomes the worker's.
use horus_app_eval.Prelude.{
  ℕ, ◌<◌, ◌≤◌, ◌≡◌, refl, ap, true, List, [], ◌∷◌, arith, length, u8, update, inl, inr, List-cases,
}
use mathlib.Core.Path.{subst}
use horus_app_eval.Mempool.{free}
use horus_app_eval.Mempool.Available.{available-free}
use horus_app_eval.Server.{Server, Task, processed, running, active}
use horus_app_eval.TaskQueue.{tskq_dequeue}
use horus_app_eval.Dispatcher.{dispatch_request}
use horus_app_eval.System.{System}
use horus_app_eval.System.View.{View, view, CoreInv, Inv, Inv-change, load, AllTyped, holds}

core-lt-256 : {n i : ℕ} → n ≤ 16 → i < n → u8 i ≡ i
core-lt-256 h lt = omega arith

dispatch_empty : (i now : ℕ) (s : Server) → u8 i ≡ i → s.tskq i ≡ [] → dispatch_request i now s ≡ s
unfolding dispatch_request tskq_dequeue
dispatch_empty i now s small e = rw (small, e, tskq_dequeue)

-- the server after `dispatch_request` has taken the task `t`, with `ts` behind it
abbrev started : ℕ → ℕ → Server → Task → List Task → Server
started i now s t ts = record s {
  tskq = update s.tskq i ts;
  task_pool = free s.task_pool t.cell;
  responses = update s.responses i (record (s.responses i) { flag = running });
  dispatcher_requests = update s.dispatcher_requests i (record {
    flag = active;
    rnbl = t.runnable;
    req = t.req;
    type = t.type;
    category = t.category;
    timestamp = t.timestamp;
  });
  timestamps = update s.timestamps i now;
  preempt_check = update s.preempt_check i true;
}

dispatch_some :
    (i now : ℕ) (s : Server) (t : Task) (ts : List Task)
    → u8 i ≡ i
    → s.tskq i ≡ t ∷ ts
    → dispatch_request i now s ≡ started i now s t ts
unfolding dispatch_request tskq_dequeue
dispatch_some i now s t ts small e = rw (small, e, tskq_dequeue) (rw small)

started-Inv :
    {n cap room : ℕ} (i now : ℕ) (s : System) (t : Task) (ts : List Task)
    → i < n
    → Inv n cap room s
    → (s.server.responses i).flag ≡ processed
    → s.server.tskq i ≡ t ∷ ts
    → Inv n cap room (record s { server = started i now s.server t ts })
started-Inv i now s t ts lt inv flag e =
    Inv-change s _ i after inv lt (λ c ne. ground arith) (ground arith)
      (record {
        counted = omega (arith, v.counted, loaded);
        typed = typed.1;
        stage = typed.0;
        at_work = λ b. absurd (cc (flag, (v.at_work b).0));
        handed = λ _. refl;
        state = v.state;
        idle = λ bad. cc;
      })
      (omega (arith, loaded)) (omega (arith, ap length e, available-free s.server.task_pool t.cell))
      inv.batch
  where
    v : CoreInv i (view s i)
    v = inv.core i lt

    after : View
    after = record (view s i) {
      tasks = ts;
      response = record (s.server.responses i) { flag = running };
      request = record {
        flag = active;
        rnbl = t.runnable;
        req = t.req;
        type = t.type;
        category = t.category;
        timestamp = t.timestamp;
      };
    }

    typed : AllTyped i (t ∷ ts)
    typed = subst (AllTyped i) e v.typed

    loaded : load after ≡ load (view s i)
    loaded = omega (arith, ap length e, ap holds flag)

pub dispatch-Inv :
    {n cap room : ℕ} (i now : ℕ) (s : System)
    → i < n
    → Inv n cap room s
    → (s.server.responses i).flag ≡ processed
    → Inv n cap room (record s { server = dispatch_request i now s.server })
dispatch-Inv i now s lt inv flag = elim (List-cases (s.server.tskq i)) [
  | inl e ↦ rw (dispatch_empty i now s.server (core-lt-256 inv.few lt) e) inv
  | inr (t, ts, e) ↦
      rw (dispatch_some i now s.server t ts (core-lt-256 inv.few lt) e)
        (started-Inv i now s t ts lt inv flag e)
]
