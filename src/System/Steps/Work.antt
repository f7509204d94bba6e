-- ===== src/System/Steps/Work.antt =====
-- A round of `handle_worker` and the two halves of a worker's round keep the invariant.
use horus_app_eval.Prelude.{
  ℕ, ◌<◌, ◌≡◌, ◌≢◌, refl, sym, ap, ◌∙◌, Bool, true, false, arith, update, ◌⊎◌, inl, inr, Option,
  none, some,
}
use mathlib.Core.Option
use mathlib.Core.Path.{subst}
use horus_app_eval.Message.{pkt_type_task_done_idle}
use horus_app_eval.Server.{
  Server, WorkerFlag, DispatcherRequest, context, processed, running, finished, preempted, active,
  waiting, NetworkerPointers, Request,
}
use horus_app_eval.Worker.{
  Worker, Outcome, no_data, interrupted, replied, take_request, run_request, finish_request,
  reply_type, new_qlen,
}
use horus_app_eval.Dispatcher.{handle_worker, handle_finished, handle_preempted, dispatch_request}
use horus_app_eval.System.{System, Batch, complete}
use horus_app_eval.System.View.{View, view, CoreInv, Inv, Inv-change, Inv-same, holds, Stage}
use horus_app_eval.System.Steps.Dispatch.{dispatch-Inv}
use horus_app_eval.System.Steps.Return.{finished-Inv, preempted-Inv}

-- `handle_worker`, by the worker's flag
by_flag : Server → ℕ → ℕ → WorkerFlag → Option Server
by_flag s i now running = some s
by_flag s i now finished = Option.map (dispatch_request i now) (handle_finished s i)
by_flag s i now preempted = Option.map (dispatch_request i now) (handle_preempted s i)
by_flag s i now processed = some (dispatch_request i now s)

handle_worker-by_flag :
    (s : Server) (i now : ℕ) → handle_worker s i now ≡ by_flag s i now (s.responses i).flag
unfolding handle_worker by_flag
handle_worker-by_flag s i now = ground arith

map-some {ℓ} :
    {A : Type ℓ} (f : A → A) (m : Option A) {b : A}
    → Option.map f m ≡ some b
    → (a : A) × (m ≡ some a) × (f a ≡ b)
map-some f none h = absurd (ground arith)
map-some f (some a) h = (a, refl, ground arith)

Flag-cases : (f : WorkerFlag) → (f ≡ running) ⊎ (f ≡ finished) ⊎ (f ≡ preempted) ⊎ (f ≡ processed)
Flag-cases running = inl refl
Flag-cases finished = inr (inl refl)
Flag-cases preempted = inr (inr (inl refl))
Flag-cases processed = inr (inr (inr refl))

-- After the task is taken back, `dispatch_request` runs on a free worker.
then_dispatch :
    {n cap room : ℕ} (i now : ℕ) (s : System) (u t : Server)
    → i < n
    → Inv n cap room (record s { server = u }) × ((u.responses i).flag ≡ processed)
    → dispatch_request i now u ≡ t
    → Inv n cap room (record s { server = t })
then_dispatch {n} {cap} {room} i now s u t lt (inv, free) e =
    subst (λ v. Inv n cap room (record s { server = v })) e
      (dispatch-Inv i now (record s { server = u }) lt inv free)

some_eq : {s t : Server} → ◌≡◌ {A = Option Server} (some s) (some t) → s ≡ t
some_eq h = cc

serve_case :
    {n cap room : ℕ} (i now : ℕ) (s : System) (t : Server) (f : WorkerFlag)
    → i < n
    → Inv n cap room s
    → (s.server.responses i).flag ≡ f
    → by_flag s.server i now f ≡ some t
    → Inv n cap room (record s { server = t })
unfolding by_flag
serve_case {n} {cap} {room} i now s t running lt inv flag e =
    subst (λ v. Inv n cap room (record s { server = v })) (some_eq e) inv
serve_case i now s t finished lt inv flag e =
    let (u, first, rest) = map-some (dispatch_request i now) (handle_finished s.server i) e in
    then_dispatch i now s u t lt (finished-Inv i s u lt inv flag first) rest
serve_case i now s t preempted lt inv flag e =
    let (u, first, rest) = map-some (dispatch_request i now) (handle_preempted s.server i) e in
    then_dispatch i now s u t lt (preempted-Inv i s u lt inv flag first) rest
serve_case i now s t processed lt inv flag e =
    then_dispatch i now s s.server t lt (inv, flag) (some_eq e)

pub serve-Inv :
    {n cap room : ℕ} (i now : ℕ) (s : System) (t : Server)
    → i < n
    → Inv n cap room s
    → handle_worker s.server i now ≡ some t
    → Inv n cap room (record s { server = t })
serve-Inv i now s t lt inv e =
    serve_case i now s t (s.server.responses i).flag lt inv refl
      (sym (handle_worker-by_flag s.server i now) ∙ e)

pub take-Inv :
    {n cap room : ℕ} (i : ℕ) (s : System)
    → i < n
    → Inv n cap room s
    → (s.server.dispatcher_requests i).flag ≡ active
    → Inv n cap room (record s { server = take_request s.server i; busy = update s.busy i true })
unfolding take_request
take-Inv i s lt inv ready =
    Inv-change s _ i
      (record (view s i) {
        request = record (s.server.dispatcher_requests i) { flag = waiting };
        busy = true;
      })
      inv lt (λ c ne. ground arith) (ground arith)
      (record {
        counted = v.counted;
        typed = v.typed;
        stage = v.stage;
        at_work = λ b. (v.handed ready, refl);
        handed = λ bad. absurd (cc bad);
        state = v.state;
        idle = λ e one pos. absurd (cc (e, v.handed ready));
      })
      refl refl inv.batch
  where
    v : CoreInv i (view s i)
    v = inv.core i lt

run_request-finished :
    (r : DispatcherRequest) (w : Worker)
    → ((run_request r w replied).finished ≡ true) × ((run_request r w interrupted).finished ≡ false)
unfolding run_request
run_request-finished r w = (ground arith, ground arith)

-- the worker's view after `finish_request`
abbrev answered : System → ℕ → ℕ → WorkerFlag → ℕ → View
answered s i cont f last =
    let r = s.server.dispatcher_requests i in
    record (view s i) {
      response = record {
        flag = f;
        rnbl = cont;
        req = r.req;
        timestamp = r.timestamp;
        type = r.type;
        category = context;
      };
      busy = false;
      last_reply = last;
    }

answered-Inv :
    (s : System) (i cont last : ℕ) (f : WorkerFlag)
    → CoreInv i (view s i)
    → s.busy i ≡ true
    → holds f ≡ 1
    → Stage i f (s.server.dispatcher_requests i).type (s.server.dispatcher_requests i).type
    → (f ≡ finished
        → s.server.queue_length i ≡ 1
        → 0 < s.server.worker_state i
        → last ≡ pkt_type_task_done_idle)
    → CoreInv i (answered s i cont f last)
answered-Inv s i cont last f v busy one stage idle = record {
  counted = omega (arith, v.counted, one, ap holds (v.at_work busy).0);
  typed = v.typed;
  stage = stage;
  at_work = λ bad. absurd (cc bad);
  handed = λ bad. absurd (cc (bad, (v.at_work busy).1));
  state = v.state;
  idle = idle;
}

own_request :
    (s : System) (i : ℕ)
    → CoreInv i (view s i)
    → s.busy i ≡ true
    → (s.server.dispatcher_requests i).type ≡ i
own_request s i v busy =
    subst (λ f. Stage i f (s.server.dispatcher_requests i).type (s.server.responses i).type)
      (v.at_work busy).0 v.stage

pub reply_type-idle :
    (s : Server) (i : ℕ)
    → s.queue_length i ≡ 1
    → 0 < s.worker_state i
    → reply_type s i ≡ pkt_type_task_done_idle
unfolding reply_type new_qlen
reply_type-idle s i one pos = ground arith

pub complete-Inv :
    {n cap room : ℕ} (i : ℕ) (o : Outcome) (sent : Bool) (s : System)
    → i < n
    → Inv n cap room s
    → s.busy i ≡ true
    → o ≢ no_data
    → Inv n cap room (complete s i o sent)
unfolding complete finish_request
complete-Inv i no_data sent s lt inv busy data_there = absurd (data_there refl)
complete-Inv i interrupted sent s lt inv busy data_there =
    Inv-change s _ i (answered s i w.cont preempted (s.last_reply i)) inv lt
      (λ c ne. ground (arith, fin)) (ground (arith, fin))
      (answered-Inv s i w.cont (s.last_reply i) preempted v busy refl (own_request s i v busy)
        (λ bad. cc))
      (omega (arith, ap holds (v.at_work busy).0)) refl inv.batch
  where
    v : CoreInv i (view s i)
    v = inv.core i lt

    w : Worker
    w = run_request (s.server.dispatcher_requests i) (s.workers i) interrupted

    fin : w.finished ≡ false
    fin = (run_request-finished (s.server.dispatcher_requests i) (s.workers i)).1
complete-Inv i replied sent s lt inv busy data_there =
    Inv-change s _ i (answered s i w.cont finished (reply_type s.server i)) inv lt
      (λ c ne. ground (arith, fin)) (ground (arith, fin))
      (answered-Inv s i w.cont (reply_type s.server i) finished v busy refl (own_request s i v busy)
        (λ f one pos. reply_type-idle s.server i one pos))
      (omega (arith, ap holds (v.at_work busy).0)) refl inv.batch
  where
    v : CoreInv i (view s i)
    v = inv.core i lt

    w : Worker
    w = run_request (s.server.dispatcher_requests i) (s.workers i) replied

    fin : w.finished ≡ true
    fin = (run_request-finished (s.server.dispatcher_requests i) (s.workers i)).0

pub receive-Inv :
    {n cap room : ℕ} (s : System) (np : NetworkerPointers) (requests : ℕ → Request)
    → Inv n cap room s
    → Batch n np
    → Inv n cap room
        (record s { server = record (s.server) { networker_pointers = np; requests = requests } })
receive-Inv s np requests inv batch = Inv-same s _ inv (λ c. refl) refl refl batch
