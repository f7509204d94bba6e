-- ===== src/System.antt =====
-- The cores of the server together: the dispatcher (dp/core/dispatcher.c), the networker
-- (dp/core/networker.c) and `n` workers (dp/core/worker.c) on the shared objects of inc/ix/dispatch.h.
-- A step is one handler's run, or one half of a round of `do_work`. This is coarser than the code in one
-- place: a worker that makes its reply reads `queue_length` and `worker_state`, which no flag guards, while
-- `handle_networker` may be between two of its stores to them. All else that two cores share is read only
-- once a flag, or `cnt`, has been written behind it.
pub mod View
pub mod Steps
pub mod Safety
pub mod Between
use horus_app_eval.Prelude.{
  ℕ, ◌<◌, ◌≤◌, ◌≡◌, ◌≢◌, Bool, true, false, Option, none, some, if◌then◌else◌, update,
}
use horus_app_eval.Server.{Server, NetworkerPointers, Request, active}
use horus_app_eval.Worker.{
  Worker, Outcome, no_data, take_request, run_request, finish_request, reply_type,
}
use horus_app_eval.Dispatcher.{handle_worker, handle_networker}

pub record System : Type 0 where
  pub server : Server
  pub workers : ℕ → Worker
  pub busy : ℕ → Bool  -- between the two halves of a round
  pub last_reply : ℕ → ℕ  -- `pkt_type` of the reply that the worker made last
  pub reply_queued : ℕ → Bool  -- whether `udp_send_one` succeeded for it

-- The second half of a round: the work, with the reply at its end, and `finish_request`. `sent` is whether
-- `udp_send_one` succeeds: `generic_work` only logs a failure, and has finished the task in either case.
unfoldable pub complete : System → ℕ → Outcome → Bool → System
complete s i o sent =
    let w = run_request (s.server.dispatcher_requests i) (s.workers i) o in
    record {
      server = finish_request s.server i w;
      workers = update s.workers i w;
      busy = update s.busy i false;
      last_reply =
          if w.finished then update s.last_reply i (reply_type s.server i) else s.last_reply;
      reply_queued = if w.finished then update s.reply_queued i sent else s.reply_queued;
    }

-- What the networker hands over: at most one slot for each of the packets of a batch, each with a
-- request, for one of the `n` workers.
pub record Batch (n : ℕ) (np : NetworkerPointers) : Type 0 where
  pub few : np.cnt ≤ 6
  pub known : (i : ℕ) → i < np.cnt → np.types i < n
  pub filled : (i : ℕ) → i < np.cnt → np.reqs i ≢ none

pub data Step (n : ℕ) (s : System) : System → Type 0 where
  serve :
      (i now : ℕ) (t : Server)
      → i < n
      → handle_worker s.server i now ≡ some t
      → Step n s (record s { server = t })
  accept :
      (now : ℕ) (t : Server)
      → handle_networker now s.server ≡ some t
      → Step n s (record s { server = t })
  receive :
      (np : NetworkerPointers) (requests : ℕ → Request)
      → s.server.networker_pointers.cnt ≡ 0
      → Batch n np
      → Step n s
          (record s { server = record (s.server) { networker_pointers = np; requests = requests } })
  take :
      (i : ℕ)
      → i < n
      → s.busy i ≡ false
      → (s.server.dispatcher_requests i).flag ≡ active
      → Step n s (record s { server = take_request s.server i; busy = update s.busy i true })
  -- A packet that `eth_input` has accepted has data for `parse_packet`.
  finish :
      (i : ℕ) (o : Outcome) (sent : Bool)
      → i < n
      → s.busy i ≡ true
      → o ≢ no_data
      → Step n s (complete s i o sent)

pub data Reach (n : ℕ) (s : System) : System → Type 0 where
  here : Reach n s s
  next : {t u : System} → Reach n s t → Step n t u → Reach n s u
