-- ===== src/Tests/Samples.antt =====
-- Concrete data for the tests: small pools, a fresh server with one worker, and its states after the
-- first request has come in, is queued, is dispatched, is being worked on, and is answered.
use horus_app_eval.Prelude.{ℕ, true, false, Option, none, some, List, [], ◌∷◌, update}
use horus_app_eval.Prelude.Int.{pos}
use horus_app_eval.Mempool.{Mempool, Chunk}
use horus_app_eval.Message.{Message}
use horus_app_eval.Server.{
  Server, Request, WorkerResponse, DispatcherRequest, NetworkerPointers, processed, waiting,
  no_content,
}
use horus_app_eval.Worker.{Outcome, take_request}
use horus_app_eval.Dispatcher.{handle_worker, handle_networker}
use horus_app_eval.System.{System, complete}

-- a pool of chunks of two elements, with nothing cached
abbrev pub pool_of : List Chunk → Mempool
pool_of cs = record {
  head = [];
  num_free = pos 0;
  private_chunk = none;
  chunk_size = 2;
  store = record { chunks = cs; free_chunks = pos 2; num_locks = pos 0 };
}

abbrev pub two_chunks : List Chunk
two_chunks = record { first = 10; rest = 11 ∷ [] } ∷ record { first = 20; rest = 21 ∷ [] } ∷ []

abbrev pub small_pool : Mempool
small_pool = pool_of two_chunks

abbrev pub idle_response : WorkerResponse
idle_response = record {
  flag = processed;
  rnbl = 0;
  req = none;
  timestamp = 0;
  type = 0;
  category = no_content;
}

abbrev pub no_request : DispatcherRequest
no_request = record {
  flag = waiting;
  rnbl = 0;
  req = none;
  type = 0;
  category = no_content;
  timestamp = 0;
}

abbrev pub empty_batch : NetworkerPointers
empty_batch = record { cnt = 0; free_cnt = 0; types = λ _. 0; reqs = λ _. none }

-- one request, number 5, chosen by idle selection, for the worker 0
abbrev pub one_request : NetworkerPointers
one_request = record { cnt = 1; free_cnt = 0; types = λ _. 0; reqs = λ _. some 5 }

abbrev pub idle_selected : ℕ → Request
idle_selected _ = record { pkts_length = 1; type = 1; mbufs = λ _. some 77 }

abbrev pub fresh_server : Server
fresh_server = record {
  queue_length = λ _. 0;
  worker_state = λ _. 0;
  tskq = λ _. [];
  task_pool = small_pool;
  frqueue = [];
  fini_pool = small_pool;
  contexts = record { contexts = small_pool; stacks = small_pool; stack_of = λ _. 0 };
  requests = λ _. record { pkts_length = 0; type = 0; mbufs = λ _. none };
  responses = λ _. idle_response;
  dispatcher_requests = λ _. no_request;
  networker_pointers = empty_batch;
  timestamps = λ _. 0;
  preempt_check = λ _. false;
  queue_settings = λ _. true;
}

abbrev pub fresh : System
fresh = record {
  server = fresh_server;
  workers = λ _. record { cont = 0; finished = false };
  busy = λ _. false;
  last_reply = λ _. 0;
  reply_queued = λ _. false;
}

abbrev pub or_else : Option Server → Server → Server
or_else none s = s
or_else (some t) s = t

abbrev pub received : System
received = record fresh {
  server = record fresh_server { networker_pointers = one_request; requests = idle_selected };
}

abbrev pub queued : System
queued = record received { server = or_else (handle_networker 3 received.server) received.server }

abbrev pub dispatched : System
dispatched = record queued { server = or_else (handle_worker queued.server 0 4) queued.server }

abbrev pub working : System
working = record dispatched {
  server = take_request dispatched.server 0;
  busy = update dispatched.busy 0 true;
}

abbrev pub answered : System
answered = complete working 0 Outcome.replied true

abbrev pub stopped : System
stopped = complete working 0 Outcome.interrupted true

-- a packet of a request of two packets, for the worker ID 3 (2 at the leaf)
abbrev pub half_request : Message
half_request = record {
  pkt_type = 0;
  cluster_id = 0;
  src_id = 0;
  dst_id = 512;
  qlen = 0;
  seq_num = 0;
  client_id = 110;
  req_id = 9;
  pkts_length = 330;
  run_ns = 0;
  gen_ns = 0;
  app_data = λ _. 0;
}
