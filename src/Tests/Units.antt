-- ===== src/Tests/Units.antt =====
-- The theorems on the allocator, the contexts, the networker and a worker at concrete inputs.
use horus_app_eval.Prelude.{
  ℕ, ◌+◌, ◌<◌, ◌≤◌, ◌≡◌, ◌≢◌, ◌⊎◌, refl, false, none, some, [], ◌∷◌, arith, update,
}
use horus_app_eval.Prelude.Int.{pos}
use horus_app_eval.Mempool.{Mempool, Datastore, alloc, free}
use horus_app_eval.Mempool.Count.{available, cells, Allocated, alloc-free-cells}
use horus_app_eval.Mempool.Bounds.{IsSized, alloc-free-IsSized}
use horus_app_eval.Context.{context_alloc}
use horus_app_eval.Context.Count.{ContextTaken, context_alloc-taken}
use horus_app_eval.Message.{Message, cfg_max_ports}
use horus_app_eval.Networker.{
  Config, Networker, rq_update, set_worker_ids, set_ports, core_of, packet_count, find_cell,
}
use horus_app_eval.Networker.WorkerIds.{wanted, core_of-cases, worker_id-core}
use horus_app_eval.Networker.Reassembly.{IsPart, feed, packet_at}
use horus_app_eval.Networker.Complete.{Stands, Absent, request_completes, wide_seq-faults}
use horus_app_eval.Tests.Samples.{small_pool, fresh_server, half_request}

alloc-free-cells_example :
    Allocated small_pool (alloc small_pool) × (cells (free small_pool 9) ≡ 9 ∷ cells small_pool)
alloc-free-cells_example = alloc-free-cells small_pool 9

-- a pool with a full free list
abbrev full_pool : Mempool
full_pool = record small_pool { head = 1 ∷ 2 ∷ []; num_free = pos 2 }

full_pool-IsSized : IsSized full_pool
full_pool-IsSized = record {
  nonzero = omega arith;
  capped = omega arith;
  counted = omega arith;
  spare = tt;
}

alloc-free-IsSized_example : IsSized (alloc full_pool).1 × IsSized (free full_pool 3)
alloc-free-IsSized_example = alloc-free-IsSized 3 full_pool-IsSized

-- one page of four elements of half a megabyte, in two chunks
abbrev two_pairs : Datastore
two_pairs = record {
  chunks =
      record { first = 1048576; rest = 1572864 ∷ [] }
      ∷ record { first = 0; rest = 524288 ∷ [] }
      ∷ [];
  free_chunks = pos 2;
  num_locks = pos 0;
}

context_alloc-taken_example :
    ContextTaken fresh_server.contexts (context_alloc fresh_server.contexts)
context_alloc-taken_example = context_alloc-taken fresh_server.contexts

abbrev two_ports : Config
two_ports = record { num_ports = 2; ports = λ i. i + 2; networker_cpu = 1 }

abbrev networker : Networker
networker = record {
  config = two_ports;
  rqueue = [];
  rq_pool = small_pool;
  request_pool = small_pool;
  requests = λ _. record { pkts_length = 0; type = 0; mbufs = λ _. none };
}

core_of-cases_example :
    ((core_of two_ports half_request < 2)
      × (core_of two_ports half_request + 2 ≡ wanted half_request))
    ⊎ (((k : ℕ) → k < 2 → k + 2 ≢ wanted half_request)
        × (core_of two_ports half_request ≡ 255)
        × (cfg_max_ports ≤ core_of two_ports half_request))
core_of-cases_example = core_of-cases two_ports half_request (omega arith)

-- new worker IDs from 7 on (the leaf's 7, the server's 8), and a task for the leaf's worker 8
abbrev new_ids : Message
new_ids = record half_request { pkt_type = 12; qlen = 1792 }

abbrev for_eight : Message
for_eight = record half_request { dst_id = 2048 }

abbrev renumbered : Networker
renumbered = record networker {
  config = record two_ports { ports = update (update two_ports.ports 0 8) 1 9 };
}

worker_id-core_example : (core_of renumbered.config for_eight ≡ 1) × (false ≡ false)
unfolding rq_update set_worker_ids set_ports
worker_id-core_example =
    worker_id-core networker renumbered (record { req = none; core_id = 1; place_to_queue = false })
      55 new_ids for_eight 1 refl refl (omega arith) (omega arith) (omega arith) refl

half_request-IsPart : IsPart half_request
unfolding packet_count
half_request-IsPart = record { a_task = omega arith; several = omega arith }

request_completes_example :
    (r : ℕ) × (w' : Networker) × (feed half_request none ((100, 1) ∷ (101, 0) ∷ []) networker
      ≡ some (some r, w'))
    × Stands ((100, 1) ∷ (101, 0) ∷ []) (w'.requests r).mbufs
    × ((seq : ℕ)
        → Absent seq ((100, 1) ∷ (101, 0) ∷ [])
        → (w'.requests r).mbufs seq ≡ (networker.requests r).mbufs seq)
    × ((w'.requests r).pkts_length ≡ packet_count half_request)
    × (w'.rqueue ≡ networker.rqueue)
unfolding packet_count available cells find_cell
request_completes_example =
    request_completes half_request (100, 1) (101, 0) [] networker half_request-IsPart refl
      (omega arith) refl (omega arith) (omega arith) (omega arith)

wide_seq-faults_example : rq_update 100 (packet_at half_request 8) networker ≡ none
wide_seq-faults_example =
    wide_seq-faults half_request networker 100 8 half_request-IsPart (omega arith)
