-- ===== src/Tests/Loop.antt =====
-- The theorem on the networker's round at a concrete input.
use horus_app_eval.Prelude.{◌+◌, []}
use horus_app_eval.Message.{Message}
use horus_app_eval.Networker.Loop.{NetworkerCore}
use horus_app_eval.Tests.Samples.{small_pool, half_request, one_request, idle_selected}

abbrev whole_request : Message
whole_request = record half_request { pkts_length = 165 }

-- The dispatcher has given the request 5 back.
abbrev core : NetworkerCore
core = record {
  net = record {
    config = record { num_ports = 4; ports = λ i. i + 1; networker_cpu = 1 };
    rqueue = [];
    rq_pool = small_pool;
    request_pool = small_pool;
    requests = idle_selected;
  };
  mbuf_pool = small_pool;
  pointers = record one_request { cnt = 0; free_cnt = 1 };
  acks = [];
}
