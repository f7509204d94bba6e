-- ===== src/Worker.antt =====
-- dp/core/worker.c of shinjuku-rocksdb: one worker core. The application's work (RocksDB, the search of
-- `Search`) runs between `handle_request` and the reply, and may be preempted.
pub mod Reply
use horus_app_eval.Prelude.{
  ℕ, ◌+◌, ◌*◌, ◌-◌, ◌^◌, ◌%◌, Bool, true, false, ◌&&◌, Option, none, some, if◌then◌else◌, leb, ltb,
  ◌==◌, u16, pred32, update,
}
use horus_app_eval.Message.{Message, swap_uint16, pkt_type_task_done, pkt_type_task_done_idle}
use horus_app_eval.Server.{
  Server, WorkerResponse, DispatcherRequest, Category, waiting, active, finished, preempted,
  processed, packet, context, no_content,
}

-- A received frame: the length of its mbuf, the IP header's length in words, the UDP length, the
-- addresses and ports (as the numbers that the big-endian fields stand for), and the payload.
pub record Frame : Type 0 where
  pub len : ℕ
  pub header_len : ℕ
  pub udp_len : ℕ
  pub src_addr : ℕ
  pub dst_addr : ℕ
  pub src_port : ℕ
  pub dst_port : ℕ
  pub message : Message

-- struct ip_tuple
pub record IpTuple : Type 0 where
  pub src_ip : ℕ
  pub dst_ip : ℕ
  pub src_port : ℕ
  pub dst_port : ℕ

-- sizeof(struct eth_hdr)
abbrev eth_hdr_size : ℕ
eth_hdr_size = 14

-- `mbuf_enough_space(pkt, udphdr, len)`
enough_space : Frame → Bool
enough_space f = leb (eth_hdr_size + f.header_len * 4 + f.udp_len) f.len

-- `parse_packet`: the payload and the addresses, or none for a NULL data pointer
unfoldable pub parse_packet : Frame → Option (Message × IpTuple)
unfolding enough_space
parse_packet f =
    if enough_space f
    then some (
      f.message,
      record {
        src_ip = f.src_addr;
        dst_ip = f.dst_addr;
        src_port = f.src_port;
        dst_port = f.dst_port;
      },
    )
    else none

-- the thread-local variables `cont` and `finished`
pub record Worker : Type 0 where
  pub cont : ℕ
  pub finished : Bool

-- How the code that a worker switches to comes back: the frame has no data, or the work was
-- interrupted, or it ran to its end and came to its reply, whether or not that could be sent.
pub data Outcome : Type 0 where
  no_data interrupted replied : Outcome

-- `init_worker`: what it sets in the shared arrays
unfoldable pub init_worker : Server → ℕ → Server
init_worker s i = record s {
  responses = update s.responses i (record (s.responses i) { flag = processed });
  worker_state = update s.worker_state i 0;
}

-- the start of `handle_request`, once the flag is ACTIVE
unfoldable pub take_request : Server → ℕ → Server
take_request s i = record s {
  dispatcher_requests =
      update s.dispatcher_requests i (record (s.dispatcher_requests i) { flag = waiting });
}

-- `handle_new_packet` leaves `cont` as it was if there is no data.
handle_new_packet : ℕ → Worker → Outcome → Worker
handle_new_packet rnbl w no_data = record w { finished = true }
handle_new_packet rnbl w interrupted = record { cont = rnbl; finished = false }
handle_new_packet rnbl w replied = record { cont = rnbl; finished = true }

-- `handle_context`: the work goes on where it was interrupted; its packet had data.
handle_context : ℕ → Worker → Outcome → Worker
handle_context rnbl w replied = record { cont = rnbl; finished = true }
handle_context rnbl w _ = record { cont = rnbl; finished = false }

-- the rest of `handle_request`
unfoldable pub run_request : DispatcherRequest → Worker → Outcome → Worker
unfolding handle_new_packet handle_context
run_request r w o = elim r.category [
  | packet ↦ handle_new_packet r.rnbl w o
  | _ ↦ handle_context r.rnbl w o
]

-- `finish_request`
unfoldable pub finish_request : Server → ℕ → Worker → Server
finish_request s i w =
    let r = s.dispatcher_requests i in
    record s {
      responses = update s.responses i (record {
        flag = if w.finished then finished else preempted;
        rnbl = w.cont;
        req = r.req;
        timestamp = r.timestamp;
        type = r.type;
        category = context;
      });
    }

-- `new_qlen` of `generic_work`: the queue's length without the task at hand, as an `uint16_t`
unfoldable pub new_qlen : Server → ℕ → ℕ
new_qlen s cpu = u16 (pred32 (s.queue_length cpu))

unfoldable pub reply_type : Server → ℕ → ℕ
unfolding new_qlen
reply_type s cpu =
    if new_qlen s cpu == 0 && ltb 0 (s.worker_state cpu)
    then pkt_type_task_done_idle
    else pkt_type_task_done

-- The reply of `generic_work` without the search result. `stack` is what stood in the memory of
-- `resp`: `seq_num`, `pkts_length` and `app_data` are never set.
unfoldable pub reply : Server → ℕ → Message → Message → Message
unfolding reply_type
reply s cpu req stack = record stack {
  pkt_type = reply_type s cpu;
  cluster_id = req.cluster_id;
  src_id = req.dst_id;
  dst_id = req.client_id;
  qlen = u16 (swap_uint16 (new_qlen s cpu));
  client_id = req.client_id;
  req_id = req.req_id;
  run_ns = req.run_ns;
  gen_ns = req.gen_ns;
}

-- the addresses of the reply: back to where the request came from
unfoldable pub reply_tuple : IpTuple → IpTuple
reply_tuple id = record {
  src_ip = id.dst_ip;
  dst_ip = id.src_ip;
  src_port = id.dst_port;
  dst_port = id.src_port;
}
