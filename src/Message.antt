-- ===== src/Message.antt =====
-- The Horus packet header and the constants of inc/ix/dispatch.h, inc/ix/cfg.h and inc/ix/ethqueue.h.
-- `HORUS` marks in these files are the changes for in-network scheduling.
use horus_app_eval.Prelude.{ℕ, ◌+◌, ◌*◌, ◌/◌, ◌^◌}

-- PKT_TYPE_*
abbrev pub pkt_type_task_done : ℕ
pkt_type_task_done = 2

abbrev pub pkt_type_task_done_idle : ℕ
pkt_type_task_done_idle = 3

abbrev pub pkt_type_keep_alive : ℕ
pkt_type_keep_alive = 11

abbrev pub pkt_type_worker_id : ℕ
pkt_type_worker_id = 12

abbrev pub pkt_type_worker_id_ack : ℕ
pkt_type_worker_id_ack = 13

-- WORKER_STATE_IDLE
abbrev pub worker_state_idle : ℕ
worker_state_idle = 1

-- ROCKSDB_CLIENT, SEARCH_CLIENT, CONTROLLER_PORT
abbrev pub rocksdb_client : ℕ
rocksdb_client = 110

abbrev pub search_client : ℕ
search_client = 200

abbrev pub controller_port : ℕ
controller_port = 1234

-- CFG_MAX_PORTS, ETH_RX_MAX_BATCH
abbrev pub cfg_max_ports : ℕ
cfg_max_ports = 16

abbrev pub eth_rx_max_batch : ℕ
eth_rx_max_batch = 6

-- SWAP_UINT16 of an `uint16_t`, before the result is cut to 16 bits. The operands of `|` have no bit
-- in common, so it is a sum.
abbrev pub swap_uint16 : ℕ → ℕ
swap_uint16 x = x / 2 ^ 8 + x * 2 ^ 8

-- struct message, packed. `app_data` has 16 words.
pub record Message : Type 0 where
  pub pkt_type : ℕ
  pub cluster_id : ℕ
  pub src_id : ℕ
  pub dst_id : ℕ
  pub qlen : ℕ
  pub seq_num : ℕ
  pub client_id : ℕ
  pub req_id : ℕ
  pub pkts_length : ℕ
  pub run_ns : ℕ
  pub gen_ns : ℕ
  pub app_data : ℕ → ℕ

-- sizeof(struct message)
abbrev pub message_size : ℕ
message_size = 165
