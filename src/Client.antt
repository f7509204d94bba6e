-- ===== src/Client.antt =====
-- client_code/client/dpdk_client.c and util.h: the request generator of the experiments, and what it
-- records of the responses. Packets are DPDK's; the model has the Horus message in them. An array write
-- past the end is a fault, `none`.
pub mod Requests
pub mod Results
use horus_app_eval.Prelude.{
  ℕ, zero, suc, ◌+◌, ◌-◌, ◌*◌, ◌/◌, ◌%◌, ◌^◌, Bool, true, false, ◌&&◌, Option, none, some, List, [],
  ◌∷◌, ◌++◌, if◌then◌else◌, ltb, leb, ◌==◌, u8, u16, u32, u64, update, ◌>>=◌,
}
use horus_app_eval.Message.{Message, swap_uint16}

-- AppType_t
pub data AppType : Type 0 where
  benchmark rocksdb tpcc search_app : AppType

-- PKT_TYPE_NEW_TASK, SPINE_SCHEDULER_ID, CLIENT_ID_ROCKSDB, CLIENT_ID_TPCC, MAX_RESULT_SIZE, MAX_BURST_SIZE
abbrev pub pkt_type_new_task : ℕ
pkt_type_new_task = 0

abbrev pub spine_scheduler_id : ℕ
spine_scheduler_id = 100

abbrev pub client_id_rocksdb : ℕ
client_id_rocksdb = 110

abbrev pub client_id_tpcc : ℕ
client_id_tpcc = 150

abbrev pub max_result_size : ℕ
max_result_size = 2 ^ 24

-- The arrays of `custom_init` have this many entries each, but for two: `work_ratios_long` is allocated
-- with the size of an uint16_t, and an element of `queue_lengths` has 16 bytes, of which 8 are allocated.
abbrev pub work_ratios_long_size : ℕ
work_ratios_long_size = 2 ^ 22

abbrev pub queue_lengths_size : ℕ
queue_lengths_size = 2 ^ 23

abbrev pub max_req_id : ℕ
max_req_id = 2 ^ 25 - 1

-- `req->client_id`, which is left as it was for the other applications
unfoldable pub set_client_id : AppType → Message → Message
set_client_id rocksdb m = record m { client_id = u16 (client_id_rocksdb * 2 ^ 8) }
set_client_id tpcc m = record m { client_id = u16 (client_id_tpcc * 2 ^ 8) }
set_client_id benchmark m = m
set_client_id search_app m = m

-- the loop that copies `app_data`, at the word `i` with `n` words to go
unfoldable pub copy_app_data : ℕ → ℕ → (ℕ → ℕ) → Message → Option Message
copy_app_data zero i app_data m = some m
copy_app_data (suc n) i app_data m =
    let rest =
      copy_app_data n (i + 1) app_data (record m { app_data = update m.app_data i (app_data i) }) in
    if ltb i 16 then rest else none

-- the message of `generate_packet`; `m` is what stood in the mbuf. The bound of the copy is `gen_ns`.
unfoldable pub generate_packet :
    (ℕ → ℕ) → ℕ → ℕ → ℕ → ℕ → AppType → (ℕ → ℕ) → Message → Option Message
unfolding set_client_id copy_app_data
generate_packet req_id_core lcore_id pkts_length gen_ns run_ns app_type app_data m =
    let c = set_client_id app_type m in
    let id = u32 (c.client_id * 2 ^ 25 + req_id_core lcore_id) in
    let r : Message = record c {
      pkt_type = pkt_type_new_task;
      cluster_id = 0;
      src_id = 0;
      dst_id = u16 (spine_scheduler_id * 2 ^ 8);
      qlen = 0;
      req_id = id;
      seq_num = u16 (swap_uint16 (u16 id));
      pkts_length = pkts_length;
      gen_ns = gen_ns;
      run_ns = run_ns;
    } in
    elim app_type [ search_app ↦ copy_app_data gen_ns 0 app_data r | _ ↦ some r ]

-- The end of a round of a sending loop: the request ID of the core, and that of the client.
unfoldable pub next_req_id : ℕ → ℕ
next_req_id id = if leb max_req_id id then 0 else id + 1

-- struct mbuf_table
pub record MbufTable : Type 0 where
  pub len : ℕ
  pub m_table : ℕ → ℕ

-- `send_pkt_burst`, where the driver took `ret` packets: those that it freed, from `ret` on
unfoldable pub unsent : ℕ → ℕ → MbufTable → List ℕ
unsent zero ret t = []
unsent (suc n) ret t = t.m_table ret ∷ unsent n (ret + 1) t

unfoldable pub send_pkt_burst : MbufTable → ℕ → List ℕ × MbufTable
unfolding unsent
send_pkt_burst t ret = (unsent (t.len - ret) ret t, record t { len = 0 })

-- `enqueue_pkt`, with the driver's answer if a burst is sent
unfoldable pub enqueue_pkt : MbufTable → ℕ → ℕ → List ℕ × MbufTable
unfolding send_pkt_burst
enqueue_pkt t mbuf ret =
    let t' : MbufTable = record { len = u32 (t.len + 1); m_table = update t.m_table t.len mbuf } in
    if ltb 1 t'.len then send_pkt_burst t' ret else ([], t')

-- LatencyResults
pub record LatencyResults : Type 0 where
  pub sjrn_times : ℕ → ℕ
  pub gen_us : ℕ → ℕ
  pub sjrn_times_short : ℕ → ℕ
  pub sjrn_times_long : ℕ → ℕ
  pub work_ratios : ℕ → ℕ
  pub work_ratios_short : ℕ → ℕ
  pub work_ratios_long : ℕ → ℕ
  pub queue_lengths : ℕ → ℕ
  pub reply_run_ns : ℕ → ℕ
  pub count : ℕ
  pub count_short : ℕ
  pub count_long : ℕ

-- `res->run_ns` as `process_packet` rewrites it
unfoldable pub assumed_run_ns : Bool → ℕ → ℕ
assumed_run_ns is_rocksdb run_ns =
    if is_rocksdb
    then (if run_ns == 0 then 650000 else 40000)
    else (if run_ns == 0 then 1 else run_ns)

-- The counts and arrays for long and for short requests. Of the two arrays for long ones the shorter
-- bounds the writes.
unfoldable pub record_kind : ℕ → ℕ → ℕ → LatencyResults → Option LatencyResults
record_kind reply_run_ns sjrn ratio r =
    if reply_run_ns == 0
    then (if ltb r.count_long work_ratios_long_size
        then some (record r {
          sjrn_times_long = update r.sjrn_times_long r.count_long sjrn;
          work_ratios_long = update r.work_ratios_long r.count_long ratio;
          count_long = r.count_long + 1;
        })
        else none)
    else (if ltb r.count_short max_result_size
        then some (record r {
          sjrn_times_short = update r.sjrn_times_short r.count_short sjrn;
          work_ratios_short = update r.work_ratios_short r.count_short ratio;
          count_short = r.count_short + 1;
        })
        else none)

-- What `process_packet` returns: the results, and whether the client then ends. The assertion that the
-- response is later than the request, and a write past the end of the results, are faults. Of the arrays
-- that `count` indexes `queue_lengths` is the shortest.
unfoldable pub process_packet : Bool → ℕ → Message → LatencyResults → Option (LatencyResults × Bool)
process_packet is_rocksdb cur_ns res r =
    let sjrn = cur_ns - res.gen_ns in
    let ratio = sjrn / assumed_run_ns is_rocksdb res.run_ns in
    if ltb res.gen_ns cur_ns && ltb r.count queue_lengths_size
    then (record_kind res.run_ns sjrn ratio (record r {
      sjrn_times = update r.sjrn_times r.count sjrn;
      gen_us = update r.gen_us r.count (res.gen_ns / 1000);
      reply_run_ns = update r.reply_run_ns r.count res.run_ns;
      work_ratios = update r.work_ratios r.count ratio;
      queue_lengths = update r.queue_lengths r.count (res.qlen / 2 ^ 8);
      count = r.count + 1;
    })
        >>= λ r'. some (r', leb max_result_size r'.count))
    else none
