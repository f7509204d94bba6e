-- ===== src/Client/Requests.antt =====
-- The requests that the client makes, and how the server takes them.
use horus_app_eval.Prelude.{
  ℕ, zero, suc, ◌+◌, ◌%◌, ◌^◌, ◌<◌, ◌≡◌, refl, arith, none, some, u16, update,
}
use horus_app_eval.Message.{Message, swap_uint16, message_size, rocksdb_client}
use horus_app_eval.Networker.{packet_count}
use horus_app_eval.Client.{rocksdb, search_app, generate_packet, copy_app_data, next_req_id}

-- A RocksDB request of one message is one packet to the server, its client ID reads back as that of the
-- RocksDB application, and its request ID is the core's counter alone: the client ID, moved by 25 bits,
-- leaves the 32-bit word. The counter is below 2^25.
generate_packet-rocksdb :
    (ids : ℕ → ℕ) (core gen_ns run_ns : ℕ) (words : ℕ → ℕ) (m : Message)
    → ids core < 2 ^ 25
    → (r : Message) × (generate_packet ids core message_size gen_ns run_ns rocksdb words m ≡ some r)
      × (packet_count r ≡ 1)
      × (u16 (swap_uint16 r.client_id) ≡ rocksdb_client)
      × (r.req_id ≡ ids core)
      × (r.gen_ns ≡ gen_ns)
      × (r.run_ns ≡ run_ns)
unfolding generate_packet packet_count
generate_packet-rocksdb ids core gen_ns run_ns words m lt =
    (_, refl, ground arith, ground arith, omega arith, refl, refl)

-- Two cores whose counters agree send RocksDB requests of the same client ID and request ID.
generate_packet-collide :
    (ids : ℕ → ℕ) (core core' gen_ns gen_ns' run_ns run_ns' : ℕ) (words words' : ℕ → ℕ)
    (m m' r r' : Message)
    → ids core ≡ ids core'
    → generate_packet ids core message_size gen_ns run_ns rocksdb words m ≡ some r
    → generate_packet ids core' message_size gen_ns' run_ns' rocksdb words' m' ≡ some r'
    → (r.req_id ≡ r'.req_id) × (r.client_id ≡ r'.client_id)
unfolding generate_packet
generate_packet-collide ids core core' gen_ns gen_ns' run_ns run_ns' words words' m m' r r' same h
      h' =
    ground arith

copy_app_data-past :
    (n i : ℕ) (words : ℕ → ℕ) (m : Message) → 16 < n + i → 0 < n → copy_app_data n i words m ≡ none
unfolding copy_app_data
copy_app_data-past zero i words m long more = absurd (omega arith)
copy_app_data-past (suc zero) i words m long more = ground arith
copy_app_data-past (suc (suc n)) i words m long more = ground (
  arith,
  copy_app_data-past (suc n) (i + 1) words (record m { app_data = update m.app_data i (words i) })
      (omega arith) (omega arith),
)

-- A search request whose time of generation is above 16 ns, which any is, is written past the end of the
-- packet's data: the copy of the words takes that time for their number.
pub generate_packet-search_overrun :
    (ids : ℕ → ℕ) (core pkts_length gen_ns run_ns : ℕ) (words : ℕ → ℕ) (m : Message)
    → 16 < gen_ns
    → generate_packet ids core pkts_length gen_ns run_ns search_app words m ≡ none
unfolding generate_packet
generate_packet-search_overrun ids core pkts_length gen_ns run_ns words m late =
    copy_app_data-past gen_ns 0 words _ (omega arith) (omega arith)

-- the request ID of a core after `n` rounds of its loop
after_rounds : ℕ → ℕ → ℕ
after_rounds zero id = id
after_rounds (suc n) id = after_rounds n (next_req_id id)

next_req_id-mod : (id : ℕ) → id < 2 ^ 25 → next_req_id id ≡ (id + 1) % 2 ^ 25
unfolding next_req_id
next_req_id-mod id lt = ground arith

-- From an ID below 2^25 on, a core counts its request IDs modulo 2^25.
after_rounds-mod : (n id : ℕ) → id < 2 ^ 25 → after_rounds n id ≡ (id + n) % 2 ^ 25
unfolding after_rounds
after_rounds-mod zero id lt = omega arith
after_rounds-mod (suc n) id lt =
    let step = next_req_id-mod id lt in
    omega (arith, step, after_rounds-mod n (next_req_id id) (omega (arith, step)))
