-- ===== src/Networker.antt =====
-- `rq_update` of inc/ix/dispatch.h and the loop of dp/core/networker.c (shinjuku-rocksdb): parsing,
-- the choice of a worker, and the reassembly of requests of several packets. A fault is `none`.
pub mod WorkerIds
pub mod Reassembly
pub mod Complete
pub mod Loop
use horus_app_eval.Prelude.{
  ℕ, zero, suc, ◌+◌, ◌-◌, ◌*◌, ◌/◌, Bool, true, false, ◌&&◌, Option, none, some, List, [], ◌∷◌,
  if◌then◌else◌, ltb, ◌==◌, u8, u16, pred8, update, ◌>>=◌,
}
use mathlib.Core.Option
use horus_app_eval.Mempool.{Mempool, alloc, free}
use horus_app_eval.Message.{Message, message_size, swap_uint16, pkt_type_worker_id}
use horus_app_eval.Server.{Request}

-- the fields of `CFG` that the networker uses
pub record Config : Type 0 where
  pub num_ports : ℕ
  pub ports : ℕ → ℕ
  pub networker_cpu : ℕ

-- struct request_cell, at the address `cell`; the queue is the list that its pointers make
pub record RequestCell : Type 0 where
  pub cell : ℕ
  pub pkts_remaining : ℕ
  pub client_id : ℕ
  pub req_id : ℕ
  pub req : ℕ

-- `rqueue` with the pools of its cells and of the requests, and the requests themselves
pub record Networker : Type 0 where
  pub config : Config
  pub rqueue : List RequestCell
  pub rq_pool : Mempool
  pub request_pool : Mempool
  pub requests : ℕ → Request

-- what `rq_update` returns and stores through its pointers
pub record Parsed : Type 0 where
  pub req : Option ℕ
  pub core_id : ℕ
  pub place_to_queue : Bool

-- `CFG.ports[i] = new_first_id + i`, with `n` ports to go
unfoldable pub set_ports : ℕ → ℕ → ℕ → (ℕ → ℕ) → ℕ → ℕ
set_ports zero i first ports = ports
set_ports (suc n) i first ports = set_ports n (i + 1) first (update ports i (u16 (first + i)))

-- the search for `dst_id` among the ports, with `n` to go: the last one that fits
unfoldable pub find_core : ℕ → ℕ → ℕ → (ℕ → ℕ) → ℕ → ℕ
find_core zero i dst ports core = core
find_core (suc n) i dst ports core =
    find_core n (i + 1) dst ports (if dst == ports i then u8 i else core)

-- `*core_id` after the search. The test behind it compares the pointer `core_id` with -1, which it
-- never is, so that (uint8_t) -1 stays where no port fits.
unfoldable pub core_of : Config → Message → ℕ
unfolding find_core
core_of c m = find_core c.num_ports 0 (u16 (swap_uint16 m.dst_id + 1)) c.ports (u8 255)

-- the number of packets of the request
unfoldable pub packet_count : Message → ℕ
packet_count m = let n = m.pkts_length / message_size in if n == 0 then 1 else n

-- `mbufs[8]`: a write behind its end is a fault
store_mbuf : Request → ℕ → ℕ → Option Request
store_mbuf r i pkt =
    if ltb i 8 then some (record r { mbufs = update r.mbufs i (some pkt) }) else none

-- a new request of `count` packets with its first one: none without memory
new_request : Networker → ℕ → ℕ → ℕ → ℕ → Option ℕ × Mempool → Option (ℕ × Networker)
new_request w pkt seq count type (none, pool) = none
new_request w pkt seq count type (some r, pool) =
    Option.map (λ q. (r, record w { request_pool = pool; requests = update w.requests r q }))
      (store_mbuf (record (w.requests r) { pkts_length = count; type = type }) seq pkt)

-- `rc` joins at the head, both where the queue was empty and where no cell fitted.
add_cell : ℕ → Message → Networker → Option ℕ × Mempool → ℕ → Option Networker
add_cell count m w (none, pool) r = none
add_cell count m w (some c, pool) r = some (record w {
  rq_pool = pool;
  rqueue =
      record {
        cell = c;
        pkts_remaining = u8 (count - 1);
        client_id = m.client_id;
        req_id = m.req_id;
        req = r;
      }
      ∷ w.rqueue;
})

-- the first packet of a request of several
unfoldable pub start_cell : ℕ → ℕ → Message → Networker → Option Networker
unfolding add_cell new_request store_mbuf
start_cell pkt count m w =
    new_request w pkt m.seq_num count (u16 (swap_uint16 m.qlen)) (alloc w.request_pool) >>= λ p.
    add_cell count m p.1 (alloc p.1.rq_pool) p.0

-- the test of the `while` loop
abbrev pub fits : Message → RequestCell → Bool
fits m c = c.client_id == m.client_id && c.req_id == m.req_id

-- the `while` loop: the first cell that fits
unfoldable pub find_cell : Message → List RequestCell → Option RequestCell
find_cell m [] = none
find_cell m (c ∷ cs) = if fits m c then some c else find_cell m cs

abbrev pub cons_cell : Option RequestCell → List RequestCell → List RequestCell
cons_cell none cs = cs
cons_cell (some c) cs = c ∷ cs

-- That cell with its counter changed, or unlinked. The four cases of the unlinking (first or not,
-- last or not) are one on the list.
unfoldable pub replace_cell : Message → Option RequestCell → List RequestCell → List RequestCell
replace_cell m new [] = []
replace_cell m new (c ∷ cs) = if fits m c then cons_cell new cs else c ∷ replace_cell m new cs

-- a further packet of the request of the cell `c`: the request, if the packet was the last one
unfoldable pub continue_cell : ℕ → Message → Networker → RequestCell → Option (Option ℕ × Networker)
unfolding store_mbuf
continue_cell pkt m w c = do
  q ← store_mbuf (w.requests c.req) m.seq_num pkt
  let stored : Networker = record w { requests = update w.requests c.req q }
  let left = pred8 c.pkts_remaining
  some (
      if left == 0
      then (
        some c.req,
        record stored { rqueue = replace_cell m none w.rqueue; rq_pool = free w.rq_pool c.cell },
      )
      else (
        none,
        record stored {
          rqueue = replace_cell m (some (record c { pkts_remaining = left })) w.rqueue;
        },
      ))

-- a request of several packets, from the test of `rq->head` on
multi_packet : ℕ → ℕ → Message → Networker → Option (Option ℕ × Networker)
multi_packet pkt count m w = elim (find_cell m w.rqueue) [
  | none ↦ Option.map (λ w'. (none, w')) (start_cell pkt count m w)
  | some c ↦ continue_cell pkt m w c
]

single_packet : ℕ → Message → Networker → Option (Option ℕ × Networker)
unfolding new_request store_mbuf
single_packet pkt m w =
    Option.map (λ p. (some p.0, p.1))
      (new_request w pkt 0 1 (u16 (swap_uint16 m.qlen)) (alloc w.request_pool))

abbrev task_packet : ℕ → ℕ → Message → Networker → Option (Option ℕ × Networker)
task_packet pkt count m w = if count == 1 then single_packet pkt m w else multi_packet pkt count m w

-- the control message with new worker IDs
unfoldable pub set_worker_ids : Message → Networker → Networker
unfolding set_ports
set_worker_ids m w =
    let c = w.config in
    record w {
      config = record c { ports = set_ports c.num_ports 0 (u16 (swap_uint16 m.qlen + 1)) c.ports };
    }

-- `rq_update` on the packet `pkt` with the payload `m`
unfoldable pub rq_update : ℕ → Message → Networker → Option (Parsed × Networker)
unfolding multi_packet single_packet set_worker_ids
rq_update pkt m w =
    if m.pkt_type == pkt_type_worker_id
    then some (
      record { req = none; core_id = u8 w.config.networker_cpu; place_to_queue = false },
      set_worker_ids m w,
    )
    else Option.map
        (λ p. (record { req = p.0; core_id = core_of w.config m; place_to_queue = true }, p.1))
        (task_packet pkt (packet_count m) m w)
