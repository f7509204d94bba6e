-- ===== src/Networker/Loop.antt =====
-- A round of `do_networking` of dp/core/networker.c (shinjuku-rocksdb), from the end of the wait for the
-- dispatcher on: the returned requests are released and the next batch is handed over.
pub mod Release
pub mod Handover
use horus_app_eval.Prelude.{
  ℕ, zero, suc, ◌+◌, Option, none, some, List, [], ◌∷◌, ◌++◌, if◌then◌else◌, ltb, u8, update, ◌>>=◌,
}
use horus_app_eval.Mempool.{Mempool, free}
use horus_app_eval.Message.{Message, pkt_type_worker_id_ack}
use horus_app_eval.Server.{Request, NetworkerPointers}
use horus_app_eval.Networker.{Config, Networker, Parsed, rq_update}

-- The state of the networker's core. `acks` are the messages that it has given to `udp_send_one`.
pub record NetworkerCore : Type 0 where
  pub net : Networker
  pub mbuf_pool : Mempool
  pub pointers : NetworkerPointers
  pub acks : List Message

-- `mbuf_free`, which writes to the mbuf
unfoldable pub mbuf_free : Option ℕ → Mempool → Option Mempool
mbuf_free none pool = none
mbuf_free (some m) pool = some (free pool m)

-- the inner loop over `req->mbufs`, with `n` to go; a read behind their end is a fault
unfoldable pub free_mbufs : ℕ → ℕ → Request → Mempool → Option Mempool
free_mbufs zero j r pool = some pool
free_mbufs (suc n) j r pool =
    (if ltb j 8 then mbuf_free (r.mbufs j) pool else none) >>= free_mbufs n (j + 1) r

-- one returned request
unfoldable pub release_slot : ℕ → NetworkerCore → Option NetworkerCore
release_slot i c = do
  r ← c.pointers.reqs i
  pool ← free_mbufs (c.net.requests r).pkts_length 0 (c.net.requests r) c.mbuf_pool
  some (record c {
    mbuf_pool = pool;
    net = record (c.net) { request_pool = free c.net.request_pool r };
  })

-- the loop over the `free_cnt` returned requests, with `n` to go
unfoldable pub release : ℕ → ℕ → NetworkerCore → Option NetworkerCore
release zero i c = some c
release (suc n) i c = release_slot i c >>= release n (i + 1)

-- `resp.app_data[i] = CFG.ports[i]`, with `n` ports to go
unfoldable pub copy_ports : ℕ → ℕ → (ℕ → ℕ) → (ℕ → ℕ) → ℕ → ℕ
copy_ports zero i ports words = words
copy_ports (suc n) i ports words = copy_ports n (i + 1) ports (update words i (ports i))

-- The message of `send_worker_id_ack`. Its other fields are those of the memory `stack`.
unfoldable pub worker_id_ack : Message → Config → Message
unfolding copy_ports
worker_id_ack stack cfg = record stack {
  pkt_type = pkt_type_worker_id_ack;
  app_data = copy_ports cfg.num_ports 0 cfg.ports stack.app_data;
}

-- what the loop does with the result of `rq_update`: `j` slots are filled
unfoldable pub put_slot : Message → ℕ → NetworkerCore → Parsed → Option ℕ → ℕ × NetworkerCore
put_slot stack j c p (some r) = (
  j + 1,
  record c {
    pointers = record (c.pointers) {
      reqs = update c.pointers.reqs j (some r);
      types = update c.pointers.types j p.core_id;
    };
  },
)
put_slot stack j c p none =
    if p.place_to_queue
    then (j, c)
    else (j, record c { acks = c.acks ++ (worker_id_ack stack c.net.config ∷ []) })

-- the loop over `recv_mbufs`, each with the message that it holds
unfoldable pub hand_over : Message → List (ℕ × Message) → ℕ → NetworkerCore → Option NetworkerCore
unfolding put_slot
hand_over stack [] j c = some (record c { pointers = record (c.pointers) { cnt = u8 j } })
hand_over stack ((pkt, m) ∷ pkts) j c = rq_update pkt m c.net >>= λ x.
    let y = put_slot stack j (record c { net = x.1 }) x.0 x.0.req in hand_over stack pkts y.0 y.1

-- A round with the received packets. Without any the loop starts again.
unfoldable pub networker_round : Message → List (ℕ × Message) → NetworkerCore → Option NetworkerCore
unfolding release
networker_round stack [] c = some c
networker_round stack (p ∷ pkts) c = release c.pointers.free_cnt 0 c >>= λ c'.
    hand_over stack (p ∷ pkts) 0 (record c' { pointers = record (c'.pointers) { free_cnt = 0 } })
