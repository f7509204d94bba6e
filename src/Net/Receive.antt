-- ===== src/Net/Receive.antt =====
-- The receive queues of inc/ix/ethqueue.h (shinjuku-rocksdb). A queue is the list that its `next` pointers
-- make; its `len` is the length. A write past the end of `recv_mbufs` is a fault.
pub mod Batch
use horus_app_eval.Prelude.{
  ℕ, zero, suc, ◌+◌, Bool, true, false, ◌&&◌, ◌||◌, not, Option, none, some, List, [], ◌∷◌, ◌++◌,
  length, if◌then◌else◌, ltb, leb, update, ◌>>=◌,
}
use horus_app_eval.Mempool.{Mempool}
use horus_app_eval.Message.{eth_rx_max_batch}
use horus_app_eval.Net.{Packet, Status, success, failed, ebusy}
use horus_app_eval.Net.Input.{Verdict, accepted, dropped, exits, eth_input}

-- ETH_RX_MAX_DEPTH
abbrev pub eth_rx_max_depth : ℕ
eth_rx_max_depth = 32768

-- `eth_rxqs` and `recv_mbufs`, with the mbufs, and whether a frame has ended the process
pub record Rx : Type 0 where
  pub queues : ℕ → List ℕ
  pub packets : ℕ → Packet
  pub mbuf_pool : Mempool
  pub recv_mbufs : List ℕ
  pub exited : Bool

-- `eth_recv`, which the driver calls
unfoldable pub eth_recv : List ℕ → ℕ → Status × List ℕ
eth_recv q m =
    if leb eth_rx_max_depth (length q) then (failed ebusy, q) else (success, q ++ (m ∷ []))

-- the result of `eth_input` in the inner loop of `eth_process_recv`: whether the mbuf is kept
unfoldable pub keep : ℕ → Verdict × Mempool → Rx → Option (Bool × Rx)
keep m (accepted, pool) r =
    if ltb (length r.recv_mbufs) eth_rx_max_batch
    then some (true, record r { mbuf_pool = pool; recv_mbufs = r.recv_mbufs ++ (m ∷ []) })
    else none
keep m (dropped, pool) r = some (false, record r { mbuf_pool = pool })
keep m (exits, pool) r = some (false, record r { mbuf_pool = pool; exited = true })

-- `eth_process_recv_queue` of the queue `i`, and what the loop does with its result
unfoldable pub recv_queue : ℕ → Rx → Option (Bool × Rx)
recv_queue i r = elim (r.queues i) [
  | [] ↦ some (false, r)
  | m ∷ ms ↦
      keep m (eth_input r.mbuf_pool m (r.packets m)) (record r { queues = update r.queues i ms })
]

-- the inner loop, with `n` queues to go; `got` is the negation of `empty`
unfoldable pub recv_round : ℕ → ℕ → Bool → Rx → Option (Bool × Rx)
recv_round zero i got r = some (got, r)
recv_round (suc n) i got r = recv_queue i r >>= λ x. recv_round n (i + 1) (got || x.0) x.1

-- the condition of the outer loop
unfoldable pub goes_on : Bool × Rx → Bool
goes_on x = x.0 && ltb (length x.1.recv_mbufs) eth_rx_max_batch && not x.1.exited

-- the outer loop, with at most `n` rounds to go
unfoldable pub recv_rounds : ℕ → ℕ → Rx → Option Rx
recv_rounds zero queues r = some r
recv_rounds (suc n) queues r = recv_round queues 0 false r >>= λ x.
    let rest = recv_rounds n queues x.1 in if goes_on x then rest else some (x.1)

-- `eth_process_recv`: a round after which the loop goes on has taken an mbuf, so six rounds are enough.
unfoldable pub eth_process_recv : ℕ → Rx → Option Rx
eth_process_recv queues r = recv_rounds eth_rx_max_batch queues (record r { recv_mbufs = [] })
