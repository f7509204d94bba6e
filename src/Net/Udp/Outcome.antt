-- ===== src/Net/Udp/Outcome.antt =====
-- `udp_send_one` returns and loses no mbuf, whatever fails on the way.
use horus_app_eval.Prelude.{ℕ, ◌-◌, ◌≤◌, ◌≡◌, ◌⊎◌, arith, some, ◌++◌, [], ◌∷◌}
use horus_app_eval.Message.{Message}
use horus_app_eval.Net.{Net, Packet, TxQueue, success, failed, ebusy, eth_send}
use horus_app_eval.Net.Arp.Mbufs.{IsFitting}

pub eth_send-cases :
    (q : TxQueue) (p : Packet) (m : ℕ)
    → IsFitting q
    → p.nr_iov ≡ 0
    → (eth_send q p m ≡ some (failed ebusy, q))
      ⊎ ((eth_send q p m ≡ some (success, record { cap = q.cap - 1; bufs = q.bufs ++ (m ∷ []) }))
          × (1 ≤ q.cap))
unfolding eth_send
eth_send-cases q p m h e = ground arith
