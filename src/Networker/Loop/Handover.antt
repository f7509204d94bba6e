-- ===== src/Networker/Loop/Handover.antt =====
-- The batch that a round of the networker hands over, against what the dispatcher takes.
use horus_app_eval.Prelude.{
  ℕ, ◌+◌, ◌<◌, ◌≡◌, ◌≢◌, false, none, some, List, [], ◌∷◌, ◌++◌, ◌==◌, update, u16,
}
use horus_app_eval.Mempool.{Mempool}
use horus_app_eval.Mempool.Count.{cells}
use horus_app_eval.Message.{Message, swap_uint16, pkt_type_worker_id}
use horus_app_eval.Server.{NetworkerPointers}
use horus_app_eval.Networker.{Config, Networker, packet_count}
use horus_app_eval.Networker.WorkerIds.{wanted}
use horus_app_eval.Networker.Loop.{NetworkerCore}
use horus_app_eval.Networker.Loop.Release.{slots}

-- a task of one packet for one of the workers
pub record IsTask (cfg : Config) (m : Message) : Type 0 where
  pub plain : (m.pkt_type == pkt_type_worker_id) ≡ false
  pub single : packet_count m ≡ 1
  pub core : ℕ
  pub below : core < cfg.num_ports
  pub addressed : cfg.ports core ≡ wanted m

abbrev pub AllTasks : Config → List (ℕ × Message) → Type 0
AllTasks cfg [] = Unit {0}
AllTasks cfg ((pkt, m) ∷ pkts) = IsTask cfg m × AllTasks cfg pkts

-- `rq_update` of such a task, with a request that is free
abbrev taken : Networker → ℕ → Message → ℕ → Mempool → Networker
taken w pkt m r pool = record w {
  request_pool = pool;
  requests = update w.requests r (record (w.requests r) {
    pkts_length = 1;
    type = u16 (swap_uint16 m.qlen);
    mbufs = update (w.requests r).mbufs 0 (some pkt);
  });
}

-- the first `j` slots hold requests for the first `n` workers
record Filled (n j : ℕ) (np : NetworkerPointers) : Type 0 where
  pub known : (i : ℕ) → i < j → np.types i < n
  pub present : (i : ℕ) → i < j → np.reqs i ≢ none

record HandedOver (n j k : ℕ) (c c' : NetworkerCore) : Type 0 where
  pub filled : Filled n (j + k) c'.pointers
  pub counted : c'.pointers.cnt ≡ j + k
  pub nothing_back : c'.pointers.free_cnt ≡ c.pointers.free_cnt
  pub same_mbufs : c'.mbuf_pool ≡ c.mbuf_pool
  pub earlier : (i : ℕ) → i < j → c'.pointers.reqs i ≡ c.pointers.reqs i
  pub requests_taken :
      cells c.net.request_pool ≡ slots k j c'.pointers.reqs ++ cells c'.net.request_pool
