-- ===== src/Net.antt =====
-- The network stack of shinjuku-rocksdb (inc/ix/transmit.h, dp/net, inc/ix/ethqueue.h): packets, the
-- transmit queue and the state that sending and address resolution share. A fault is `none`.
pub mod ByteOrder
pub mod Arp
pub mod Udp
pub mod Input
pub mod Receive
use horus_app_eval.Prelude.{
  ℕ, ◌+◌, ◌-◌, Bool, Option, none, some, List, [], ◌∷◌, ◌++◌, length, if◌then◌else◌, ltb, update,
}
use horus_app_eval.Mempool.{Mempool}
use horus_app_eval.Message.{Message}

-- the error codes of inc/ix/errno.h and RET_* of inc/ix/syscall.h that the modelled functions return
pub data Errno : Type 0 where
  eagain ebusy enomem eio enoent e2big einval ret_inval ret_nobufs ret_again : Errno

-- an `int` result: 0, or an error code with its sign changed
pub data Status : Type 0 where
  success : Status
  failed : Errno → Status

-- struct ip_hdr, each field as it stands in memory
pub record IpHdr : Type 0 where
  pub header_len : ℕ
  pub version : ℕ
  pub tos : ℕ
  pub len : ℕ
  pub id : ℕ
  pub off : ℕ
  pub ttl : ℕ
  pub proto : ℕ
  pub chksum : ℕ
  pub src_addr : ℕ
  pub dst_addr : ℕ

-- struct udp_hdr
pub record UdpHdr : Type 0 where
  pub src_port : ℕ
  pub dst_port : ℕ
  pub len : ℕ
  pub chksum : ℕ

-- struct arp_hdr with the struct arp_hdr_ethip behind it
pub record ArpHdr : Type 0 where
  pub htype : ℕ
  pub ptype : ℕ
  pub hlen : ℕ
  pub plen : ℕ
  pub op : ℕ
  pub sender_mac : ℕ
  pub sender_ip : ℕ
  pub target_mac : ℕ
  pub target_ip : ℕ

-- struct mbuf with the headers in its data; those of IP and of ARP share their place. A MAC address is
-- the number of its six bytes, the first one lowest.
pub record Packet : Type 0 where
  pub len : ℕ
  pub nr_iov : ℕ
  pub dhost : ℕ
  pub shost : ℕ
  pub ethtype : ℕ
  pub ip : IpHdr
  pub udp : UdpHdr
  pub payload : Message
  pub arp : ArpHdr

-- struct eth_tx_queue; `len` is the length of `bufs`
pub record TxQueue : Type 0 where
  pub cap : ℕ
  pub bufs : List ℕ

-- struct pending_pkt, in the order of its list
pub record PendingPkt : Type 0 where
  pub cell : ℕ
  pub dst_addr : ℕ
  pub mbuf : ℕ
  pub len : ℕ
  pub dispatched : Bool

-- struct arp_entry, at the address `cell`. `flags` is its three bits; `timer` is the delay that was asked
-- for, if the timer is pending.
pub record ArpEntry : Type 0 where
  pub cell : ℕ
  pub addr : ℕ
  pub mac : ℕ
  pub resolving : Bool
  pub valid : Bool
  pub static : Bool
  pub retries : ℕ
  pub timer : Option ℕ
  pub pending_pkts : List PendingPkt

-- What a core's sending works on: the settings, its mbufs, the transmit queue 0, and the ARP table with
-- its pools and `arp_lock`. `dispatched` is what was handed to `cpu_run_on_one`.
pub record Net : Type 0 where
  pub host_addr : ℕ
  pub mac : ℕ
  pub mbuf_pool : Mempool
  pub packets : ℕ → Packet
  pub txq : TxQueue
  pub arp_tbl : ℕ → List ArpEntry
  pub arp_pool : Mempool
  pub arp_lock : Bool
  pub pending_pool : Mempool
  pub dispatched : List PendingPkt

-- ETH_DEV_TX_QUEUE_SZ
abbrev pub tx_queue_size : ℕ
tx_queue_size = 4096

-- `eth_send`; a write past the end of `bufs` is a fault
unfoldable pub eth_send : TxQueue → Packet → ℕ → Option (Status × TxQueue)
eth_send q p m =
    let nr = 1 + p.nr_iov in
    if ltb q.cap nr
    then some (failed ebusy, q)
    else if ltb (length q.bufs) tx_queue_size
    then some (success, record { cap = q.cap - nr; bufs = q.bufs ++ (m ∷ []) })
    else none

-- `eth_send_one`: the length and the number of vectors are set first.
unfoldable pub eth_send_one : Net → ℕ → ℕ → Option (Status × Net)
unfolding eth_send
eth_send_one n m len =
    let p : Packet = record (n.packets m) { len = len; nr_iov = 0 } in
    elim (eth_send n.txq p m) [
      | none ↦ none
      | some (st, q) ↦ some (st, record n { txq = q; packets = update n.packets m p })
    ]
