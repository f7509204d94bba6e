-- ===== src/Net/Arp.antt =====
-- dp/net/arp.c of shinjuku-rocksdb: the table of MAC addresses. `hash` stands for `hash_crc32c_one` with
-- the table's seed, which is a machine instruction. Cores take turns; a second `spin_lock` of a lock that
-- is held never returns, which is a fault.
pub mod Update
pub mod Mbufs
pub mod Table
pub mod Entries
use horus_app_eval.Prelude.{
  ℕ, ◌+◌, ◌-◌, ◌*◌, ◌/◌, ◌%◌, ◌^◌, Bool, true, false, ◌&&◌, ◌||◌, not, Option, none, some, List, [],
  ◌∷◌, ◌++◌, map, if◌then◌else◌, ltb, leb, ◌==◌, u8, update, ◌>>=◌,
}
use horus_app_eval.Mempool.{Mempool, alloc, free}
use horus_app_eval.Net.{
  Net, Packet, ArpHdr, ArpEntry, PendingPkt, Status, success, failed, Errno, eagain, enomem, eio,
  enoent, eth_send_one,
}
use horus_app_eval.Net.ByteOrder.{hton16, hton32}

-- ARP_MAX_ENTRIES, ARP_MAX_ATTEMPTS, the timeouts in microseconds, ARP_PKT_SIZE
abbrev pub arp_max_entries : ℕ
arp_max_entries = 65536

abbrev pub arp_max_attempts : ℕ
arp_max_attempts = 3

abbrev pub arp_refresh_timeout : ℕ
arp_refresh_timeout = 10000000

abbrev pub arp_resolve_timeout : ℕ
arp_resolve_timeout = 1000000

abbrev pub arp_retry_timeout : ℕ
arp_retry_timeout = 1000000

abbrev pub arp_pkt_size : ℕ
arp_pkt_size = 42

-- ETHTYPE_ARP, ETHTYPE_IP, ARP_HTYPE_ETHER, ARP_OP_REQUEST, ARP_OP_REPLY, ETH_ADDR_BROADCAST
abbrev pub ethtype_arp : ℕ
ethtype_arp = 0x0806

abbrev pub ethtype_ip : ℕ
ethtype_ip = 0x0800

abbrev pub arp_htype_ether : ℕ
arp_htype_ether = 1

abbrev pub arp_op_request : ℕ
arp_op_request = 1

abbrev pub arp_op_reply : ℕ
arp_op_reply = 2

abbrev pub eth_addr_broadcast : ℕ
eth_addr_broadcast = 0xffffffffffff

-- `__arp_lookup`
unfoldable pub entry_of : List ArpEntry → ℕ → Option ArpEntry
entry_of [] addr = none
entry_of (e ∷ es) addr = if e.addr == addr then some e else entry_of es addr

-- The entry for `e.addr` with the fields of `e`: a chain has one entry for an address, the one that
-- `__arp_lookup` finds.
unfoldable pub store_entry : List ArpEntry → ArpEntry → List ArpEntry
store_entry [] e = []
store_entry (x ∷ xs) e = if x.addr == e.addr then e ∷ xs else x ∷ store_entry xs e

-- `hlist_del` of the entry for an address
unfoldable pub remove_entry : List ArpEntry → ℕ → List ArpEntry
remove_entry [] addr = []
remove_entry (x ∷ xs) addr = if x.addr == addr then xs else x ∷ remove_entry xs addr

-- what `arp_lookup_mac` returns: 0 with the address, or an error
pub data MacResult : Type 0 where
  mac_is : ℕ → MacResult
  no_mac : Errno → MacResult

-- the packet that `arp_send_pkt` writes into the mbuf
unfoldable pub arp_packet : Net → ℕ → ℕ → ℕ → Packet → Packet
arp_packet n op target_ip target_mac p = record p {
  dhost = target_mac;
  shost = n.mac;
  ethtype = hton16 ethtype_arp;
  arp = record {
    htype = hton16 arp_htype_ether;
    ptype = hton16 ethtype_ip;
    hlen = 6;
    plen = 4;
    op = hton16 op;
    sender_mac = n.mac;
    sender_ip = hton32 n.host_addr;
    target_mac = target_mac;
    target_ip = hton32 target_ip;
  };
}

-- the end of the functions that send: an mbuf that was not queued is freed
unfoldable pub sent_or_freed : ℕ → Status × Net → Status × Net
sent_or_freed m (success, n) = (success, n)
sent_or_freed m (failed e, n) = (failed eio, record n { mbuf_pool = free n.mbuf_pool m })

-- `arp_send_pkt` once `mbuf_alloc_local` has returned
unfoldable pub send_allocated : Net → ℕ → ℕ → ℕ → Option ℕ × Mempool → Option (Status × Net)
unfolding sent_or_freed
send_allocated n op ip mac (none, pool) = some (failed enomem, record n { mbuf_pool = pool })
send_allocated n op ip mac (some m, pool) =
    eth_send_one
      (record n {
        mbuf_pool = pool;
        packets = update n.packets m (arp_packet n op ip mac (n.packets m));
      })
      m arp_pkt_size
    >>= λ r. some (sent_or_freed m r)

unfoldable pub arp_send_pkt : Net → ℕ → ℕ → ℕ → Option (Status × Net)
unfolding send_allocated
arp_send_pkt n op ip mac = send_allocated n op ip mac (alloc n.mbuf_pool)

-- A new entry. `mac` and `pending_pkts` are not set by the code: the one is not read before it is set,
-- the other is empty in memory that is new or that `arp_timer_handler` gave back.
abbrev pub fresh_entry : ℕ → ℕ → ArpEntry
fresh_entry c addr = record {
  cell = c;
  addr = addr;
  mac = 0;
  resolving = false;
  valid = false;
  static = false;
  retries = 0;
  timer = none;
  pending_pkts = [];
}

module _ (hash : ℕ → ℕ) where
  abbrev pub arp_ip_to_idx : ℕ → ℕ
  arp_ip_to_idx addr = hash addr % arp_max_entries

  abbrev pub bucket : Net → ℕ → List ArpEntry
  bucket n addr = n.arp_tbl (arp_ip_to_idx addr)

  abbrev pub set_bucket : Net → ℕ → List ArpEntry → Net
  set_bucket n addr es = record n { arp_tbl = update n.arp_tbl (arp_ip_to_idx addr) es }

  -- the entry changed in place
  abbrev pub put_entry : Net → ArpEntry → Net
  put_entry n e = set_bucket n e.addr (store_entry (bucket n e.addr) e)

  -- the end of `arp_lookup` under `arp_lock`; without memory it returns and the lock stays held
  unfoldable pub create_entry : Net → ℕ → Option ℕ × Mempool → Option ArpEntry × Net
  create_entry n addr (none, pool) = (none, record n { arp_pool = pool; arp_lock = true })
  create_entry n addr (some c, pool) =
      let e = fresh_entry c addr in
      (some e, set_bucket (record n { arp_pool = pool }) addr (e ∷ bucket n addr))

  -- `arp_lookup`. The second search under the lock finds nothing, since no other core ran in between.
  unfoldable pub arp_lookup : Net → ℕ → Bool → Option (Option ArpEntry × Net)
  unfolding create_entry
  arp_lookup n addr create_okay = elim (entry_of (bucket n addr) addr) [
    | some e ↦ some (some e, n)
    | none ↦
        if create_okay
        then (if n.arp_lock then none else some (create_entry n addr (alloc n.arp_pool)))
        else some (none, n)
  ]

  -- the branch of `arp_lookup_mac` for an entry whose timer is not pending
  unfoldable pub start_resolving : Net → ArpEntry → Option (MacResult × Net)
  start_resolving n e =
      let asked : ArpEntry = record e { resolving = true } in
      arp_send_pkt (put_entry n asked) arp_op_request e.addr eth_addr_broadcast >>= λ r.
      some (no_mac eagain, put_entry r.1 (record asked { timer = some arp_resolve_timeout }))

  unfoldable pub entry_mac : Option ArpEntry × Net → Option (MacResult × Net)
  unfolding start_resolving
  entry_mac (none, n) = some (no_mac enoent, n)
  entry_mac (some e, n) =
      if e.valid
      then some (mac_is e.mac, n)
      else elim e.timer [ some d ↦ some (no_mac eagain, n) | none ↦ start_resolving n e ]

  unfoldable pub arp_lookup_mac : Net → ℕ → Option (MacResult × Net)
  unfolding entry_mac
  arp_lookup_mac n addr = arp_lookup n addr true >>= entry_mac
