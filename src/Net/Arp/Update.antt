-- ===== src/Net/Arp/Update.antt =====
-- dp/net/arp.c of shinjuku-rocksdb: what changes an entry of the table.
use horus_app_eval.Prelude.{
  ℕ, ◌+◌, ◌%◌, Bool, true, false, ◌&&◌, not, Option, none, some, List, [], ◌∷◌, ◌++◌, map,
  if◌then◌else◌, leb, ◌==◌, u8, update, ◌>>=◌,
}
use horus_app_eval.Mempool.{Mempool, alloc, free}
use horus_app_eval.Net.{
  Net, Packet, ArpHdr, ArpEntry, PendingPkt, Status, success, failed, enomem, enoent, eth_send_one,
}
use horus_app_eval.Net.ByteOrder.{hton16, hton32}
use horus_app_eval.Net.Arp.{
  arp_lookup, put_entry, set_bucket, bucket, fresh_entry, remove_entry, arp_send_pkt, sent_or_freed,
  arp_refresh_timeout, arp_retry_timeout, arp_max_attempts, arp_pkt_size, ethtype_ip,
  arp_htype_ether, arp_op_request, arp_op_reply, eth_addr_broadcast,
}

-- the loop of `arp_update_mac` over the waiting packets: those that it hands to `cpu_run_on_one`
unfoldable pub undispatched : List PendingPkt → List PendingPkt
undispatched [] = []
undispatched (p ∷ ps) =
    let rest = undispatched ps in
    if p.dispatched then rest else record p { dispatched = true } ∷ rest

-- and the packets afterwards
abbrev pub all_dispatched : List PendingPkt → List PendingPkt
all_dispatched ps = map {A = PendingPkt} (λ p. record p { dispatched = true }) ps

-- the packet that `arp_send_response_reuse` makes of the request
unfoldable pub response : Net → Packet → Packet
response n p = record p {
  dhost = p.shost;
  shost = n.mac;
  arp = record (p.arp) {
    op = hton16 arp_op_reply;
    target_mac = p.arp.sender_mac;
    target_ip = p.arp.sender_ip;
    sender_ip = hton32 n.host_addr;
    sender_mac = n.mac;
  };
}

unfoldable pub arp_send_response_reuse : Net → ℕ → Option (Status × Net)
unfolding response
arp_send_response_reuse n m =
    eth_send_one (record n { packets = update n.packets m (response n (n.packets m)) }) m
      arp_pkt_size
    >>= λ r. some (sent_or_freed m r)

-- the checks of `arp_input`: the lengths, the header, and no multicast sender
unfoldable pub arp_valid : Packet → Bool
arp_valid p =
    leb (14 + 8) p.len
    && (hton16 p.arp.htype == arp_htype_ether)
    && (hton16 p.arp.ptype == ethtype_ip)
    && (p.arp.hlen == 6)
    && (p.arp.plen == 4)
    && leb (14 + 8 + 20) p.len
    && not (p.arp.sender_mac % 2 == 1)

-- the waiting packets of an entry that is given up: their mbufs and cells are freed
unfoldable pub drop_pending : List PendingPkt → Net → Net
drop_pending [] n = n
drop_pending (p ∷ ps) n =
    drop_pending ps
      (record n { mbuf_pool = free n.mbuf_pool p.mbuf; pending_pool = free n.pending_pool p.cell })

-- the entry as `arp_update_mac` leaves it
unfoldable pub updated : ArpEntry → ℕ → ArpEntry
updated e mac = record e {
  mac = mac;
  resolving = false;
  valid = true;
  static = false;
  retries = 0;
  timer = some arp_refresh_timeout;
  pending_pkts = all_dispatched e.pending_pkts;
}

module _ (hash : ℕ → ℕ) where
  unfoldable pub update_found : ℕ → Option ArpEntry × Net → Status × Net
  unfolding updated undispatched
  update_found mac (none, n) = (failed enomem, n)
  update_found mac (some e, n) = if e.static then (success, n) else (
    success,
    record (put_entry hash n (updated e mac)) {
      dispatched = n.dispatched ++ undispatched e.pending_pkts;
    },
  )

  unfoldable pub arp_update_mac : Net → ℕ → ℕ → Bool → Option (Status × Net)
  unfolding update_found
  arp_update_mac n addr mac create_okay =
      arp_lookup hash n addr create_okay >>= λ r. some (update_found mac r)

  -- `arp_input` behind its checks
  unfoldable pub arp_accepted : Net → ℕ → ArpHdr → Option Net
  arp_accepted n m h =
      let am_target = n.host_addr == hton32 h.target_ip in
      arp_update_mac n (hton32 h.sender_ip) h.sender_mac am_target >>= λ r.
      if am_target && (hton16 h.op == arp_op_request)
      then (arp_send_response_reuse r.1 m >>= λ sent. some (sent.1))
      else some (record (r.1) { mbuf_pool = free r.1.mbuf_pool m })

  -- `arp_input` of the packet in the mbuf `m`
  unfoldable pub arp_input : Net → ℕ → Option Net
  unfolding arp_accepted arp_valid
  arp_input n m =
      if arp_valid (n.packets m)
      then arp_accepted n m (n.packets m).arp
      else some (record n { mbuf_pool = free n.mbuf_pool m })

  -- `arp_insert` for an address without an entry, once `mempool_alloc` has returned
  unfoldable pub insert_new : Net → ℕ → ℕ → Option ℕ × Mempool → Status × Net
  insert_new n addr mac (none, pool) = (failed enomem, record n { arp_pool = pool })
  insert_new n addr mac (some c, pool) = (
    success,
    set_bucket hash (record n { arp_pool = pool }) addr
        (record (fresh_entry c addr) { mac = mac; valid = true; static = true }
          ∷ bucket hash n addr),
  )

  unfoldable pub insert_found : ℕ → ℕ → Option ArpEntry × Net → Status × Net
  unfolding insert_new
  insert_found addr mac (none, n) = insert_new n addr mac (alloc n.arp_pool)
  insert_found addr mac (some e, n) =
      (success, put_entry hash n (record e { mac = mac; timer = none }))

  unfoldable pub arp_insert : Net → ℕ → ℕ → Option (Status × Net)
  unfolding insert_found
  arp_insert n addr mac = arp_lookup hash n addr false >>= λ r. some (insert_found addr mac r)

  -- the branch of `arp_timer_handler` that gives the entry up
  unfoldable pub give_up : Net → ArpEntry → Net
  unfolding drop_pending
  give_up n e =
      let n' = drop_pending e.pending_pkts n in
      record (set_bucket hash n' e.addr (remove_entry (bucket hash n' e.addr) e.addr)) {
        arp_pool = free n'.arp_pool e.cell;
      }

  -- the branch that asks again
  unfoldable pub ask_again : Net → ArpEntry → Option Net
  ask_again n e =
      arp_send_pkt (put_entry hash n e) arp_op_request e.addr
        (if e.valid then e.mac else eth_addr_broadcast)
      >>= λ r. some (put_entry hash r.1 (record e { timer = some arp_retry_timeout }))

  -- `arp_timer_handler` for the timer of the entry `e`, which no longer is pending
  unfoldable pub arp_timer_handler : Net → ArpEntry → Option Net
  unfolding give_up ask_again
  arp_timer_handler n e =
      let retries = u8 (e.retries + 1) in
      if leb arp_max_attempts retries
      then some (give_up n e)
      else ask_again n (record e { retries = retries; resolving = true; timer = none })

  unfoldable pub add_allocated : Net → ArpEntry → ℕ → ℕ → Option ℕ × Mempool → Status × Net
  add_allocated n e m len (none, pool) = (failed enomem, record n { pending_pool = pool })
  add_allocated n e m len (some c, pool) = (
    success,
    put_entry hash (record n { pending_pool = pool })
        (record e {
          pending_pkts =
              record { cell = c; dst_addr = e.addr; mbuf = m; len = len; dispatched = false }
              ∷ e.pending_pkts;
        }),
  )

  unfoldable pub add_found : ℕ → ℕ → Option ArpEntry × Net → Status × Net
  unfolding add_allocated
  add_found m len (none, n) = (failed enoent, n)
  add_found m len (some e, n) = add_allocated n e m len (alloc n.pending_pool)

  unfoldable pub arp_add_pending_pkt : Net → ℕ → ℕ → ℕ → Option (Status × Net)
  unfolding add_found
  arp_add_pending_pkt n dst m len = arp_lookup hash n dst false >>= λ r. some (add_found m len r)
