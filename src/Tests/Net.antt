-- ===== src/Tests/Net.antt =====
-- The theorems on the network stack at concrete inputs.
use horus_app_eval.Prelude.{
  ◌==◌, length, if◌then◌else◌, ℕ, ◌≤◌, ◌%◌, ◌^◌, ◌≡◌, ◌≢◌, ◌⊎◌, inr, refl, true, false, Bool, none,
  some, List, [], ◌∷◌, ◌++◌, arith,
}
use horus_app_eval.Mempool.{Mempool, alloc, free}
use horus_app_eval.Mempool.Count.{available, cells}
use horus_app_eval.Worker.{IpTuple, parse_packet}
use horus_app_eval.Net.{Net, Packet, IpHdr, ArpEntry, success, eth_send}
use horus_app_eval.Net.ByteOrder.{hton16, bswap16, bswap32}
use horus_app_eval.Net.Arp.{arp_lookup_mac, arp_lookup, mac_is, bucket, entry_of, fresh_entry}
use horus_app_eval.Net.Arp.Update.{arp_update_mac, arp_insert, arp_timer_handler}
use horus_app_eval.Net.Arp.Mbufs.{Held, arp_lookup_mac-Held}
use horus_app_eval.Net.Arp.Entries.{
  arp_update_mac-lookup, arp_insert-static, arp_lookup-locked, arp_timer_handler-gives_up,
}
use horus_app_eval.Net.Udp.{udp_send_one, udp_packet, send_in_mbuf, send_resolved, send_or_free}
use horus_app_eval.Net.Input.{eth_input, received, accepted, dropped, ip_valid, udp_fits}
use horus_app_eval.Net.Input.Freed.{eth_input-once}
use horus_app_eval.Net.Input.Accepted.{eth_input-parse}
use horus_app_eval.Net.Input.RoundTrip.{IsTuple, udp_send_one-parse, udp_packet-received}
use horus_app_eval.Net.Receive.{Rx, eth_process_recv, recv_rounds}
use horus_app_eval.Net.Receive.Batch.{eth_process_recv-batch}
use horus_app_eval.Tests.Samples.{small_pool, half_request}

abbrev hash : ℕ → ℕ
hash a = a

abbrev chksum : IpHdr → ℕ
chksum h = 0

abbrev no_ip : IpHdr
no_ip = record {
  header_len = 0;
  version = 0;
  tos = 0;
  len = 0;
  id = 0;
  off = 0;
  ttl = 0;
  proto = 0;
  chksum = 0;
  src_addr = 0;
  dst_addr = 0;
}

abbrev blank : Packet
blank = record {
  len = 0;
  nr_iov = 0;
  dhost = 0;
  shost = 0;
  ethtype = 0;
  ip = no_ip;
  udp = record { src_port = 0; dst_port = 0; len = 0; chksum = 0 };
  payload = half_request;
  arp = record {
    htype = 0;
    ptype = 0;
    hlen = 0;
    plen = 0;
    op = 0;
    sender_mac = 0;
    sender_ip = 0;
    target_mac = 0;
    target_ip = 0;
  };
}

abbrev net : Net
net = record {
  host_addr = 1;
  mac = 2;
  mbuf_pool = small_pool;
  packets = λ _. blank;
  txq = record { cap = 10; bufs = [] };
  arp_tbl = λ _. [];
  arp_pool = small_pool;
  arp_lock = false;
  pending_pool = small_pool;
  dispatched = [];
}

-- the address 9, unresolved and resolved
abbrev asked : ArpEntry
asked = record (fresh_entry 50 9) { resolving = true; timer = some 1000000 }

abbrev resolved : ArpEntry
resolved = record (fresh_entry 50 9) { mac = 7; valid = true }

abbrev asking : Net
asking = record net { arp_tbl = λ _. asked ∷ [] }

abbrev ready : Net
ready = record net { arp_tbl = λ _. resolved ∷ [] }

abbrev tuple : IpTuple
tuple = record { src_ip = 1; dst_ip = 9; src_port = 1234; dst_port = 1235 }

arp_lookup_mac-Held_example : Held net 0 (arp_lookup_mac hash net 9)
unfolding available cells
arp_lookup_mac-Held_example = arp_lookup_mac-Held hash net 9 (omega arith) (inr (refl, omega arith))

arp_update_mac-lookup_example :
    (n' : Net) × (arp_update_mac hash asking 9 7 false ≡ some (success, n'))
    × (arp_lookup_mac hash n' 9 ≡ some (mac_is 7, n'))
    × ((a : ℕ) → a ≢ 9 → entry_of (bucket hash n' a) a ≡ entry_of (bucket hash asking a) a)
unfolding entry_of
arp_update_mac-lookup_example = arp_update_mac-lookup hash asking 9 7 false asked refl refl

arp_insert-static_example :
    (n' : Net) × (arp_insert hash net 9 7 ≡ some (success, n'))
    × (arp_lookup_mac hash n' 9 ≡ some (mac_is 7, n'))
    × ((mac' : ℕ) (create_okay : Bool)
        → arp_update_mac hash n' 9 mac' create_okay ≡ some (success, n'))
unfolding entry_of available cells
arp_insert-static_example = arp_insert-static hash net 9 7 refl (omega arith)

abbrev empty_pool : Mempool
empty_pool = record small_pool {
  head = [];
  private_chunk = none;
  store = record (small_pool.store) { chunks = [] };
}

abbrev full : Net
full = record net { arp_pool = empty_pool }

arp_lookup-locked_example :
    (n' : Net) × (arp_lookup hash full 9 true ≡ some (none, n'))
    × ((a : ℕ) → entry_of (bucket hash n' a) a ≡ none → arp_lookup hash n' a true ≡ none)
unfolding entry_of available cells
arp_lookup-locked_example = arp_lookup-locked hash full 9 refl refl refl

-- a packet waits for the entry, which was asked for twice
abbrev waiting : ArpEntry
waiting = record asked {
  retries = 2;
  pending_pkts = record { cell = 60; dst_addr = 9; mbuf = 61; len = 100; dispatched = false } ∷ [];
}

arp_timer_handler-gives_up_example :
    (n' : Net) × (arp_timer_handler hash net waiting ≡ some n')
    × (cells n'.mbuf_pool ≡ 61 ∷ cells small_pool)
    × (cells n'.pending_pool ≡ 60 ∷ cells small_pool)
    × (cells n'.arp_pool ≡ 50 ∷ cells small_pool)
    × (n'.txq ≡ net.txq)
arp_timer_handler-gives_up_example = arp_timer_handler-gives_up hash net waiting refl

-- a frame of 42 bytes that says that it holds a datagram of 100
abbrev short_frame : Packet
short_frame = record blank {
  len = 42;
  ethtype = 8;
  ip = record no_ip { header_len = 5; version = 4; len = 7168; proto = 17 };
  udp = record { src_port = 0; dst_port = 0; len = 25600; chksum = 0 };
}

-- the same with a datagram of 8 bytes
abbrev whole_frame : Packet
whole_frame = record short_frame {
  udp = record { src_port = 0; dst_port = 0; len = 2048; chksum = 0 };
}

eth_input-once_example :
    (((eth_input small_pool 70 whole_frame).0 ≡ dropped)
      × (cells (eth_input small_pool 70 whole_frame).1 ≡ 70 ∷ cells small_pool))
    ⊎ (((eth_input small_pool 70 whole_frame).0 ≢ dropped)
        × ((eth_input small_pool 70 whole_frame).1 ≡ small_pool))
unfolding udp_fits bswap16
eth_input-once_example = eth_input-once small_pool 70 whole_frame refl

eth_input-parse_example :
    parse_packet (received whole_frame)
    ≡ some (half_request, record { src_ip = 0; dst_ip = 0; src_port = 0; dst_port = 0 })
unfolding eth_input udp_fits ip_valid bswap16 bswap32
eth_input-parse_example = eth_input-parse small_pool 70 whole_frame refl

udp_packet-received_example :
    let p = udp_packet hash chksum net half_request 165 tuple 7 blank in
    (hton16 0 % 2 ^ 14 ≡ 0 → eth_input small_pool 70 p ≡ (accepted, small_pool))
    × (hton16 0 % 2 ^ 14 ≢ 0 → eth_input small_pool 70 p ≡ (dropped, free small_pool 70))
udp_packet-received_example =
    udp_packet-received hash chksum small_pool 70 net half_request 165 tuple 7 blank (omega arith)
      (omega arith) (omega arith)

-- a run that succeeds
udp_send_one_run :
    (n' : Net) × (udp_send_one hash chksum ready half_request 165 tuple ≡ some (success, n'))
    × (n'.host_addr ≡ 1)
unfolding udp_send_one send_in_mbuf alloc arp_lookup_mac arp_lookup entry_of send_resolved
    send_or_free eth_send udp_packet
udp_send_one_run = (_, refl, refl)

run_tuple : IsTuple udp_send_one_run.0.host_addr tuple
run_tuple = record {
  host_lt = omega (arith, udp_send_one_run.2);
  dst_lt = omega arith;
  src_port_lt = omega arith;
  dst_port_lt = omega arith;
}

udp_send_one-parse_example :
    (m : ℕ) × (before : List ℕ) × (udp_send_one_run.0.txq.bufs ≡ before ++ (m ∷ []))
    × (parse_packet (received (udp_send_one_run.0.packets m))
        ≡ some (half_request, record tuple { src_ip = udp_send_one_run.0.host_addr }))
udp_send_one-parse_example =
    udp_send_one-parse hash chksum ready udp_send_one_run.0 half_request 165 tuple run_tuple
      (omega arith) udp_send_one_run.1

-- two frames wait in the first queue
abbrev receiving : Rx
receiving = record {
  queues = λ i. if i == 0 then 70 ∷ 71 ∷ [] else [];
  packets = λ _. whole_frame;
  mbuf_pool = small_pool;
  recv_mbufs = [];
  exited = false;
}

eth_process_recv-batch_example :
    (r' : Rx) × (eth_process_recv 1 receiving ≡ some r')
    × (length r'.recv_mbufs ≤ 6)
    × ((n : ℕ) → 6 ≤ n → recv_rounds n 1 (record receiving { recv_mbufs = [] }) ≡ some r')
eth_process_recv-batch_example = eth_process_recv-batch receiving
