-- ===== src/Net/Udp.antt =====
-- `udp_send_one` of inc/ix/transmit.h of shinjuku-rocksdb, which sends the replies of the workers and the
-- networker's messages. `hash` and `chksum` stand for `hash_crc32c_one` and `chksum_internet`, which are
-- machine instructions; there is one network device.
pub mod Outcome
use horus_app_eval.Prelude.{
  ℕ, ◌+◌, ◌-◌, ◌*◌, ◌/◌, ◌%◌, ◌^◌, Option, none, some, if◌then◌else◌, ltb, leb, u16, update, ◌>>=◌,
}
use horus_app_eval.Mempool.{Mempool, alloc, free}
use horus_app_eval.Message.{Message}
use horus_app_eval.Worker.{IpTuple}
use horus_app_eval.Net.{
  Net, Packet, IpHdr, TxQueue, Status, success, failed, ret_inval, ret_nobufs, ret_again, eth_send,
}
use horus_app_eval.Net.ByteOrder.{hton16, hton32}
use horus_app_eval.Net.Arp.{arp_lookup_mac, MacResult, mac_is, no_mac, ethtype_ip}

-- UDP_MAX_LEN, UDP_PKT_SIZE, IPPROTO_UDP
abbrev pub udp_max_len : ℕ
udp_max_len = 1472

abbrev pub udp_pkt_size : ℕ
udp_pkt_size = 42

abbrev pub ipproto_udp : ℕ
ipproto_udp = 17

-- `ip_setup_header`: `off` is not set
unfoldable pub ip_setup_header : IpHdr → ℕ → ℕ → ℕ → ℕ → IpHdr
ip_setup_header h proto saddr daddr l4len = record h {
  header_len = 5;
  version = 4;
  tos = 0;
  len = hton16 (u16 (20 + l4len));
  id = 0;
  ttl = 64;
  proto = proto;
  chksum = 0;
  src_addr = hton32 saddr;
  dst_addr = hton32 daddr;
}

-- `ret` was set: the mbuf is freed
unfoldable pub send_or_free : Net → ℕ → Option (Status × TxQueue) → Option (Status × Net)
send_or_free n m none = none
send_or_free n m (some (success, q)) = some (success, record n { txq = q })
send_or_free n m (some (failed e, q)) =
    some (failed e, record n { txq = q; mbuf_pool = free n.mbuf_pool m })

-- A field of `width` bytes at the offset `at` after `memcpy` of the first `len` bytes over it: a field that
-- the copy ends in has its low bytes from the new value, since words are little-endian.
unfoldable pub copy_field : ℕ → ℕ → ℕ → ℕ → ℕ → ℕ
copy_field len at width new old =
    if leb (at + width) len
    then new
    else (if leb len at
        then old
        else new % 2 ^ (8 * (len - at)) + old / 2 ^ (8 * (len - at)) * 2 ^ (8 * (len - at)))

-- `memcpy(payload, data, len)` of a message over the one that stood there. `app_data` has 16 words.
unfoldable pub copy_message : ℕ → Message → Message → Message
unfolding copy_field
copy_message len m old = record {
  pkt_type = copy_field len 0 1 m.pkt_type old.pkt_type;
  cluster_id = copy_field len 1 2 m.cluster_id old.cluster_id;
  src_id = copy_field len 3 2 m.src_id old.src_id;
  dst_id = copy_field len 5 2 m.dst_id old.dst_id;
  qlen = copy_field len 7 2 m.qlen old.qlen;
  seq_num = copy_field len 9 2 m.seq_num old.seq_num;
  client_id = copy_field len 11 2 m.client_id old.client_id;
  req_id = copy_field len 13 4 m.req_id old.req_id;
  pkts_length = copy_field len 17 4 m.pkts_length old.pkts_length;
  run_ns = copy_field len 21 8 m.run_ns old.run_ns;
  gen_ns = copy_field len 29 8 m.gen_ns old.gen_ns;
  app_data = λ i.
      if ltb i 16
      then copy_field len (37 + 8 * i) 8 (m.app_data i) (old.app_data i)
      else m.app_data i;
}

module _ (hash : ℕ → ℕ) (chksum : IpHdr → ℕ) where
  -- the packet that is written into the mbuf
  unfoldable pub udp_packet : Net → Message → ℕ → IpTuple → ℕ → Packet → Packet
  unfolding ip_setup_header copy_message
  udp_packet n payload len id dhost p =
      let full_len = len + 8 in
      let iphdr = ip_setup_header p.ip ipproto_udp n.host_addr id.dst_ip (u16 full_len) in
      record p {
        dhost = dhost;
        shost = n.mac;
        ethtype = hton16 ethtype_ip;
        ip = record iphdr { chksum = chksum iphdr };
        udp = record {
          src_port = hton16 id.src_port;
          dst_port = hton16 id.dst_port;
          len = hton16 (u16 full_len);
          chksum = 0;
        };
        payload = copy_message len payload p.payload;
        nr_iov = 0;
        len = udp_pkt_size + len;
      }

  -- from the result of `arp_lookup_mac` on
  unfoldable pub send_resolved : Message → ℕ → IpTuple → ℕ → MacResult × Net → Option (Status × Net)
  send_resolved payload len id m (no_mac e, n) =
      some (failed ret_again, record n { mbuf_pool = free n.mbuf_pool m })
  send_resolved payload len id m (mac_is dhost, n) =
      let p = udp_packet n payload len id dhost (n.packets m) in
      send_or_free (record n { packets = update n.packets m p }) m (eth_send n.txq p m)

  -- from the result of `mbuf_alloc_local` on
  unfoldable pub send_in_mbuf :
      Net → Message → ℕ → IpTuple → Option ℕ × Mempool → Option (Status × Net)
  send_in_mbuf n payload len id (none, pool) =
      some (failed ret_nobufs, record n { mbuf_pool = pool })
  send_in_mbuf n payload len id (some m, pool) =
      arp_lookup_mac hash (record n { mbuf_pool = pool }) id.dst_ip
      >>= send_resolved payload len id m

  unfoldable pub udp_send_one : Net → Message → ℕ → IpTuple → Option (Status × Net)
  udp_send_one n payload len id =
      if ltb udp_max_len len
      then some (failed ret_inval, n)
      else send_in_mbuf n payload len id (alloc n.mbuf_pool)
