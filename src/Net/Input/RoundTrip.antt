-- ===== src/Net/Input/RoundTrip.antt =====
-- What `udp_send_one` puts on the wire, the receiving side reads back.
use horus_app_eval.Prelude.{
  ℕ, ◌+◌, ◌^◌, ◌%◌, ◌≤◌, ◌<◌, ◌≡◌, ◌≢◌, inl, inr, refl, arith, true, false, Bool-cases, ap, ◌∙◌,
  sym, List, [], ◌∷◌, ◌++◌, ◌==◌, ltb, ltb→lt, ◌*◌, if◌then◌else◌, Option, none, some, ◌>>=◌,
  >>=_some, u16, update, update_self,
}
use horus_app_eval.Mempool.{Mempool, alloc, free}
use horus_app_eval.Message.{Message, message_size}
use horus_app_eval.Worker.{IpTuple, parse_packet}
use horus_app_eval.Net.{Net, Errno, Packet, IpHdr, TxQueue, Status, success, failed, eth_send}
use horus_app_eval.Net.ByteOrder.{bswap16_inv, bswap32_inv, hton16}
use horus_app_eval.Net.Arp.{MacResult, mac_is, no_mac, arp_lookup_mac, ethtype_ip}
use horus_app_eval.Net.Udp.{
  udp_packet, udp_send_one, send_in_mbuf, send_resolved, send_or_free, udp_max_len, ipproto_udp,
  copy_field, copy_message,
}
use horus_app_eval.Net.Input.{received, eth_input, accepted, dropped, ip_valid, udp_fits, exit_port}

-- addresses of 32 bits and ports of 16
pub record IsTuple (host : ℕ) (id : IpTuple) : Type 0 where
  pub host_lt : host < 2 ^ 32
  pub dst_lt : id.dst_ip < 2 ^ 32
  pub src_port_lt : id.src_port < 2 ^ 16
  pub dst_port_lt : id.dst_port < 2 ^ 16

not_lt : (a b : ℕ) → ltb a b ≡ false → b ≤ a
not_lt a b h = ground arith

eq→true : (a b : ℕ) → a ≡ b → (a == b) ≡ true
eq→true a b h = ground arith

ne→false : (a b : ℕ) → a ≢ b → (a == b) ≡ false
ne→false a b h = ground arith

eth_input-udp :
    (pool : Mempool) (m : ℕ) (p : Packet)
    → p.ethtype ≡ hton16 ethtype_ip
    → p.ip.proto ≡ ipproto_udp
    → udp_fits p ≡ true
    → hton16 p.udp.dst_port ≢ exit_port
    → (ip_valid p ≡ true → eth_input pool m p ≡ (accepted, pool))
      × (ip_valid p ≡ false → eth_input pool m p ≡ (dropped, free pool m))
unfolding eth_input
eth_input-udp pool m p ip udp fits port =
    ((λ valid. rw (valid, fits) (ground arith)), λ refused. rw refused (ground arith))

copy_field-whole :
    (len at width new old : ℕ) → at + width ≤ len → copy_field len at width new old ≡ new
unfolding copy_field
copy_field-whole len at width new old h = ground arith

copy_word :
    (len i new old : ℕ)
    → message_size ≤ len
    → (if ltb i 16 then copy_field len (37 + 8 * i) 8 new old else new) ≡ new
copy_word len i new old h = elim (Bool-cases (ltb i 16)) [
  | inl lt ↦ rw lt (copy_field-whole len (37 + 8 * i) 8 new old (omega (arith, h, ltb→lt i 16 lt)))
  | inr ge ↦ rw ge refl
]

-- A message that is sent whole arrives whole.
copy_message-whole : (len : ℕ) (m old : Message) → message_size ≤ len → copy_message len m old ≡ m
unfolding copy_message
copy_message-whole len m old h = λ i. record {
  pkt_type = copy_field-whole len 0 1 m.pkt_type old.pkt_type (omega (arith, h)) i;
  cluster_id = copy_field-whole len 1 2 m.cluster_id old.cluster_id (omega (arith, h)) i;
  src_id = copy_field-whole len 3 2 m.src_id old.src_id (omega (arith, h)) i;
  dst_id = copy_field-whole len 5 2 m.dst_id old.dst_id (omega (arith, h)) i;
  qlen = copy_field-whole len 7 2 m.qlen old.qlen (omega (arith, h)) i;
  seq_num = copy_field-whole len 9 2 m.seq_num old.seq_num (omega (arith, h)) i;
  client_id = copy_field-whole len 11 2 m.client_id old.client_id (omega (arith, h)) i;
  req_id = copy_field-whole len 13 4 m.req_id old.req_id (omega (arith, h)) i;
  pkts_length = copy_field-whole len 17 4 m.pkts_length old.pkts_length (omega (arith, h)) i;
  run_ns = copy_field-whole len 21 8 m.run_ns old.run_ns (omega (arith, h)) i;
  gen_ns = copy_field-whole len 29 8 m.gen_ns old.gen_ns (omega (arith, h)) i;
  app_data = λ k. copy_word len k (m.app_data k) (old.app_data k) h i;
}

module _ (hash : ℕ → ℕ) (chksum : IpHdr → ℕ) where
  udp_packet-parse :
      (n : Net) (payload : Message) (len : ℕ) (id : IpTuple) (dhost : ℕ) (p : Packet)
      → IsTuple n.host_addr id
      → message_size ≤ len
      → len ≤ udp_max_len
      → parse_packet (received (udp_packet hash chksum n payload len id dhost p))
        ≡ some (payload, record id { src_ip = n.host_addr })
  unfolding udp_packet received parse_packet
  udp_packet-parse n payload len id dhost p t whole few =
      rw
        (
          copy_message-whole len payload p.payload whole,
          bswap16_inv (u16 (len + 8)) (omega arith),
          bswap32_inv n.host_addr t.host_lt,
          bswap32_inv id.dst_ip t.dst_lt,
          bswap16_inv id.src_port t.src_port_lt,
          bswap16_inv id.dst_port t.dst_port_lt,
        )
        (ground arith)

  -- the packet that was queued last
  record Sent (n' : Net) (payload : Message) (len : ℕ) (id : IpTuple) : Type 0 where
    m : ℕ
    dhost : ℕ
    before : List ℕ
    stale : Packet
    queued : n'.txq.bufs ≡ before ++ (m ∷ [])
    sender : Net
    host : sender.host_addr ≡ n'.host_addr
    packet : n'.packets m ≡ udp_packet hash chksum sender payload len id dhost stale

  eth_send-queues :
      (q : TxQueue) (p : Packet) (m : ℕ) (q' : TxQueue)
      → eth_send q p m ≡ some (success, q')
      → q'.bufs ≡ q.bufs ++ (m ∷ [])
  unfolding eth_send
  eth_send-queues q p m q' h = ground arith

  send_or_free-success :
      (n : Net) (m : ℕ) (o : Option (Status × TxQueue)) {n' : Net}
      → send_or_free n m o ≡ some (success, n')
      → (q : TxQueue) × (o ≡ some (success, q)) × (record n { txq = q } ≡ n')
  unfolding send_or_free
  send_or_free-success n m none h = cc
  send_or_free-success n m (some (success, q)) h = (q, refl, cc)
  send_or_free-success n m (some (failed e, q)) h = cc

  queued-Sent :
      (payload : Message) (len : ℕ) (id : IpTuple) (m dhost : ℕ) (n n' : Net) (p : Packet)
      → p ≡ udp_packet hash chksum n payload len id dhost (n.packets m)
      → send_or_free (record n { packets = update n.packets m p }) m (eth_send n.txq p m)
        ≡ some (success, n')
      → Sent n' payload len id
  queued-Sent payload len id m dhost n n' p made h =
      let (q, e, same) =
        send_or_free-success (record n { packets = update n.packets m p }) m (eth_send n.txq p m)
          h in
      record {
        m = m;
        dhost = dhost;
        before = n.txq.bufs;
        stale = n.packets m;
        sender = n;
        queued = ap (λ (x : Net). x.txq.bufs) (sym same) ∙ eth_send-queues n.txq p m q e;
        host = ap (λ (x : Net). x.host_addr) same;
        packet = ap (λ (x : Net). x.packets m) (sym same) ∙ update_self n.packets m p ∙ made;
      }

  resolved-eq :
      (payload : Message) (len : ℕ) (id : IpTuple) (m dhost : ℕ) (n : Net)
      → send_resolved hash chksum payload len id m (mac_is dhost, n)
        ≡ send_or_free
            (record n {
              packets =
                  update n.packets m (udp_packet hash chksum n payload len id dhost (n.packets m));
            })
            m
            (eth_send n.txq (udp_packet hash chksum n payload len id dhost (n.packets m)) m)
  unfolding send_resolved
  resolved-eq payload len id m dhost n = refl

  no_mac-fails :
      (payload : Message) (len : ℕ) (id : IpTuple) (m : ℕ) (e : Errno) (n n' : Net)
      → send_resolved hash chksum payload len id m (no_mac e, n) ≢ some (success, n')
  unfolding send_resolved
  no_mac-fails payload len id m e n n' h = cc

  send_resolved-Sent :
      (payload : Message) (len : ℕ) (id : IpTuple) (m : ℕ) (r : MacResult) (n n' : Net)
      → send_resolved hash chksum payload len id m (r, n) ≡ some (success, n')
      → Sent n' payload len id
  send_resolved-Sent payload len id m (no_mac e) n n' h =
      absurd (no_mac-fails payload len id m e n n' h)
  send_resolved-Sent payload len id m (mac_is dhost) n n' h =
      queued-Sent payload len id m dhost n n' _ refl
        (sym (resolved-eq payload len id m dhost n) ∙ h)

  in_mbuf-eq :
      (n : Net) (payload : Message) (len : ℕ) (id : IpTuple) (m : ℕ) (pool : Mempool)
      → send_in_mbuf hash chksum n payload len id (some m, pool) ≡ (
          arp_lookup_mac hash (record n { mbuf_pool = pool }) id.dst_ip
          >>= send_resolved hash chksum payload len id m)
  unfolding send_in_mbuf
  in_mbuf-eq n payload len id m pool = refl

  no_mbuf-fails :
      (n n' : Net) (payload : Message) (len : ℕ) (id : IpTuple) (pool : Mempool)
      → send_in_mbuf hash chksum n payload len id (none, pool) ≢ some (success, n')
  unfolding send_in_mbuf
  no_mbuf-fails n n' payload len id pool h = cc

  in_mbuf-Sent :
      (n n' : Net) (payload : Message) (len : ℕ) (id : IpTuple) (r : Option ℕ × Mempool)
      → send_in_mbuf hash chksum n payload len id r ≡ some (success, n')
      → Sent n' payload len id
  in_mbuf-Sent n n' payload len id (none, pool) h =
      absurd (no_mbuf-fails n n' payload len id pool h)
  in_mbuf-Sent n n' payload len id (some m, pool) h =
      let (r, e, sent) =
        >>=_some (arp_lookup_mac hash (record n { mbuf_pool = pool }) id.dst_ip)
          (send_resolved hash chksum payload len id m)
          (sym (in_mbuf-eq n payload len id m pool) ∙ h) in
      send_resolved-Sent payload len id m r.0 r.1 n' sent

  send_one-short :
      (n : Net) (payload : Message) (len : ℕ) (id : IpTuple)
      → ltb udp_max_len len ≡ false
      → udp_send_one hash chksum n payload len id
        ≡ send_in_mbuf hash chksum n payload len id (alloc n.mbuf_pool)
  unfolding udp_send_one
  send_one-short n payload len id short = rw short refl

  send_one-long :
      (n n' : Net) (payload : Message) (len : ℕ) (id : IpTuple)
      → ltb udp_max_len len ≡ true
      → udp_send_one hash chksum n payload len id ≢ some (success, n')
  unfolding udp_send_one
  send_one-long n n' payload len id long = rw long (λ h. cc h)

  udp_send_one-Sent :
      (n n' : Net) (payload : Message) (len : ℕ) (id : IpTuple)
      → udp_send_one hash chksum n payload len id ≡ some (success, n')
      → Sent n' payload len id × (len ≤ udp_max_len)
  udp_send_one-Sent n n' payload len id h = elim (Bool-cases (ltb udp_max_len len)) [
    | inl long ↦ absurd (send_one-long n n' payload len id long h)
    | inr short ↦ (
      in_mbuf-Sent n n' payload len id (alloc n.mbuf_pool)
          (sym (send_one-short n payload len id short) ∙ h),
      not_lt _ _ short,
    )
  ]

  -- When `udp_send_one` of a whole message, of 165 bytes at least, succeeds, the packet queued last is one
  -- in which `parse_packet` finds the message that was sent, the sender's own address, and the other
  -- addresses and ports of the tuple, if these have 32 and 16 bits.
  pub udp_send_one-parse :
      (n n' : Net) (payload : Message) (len : ℕ) (id : IpTuple)
      → IsTuple n'.host_addr id
      → message_size ≤ len
      → udp_send_one hash chksum n payload len id ≡ some (success, n')
      → (m : ℕ) × (before : List ℕ) × (n'.txq.bufs ≡ before ++ (m ∷ []))
        × (parse_packet (received (n'.packets m))
            ≡ some (payload, record id { src_ip = n'.host_addr }))
  udp_send_one-parse n n' payload len id t whole h =
      let (s, few) = udp_send_one-Sent n n' payload len id h in
      (
        s.m,
        s.before,
        s.queued,
        rw (s.packet, sym s.host)
            (udp_packet-parse s.sender payload len id s.dhost s.stale (rw s.host t) whole few),
      )

  udp_packet-valid :
      (n : Net) (payload : Message) (len : ℕ) (id : IpTuple) (dhost : ℕ) (p : Packet)
      → len ≤ udp_max_len
      → id.dst_port < 2 ^ 16
      → let p' = udp_packet hash chksum n payload len id dhost p in
        (ip_valid p' ≡ (hton16 p.ip.off % 2 ^ 14 == 0))
        × (udp_fits p' ≡ true)
        × (p'.ethtype ≡ hton16 ethtype_ip)
        × (p'.ip.proto ≡ ipproto_udp)
        × (hton16 p'.udp.dst_port ≡ id.dst_port)
  unfolding udp_packet ip_valid udp_fits
  udp_packet-valid n payload len id dhost p few port = (
    rw (bswap16_inv (u16 (20 + u16 (len + 8))) (omega arith)) (ground arith),
    rw (bswap16_inv (u16 (len + 8)) (omega arith)) (ground arith),
    refl,
    refl,
    bswap16_inv id.dst_port port,
  )

  -- A packet of `udp_send_one`, not for the exit port, passes `eth_input` of the receiver if the fragment
  -- field that stood in the mbuf's memory has no fragment bits; else it is dropped, since
  -- `ip_setup_header` leaves that field as it was.
  pub udp_packet-received :
      (pool : Mempool) (m : ℕ) (n : Net) (payload : Message) (len : ℕ) (id : IpTuple) (dhost : ℕ)
      (stale : Packet)
      → len ≤ udp_max_len
      → id.dst_port < 2 ^ 16
      → id.dst_port ≢ exit_port
      → let p = udp_packet hash chksum n payload len id dhost stale in
        (hton16 stale.ip.off % 2 ^ 14 ≡ 0 → eth_input pool m p ≡ (accepted, pool))
        × (hton16 stale.ip.off % 2 ^ 14 ≢ 0 → eth_input pool m p ≡ (dropped, free pool m))
  udp_packet-received pool m n payload len id dhost stale few port other =
      let v = udp_packet-valid n payload len id dhost stale few port in
      let p = udp_packet hash chksum n payload len id dhost stale in
      let u = eth_input-udp pool m p v.2 v.3 v.1 (λ e. other (sym v.4 ∙ e)) in
      ((λ clean. u.0 (v.0 ∙ eq→true _ _ clean)), λ dirty. u.1 (v.0 ∙ ne→false _ _ dirty))
