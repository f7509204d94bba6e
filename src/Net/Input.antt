-- ===== src/Net/Input.antt =====
-- `eth_input` and `ip_input` of dp/net/ip.c and `udp_input` of dp/net/udp.c (shinjuku-rocksdb): which
-- received frames go on to the networker. Each reads the mbuf `m` and may free it.
pub mod Freed
pub mod RoundTrip
pub mod Accepted
use horus_app_eval.Prelude.{
  ℕ, ◌+◌, ◌-◌, ◌*◌, ◌%◌, ◌^◌, Bool, true, false, ◌&&◌, ◌||◌, not, if◌then◌else◌, ltb, leb, ◌==◌,
}
use horus_app_eval.Mempool.{Mempool, free}
use horus_app_eval.Net.{Packet}
use horus_app_eval.Net.ByteOrder.{hton16, hton32}
use horus_app_eval.Net.Arp.{ethtype_ip}
use horus_app_eval.Net.Udp.{ipproto_udp}
use horus_app_eval.Worker.{Frame}

-- what `parse_packet` of the worker reads in a frame
unfoldable pub received : Packet → Frame
received p = record {
  len = p.len;
  header_len = p.ip.header_len;
  udp_len = hton16 p.udp.len;
  src_addr = hton32 p.ip.src_addr;
  dst_addr = hton32 p.ip.dst_addr;
  src_port = hton16 p.udp.src_port;
  dst_port = hton16 p.udp.dst_port;
  message = p.payload;
}

-- the result, 0 or -1, or the end of the process
pub data Verdict : Type 0 where
  accepted dropped exits : Verdict

-- the port that ends the server
abbrev pub exit_port : ℕ
exit_port = 6666

-- `goto out` of `ip_input`
abbrev pub drop : Mempool → ℕ → Verdict × Mempool
drop pool m = (dropped, free pool m)

-- the bytes of the frame before the UDP header
abbrev pub udp_offset : Packet → ℕ
udp_offset p = 14 + p.ip.header_len * 4

unfoldable pub udp_fits : Packet → Bool
udp_fits p = leb (udp_offset p + hton16 p.udp.len) p.len

unfoldable pub udp_input : Mempool → ℕ → Packet → Verdict × Mempool
udp_input pool m p =
    if udp_fits p
    then (if hton16 p.udp.dst_port == exit_port then (exits, pool) else (accepted, pool))
    else (dropped, free pool m)

-- `ret < 0` behind the call of `udp_input`
unfoldable pub after_udp : ℕ → Verdict × Mempool → Verdict × Mempool
after_udp m (dropped, pool) = drop pool m
after_udp m (accepted, pool) = (accepted, pool)
after_udp m (exits, pool) = (exits, pool)

-- The checks of `ip_input`: the lengths, the version, and that the frame is no fragment, which are the
-- lower fourteen bits of `off`.
unfoldable pub ip_valid : Packet → Bool
ip_valid p =
    leb (14 + 20) p.len
    && (p.ip.version == 4)
    && leb 5 p.ip.header_len
    && (hton16 p.ip.off % 2 ^ 14 == 0)
    && leb (p.ip.header_len * 4) (hton16 p.ip.len)
    && leb (14 + hton16 p.ip.len) p.len

unfoldable pub ip_input : Mempool → ℕ → Packet → Verdict × Mempool
unfolding udp_input after_udp
ip_input pool m p =
    if ip_valid p && (p.ip.proto == ipproto_udp)
    then after_udp m (udp_input pool m p)
    else drop pool m

-- `eth_input`: anything but IP is dropped, ARP too.
unfoldable pub eth_input : Mempool → ℕ → Packet → Verdict × Mempool
unfolding ip_input
eth_input pool m p = if p.ethtype == hton16 ethtype_ip then ip_input pool m p else drop pool m
