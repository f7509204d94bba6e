-- ===== src/Net/Input/Accepted.antt =====
-- The length tests of `udp_input` (dp/net/udp.c) and of the worker's `parse_packet` (dp/core/worker.c).
use horus_app_eval.Prelude.{◌≡◌, ◌≢◌, inl, inr, arith, true, false, Bool-cases, ℕ, some}
use horus_app_eval.Mempool.{Mempool}
use horus_app_eval.Worker.{parse_packet}
use horus_app_eval.Net.{Packet}
use horus_app_eval.Net.ByteOrder.{hton16, hton32}
use horus_app_eval.Net.Input.{accepted, eth_input, received, udp_fits}

unfit-refused :
    (pool : Mempool) (m : ℕ) (p : Packet) → udp_fits p ≡ false → (eth_input pool m p).0 ≢ accepted
unfolding eth_input
unfit-refused pool m p short e = ground arith

fit-parse :
    (p : Packet)
    → udp_fits p ≡ true
    → parse_packet (received p)
      ≡ some (
        p.payload,
        record {
          src_ip = hton32 p.ip.src_addr;
          dst_ip = hton32 p.ip.dst_addr;
          src_port = hton16 p.udp.src_port;
          dst_port = hton16 p.udp.dst_port;
        },
      )
unfolding parse_packet received udp_fits
fit-parse p fits = ground arith

-- Every frame that `eth_input` accepts is one in which `parse_packet` finds the payload, with the addresses
-- and ports of its headers in the byte order of the machine: no such frame leaves the worker without data.
pub eth_input-parse :
    (pool : Mempool) (m : ℕ) (p : Packet)
    → (eth_input pool m p).0 ≡ accepted
    → parse_packet (received p)
      ≡ some (
        p.payload,
        record {
          src_ip = hton32 p.ip.src_addr;
          dst_ip = hton32 p.ip.dst_addr;
          src_port = hton16 p.udp.src_port;
          dst_port = hton16 p.udp.dst_port;
        },
      )
eth_input-parse pool m p taken = elim (Bool-cases (udp_fits p)) [
  | inl fits ↦ fit-parse p fits
  | inr short ↦ absurd (unfit-refused pool m p short taken)
]
