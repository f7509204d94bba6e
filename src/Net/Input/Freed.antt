-- ===== src/Net/Input/Freed.antt =====
-- How often the input path frees the mbuf.
use horus_app_eval.Prelude.{ℕ, ◌≡◌, ◌≢◌, ◌⊎◌, inl, inr, refl, arith, true, false, Bool-cases, ◌∷◌}
use horus_app_eval.Mempool.{Mempool, free}
use horus_app_eval.Mempool.Count.{cells, cells-free}
use horus_app_eval.Net.{Packet}
use horus_app_eval.Net.ByteOrder.{hton16}
use horus_app_eval.Net.Arp.{ethtype_ip}
use horus_app_eval.Net.Udp.{ipproto_udp}
use horus_app_eval.Net.Input.{accepted, dropped, exits, eth_input, ip_valid, udp_fits}

-- the frames whose UDP datagram is longer than the frame
abbrev pub IsShort : Packet → Type 0
IsShort p =
    (p.ethtype ≡ hton16 ethtype_ip)
    × (ip_valid p ≡ true)
    × (p.ip.proto ≡ ipproto_udp)
    × (udp_fits p ≡ false)

once-eq :
    (pool : Mempool) (m : ℕ) (p : Packet)
    → udp_fits p ≡ true
    → (eth_input pool m p ≡ (dropped, free pool m))
      ⊎ (eth_input pool m p ≡ (accepted, pool))
      ⊎ (eth_input pool m p ≡ (exits, pool))
unfolding eth_input
once-eq pool m p fits = elim (Bool-cases (ip_valid p)) [
  | inl valid ↦ rw (valid, fits) (ground arith)
  | inr refused ↦ rw refused (ground arith)
]

-- A frame that holds its UDP datagram is dropped with its mbuf freed once, or goes on, or ends the
-- process, with its mbuf kept.
pub eth_input-once :
    (pool : Mempool) (m : ℕ) (p : Packet)
    → udp_fits p ≡ true
    → (((eth_input pool m p).0 ≡ dropped) × (cells (eth_input pool m p).1 ≡ m ∷ cells pool))
      ⊎ (((eth_input pool m p).0 ≢ dropped) × ((eth_input pool m p).1 ≡ pool))
eth_input-once pool m p fits = elim (once-eq pool m p fits) [
  | inl e ↦ inl (rw e (refl, cells-free pool m))
  | inr (inl e) ↦ inr (rw e ((λ h. cc h), refl))
  | inr (inr e) ↦ inr (rw e ((λ h. cc h), refl))
]
