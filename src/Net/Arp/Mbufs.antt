-- ===== src/Net/Arp/Mbufs.antt =====
-- No mbuf is lost when the table sends a request: each is free or in the transmit queue.
use horus_app_eval.Prelude.{
  ℕ, ◌+◌, ◌-◌, ◌≤◌, ◌<◌, ◌≡◌, refl, arith, ap, true, false, Option, some, Option-cases, length,
  ◌++◌, [], ◌∷◌, length-append, ◌>>=◌, Bool-cases, inl, inr, ◌∙◌, update, ◌⊎◌,
}
use horus_app_eval.Mempool.Count.{available}
use horus_app_eval.Mempool.Available.{available-free, alloc-cases, alloc_room}
use horus_app_eval.Net.{
  Net, ArpEntry, eagain, Packet, TxQueue, Status, success, failed, ebusy, eth_send_one,
  tx_queue_size,
}
use horus_app_eval.Net.Arp.Table.{arp_lookup-known, arp_lookup-new}
use horus_app_eval.Net.Arp.{
  arp_send_pkt, send_allocated, sent_or_freed, arp_packet, arp_pkt_size, arp_lookup_mac, entry_mac,
  entry_of, start_resolving, bucket, put_entry, no_mac, arp_op_request, arp_resolve_timeout,
  eth_addr_broadcast, fresh_entry, set_bucket,
}

-- The descriptors that are left and the buffers that are used fit in the queue's array.
abbrev pub IsFitting : TxQueue → Type 0
IsFitting q = q.cap + length q.bufs ≤ tx_queue_size

-- the mbufs that are free, and those that wait to be sent
unfoldable pub held : Net → ℕ
held n = available n.mbuf_pool + length n.txq.bufs

-- What sending one packet gives: no fault, `k` mbufs more held than before, and a queue that fits.
pub record Held {ℓ} {A : Type ℓ} (n : Net) (k : ℕ) (r : Option (A × Net)) : Type ℓ where
  pub result : A
  pub after : Net
  pub runs : r ≡ some (result, after)
  pub kept : held after ≡ held n + k
  pub fits : IsFitting after.txq
  pub unlocked : after.arp_lock ≡ n.arp_lock

pub Held-of :
    {A : Type 0} {n after : Net} {k : ℕ} {r : Option (A × Net)} {result : A}
    → r ≡ some (result, after)
    → held after ≡ held n + k
    → IsFitting after.txq
    → after.arp_lock ≡ n.arp_lock
    → Held n k r
Held-of {after} {result} e kept fits unlocked = record {
  result = result;
  after = after;
  runs = e;
  kept = kept;
  fits = fits;
  unlocked = unlocked;
}

abbrev sent_of : ℕ → Option (Status × Net) → Option (Status × Net)
sent_of m o = o >>= λ r. some (sent_or_freed m r)

eth_send_one-cases :
    (n : Net) (m len : ℕ)
    → IsFitting n.txq
    → let p : Packet = record (n.packets m) { len = len; nr_iov = 0 } in
      (eth_send_one n m len ≡ some (failed ebusy, record n { packets = update n.packets m p }))
      ⊎ (eth_send_one n m len
          ≡ some (
            success,
            record n {
              txq = record { cap = n.txq.cap - 1; bufs = n.txq.bufs ++ (m ∷ []) };
              packets = update n.packets m p;
            },
          ))
        × (1 ≤ n.txq.cap)
unfolding eth_send_one
eth_send_one-cases n m len h = ground arith

-- The mbuf `m` was taken: afterwards it is queued or free.
pub sent-Held :
    (n : Net) (m len : ℕ)
    → IsFitting n.txq
    → Held n 1 (eth_send_one n m len >>= λ r. some (sent_or_freed m r))
unfolding held sent_or_freed
sent-Held n m len h = elim (eth_send_one-cases n m len h) [
  | inl e ↦ Held-of (ap (sent_of m) e) (omega (arith, available-free n.mbuf_pool m)) h refl
  | inr (e, room) ↦
      Held-of (ap (sent_of m) e) (omega (arith, length-append n.txq.bufs (m ∷ [])))
        (omega (arith, length-append n.txq.bufs (m ∷ []))) refl
]

-- `arp_send_pkt` loses no mbuf: the one that it takes is queued or freed.
pub arp_send_pkt-Held :
    (n : Net) (op ip mac : ℕ) → IsFitting n.txq → Held n 0 (arp_send_pkt n op ip mac)
unfolding arp_send_pkt send_allocated held
arp_send_pkt-Held n op ip mac h = elim (alloc-cases n.mbuf_pool) [
  | inl (e, empty) ↦ Held-of (ap (send_allocated n op ip mac) e) (omega arith) h refl
  | inr (m, pool, e, count) ↦
      let given : Net = record n {
        mbuf_pool = pool;
        packets = update n.packets m (arp_packet n op ip mac (n.packets m));
      } in
      let s = sent-Held given m arp_pkt_size h in
      Held-of (ap (send_allocated n op ip mac) e ∙ s.runs) (omega (arith, s.kept, count)) s.fits
        s.unlocked
]

pub Held-same :
    {A : Type 0} {n n' : Net} {r : Option (A × Net)}
    → held n' ≡ held n
    → n'.arp_lock ≡ n.arp_lock
    → Held n' 0 r
    → Held n 0 r
Held-same same lock h = Held-of h.runs (omega (arith, same, h.kept)) h.fits (h.unlocked ∙ lock)

module _ (hash : ℕ → ℕ) where
  -- The address has an entry, or one can be made.
  abbrev pub CanLookup : Net → ℕ → Type 0
  CanLookup n addr =
      ((e : ArpEntry) × (entry_of (bucket hash n addr) addr ≡ some e))
      ⊎ ((n.arp_lock ≡ false) × (0 < available n.arp_pool))

  start_resolving-Held :
      (n : Net) (e : ArpEntry) → IsFitting n.txq → Held n 0 (start_resolving hash n e)
  unfolding start_resolving held
  start_resolving-Held n e h =
      let asked : ArpEntry = record e { resolving = true } in
      let s =
        arp_send_pkt-Held (put_entry hash n asked) arp_op_request e.addr eth_addr_broadcast h in
      Held-of
        (ap
          (λ (o : Option (Status × Net)). o >>= λ r.
            some (
              no_mac eagain,
              put_entry hash r.1 (record asked { timer = some arp_resolve_timeout }),
            ))
          s.runs)
        (omega (arith, s.kept)) s.fits s.unlocked

  found-Held : (n : Net) (e : ArpEntry) → IsFitting n.txq → Held n 0 (entry_mac hash (some e, n))
  unfolding entry_mac held
  found-Held n e h = elim (Bool-cases e.valid) [
    | inl v ↦ rw v (Held-of refl (omega arith) h refl)
    | inr v ↦ rw v (elim (Option-cases e.timer) [
      | inl t ↦ rw t (start_resolving-Held n e h)
      | inr (d, t) ↦ rw t (Held-of refl (omega arith) h refl)
    ])
  ]

  -- `arp_lookup_mac` returns, and loses no mbuf, if the free descriptors of the transmit queue fit in its
  -- array and the address has an entry or one can be made.
  pub arp_lookup_mac-Held :
      (n : Net) (addr : ℕ)
      → IsFitting n.txq
      → CanLookup n addr
      → Held n 0 (arp_lookup_mac hash n addr)
  unfolding arp_lookup_mac held
  arp_lookup_mac-Held n addr h (inl (e, known)) =
      rw (arp_lookup-known hash n addr true known, ◌>>=◌) (found-Held n e h)
  arp_lookup_mac-Held n addr h (inr (unlocked, room)) =
      elim (Option-cases (entry_of (bucket hash n addr) addr)) [
        | inr (e, known) ↦ rw (arp_lookup-known hash n addr true known, ◌>>=◌) (found-Held n e h)
        | inl unknown ↦
            let (c, pool, got, _) = alloc_room n.arp_pool room in
            let e = fresh_entry c addr in
            rw (arp_lookup-new hash n addr c pool unknown unlocked got, ◌>>=◌)
              (Held-same refl refl (
                found-Held
                  (set_bucket hash (record n { arp_pool = pool }) addr (e ∷ bucket hash n addr)) e
                  h))
      ]
