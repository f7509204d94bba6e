-- ===== src/Net/Arp/Table.antt =====
-- What the table's look-ups find after the table's changes.
use horus_app_eval.Prelude.{
  ℕ, ◌≡◌, ◌≢◌, refl, arith, true, false, Bool, none, some, List, [], ◌∷◌, update_self, ◌>>=◌,
}
use horus_app_eval.Mempool.{Mempool, alloc}
use horus_app_eval.Net.{Net, ArpEntry}
use horus_app_eval.Net.Arp.{
  entry_of, store_entry, bucket, set_bucket, put_entry, create_entry, arp_lookup, fresh_entry,
  arp_lookup_mac, entry_mac, mac_is, arp_ip_to_idx,
}

pub entry_of-store_entry :
    (es : List ArpEntry) {e : ArpEntry} (e' : ArpEntry)
    → entry_of es e'.addr ≡ some e
    → entry_of (store_entry es e') e'.addr ≡ some e'
unfolding entry_of store_entry
entry_of-store_entry [] e' h = cc
entry_of-store_entry (x ∷ xs) {e} e' h = ground (arith, entry_of-store_entry xs {e = e} e')

-- The other addresses of the chain keep their entries.
pub entry_of-store_entry_ne :
    (es : List ArpEntry) (e' : ArpEntry) (a : ℕ)
    → a ≢ e'.addr
    → entry_of (store_entry es e') a ≡ entry_of es a
unfolding entry_of store_entry
entry_of-store_entry_ne [] e' a ne = refl
entry_of-store_entry_ne (x ∷ xs) e' a ne = ground (arith, entry_of-store_entry_ne xs e' a ne)

pub entry_of-addr :
    (es : List ArpEntry) (addr : ℕ) {e : ArpEntry} → entry_of es addr ≡ some e → e.addr ≡ addr
unfolding entry_of
entry_of-addr [] addr h = cc
entry_of-addr (x ∷ xs) addr {e} h = ground (arith, entry_of-addr xs addr {e = e})

module _ (hash : ℕ → ℕ) where
  pub arp_lookup-known :
      (n : Net) (addr : ℕ) (create_okay : Bool) {e : ArpEntry}
      → entry_of (bucket hash n addr) addr ≡ some e
      → arp_lookup hash n addr create_okay ≡ some (some e, n)
  unfolding arp_lookup
  arp_lookup-known n addr create_okay h = ground arith

  pub arp_lookup-missing :
      (n : Net) (addr : ℕ)
      → entry_of (bucket hash n addr) addr ≡ none
      → arp_lookup hash n addr false ≡ some (none, n)
  unfolding arp_lookup
  arp_lookup-missing n addr h = ground arith

  pub arp_lookup-new :
      (n : Net) (addr c : ℕ) (pool : Mempool)
      → entry_of (bucket hash n addr) addr ≡ none
      → n.arp_lock ≡ false
      → alloc n.arp_pool ≡ (some c, pool)
      → arp_lookup hash n addr true
        ≡ some (
          some (fresh_entry c addr),
          set_bucket hash
              (record n { arp_pool = pool })
              addr
              (fresh_entry c addr ∷ bucket hash n addr),
        )
  unfolding arp_lookup create_entry
  arp_lookup-new n addr c pool h unlocked got = ground arith

  pub arp_lookup_mac-valid :
      (n : Net) (addr : ℕ) {e : ArpEntry}
      → entry_of (bucket hash n addr) addr ≡ some e
      → e.valid ≡ true
      → arp_lookup_mac hash n addr ≡ some (mac_is e.mac, n)
  unfolding arp_lookup_mac entry_mac
  arp_lookup_mac-valid n addr known valid =
      rw (arp_lookup-known n addr true known, ◌>>=◌, valid) refl

  -- the entry is found under its address after it was stored
  pub put_entry-known :
      (n : Net) (e' : ArpEntry) {e : ArpEntry}
      → entry_of (bucket hash n e'.addr) e'.addr ≡ some e
      → entry_of (bucket hash (put_entry hash n e') e'.addr) e'.addr ≡ some e'
  put_entry-known n e' known =
      rw
        (update_self n.arp_tbl (arp_ip_to_idx hash e'.addr)
          (store_entry (bucket hash n e'.addr) e'))
        (entry_of-store_entry (bucket hash n e'.addr) e' known)

  -- and no other address is touched
  pub put_entry-others :
      (n : Net) (e' : ArpEntry) (a : ℕ)
      → a ≢ e'.addr
      → entry_of (bucket hash (put_entry hash n e') a) a ≡ entry_of (bucket hash n a) a
  put_entry-others n e' a ne = ground (arith, entry_of-store_entry_ne (bucket hash n a) e' a ne)
