-- ===== src/Net/Arp/Entries.antt =====
-- The life of an entry: learnt, inserted, asked for again, given up.
use horus_app_eval.Prelude.{
  ℕ, ◌<◌, ◌≡◌, ◌≢◌, refl, arith, true, false, Bool, Option, none, some, List, [], ◌∷◌, ◌++◌, inl,
  inr, if◌then◌else◌, ◌>>=◌, ap, sym, ◌∙◌,
}
use mathlib.Core.Path.{subst}
use horus_app_eval.Mempool.{Mempool, free}
use horus_app_eval.Mempool.Count.{available, cells, cells-free, freed}
use horus_app_eval.Mempool.Available.{alloc_room, alloc-cases}
use horus_app_eval.Net.{Net, ArpEntry, PendingPkt, Status, success, eagain}
use horus_app_eval.Net.Arp.{
  entry_of, bucket, set_bucket, put_entry, create_entry, arp_lookup, fresh_entry, arp_lookup_mac,
  entry_mac, mac_is, MacResult, no_mac, start_resolving,
}
use horus_app_eval.Net.Arp.Update.{
  arp_update_mac, update_found, updated, arp_insert, insert_found, insert_new, arp_timer_handler,
  give_up, drop_pending, undispatched,
}
use horus_app_eval.Net.Arp.Table.{
  arp_lookup-known, arp_lookup-missing, arp_lookup_mac-valid, put_entry-known, put_entry-others,
  entry_of-addr,
}

bind-no_mac :
    (o : Option (Status × Net)) (f : Status × Net → Net) {found : ℕ} {n' : Net}
    → ◌>>=◌ {B = MacResult × Net} o (λ r. some (no_mac eagain, f r)) ≢ some (mac_is found, n')
bind-no_mac none f h = cc
bind-no_mac (some r) f h = cc

module _ (hash : ℕ → ℕ) where
  -- the table after `arp_update_mac` found the entry `e`
  abbrev learnt : Net → ArpEntry → ℕ → Net
  learnt n e mac = record (put_entry hash n (updated e mac)) {
    dispatched = n.dispatched ++ undispatched e.pending_pkts;
  }

  arp_update_mac-known :
      (n : Net) (mac : ℕ) (create_okay : Bool) (e : ArpEntry)
      → entry_of (bucket hash n e.addr) e.addr ≡ some e
      → (e.static ≡ false
          → arp_update_mac hash n e.addr mac create_okay ≡ some (success, learnt n e mac))
        × (e.static ≡ true → arp_update_mac hash n e.addr mac create_okay ≡ some (success, n))
  unfolding arp_update_mac update_found
  arp_update_mac-known n mac create_okay e known = (
    (λ dynamic. rw (arp_lookup-known hash n e.addr create_okay known, ◌>>=◌, dynamic) refl),
    λ static. rw (arp_lookup-known hash n e.addr create_okay known, ◌>>=◌, static) refl,
  )

  learnt-lookup :
      (n : Net) (mac : ℕ) (e : ArpEntry)
      → entry_of (bucket hash n e.addr) e.addr ≡ some e
      → arp_lookup_mac hash (learnt n e mac) e.addr ≡ some (mac_is mac, learnt n e mac)
  unfolding updated
  learnt-lookup n mac e known =
      arp_lookup_mac-valid hash (learnt n e mac) e.addr {e = updated e mac}
        (put_entry-known hash n (updated e mac) known) refl

  learnt-others :
      (n : Net) (mac : ℕ) (e : ArpEntry) (a : ℕ)
      → a ≢ e.addr
      → entry_of (bucket hash (learnt n e mac) a) a ≡ entry_of (bucket hash n a) a
  unfolding updated
  learnt-others n mac e a ne = put_entry-others hash n (updated e mac) a ne

  -- Once `arp_update_mac` has stored an address in an entry that is not static, `arp_lookup_mac` gives
  -- it back, and every other address keeps its entry.
  pub arp_update_mac-lookup :
      (n : Net) (addr mac : ℕ) (create_okay : Bool) (e : ArpEntry)
      → entry_of (bucket hash n addr) addr ≡ some e
      → e.static ≡ false
      → (n' : Net) × (arp_update_mac hash n addr mac create_okay ≡ some (success, n'))
        × (arp_lookup_mac hash n' addr ≡ some (mac_is mac, n'))
        × ((a : ℕ) → a ≢ addr → entry_of (bucket hash n' a) a ≡ entry_of (bucket hash n a) a)
  arp_update_mac-lookup n addr mac create_okay e known dynamic =
      let same = entry_of-addr (bucket hash n addr) addr known in
      let known' = subst (λ x. entry_of (bucket hash n x) x ≡ some e) (sym same) known in
      (
        learnt n e mac,
        subst (λ x. arp_update_mac hash n x mac create_okay ≡ some (success, learnt n e mac)) same
            ((arp_update_mac-known n mac create_okay e known').0 dynamic),
        subst (λ x. arp_lookup_mac hash (learnt n e mac) x ≡ some (mac_is mac, learnt n e mac)) same
            (learnt-lookup n mac e known'),
        λ a ne. learnt-others n mac e a (λ eq. ne (eq ∙ same)),
      )

  -- the table after `arp_insert` made an entry in the memory `c`
  abbrev inserted : Net → ℕ → ℕ → ℕ → Mempool → Net
  inserted n addr mac c pool =
      set_bucket hash (record n { arp_pool = pool }) addr
        (record (fresh_entry c addr) { mac = mac; valid = true; static = true }
          ∷ bucket hash n addr)

  inserted-known :
      (n : Net) (addr mac c : ℕ) (pool : Mempool)
      → entry_of (bucket hash (inserted n addr mac c pool) addr) addr
        ≡ some (record (fresh_entry c addr) { mac = mac; valid = true; static = true })
  unfolding entry_of
  inserted-known n addr mac c pool = ground arith

  -- `arp_insert` of an address without an entry makes one, if there is memory, that `arp_lookup_mac`
  -- gives back and that no `arp_update_mac` changes.
  pub arp_insert-static :
      (n : Net) (addr mac : ℕ)
      → entry_of (bucket hash n addr) addr ≡ none
      → 0 < available n.arp_pool
      → (n' : Net) × (arp_insert hash n addr mac ≡ some (success, n'))
        × (arp_lookup_mac hash n' addr ≡ some (mac_is mac, n'))
        × ((mac' : ℕ) (create_okay : Bool)
            → arp_update_mac hash n' addr mac' create_okay ≡ some (success, n'))
  unfolding arp_insert insert_found insert_new
  arp_insert-static n addr mac unknown room =
      let (c, pool, got, _) = alloc_room n.arp_pool room in
      let known = inserted-known n addr mac c pool in
      (
        inserted n addr mac c pool,
        rw (arp_lookup-missing hash n addr unknown, ◌>>=◌)
            (ap (λ r. some (insert_new hash n addr mac r)) got),
        arp_lookup_mac-valid hash (inserted n addr mac c pool) addr known refl,
        λ mac' create_okay.
            (arp_update_mac-known (inserted n addr mac c pool) mac' create_okay _ known).1 refl,
      )

  start_resolving-no_mac :
      (n : Net) (e : ArpEntry) (found : ℕ) (n' : Net)
      → start_resolving hash n e ≢ some (mac_is found, n')
  unfolding start_resolving
  start_resolving-no_mac n e found n' h = bind-no_mac _ _ h

  unresolved :
      (n : Net) (e : ArpEntry)
      → e.valid ≡ false
      → e.timer ≡ none
      → entry_mac hash (some e, n) ≡ start_resolving hash n e
  unfolding entry_mac
  unresolved n e invalid idle =
      ap
        (λ (b : Bool).
          if b
          then some (mac_is e.mac, n)
          else elim e.timer [ some d ↦ some (no_mac eagain, n) | none ↦ start_resolving hash n e ])
        invalid
      ∙ ap
          (λ (t : Option ℕ). elim t as (λ _. Option (MacResult × Net)) [
            | some d ↦ some (no_mac eagain, n)
            | none ↦ start_resolving hash n e
          ])
          idle

  resolving_again :
      (n : Net) (e : ArpEntry)
      → entry_of (bucket hash n e.addr) e.addr ≡ some e
      → e.valid ≡ false
      → e.timer ≡ none
      → arp_lookup_mac hash n e.addr ≡ start_resolving hash n e
  unfolding arp_lookup_mac entry_mac
  resolving_again n e known invalid idle =
      ap (λ (o : Option (Option ArpEntry × Net)). o >>= entry_mac hash)
        (arp_lookup-known hash n e.addr true known)
      ∙ unresolved n e invalid idle

  reset-unknown :
      (n : Net) (mac : ℕ) (e : ArpEntry)
      → entry_of (bucket hash n e.addr) e.addr ≡ some e
      → e.valid ≡ false
      → let n' = put_entry hash n (record e { mac = mac; timer = none }) in
        (arp_insert hash n e.addr mac ≡ some (success, n'))
        × ((found : ℕ) (n'' : Net) → arp_lookup_mac hash n' e.addr ≢ some (mac_is found, n''))
  unfolding arp_insert insert_found arp_lookup_mac entry_mac
  reset-unknown n mac e known invalid =
      let e' : ArpEntry = record e { mac = mac; timer = none } in
      let n' = put_entry hash n e' in
      (
        rw (arp_lookup-known hash n e.addr false known, ◌>>=◌) refl,
        λ found n'' h.
            start_resolving-no_mac n' e' found n''
              (sym (resolving_again n' e' (put_entry-known hash n e' known) invalid refl) ∙ h),
      )

  -- `arp_insert` for an address whose entry holds no valid address does not make it valid:
  -- `arp_lookup_mac` still finds none.
  arp_insert-unresolved :
      (n : Net) (addr mac : ℕ) (e : ArpEntry)
      → entry_of (bucket hash n addr) addr ≡ some e
      → e.valid ≡ false
      → (n' : Net) × (arp_insert hash n addr mac ≡ some (success, n'))
        × ((found : ℕ) (n'' : Net) → arp_lookup_mac hash n' addr ≢ some (mac_is found, n''))
  arp_insert-unresolved n addr mac e known invalid =
      let same = entry_of-addr (bucket hash n addr) addr known in
      let n' = put_entry hash n (record e { mac = mac; timer = none }) in
      let r =
        reset-unknown n mac e (subst (λ x. entry_of (bucket hash n x) x ≡ some e) (sym same) known)
          invalid in
      (
        n',
        subst (λ x. arp_insert hash n x mac ≡ some (success, n')) same r.0,
        λ found n''.
            subst (λ x. arp_lookup_mac hash n' x ≢ some (mac_is found, n'')) same (r.1 found n''),
      )

  -- Where `arp_lookup` has no memory for a new entry it returns NULL and keeps `arp_lock`: the next
  -- look-up that has to make an entry never returns.
  pub arp_lookup-locked :
      (n : Net) (addr : ℕ)
      → entry_of (bucket hash n addr) addr ≡ none
      → n.arp_lock ≡ false
      → available n.arp_pool ≡ 0
      → (n' : Net) × (arp_lookup hash n addr true ≡ some (none, n'))
        × ((a : ℕ) → entry_of (bucket hash n' a) a ≡ none → arp_lookup hash n' a true ≡ none)
  unfolding arp_lookup create_entry
  arp_lookup-locked n addr unknown unlocked empty = elim (alloc-cases n.arp_pool) [
    | inl (e, zero_left) ↦ (record n { arp_lock = true }, ground arith, λ a missing. ground arith)
    | inr (c, pool, e, count) ↦ absurd (omega arith)
  ]

-- The mbufs and the cells of the waiting packets, in the order of the list.
abbrev pub mbufs_of : List PendingPkt → List ℕ
mbufs_of [] = []
mbufs_of (p ∷ ps) = p.mbuf ∷ mbufs_of ps

abbrev pub cells_of : List PendingPkt → List ℕ
cells_of [] = []
cells_of (p ∷ ps) = p.cell ∷ cells_of ps

-- what the entry's waiting packets held comes back
drop_pending-cells :
    (ps : List PendingPkt) (n : Net)
    → (cells (drop_pending ps n).mbuf_pool ≡ freed (mbufs_of ps) (cells n.mbuf_pool))
      × (cells (drop_pending ps n).pending_pool ≡ freed (cells_of ps) (cells n.pending_pool))
      × ((drop_pending ps n).arp_pool ≡ n.arp_pool)
      × ((drop_pending ps n).txq ≡ n.txq)
unfolding drop_pending
drop_pending-cells [] n = (refl, refl, refl, refl)
drop_pending-cells (p ∷ ps) n =
    let n' : Net = record n {
      mbuf_pool = free n.mbuf_pool p.mbuf;
      pending_pool = free n.pending_pool p.cell;
    } in
    let (mbufs, waiting, entries, queue) = drop_pending-cells ps n' in
    (
      mbufs ∙ ap (freed (mbufs_of ps)) (cells-free n.mbuf_pool p.mbuf),
      waiting ∙ ap (freed (cells_of ps)) (cells-free n.pending_pool p.cell),
      entries,
      queue,
    )

-- When the third time-out of an entry finds it unanswered, `arp_timer_handler` gives back, for each packet
-- that waits for it, the mbuf to the free mbufs and the cell to the pool of waiting packets, and its own
-- memory to the pool of entries; it sends nothing.
pub arp_timer_handler-gives_up :
    (hash : ℕ → ℕ) (n : Net) (e : ArpEntry)
    → e.retries ≡ 2
    → (n' : Net) × (arp_timer_handler hash n e ≡ some n')
      × (cells n'.mbuf_pool ≡ freed (mbufs_of e.pending_pkts) (cells n.mbuf_pool))
      × (cells n'.pending_pool ≡ freed (cells_of e.pending_pkts) (cells n.pending_pool))
      × (cells n'.arp_pool ≡ e.cell ∷ cells n.arp_pool)
      × (n'.txq ≡ n.txq)
unfolding arp_timer_handler give_up
arp_timer_handler-gives_up hash n e third =
    let (mbufs, waiting, entries, queue) = drop_pending-cells e.pending_pkts n in
    (
      give_up hash n e,
      rw third refl,
      mbufs,
      waiting,
      cells-free (drop_pending e.pending_pkts n).arp_pool e.cell
          ∙ ap (λ (p : Mempool). e.cell ∷ cells p) entries,
      queue,
    )
