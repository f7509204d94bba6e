-- ===== src/Configuration/Ports.antt =====
-- The ports of the configuration against the cores that the networker picks.
use horus_app_eval.Prelude.{
  ℕ, zero, suc, ◌+◌, ◌%◌, ◌^◌, ◌≤◌, ◌<◌, ◌≡◌, refl, ap, sym, ◌∙◌, arith, true, false, ◌&&◌, some,
  ltb, update, update_self, update_ne, ◌>>=◌, Bool-cases, inl, inr, min,
}
use horus_app_eval.Prelude.Int.{pos}
use horus_app_eval.Message.{Message}
use horus_app_eval.Net.{success}
use horus_app_eval.Networker.{Config, core_of}
use horus_app_eval.Networker.WorkerIds.{wanted, core_of-cases}
use horus_app_eval.Configuration.{Parameters, Libconfig, port, add_port, unless_failed}
use horus_app_eval.Configuration.Settings.{read_ports, ports_of, parse_port}

-- the fields that the networker uses; CFG_CPU_NETWORKER_INDEX is 1
abbrev pub networker_config : {Str : Type 0} → Parameters Str → Config
networker_config c = record { num_ports = c.num_ports; ports = c.ports; networker_cpu = c.cpu 1 }

abbrev with_port : {Str : Type 0} → ℕ → Parameters Str → Parameters Str
with_port k c = record c {
  ports = update c.ports c.num_ports (k % 2 ^ 16);
  num_ports = c.num_ports + 1;
}

add_port-valid :
    {Str : Type 0} (k : ℕ) (c : Parameters Str)
    → 1 ≤ k
    → k ≤ 65534
    → c.num_ports < 16
    → add_port (pos k) c ≡ some (success, with_port k c)
unfolding add_port
add_port-valid k c low high room = ground arith

module _ {S Str : Type 0} (lib : Libconfig S Str) (s : S) (ids : ℕ → ℕ) (count : ℕ)
    (few : count ≤ 16) (all : min (lib.setting_length s) 16 ≡ count)
    (elems : (i : ℕ) → i < count → lib.get_int_elem s i ≡ pos (ids i))
    (low : (i : ℕ) → i < count → 1 ≤ ids i) (high : (i : ℕ) → i < count → ids i ≤ 65534) where
  -- the first `n` ports are read
  record Read (n : ℕ) (c : Parameters Str) : Type 0 where
    pub number : c.num_ports ≡ n
    pub values : (i : ℕ) → i < n → c.ports i ≡ ids i

  next_port :
      (n : ℕ) (c : Parameters Str) → n < count → Read n c → Read (n + 1) (with_port (ids n) c)
  next_port n c lt r = record {
    number = omega (arith, r.number);
    values = λ i lt'. elim (Bool-cases (ltb i n)) [
      | inl old ↦
          update_ne c.ports c.num_ports i _ (λ e. absurd (ground (arith, old, e, r.number)))
          ∙ r.values i (ground (arith, old))
      | inr new ↦
          let here : c.num_ports ≡ i = ground (arith, new, lt', r.number) in
          let word : ids n % 2 ^ 16 ≡ ids n = omega (arith, high n lt) in
          let same : n ≡ i = sym (r.number) ∙ here in
          ap (λ (j : ℕ). update c.ports c.num_ports (ids n % 2 ^ 16) j) (sym here)
          ∙ update_self c.ports c.num_ports (ids n % 2 ^ 16)
          ∙ word
          ∙ ap ids same
    ];
  }

  one_round :
      (rounds n : ℕ) (c : Parameters Str)
      → n < count
      → Read n c
      → read_ports lib s (suc rounds) c ≡ read_ports lib s rounds (with_port (ids n) c)
  unfolding read_ports unless_failed
  one_round rounds n c lt r =
      let on : (ltb c.num_ports 16 && ltb c.num_ports (lib.setting_length s)) ≡ true =
        ground (arith, r.number, few, all) in
      let elem : lib.get_int_elem s c.num_ports ≡ pos (ids n) =
        ap (lib.get_int_elem s) (r.number) ∙ elems n lt in
      rw
        (on, elem, add_port-valid (ids n) c (low n lt) (high n lt) (omega (arith, r.number)), ◌>>=◌)
        refl

  stops :
      (rounds : ℕ) (c : Parameters Str)
      → Read count c
      → read_ports lib s rounds c ≡ some (success, c)
  unfolding read_ports
  stops zero c r = refl
  stops (suc rounds) c r =
      let off : (ltb c.num_ports 16 && ltb c.num_ports (lib.setting_length s)) ≡ false =
        ground (arith, r.number, all) in
      rw off refl

  read_ports-Read :
      (rounds n : ℕ) (c : Parameters Str)
      → rounds + n ≡ 16
      → n ≤ count
      → Read n c
      → (c' : Parameters Str) × (read_ports lib s rounds c ≡ some (success, c')) × Read count c'
  read_ports-Read zero n c fuel le r =
      let all_read : Read count c = record {
        number = omega (arith, r.number);
        values = λ i lt. r.values i (omega arith);
      } in
      (c, stops zero c all_read, all_read)
  read_ports-Read (suc rounds) n c fuel le r = elim (Bool-cases (ltb n count)) [
    | inl more ↦
        let lt : n < count = ground (arith, more) in
        let (c', e, r') =
          read_ports-Read rounds (n + 1) (with_port (ids n) c) (omega arith) (omega arith)
            (next_port n c lt r) in
        (c', one_round rounds n c lt r ∙ e, r')
    | inr done ↦
        let all_read : Read count c = record {
          number = ground (arith, r.number, done);
          values = λ i lt. r.values i (ground (arith, done, lt));
        } in
        (c, stops (suc rounds) c all_read, all_read)
  ]

  -- If `port` is a list of worker IDs from 1 to 65534, no two alike among the first 16, then `parse_port` succeeds
  -- and records the first 16 at most; and the networker picks, for a packet with the k-th of these IDs as its
  -- worker ID, the core k.
  pub parse_port-core :
      (c : Parameters Str) (m : Message) (k : ℕ)
      → lib.lookup port ≡ some s
      → lib.get_int s ≡ pos 0
      → ((i j : ℕ) → i < count → j < count → ids i ≡ ids j → i ≡ j)
      → k < count
      → wanted m ≡ ids k
      → (c' : Parameters Str) × (parse_port lib c ≡ some (success, c'))
        × (c'.num_ports ≡ count)
        × (core_of (networker_config c') m ≡ k)
  unfolding parse_port ports_of
  parse_port-core c m k found list distinct lt for_k =
      let (c', e, r) =
        read_ports-Read 16 0 (record c { num_ports = 0 }) (omega arith) (omega arith)
          (record { number = refl; values = λ i lt'. absurd (omega arith) }) in
      (
        c',
        rw (found, list) e,
        r.number,
        elim (core_of-cases (networker_config c') m (omega (arith, r.number))) [
          | inl (below, hit) ↦
              let low_core : core_of (networker_config c') m < count =
                omega (arith, below, r.number) in
              distinct (core_of (networker_config c') m) k low_core lt
                (sym (r.values _ low_core) ∙ hit ∙ for_k)
          | inr (miss, _, _) ↦ absurd (miss k (omega (arith, r.number)) (r.values k lt ∙ sym for_k))
        ],
      )
