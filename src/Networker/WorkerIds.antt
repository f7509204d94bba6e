-- ===== src/Networker/WorkerIds.antt =====
-- Which worker a packet is for: `dst_id` against `CFG.ports`, and the control message that sets them.
use horus_app_eval.Prelude.{
  ℕ, zero, suc, ◌+◌, ◌<◌, ◌≤◌, ◌≡◌, ◌≢◌, ◌⊎◌, inl, inr, refl, ap, ◌∙◌, false, arith, some, u8, u16,
  update, ◌==◌, if◌then◌else◌, Bool-cases,
}
use native.Mathlib.Decide.{ℕ_discrete}
use horus_app_eval.Message.{Message, swap_uint16, pkt_type_worker_id, cfg_max_ports}
use horus_app_eval.Networker.{
  Config, Networker, Parsed, set_ports, find_core, core_of, rq_update, set_worker_ids,
}

set_ports-before :
    (n i first : ℕ) (ports : ℕ → ℕ) (j : ℕ) → j < i → set_ports n i first ports j ≡ ports j
unfolding set_ports
set_ports-before zero i first ports j lt = refl
set_ports-before (suc n) i first ports j lt =
    ground (arith, set_ports-before n (i + 1) first (update ports i (u16 (first + i))) j)

set_ports_at :
    (n i first : ℕ) (ports : ℕ → ℕ) (j : ℕ)
    → i ≤ j
    → j < i + n
    → set_ports n i first ports j ≡ u16 (first + j)
unfolding set_ports
set_ports_at zero i first ports j le lt = absurd (omega arith)
set_ports_at (suc n) i first ports j le lt = elim (ℕ_discrete i j) [
  | yes e ↦ ground (arith, e, set_ports-before n (i + 1) first (update ports i (u16 (first + i))) j)
  | no ne ↦
      set_ports_at n (i + 1) first (update ports i (u16 (first + i))) j (omega arith) (omega arith)
]

-- the result of the search: the last port that fits, or the value from before
find_core-cases :
    (n i dst : ℕ) (ports : ℕ → ℕ) (core : ℕ)
    → i + n ≤ 256
    → ((k : ℕ) × (i ≤ k) × (k < i + n) × (ports k ≡ dst) × (find_core n i dst ports core ≡ k))
      ⊎ (((k : ℕ) → i ≤ k → k < i + n → ports k ≢ dst) × (find_core n i dst ports core ≡ core))
unfolding find_core
find_core-cases zero i dst ports core small = inr ((λ k le lt. absurd (omega arith)), refl)
find_core-cases (suc n) i dst ports core small =
    elim (find_core-cases n (i + 1) dst ports (if dst == ports i then u8 i else core)
      (omega arith)) [
        | inl (k, le, lt, hit, e) ↦ inl (k, omega arith, omega arith, hit, e)
        | inr (miss, e) ↦ elim (Bool-cases (dst == ports i)) [
          | inl same ↦ inl (i, omega arith, omega arith, ground arith, e ∙ ground arith)
          | inr other ↦
              inr ((λ k le lt. first_or_later miss (ground arith) k le lt), e ∙ ground arith)
        ]
      ]
  where
    first_or_later :
        ((k : ℕ) → i + 1 ≤ k → k < i + 1 + n → ports k ≢ dst)
        → ports i ≢ dst
        → (k : ℕ) → i ≤ k
        → k < i + suc n
        → ports k ≢ dst
    first_or_later miss ne k le lt = elim (ℕ_discrete i k) [
      | yes e ↦ λ hit. ne (ap ports e ∙ hit)
      | no later ↦ miss k (omega arith) (omega arith)
    ]

-- the worker ID that a packet is for
abbrev pub wanted : Message → ℕ
wanted m = u16 (swap_uint16 m.dst_id + 1)

-- `rq_update` picks a core whose port is the packet's worker ID; where no port fits, it keeps 255,
-- past the end of every array that is indexed by a core.
pub core_of-cases :
    (c : Config) (m : Message)
    → c.num_ports ≤ cfg_max_ports
    → ((core_of c m < c.num_ports) × (c.ports (core_of c m) ≡ wanted m))
      ⊎ (((k : ℕ) → k < c.num_ports → c.ports k ≢ wanted m)
          × (core_of c m ≡ 255)
          × (cfg_max_ports ≤ core_of c m))
unfolding core_of
core_of-cases c m small =
    elim (find_core-cases c.num_ports 0 (wanted m) c.ports 255 (omega arith)) [
      | inl (k, le, lt, hit, e) ↦ inl (omega (arith, e), ap c.ports e ∙ hit)
      | inr (miss, e) ↦ inr ((λ k lt. miss k (omega arith) (omega arith)), e, omega (arith, e))
    ]

-- the ports that the control message sets
abbrev new_ports : Message → Config → ℕ → ℕ
new_ports m c = set_ports c.num_ports 0 (u16 (swap_uint16 m.qlen + 1)) c.ports

control-config :
    (w w' : Networker) (p : Parsed) (pkt : ℕ) (m : Message)
    → rq_update pkt m w ≡ some (p, w')
    → m.pkt_type ≡ pkt_type_worker_id
    → (w'.config ≡ record (w.config) { ports = new_ports m w.config }) × (p.place_to_queue ≡ false)
unfolding rq_update set_worker_ids
control-config w w' p pkt m e control = (ground arith, ground arith)

new_ports-core :
    (c : Config) (m task : Message) (k : ℕ)
    → c.num_ports ≤ cfg_max_ports
    → u16 (swap_uint16 m.qlen) + c.num_ports < 65536
    → k < c.num_ports
    → u16 (swap_uint16 task.dst_id) ≡ u16 (swap_uint16 m.qlen) + k
    → core_of (record c { ports = new_ports m c }) task ≡ k
new_ports-core c m task k small fits lt for_k = elim (core_of-cases d task small) [
  | inl (below, hit) ↦ omega (arith, hit, port (core_of d task) below, for_k)
  | inr (miss, _, _) ↦ absurd (miss k lt (omega (arith, port k lt, for_k)))
]
  where
    d : Config
    d = record c { ports = new_ports m c }

    port : (j : ℕ) → j < c.num_ports → d.ports j ≡ u16 (u16 (swap_uint16 m.qlen + 1) + j)
    port j lj =
        set_ports_at c.num_ports 0 (u16 (swap_uint16 m.qlen + 1)) c.ports j (omega arith)
          (omega arith)

-- After the control message WORKER_ID the worker at the leaf's index `first + k` is the core `k`, for
-- every core, as long as the IDs do not wrap.
pub worker_id-core :
    (w w' : Networker) (p : Parsed) (pkt : ℕ) (m task : Message) (k : ℕ)
    → rq_update pkt m w ≡ some (p, w')
    → m.pkt_type ≡ pkt_type_worker_id
    → w.config.num_ports ≤ cfg_max_ports
    → u16 (swap_uint16 m.qlen) + w.config.num_ports < 65536
    → k < w.config.num_ports
    → u16 (swap_uint16 task.dst_id) ≡ u16 (swap_uint16 m.qlen) + k
    → (core_of w'.config task ≡ k) × (p.place_to_queue ≡ false)
worker_id-core w w' p pkt m task k e control small fits lt for_k =
    let (config, kept) = control-config w w' p pkt m e control in
    (ap (λ c. core_of c task) config ∙ new_ports-core w.config m task k small fits lt for_k, kept)
