-- ===== src/Networker/Reassembly.antt =====
-- Requests of several packets: `rq_update` hands the request over with its last packet.
use mathlib.Core.Option
use horus_app_eval.Prelude.{
  ℕ, suc, ◌<◌, ◌≡◌, ◌≢◌, inl, inr, refl, ◌∙◌, true, arith, Option, none, some, List, [], ◌∷◌,
  update, ◌==◌, if◌then◌else◌, Bool-cases, ◌>>=◌,
}
use horus_app_eval.Mempool.{free}
use horus_app_eval.Message.{Message, pkt_type_worker_id}
use horus_app_eval.Server.{Request}
use horus_app_eval.Networker.{
  Networker, Parsed, RequestCell, rq_update, multi_packet, continue_cell, find_cell, replace_cell,
  packet_count, core_of, fits,
}

-- a packet of the request that `m` is a packet of
abbrev pub packet_at : Message → ℕ → Message
packet_at m seq = record m { seq_num = seq }

-- the packets of one request, one after the other; what the last call returns
unfoldable pub feed : Message → Option ℕ → List (ℕ × ℕ) → Networker → Option (Option ℕ × Networker)
feed m out [] w = some (out, w)
feed m out ((pkt, seq) ∷ ps) w = rq_update pkt (packet_at m seq) w >>= λ p. feed m p.0.req ps p.1

-- the slots of a request after the packets are stored in it
unfoldable pub fill : List (ℕ × ℕ) → (ℕ → Option ℕ) → ℕ → Option ℕ
fill [] mbufs = mbufs
fill ((pkt, seq) ∷ ps) mbufs = fill ps (update mbufs seq (some pkt))

abbrev pub InRange : List (ℕ × ℕ) → Type 0
InRange [] = Unit {0}
InRange ((pkt, seq) ∷ ps) = (seq < 8) × InRange ps

-- a packet that belongs to a request of several
pub record IsPart (m : Message) : Type 0 where
  pub a_task : m.pkt_type ≢ pkt_type_worker_id
  pub several : packet_count m ≢ 1

fits_same :
    (m : Message) (c : RequestCell) (k : ℕ) → fits m (record c { pkts_remaining = k }) ≡ fits m c
fits_same m c k = refl

pub find_cell-fits :
    (m : Message) (cs : List RequestCell) (c : RequestCell)
    → find_cell m cs ≡ some c
    → fits m c ≡ true
unfolding find_cell
find_cell-fits m [] c e = cc
find_cell-fits m (d ∷ cs) c e = elim (Bool-cases (fits m d)) [
  | inl hit ↦ ground (arith, hit)
  | inr miss ↦ find_cell-fits m cs c (ground (arith, miss))
]

-- After a change of its counter the cell is still the one that is found.
pub find_cell-replace :
    (m : Message) (cs : List RequestCell) (c d : RequestCell)
    → find_cell m cs ≡ some c
    → fits m d ≡ true
    → find_cell m (replace_cell m (some d) cs) ≡ some d
unfolding find_cell replace_cell
find_cell-replace m [] c d e hit = cc
find_cell-replace m (x ∷ cs) c d e hit = elim (Bool-cases (fits m x)) [
  | inl here ↦ rw here (rw hit)
  | inr miss ↦ rw miss (rw miss (find_cell-replace m cs c d (ground (arith, miss)) hit))
]

pub find_cell-packet_at :
    (m : Message) (seq : ℕ) (cs : List RequestCell)
    → find_cell (packet_at m seq) cs ≡ find_cell m cs
unfolding find_cell
find_cell-packet_at m seq [] = refl
find_cell-packet_at m seq (c ∷ cs) = rw (find_cell-packet_at m seq cs)

replace_cell-packet_at :
    (m : Message) (seq : ℕ) (new : Option RequestCell) (cs : List RequestCell)
    → replace_cell (packet_at m seq) new cs ≡ replace_cell m new cs
unfolding replace_cell
replace_cell-packet_at m seq new [] = refl
replace_cell-packet_at m seq new (c ∷ cs) = rw (replace_cell-packet_at m seq new cs)

-- the request of the cell `c` with the packet stored
abbrev pub with_packet : Networker → RequestCell → ℕ → ℕ → ℕ → Request
with_packet w c pkt seq = λ r.
    if c.req == r
    then record (w.requests c.req) { mbufs = update (w.requests c.req).mbufs seq (some pkt) }
    else w.requests r

unfoldable pub part_result : Message → Networker → Option ℕ → Parsed
part_result m w out = record { req = out; core_id = core_of w.config m; place_to_queue = true }

-- what a packet leaves behind that is not the last one
abbrev pub more : Message → Networker → RequestCell → ℕ → ℕ → ℕ → Networker
more m w c pkt seq k = record w {
  requests = with_packet w c pkt seq;
  rqueue = replace_cell m (some (record c { pkts_remaining = suc k })) w.rqueue;
}

abbrev pub last : Message → Networker → RequestCell → ℕ → ℕ → Networker
last m w c pkt seq = record w {
  requests = with_packet w c pkt seq;
  rqueue = replace_cell m none w.rqueue;
  rq_pool = free w.rq_pool c.cell;
}

pub to_multi :
    (m : Message) (w : Networker) (pkt seq : ℕ) (c : RequestCell)
    → IsPart m
    → find_cell m w.rqueue ≡ some c
    → rq_update pkt (packet_at m seq) w
      ≡ Option.map
          (λ p. (part_result (packet_at m seq) w p.0, p.1))
          (continue_cell pkt (packet_at m seq) w c)
unfolding rq_update multi_packet packet_count part_result
to_multi m w pkt seq c part found =
    ground (arith, part.a_task, part.several, find_cell-packet_at m seq w.rqueue ∙ found)

pub continue-more :
    (m : Message) (w : Networker) (pkt seq k : ℕ) (c : RequestCell)
    → seq < 8
    → c.pkts_remaining ≡ suc (suc k)
    → suc (suc k) < 256
    → continue_cell pkt (packet_at m seq) w c ≡ some (none, more m w c pkt seq k)
unfolding continue_cell
continue-more m w pkt seq k c room count small =
    ground
      (arith, replace_cell-packet_at m seq (some (record c { pkts_remaining = suc k })) w.rqueue)

pub continue-last :
    (m : Message) (w : Networker) (pkt seq : ℕ) (c : RequestCell)
    → seq < 8
    → c.pkts_remaining ≡ 1
    → continue_cell pkt (packet_at m seq) w c ≡ some (some c.req, last m w c pkt seq)
unfolding continue_cell
continue-last m w pkt seq c room count = ground (arith, replace_cell-packet_at m seq none w.rqueue)
