-- ===== src/Networker/Complete.antt =====
-- The whole life of a request of several packets in `rq_update`, in whatever order they come.

use horus_app_eval.Prelude.{
  ℕ, zero, suc, ◌-◌, ◌<◌, ◌≤◌, ◌≡◌, ◌≢◌, inl, inr, refl, ap, sym, ◌∙◌, true, arith, Option, none,
  some, List, [], ◌∷◌, length, u8, u16, update, update_self, update_ne, ◌==◌, if◌then◌else◌,
  Bool-cases,
}
use mathlib.Core.Path.{subst}
use horus_app_eval.Mempool.{Mempool, alloc}
use horus_app_eval.Mempool.Count.{available}
use horus_app_eval.Mempool.Available.{alloc_room}
use horus_app_eval.Message.{Message, swap_uint16}
use horus_app_eval.Networker.{
  Networker, RequestCell, rq_update, multi_packet, start_cell, find_cell, replace_cell,
  continue_cell, packet_count, fits,
}
use horus_app_eval.Networker.Reassembly.{
  packet_at, feed, fill, InRange, IsPart, with_packet, part_result, more, last, to_multi,
  continue-more, continue-last, find_cell-fits, find_cell-replace, find_cell-packet_at,
}

replace-replace :
    (m : Message) (d : RequestCell) (cs : List RequestCell)
    → fits m d ≡ true
    → replace_cell m none (replace_cell m (some d) cs) ≡ replace_cell m none cs
unfolding replace_cell
replace-replace m d [] hit = refl
replace-replace m d (c ∷ cs) hit = elim (Bool-cases (fits m c)) [
  | inl here ↦ rw here (rw hit)
  | inr miss ↦ rw miss (rw miss (ap (◌∷◌ c) (replace-replace m d cs hit)))
]

-- What the remaining packets of the cell `c` lead to.
abbrev Completed : Message → Networker → RequestCell → List (ℕ × ℕ) → Networker → Type 0
Completed m w c ps w' =
    ((w'.requests c.req).mbufs ≡ fill ps (w.requests c.req).mbufs)
    × ((w'.requests c.req).pkts_length ≡ (w.requests c.req).pkts_length)
    × (w'.rqueue ≡ replace_cell m none w.rqueue)

stored_mbufs :
    (w : Networker) (c : RequestCell) (pkt seq : ℕ)
    → ((with_packet w c pkt seq c.req).mbufs ≡ update (w.requests c.req).mbufs seq (some pkt))
      × ((with_packet w c pkt seq c.req).pkts_length ≡ (w.requests c.req).pkts_length)
stored_mbufs w c pkt seq = (ground arith, ground arith)

pub remaining_complete :
    (m : Message) (out : Option ℕ) (ps : List (ℕ × ℕ)) (w : Networker) (c : RequestCell) (k : ℕ)
    → IsPart m
    → find_cell m w.rqueue ≡ some c
    → InRange ps
    → length ps ≡ suc k
    → c.pkts_remaining ≡ suc k
    → suc k < 256
    → (w' : Networker) × (feed m out ps w ≡ some (some c.req, w')) × Completed m w c ps w'
unfolding feed fill part_result
remaining_complete m out [] w c k part found range len count small = absurd (omega (arith, len))
remaining_complete m out ((pkt, seq) ∷ []) w c zero part found range len count small =
    let (mbufs, packets) = stored_mbufs w c pkt seq in
    (
      last m w c pkt seq,
      rw (to_multi m w pkt seq c part found, continue-last m w pkt seq c range.0 count) refl,
      (mbufs, packets, refl),
    )
remaining_complete m out ((pkt, seq) ∷ p ∷ ps) w c zero part found range len count small =
    absurd (omega (arith, len))
remaining_complete m out ((pkt, seq) ∷ ps) w c (suc k) part found range len count small =
    let d : RequestCell = record c { pkts_remaining = suc k } in
    let hit : fits m d ≡ true = find_cell-fits m w.rqueue c found in
    let w1 = more m w c pkt seq k in
    let (w', fed, done) =
      remaining_complete m none ps w1 d k part (find_cell-replace m w.rqueue c d found hit) range.1
        (omega (arith, len)) refl (omega (arith, small)) in
    let (mbufs, packets) = stored_mbufs w c pkt seq in
    (
      w',
      rw (to_multi m w pkt seq c part found, continue-more m w pkt seq k c range.0 count small) fed,
      (done.0 ∙ ap (fill ps) mbufs, done.1 ∙ packets, done.2 ∙ replace-replace m d w.rqueue hit),
    )

-- the cell of a new request, and the networker once it is in the queue
abbrev new_cell : Message → ℕ → ℕ → RequestCell
new_cell m c r = record {
  cell = c;
  pkts_remaining = u8 (packet_count m - 1);
  client_id = m.client_id;
  req_id = m.req_id;
  req = r;
}

abbrev begun : Message → Networker → ℕ → ℕ → ℕ → ℕ → Mempool → Mempool → Networker
begun m w pkt seq r c requests cells = record w {
  request_pool = requests;
  rq_pool = cells;
  requests = λ q.
      if r == q
      then record (w.requests r) {
        pkts_length = packet_count m;
        type = u16 (swap_uint16 m.qlen);
        mbufs = update (w.requests r).mbufs seq (some pkt);
      }
      else w.requests q;
  rqueue = new_cell m c r ∷ w.rqueue;
}

start-begun :
    (m : Message) (w : Networker) (pkt seq r c : ℕ) (requests cells : Mempool)
    → IsPart m
    → find_cell m w.rqueue ≡ none
    → seq < 8
    → alloc w.request_pool ≡ (some r, requests)
    → alloc w.rq_pool ≡ (some c, cells)
    → rq_update pkt (packet_at m seq) w
      ≡ some (part_result (packet_at m seq) w none, begun m w pkt seq r c requests cells)
unfolding rq_update multi_packet start_cell packet_count part_result
start-begun m w pkt seq r c requests cells part missing range got_req got_cell = ground (
  arith,
  part.a_task,
  part.several,
  find_cell-packet_at m seq w.rqueue ∙ missing,
  got_req,
  got_cell,
)

begun-request :
    (m : Message) (w : Networker) (pkt seq r c : ℕ) (requests cells : Mempool)
    → ((begun m w pkt seq r c requests cells).requests r).mbufs
      ≡ update (w.requests r).mbufs seq (some pkt)
begun-request m w pkt seq r c requests cells = ground arith

begun-length :
    (m : Message) (w : Networker) (pkt seq r c : ℕ) (requests cells : Mempool)
    → ((begun m w pkt seq r c requests cells).requests r).pkts_length ≡ packet_count m
begun-length m w pkt seq r c requests cells = ground arith

new_cell-fits : (m : Message) (c r : ℕ) → fits m (new_cell m c r) ≡ true
new_cell-fits m c r = ground arith

find_begun :
    (m : Message) (c r : ℕ) (cs : List RequestCell)
    → find_cell m (new_cell m c r ∷ cs) ≡ some (new_cell m c r)
unfolding find_cell
find_begun m c r cs = rw (new_cell-fits m c r)

replace_begun :
    (m : Message) (c r : ℕ) (cs : List RequestCell) → replace_cell m none (new_cell m c r ∷ cs) ≡ cs
unfolding replace_cell
replace_begun m c r cs = rw (new_cell-fits m c r)

-- no packet of the list has the number
abbrev pub Absent : ℕ → List (ℕ × ℕ) → Type 0
Absent seq [] = Unit {0}
Absent seq ((pkt, k) ∷ ps) = (k ≢ seq) × Absent seq ps

-- each packet with whose number no later packet comes stands in the slot of that number
abbrev pub Stands : List (ℕ × ℕ) → (ℕ → Option ℕ) → Type 0
Stands [] mbufs = Unit {0}
Stands ((pkt, seq) ∷ ps) mbufs = (Absent seq ps → mbufs seq ≡ some pkt) × Stands ps mbufs

fill-Absent :
    (seq : ℕ) (ps : List (ℕ × ℕ)) (mbufs : ℕ → Option ℕ)
    → Absent seq ps
    → fill ps mbufs seq ≡ mbufs seq
unfolding fill
fill-Absent seq [] mbufs h = refl
fill-Absent seq ((pkt, k) ∷ ps) mbufs h =
    fill-Absent seq ps (update mbufs k (some pkt)) h.1 ∙ update_ne mbufs k seq (some pkt) h.0

fill-Stands : (ps : List (ℕ × ℕ)) (mbufs : ℕ → Option ℕ) → Stands ps (fill ps mbufs)
unfolding fill
fill-Stands [] mbufs = tt
fill-Stands ((pkt, seq) ∷ ps) mbufs = (
  (λ h. fill-Absent seq ps (update mbufs seq (some pkt)) h ∙ update_self mbufs seq (some pkt)),
  fill-Stands ps (update mbufs seq (some pkt)),
)

-- When `rq_update` is given as many packets of a new request as the request has, at least two and at most
-- 256, in any order and with numbers below 8, where both pools have a free element, then no call faults
-- and the last one returns the request. Each packet with whose number no later one comes stands in the slot
-- of its number (a later packet with the same number takes its slot), slots for whose number no packet
-- came keep what they held, the packet count is recorded, and the queue is as it was before the first one.
pub request_completes :
    (m : Message) (p q : ℕ × ℕ) (ps : List (ℕ × ℕ)) (w : Networker)
    → IsPart m
    → find_cell m w.rqueue ≡ none
    → InRange (p ∷ q ∷ ps)
    → length (p ∷ q ∷ ps) ≡ packet_count m
    → packet_count m ≤ 256
    → 0 < available w.request_pool
    → 0 < available w.rq_pool
    → (r : ℕ) × (w' : Networker) × (feed m none (p ∷ q ∷ ps) w ≡ some (some r, w'))
      × Stands (p ∷ q ∷ ps) (w'.requests r).mbufs
      × ((seq : ℕ) → Absent seq (p ∷ q ∷ ps) → (w'.requests r).mbufs seq ≡ (w.requests r).mbufs seq)
      × ((w'.requests r).pkts_length ≡ packet_count m)
      × (w'.rqueue ≡ w.rqueue)
unfolding feed fill part_result
request_completes m (pkt, seq) q ps w part missing range len small room_r room_c =
    let (r, requests, got_req, _) = alloc_room w.request_pool room_r in
    let (c, cells, got_cell, _) = alloc_room w.rq_pool room_c in
    let w1 = begun m w pkt seq r c requests cells in
    let (w', fed, done) =
      remaining_complete m none (q ∷ ps) w1 (new_cell m c r) (length ps) part
        (find_begun m c r w.rqueue) range.1 refl (omega (arith, len, small))
        (omega (arith, len, small)) in
    let stored : (w'.requests r).mbufs ≡ fill ((pkt, seq) ∷ q ∷ ps) (w.requests r).mbufs =
      done.0 ∙ ap (fill (q ∷ ps)) (begun-request m w pkt seq r c requests cells) in
    (
      r,
      w',
      rw (start-begun m w pkt seq r c requests cells part missing range.0 got_req got_cell) fed,
      subst (Stands ((pkt, seq) ∷ q ∷ ps)) (sym stored)
          (fill-Stands ((pkt, seq) ∷ q ∷ ps) (w.requests r).mbufs),
      (λ k none_came.
          ap (λ (f : ℕ → Option ℕ). f k) stored
          ∙ fill-Absent k ((pkt, seq) ∷ q ∷ ps) (w.requests r).mbufs none_came),
      done.1 ∙ begun-length m w pkt seq r c requests cells,
      done.2 ∙ replace_begun m c r w.rqueue,
    )

-- A packet number from 8 on is written past the end of `mbufs`, for every request of several packets.
pub wide_seq-faults :
    (m : Message) (w : Networker) (pkt seq : ℕ)
    → IsPart m
    → 8 ≤ seq
    → rq_update pkt (packet_at m seq) w ≡ none
unfolding rq_update multi_packet start_cell continue_cell packet_count
wide_seq-faults m w pkt seq part wide = ground (arith, part.a_task, part.several)
