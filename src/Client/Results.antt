-- ===== src/Client/Results.antt =====
-- What the client records of the responses.
use horus_app_eval.Prelude.{
  ℕ, zero, suc, ◌+◌, ◌-◌, ◌/◌, ◌%◌, ◌^◌, ◌<◌, ◌≤◌, ◌≡◌, ◌≢◌, ◌⊎◌, inl, inr, refl, arith, Bool,
  false, none, some, leb, u16, update, update_self, lt→ltb, ap, ◌∙◌, pred32, ◌>>=◌,
}
use native.Mathlib.Decide.{ℕ_discrete}
use horus_app_eval.Message.{Message, swap_uint16}
use horus_app_eval.Server.{Server}
use horus_app_eval.Worker.{reply, new_qlen}
use horus_app_eval.Client.{
  LatencyResults, process_packet, record_kind, assumed_run_ns, max_result_size,
  work_ratios_long_size, queue_lengths_size,
}

-- The three counts agree.
pub record IsCounted (r : LatencyResults) : Type 0 where
  pub sum : r.count ≡ r.count_short + r.count_long

-- The two arrays that are shorter than the others have room for the response.
pub record HasRoom (res : Message) (r : LatencyResults) : Type 0 where
  pub queue_lengths : r.count < queue_lengths_size
  pub long : res.run_ns ≡ 0 → r.count_long < work_ratios_long_size

-- one count more of one kind, and what is common to all responses left alone
record Kept (reply_run_ns : ℕ) (r r' : LatencyResults) : Type 0 where
  count : r'.count ≡ r.count
  short : reply_run_ns ≢ 0 → (r'.count_short ≡ r.count_short + 1) × (r'.count_long ≡ r.count_long)
  long : reply_run_ns ≡ 0 → (r'.count_long ≡ r.count_long + 1) × (r'.count_short ≡ r.count_short)
  sjrn_times : r'.sjrn_times ≡ r.sjrn_times
  queue_lengths : r'.queue_lengths ≡ r.queue_lengths

record_kind-Kept :
    (reply_run_ns sjrn ratio : ℕ) (r : LatencyResults)
    → (reply_run_ns ≡ 0 → r.count_long < work_ratios_long_size)
    → r.count_short < max_result_size
    → (r' : LatencyResults) × (record_kind reply_run_ns sjrn ratio r ≡ some r')
      × Kept reply_run_ns r r'
unfolding record_kind
record_kind-Kept zero sjrn ratio r long short = (
  record r {
    sjrn_times_long = update r.sjrn_times_long r.count_long sjrn;
    work_ratios_long = update r.work_ratios_long r.count_long ratio;
    count_long = r.count_long + 1;
  },
  ground (arith, long refl),
  record {
    count = refl;
    short = λ ne. absurd (ne refl);
    long = λ _. (refl, refl);
    sjrn_times = refl;
    queue_lengths = refl;
  },
)
record_kind-Kept (suc n) sjrn ratio r long short = (
  record r {
    sjrn_times_short = update r.sjrn_times_short r.count_short sjrn;
    work_ratios_short = update r.work_ratios_short r.count_short ratio;
    count_short = r.count_short + 1;
  },
  ground arith,
  record {
    count = refl;
    short = λ _. (refl, refl);
    long = λ e. absurd (omega arith);
    sjrn_times = refl;
    queue_lengths = refl;
  },
)

swap_high : (q : ℕ) → u16 (swap_uint16 (u16 q)) / 2 ^ 8 ≡ u16 q % 2 ^ 8
swap_high q = omega arith

-- the results before `record_kind`
abbrev noted : Bool → ℕ → Message → LatencyResults → LatencyResults
noted is_rocksdb now res r = record r {
  sjrn_times = update r.sjrn_times r.count (now - res.gen_ns);
  gen_us = update r.gen_us r.count (res.gen_ns / 1000);
  reply_run_ns = update r.reply_run_ns r.count res.run_ns;
  work_ratios =
      update r.work_ratios r.count ((now - res.gen_ns) / assumed_run_ns is_rocksdb res.run_ns);
  queue_lengths = update r.queue_lengths r.count (res.qlen / 2 ^ 8);
  count = r.count + 1;
}

not_ended : (n : ℕ) → n ≤ queue_lengths_size → leb max_result_size n ≡ false
not_ended n h = ground arith

process_packet-Kept :
    (is_rocksdb : Bool) (now : ℕ) (res : Message) (r : LatencyResults)
    → IsCounted r
    → HasRoom res r
    → res.gen_ns < now
    → (r' : LatencyResults) × (process_packet is_rocksdb now res r ≡ some (r', false))
      × Kept res.run_ns (noted is_rocksdb now res r) r'
unfolding process_packet
process_packet-Kept is_rocksdb now res r h room later =
    let (r', e, kept) =
      record_kind-Kept res.run_ns (now - res.gen_ns)
        ((now - res.gen_ns) / assumed_run_ns is_rocksdb res.run_ns) (noted is_rocksdb now res r)
        room.long (omega (arith, h.sum, room.queue_lengths)) in
    (
      r',
      rw (lt→ltb res.gen_ns now later, lt→ltb r.count queue_lengths_size room.queue_lengths)
          (rw (e, ◌>>=◌)
            (rw (not_ended r'.count (omega (arith, kept.count, room.queue_lengths))) refl)),
      kept,
    )

process_packet-full :
    (is_rocksdb : Bool) (now : ℕ) (res : Message) (r : LatencyResults)
    → (queue_lengths_size ≤ r.count) ⊎ ((res.run_ns ≡ 0) × (work_ratios_long_size ≤ r.count_long))
    → process_packet is_rocksdb now res r ≡ none
unfolding process_packet record_kind
process_packet-full is_rocksdb now res r (inl full) = ground arith
process_packet-full is_rocksdb now res r (inr (long, full)) = ground arith

-- Where the counts agree and the response is later than its request: if `queue_lengths` has room, and
-- `work_ratios_long` for a response of run time 0, then `process_packet` meets no fault and does not end
-- the client, and the response counts once, as long if its run time is 0 and else as short, and the counts
-- agree again; else it writes past the end of the full array.
pub process_packet-IsCounted :
    (is_rocksdb : Bool) (now : ℕ) (res : Message) (r : LatencyResults)
    → IsCounted r
    → res.gen_ns < now
    → (HasRoom res r
        → (r' : LatencyResults) × (process_packet is_rocksdb now res r ≡ some (r', false))
          × (r'.count ≡ r.count + 1)
          × (res.run_ns ≡ 0 → r'.count_long ≡ r.count_long + 1)
          × (res.run_ns ≢ 0 → r'.count_short ≡ r.count_short + 1)
          × IsCounted r')
      × ((queue_lengths_size ≤ r.count)
            ⊎ ((res.run_ns ≡ 0) × (work_ratios_long_size ≤ r.count_long))
          → process_packet is_rocksdb now res r ≡ none)
process_packet-IsCounted is_rocksdb now res r h later = (
  (λ room.
      let (r', e, kept) = process_packet-Kept is_rocksdb now res r h room later in
      (
        r',
        e,
        kept.count,
        (λ z. (kept.long z).0),
        (λ nz. (kept.short nz).0),
        record {
          sum = elim (ℕ_discrete res.run_ns 0) [
            | yes z ↦ omega (arith, kept.count, kept.long z, h.sum)
            | no nz ↦ omega (arith, kept.count, kept.short nz, h.sum)
          ];
        },
      )),
  process_packet-full is_rocksdb now res r,
)

-- What is recorded of a worker's reply: the time since the request was made, and the last eight bits of
-- the length of the worker's queue. The reply is later than the request, the counts agree, and
-- `queue_lengths`, and for a reply of run time 0 `work_ratios_long`, have room.
pub process_packet-reply :
    (s : Server) (cpu : ℕ) (req stack : Message) (is_rocksdb : Bool) (now : ℕ) (r : LatencyResults)
    → IsCounted r
    → HasRoom req r
    → req.gen_ns < now
    → (r' : LatencyResults) × (process_packet is_rocksdb now (reply s cpu req stack) r
        ≡ some (r', false))
      × (r'.sjrn_times r.count ≡ now - req.gen_ns)
      × (r'.queue_lengths r.count ≡ new_qlen s cpu % 2 ^ 8)
unfolding reply new_qlen
process_packet-reply s cpu req stack is_rocksdb now r h room later =
    let (r', e, kept) =
      process_packet-Kept is_rocksdb now (reply s cpu req stack) r h
        (record { queue_lengths = room.queue_lengths; long = room.long }) later in
    (
      r',
      e,
      ap (λ (a : ℕ → ℕ). a r.count) kept.sjrn_times ∙ update_self r.sjrn_times r.count _,
      ap (λ (a : ℕ → ℕ). a r.count) kept.queue_lengths
          ∙ update_self r.queue_lengths r.count _
          ∙ swap_high (pred32 (s.queue_length cpu)),
    )
