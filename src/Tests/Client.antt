-- ===== src/Tests/Client.antt =====
-- The theorems on the client at concrete inputs.
use horus_app_eval.Prelude.{
  ℕ, ◌+◌, ◌-◌, ◌%◌, ◌^◌, ◌≤◌, ◌≡◌, ◌≢◌, ◌⊎◌, refl, true, false, none, some, arith,
}
use horus_app_eval.Message.{Message, message_size}
use horus_app_eval.Worker.{reply, new_qlen}
use horus_app_eval.Client.{
  generate_packet, rocksdb, search_app, LatencyResults, process_packet, queue_lengths_size,
  work_ratios_long_size,
}
use horus_app_eval.Client.Requests.{generate_packet-search_overrun}
use horus_app_eval.Client.Results.{
  IsCounted, HasRoom, process_packet-IsCounted, process_packet-reply,
}
use horus_app_eval.Tests.Samples.{half_request, fresh_server}

-- the sixth request of each core
generated :
    (core : ℕ)
    → (r : Message) × (generate_packet
          (λ _. 5)
          core
          message_size
          1000
          500
          rocksdb
          (λ _. 0)
          half_request
        ≡ some r)
unfolding generate_packet
generated core = (_, refl)

generate_packet-search_overrun_example :
    generate_packet (λ _. 5) 1 message_size 1000 2 search_app (λ _. 0) half_request ≡ none
generate_packet-search_overrun_example =
    generate_packet-search_overrun (λ _. 5) 1 message_size 1000 2 (λ _. 0) half_request
      (omega arith)

abbrev no_results : LatencyResults
no_results = record {
  sjrn_times = λ _. 0;
  gen_us = λ _. 0;
  sjrn_times_short = λ _. 0;
  sjrn_times_long = λ _. 0;
  work_ratios = λ _. 0;
  work_ratios_short = λ _. 0;
  work_ratios_long = λ _. 0;
  queue_lengths = λ _. 0;
  reply_run_ns = λ _. 0;
  count = 0;
  count_short = 0;
  count_long = 0;
}

half_request-HasRoom : HasRoom half_request no_results
half_request-HasRoom = record { queue_lengths = omega arith; long = λ e. omega arith }

process_packet-IsCounted_example :
    (HasRoom half_request no_results
      → (r' : LatencyResults) × (process_packet true 900 half_request no_results ≡ some (r', false))
        × (r'.count ≡ 0 + 1)
        × (◌≡◌ {A = ℕ} 0 0 → r'.count_long ≡ 0 + 1)
        × (◌≢◌ {A = ℕ} 0 0 → r'.count_short ≡ 0 + 1)
        × IsCounted r')
    × ((queue_lengths_size ≤ 0) ⊎ (◌≡◌ {A = ℕ} 0 0 × (work_ratios_long_size ≤ 0))
        → process_packet true 900 half_request no_results ≡ none)
process_packet-IsCounted_example =
    process_packet-IsCounted true 900 half_request no_results (omega arith) (omega arith)

process_packet-reply_example :
    (r' : LatencyResults) × (process_packet true 900
        (reply fresh_server 0 half_request half_request)
        no_results
      ≡ some (r', false))
    × (r'.sjrn_times 0 ≡ 900 - 0)
    × (r'.queue_lengths 0 ≡ new_qlen fresh_server 0 % 2 ^ 8)
process_packet-reply_example =
    process_packet-reply fresh_server 0 half_request half_request true 900 no_results (omega arith)
      half_request-HasRoom (omega arith)
