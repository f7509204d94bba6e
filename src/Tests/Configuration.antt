-- ===== src/Tests/Configuration.antt =====
-- The theorems on the configuration at concrete inputs.
use horus_app_eval.Prelude.{ℕ, ◌+◌, ◌≡◌, ◌⊎◌, refl, true, false, none, some, arith}
use horus_app_eval.Prelude.Int.{pos, negsuc}
use horus_app_eval.Net.{Errno, success, failed}
use horus_app_eval.Networker.{core_of}
use horus_app_eval.Configuration.{Parameters, Libconfig, is_among, push_cpu, add_cpu, to_word}
use horus_app_eval.Configuration.Settings.{parse_port, parse_cpu}
use horus_app_eval.Configuration.File.{set_mask, make_ip_addr}
use horus_app_eval.Configuration.Ports.{networker_config, parse_port-core}
use horus_app_eval.Configuration.Cpus.{Listed, parse_cpu-Listed}
use horus_app_eval.Tests.Samples.{half_request}

-- a file whose lists are 1, 2, 3, 4
abbrev file : Libconfig ℕ ℕ
file = record {
  lookup = λ _. some 0;
  lookup_string = λ _. none;
  get_int = λ _. pos 0;
  get_int64 = λ _. pos 0;
  get_string = λ _. none;
  has_elem = λ _ _. true;
  get_int_elem = λ _ i. pos (i + 1);
  get_bool_elem = λ _ _. true;
  get_string_elem = λ _ _. none;
  setting_length = λ _. 4;
  ip_of_entry = λ _ _. none;
  mac_of_entry = λ _ _. none;
  scan_ip = λ _. none;
  scan_mac = λ _. none;
  scan_pci = λ _. none;
  first_token = λ _. none;
  rest = λ _. none;
  atoi = λ _. pos 0;
  truncate = λ t. t;
}

abbrev zeros : Parameters ℕ
zeros = record {
  host_addr = 0;
  broadcast_addr = 0;
  gateway_addr = 0;
  mask = 0;
  num_cpus = 0;
  cpu = λ i. i;
  cluster_id = λ _. 0;
  num_ethdev = 0;
  ethdev = λ _. 0;
  keep_alive_interval_us = 0;
  parent_leaf_id = 0;
  server_id = 0;
  num_ports = 0;
  ports = λ _. 0;
  num_slos = 0;
  slos = λ _. pos 0;
  num_queue_settings = 0;
  queue_settings = λ _. false;
  preemption_delay = 0;
  loader_path = none;
}

-- -1 in 16 bits
minus_one : to_word 16 (negsuc 0) ≡ 65535
minus_one = refl

-- 10.0.0.5/24
mask_24 :
    set_mask 24 (record zeros { host_addr = make_ip_addr (10, 0, 0, 5) })
    ≡ some (
      success,
      record zeros {
        host_addr = make_ip_addr (10, 0, 0, 5);
        mask = make_ip_addr (255, 255, 255, 0);
        broadcast_addr = make_ip_addr (10, 0, 0, 255);
      },
    )
unfolding set_mask
mask_24 = refl

parse_port-core_example :
    (c' : Parameters ℕ) × (parse_port file zeros ≡ some (success, c'))
    × (c'.num_ports ≡ 4)
    × (core_of (networker_config c') half_request ≡ 2)
parse_port-core_example =
    parse_port-core file 0 (λ i. i + 1) 4 (omega arith) refl (λ i lt. refl) (λ i lt. omega arith)
      (λ i lt. omega arith) zeros half_request 2 refl refl (λ i j lt lt' e. omega (arith, e))
      (omega arith) refl

zeros-Listed : Listed 8 zeros
zeros-Listed = record {
  few = omega arith;
  below = λ i lt. absurd (omega arith);
  distinct = λ i j lt lt' e. absurd (omega arith);
}

parse_cpu-Listed_example :
    (c' : Parameters ℕ) × Listed 8 c'
    × (((parse_cpu file 8 zeros ≡ some (success, c')) × (is_among 4 c'.num_cpus c'.cpu ≡ true))
        ⊎ ((e : Errno) × (parse_cpu file 8 zeros ≡ some (failed e, c'))))
parse_cpu-Listed_example =
    parse_cpu-Listed file 8 0 zeros 3 refl refl zeros-Listed (omega arith) (omega arith)

-- The CPUs 0 to 126 are recorded.
abbrev full : Parameters ℕ
full = record zeros { num_cpus = 127 }

-- The check against CFG_MAX_CPU lets the 128th CPU pass, and `cluster_id` has no element 128.
cpu_127-overrun : add_cpu 200 (pos 127) full ≡ none
unfolding add_cpu push_cpu is_among
cpu_127-overrun = refl
