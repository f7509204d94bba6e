-- ===== src/Configuration.antt =====
-- The configuration of the server: dp/core/cfg.c and inc/ix/cfg.h (shinjuku-rocksdb). The file as libconfig
-- presents it, and what the C library finds in its strings, are a parameter. A handler's result is a status
-- with the new parameters; a fault, `none`, is a write past the end of an array or an undefined shift.
pub mod Settings
pub mod File
pub mod Ports
pub mod Cpus
use horus_app_eval.Prelude.{
  ℕ, zero, suc, ◌+◌, ◌-◌, ◌*◌, ◌%◌, ◌^◌, Bool, true, false, ◌&&◌, ◌||◌, not, Option, none, some,
  if◌then◌else◌, ltb, ◌==◌, u16, u32, u64, update, ◌>>=◌,
}
use horus_app_eval.Prelude.Int.{ℤ, pos, negsuc, pos_part, ltb_ℤ}
use horus_app_eval.Message.{cfg_max_ports}
use horus_app_eval.Net.{Status, success, failed, einval, e2big}

-- CFG_MAX_CPU, CFG_MAX_ETHDEV
abbrev pub cfg_max_cpu : ℕ
cfg_max_cpu = 128

abbrev pub cfg_max_ethdev : ℕ
cfg_max_ethdev = 16

-- struct cfg_parameters, with strings of the type `Str`. An element of `slos` is the number that the code
-- multiplies by 2.5.
pub record Parameters (Str : Type 0) : Type 0 where
  pub host_addr : ℕ
  pub broadcast_addr : ℕ
  pub gateway_addr : ℕ
  pub mask : ℕ
  pub num_cpus : ℕ
  pub cpu : ℕ → ℕ
  pub cluster_id : ℕ → ℕ
  pub num_ethdev : ℕ
  pub ethdev : ℕ → ℕ
  pub keep_alive_interval_us : ℕ
  pub parent_leaf_id : ℕ
  pub server_id : ℕ
  pub num_ports : ℕ
  pub ports : ℕ → ℕ
  pub num_slos : ℕ
  pub slos : ℕ → ℤ
  pub num_queue_settings : ℕ
  pub queue_settings : ℕ → Bool
  pub preemption_delay : ℕ
  pub loader_path : Option Str

-- the names that the code looks up
pub data Key : Type 0 where
  host_addr port slo queue_setting preemption_delay keep_alive_interval parent_leaf_id server_id :
      Key
  gateway_addr arp devices cpu loader_path : Key

-- libconfig (settings of the type `S`) and the functions of the C library that read strings
pub record Libconfig (S Str : Type 0) : Type 0 where
  pub lookup : Key → Option S
  pub lookup_string : Key → Option Str
  pub get_int : S → ℤ
  pub get_int64 : S → ℤ
  pub get_string : S → Option Str
  pub has_elem : S → ℕ → Bool
  pub get_int_elem : S → ℕ → ℤ
  pub get_bool_elem : S → ℕ → Bool
  pub get_string_elem : S → ℕ → Option Str
  pub setting_length : S → ℕ
  pub ip_of_entry : S → ℕ → Option Str
  pub mac_of_entry : S → ℕ → Option Str
  pub scan_ip : Str → Option (ℕ × ℕ × ℕ × ℕ)
  pub scan_mac : Str → Option ℕ
  pub scan_pci : Str → Option ℕ
  pub first_token : Str → Option Str
  pub rest : Str → Option Str
  pub atoi : Str → ℤ
  pub truncate : Str → Str

-- a conversion of an `int` to a word of `w` bits
abbrev pub to_word : ℕ → ℤ → ℕ
to_word w (pos n) = n % 2 ^ w
to_word w (negsuc n) = (2 ^ w * (n + 1) - (n + 1)) % 2 ^ w

abbrev pub is_zero : ℤ → Bool
is_zero (pos n) = n == 0
is_zero (negsuc n) = false

abbrev pub Handled : Type 0 → Type 0
Handled Str = Option (Status × Parameters Str)

-- the search among the first `n` entries of an array
unfoldable pub is_among : ℕ → ℕ → (ℕ → ℕ) → Bool
is_among x zero a = false
is_among x (suc n) a = a n == x || is_among x n a

module _ {Str : Type 0} where
  unfoldable pub add_port : ℤ → Parameters Str → Handled Str
  add_port p c =
      if not (ltb_ℤ (pos 0) p) || ltb_ℤ (pos 65534) p
      then some (failed einval, c)
      else if ltb c.num_ports cfg_max_ports
      then some (
        success,
        record c { ports = update c.ports c.num_ports (to_word 16 p); num_ports = c.num_ports + 1 },
      )
      else none

  unfoldable pub add_slo : ℤ → Parameters Str → Handled Str
  add_slo x c =
      if ltb c.num_slos cfg_max_ports
      then some (success, record c { slos = update c.slos c.num_slos x; num_slos = c.num_slos + 1 })
      else none

  unfoldable pub add_queue_setting : Bool → Parameters Str → Handled Str
  add_queue_setting front c =
      if ltb c.num_queue_settings cfg_max_ports
      then some (
        success,
        record c {
          queue_settings = update c.queue_settings c.num_queue_settings front;
          num_queue_settings = c.num_queue_settings + 1;
        },
      )
      else none

  -- `cluster_id` is written at the index behind the new CPU.
  unfoldable pub push_cpu : ℕ → Parameters Str → Handled Str
  push_cpu n c =
      if ltb (c.num_cpus + 1) cfg_max_cpu
      then some (
        success,
        record c {
          cpu = update c.cpu c.num_cpus n;
          num_cpus = c.num_cpus + 1;
          cluster_id = update c.cluster_id (c.num_cpus + 1) 0;
        },
      )
      else none

  unfoldable pub add_cpu : ℕ → ℤ → Parameters Str → Handled Str
  unfolding is_among push_cpu
  add_cpu cpu_count n c =
      if ltb_ℤ n (pos 0) || not (ltb_ℤ n (pos cpu_count))
      then some (failed einval, c)
      else if is_among (pos_part n) c.num_cpus c.cpu
      then some (success, c)
      else if ltb c.num_cpus cfg_max_cpu
      then push_cpu (pos_part n) c
      else some (failed e2big, c)

  -- `add_dev`, once `pci_str_to_addr` has returned
  unfoldable pub add_dev : Option ℕ → Parameters Str → Handled Str
  unfolding is_among
  add_dev none c = some (failed einval, c)
  add_dev (some addr) c =
      if is_among addr c.num_ethdev c.ethdev
      then some (success, c)
      else if ltb c.num_ethdev cfg_max_ethdev
      then some (
        success,
        record c { ethdev = update c.ethdev c.num_ethdev addr; num_ethdev = c.num_ethdev + 1 },
      )
      else some (failed e2big, c)

  -- what a loop does with the status of its body
  unfoldable pub unless_failed :
      (Parameters Str → Handled Str) → Status × Parameters Str → Handled Str
  unless_failed rest (success, c) = rest c
  unless_failed rest (failed e, c) = some (failed e, c)

-- what a handler does with the setting of its name
abbrev pub with_setting :
    {S Str : Type 0} → Option S → (S → Parameters Str → Handled Str) → Parameters Str → Handled Str
with_setting none f c = some (failed einval, c)
with_setting (some s) f c = f s c
