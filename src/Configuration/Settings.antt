-- ===== src/Configuration/Settings.antt =====
-- The handlers of dp/core/cfg.c (shinjuku-rocksdb) that read lists: ports, SLOs, queue settings, CPUs and
-- devices.
use horus_app_eval.Prelude.{ℕ, zero, suc, ◌+◌, ◌&&◌, Option, none, some, if◌then◌else◌, ltb, ◌>>=◌}
use horus_app_eval.Message.{cfg_max_ports}
use horus_app_eval.Net.{success}
use horus_app_eval.Configuration.{
  Parameters, Libconfig, Handled, port, slo, queue_setting, cpu, devices, is_zero, add_port,
  add_slo, add_queue_setting, add_cpu, add_dev, unless_failed, with_setting,
}

module _ {S Str : Type 0} (lib : Libconfig S Str) where
  -- the loop of `parse_port`, with `n` rounds to go: a round fills a slot or returns
  unfoldable pub read_ports : S → ℕ → Parameters Str → Handled Str
  unfolding unless_failed
  read_ports s zero c = some (success, c)
  read_ports s (suc n) c =
      let go_on = add_port (lib.get_int_elem s c.num_ports) c >>= unless_failed (read_ports s n) in
      if ltb c.num_ports cfg_max_ports && ltb c.num_ports (lib.setting_length s)
      then go_on
      else some (success, c)

  unfoldable pub ports_of : S → Parameters Str → Handled Str
  ports_of s c =
      if is_zero (lib.get_int s)
      then read_ports s cfg_max_ports (record c { num_ports = 0 })
      else add_port (lib.get_int s) c

  unfoldable pub parse_port : Parameters Str → Handled Str
  unfolding ports_of
  parse_port = with_setting (lib.lookup port) ports_of

  -- the loop of `parse_slo`
  unfoldable pub read_slos : S → ℕ → Parameters Str → Handled Str
  unfolding unless_failed
  read_slos s zero c = some (success, c)
  read_slos s (suc n) c =
      let go_on = add_slo (lib.get_int_elem s c.num_slos) c >>= unless_failed (read_slos s n) in
      if ltb c.num_slos cfg_max_ports && ltb c.num_slos (lib.setting_length s)
      then go_on
      else some (success, c)

  unfoldable pub slos_of : S → Parameters Str → Handled Str
  slos_of s c =
      if is_zero (lib.get_int s)
      then read_slos s cfg_max_ports (record c { num_slos = 0 })
      else add_slo (lib.get_int s) c

  unfoldable pub parse_slo : Parameters Str → Handled Str
  unfolding slos_of
  parse_slo = with_setting (lib.lookup slo) slos_of

  -- the loop of `parse_queue_settings`
  unfoldable pub read_queue_settings : S → ℕ → Parameters Str → Handled Str
  unfolding unless_failed
  read_queue_settings s zero c = some (success, c)
  read_queue_settings s (suc n) c =
      let go_on =
        add_queue_setting (lib.get_bool_elem s c.num_queue_settings) c
        >>= unless_failed (read_queue_settings s n) in
      if ltb c.num_queue_settings cfg_max_ports && ltb c.num_queue_settings (lib.setting_length s)
      then go_on
      else some (success, c)

  unfoldable pub parse_queue_settings : Parameters Str → Handled Str
  parse_queue_settings =
      with_setting (lib.lookup queue_setting)
        (λ s c. read_queue_settings s cfg_max_ports (record c { num_queue_settings = 0 }))

  -- the loops of `parse_cpu` and `parse_devices`, with `n` elements to go
  unfoldable pub read_cpus : ℕ → S → ℕ → ℕ → Parameters Str → Handled Str
  unfolding unless_failed
  read_cpus cpu_count s zero i c = some (success, c)
  read_cpus cpu_count s (suc n) i c =
      add_cpu cpu_count (lib.get_int_elem s i) c >>= unless_failed (read_cpus cpu_count s n (i + 1))

  unfoldable pub parse_cpu : ℕ → Parameters Str → Handled Str
  parse_cpu cpu_count = with_setting (lib.lookup cpu) (λ s c.
      if lib.has_elem s 0
      then read_cpus cpu_count s (lib.setting_length s) 0 c
      else add_cpu cpu_count (lib.get_int s) c)

  -- `pci_str_to_addr`; a NULL string is a fault
  unfoldable pub add_named : Option Str → Parameters Str → Handled Str
  add_named none c = none
  add_named (some dev) c = add_dev (lib.scan_pci dev) c

  unfoldable pub read_devices : S → ℕ → ℕ → Parameters Str → Handled Str
  unfolding unless_failed add_named
  read_devices s zero i c = some (success, c)
  read_devices s (suc n) i c =
      add_named (lib.get_string_elem s i) c >>= unless_failed (read_devices s n (i + 1))

  devices_of : S → Option Str → Parameters Str → Handled Str
  devices_of s none c = read_devices s (lib.setting_length s) 0 c
  devices_of s (some dev) c = add_named (some dev) c

  unfoldable pub parse_devices : Parameters Str → Handled Str
  unfolding devices_of
  parse_devices = with_setting (lib.lookup devices) (λ s c. devices_of s (lib.get_string s) c)
