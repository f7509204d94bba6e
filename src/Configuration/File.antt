-- ===== src/Configuration/File.antt =====
-- The addresses, single settings and static ARP entries of dp/core/cfg.c (shinjuku-rocksdb), and the table of
-- handlers that `parse_conf_file` goes through.
use Prim.Native.Nat.{bit_or}
use horus_app_eval.Prelude.{
  ℕ, zero, suc, ◌+◌, ◌-◌, ◌*◌, ◌/◌, ◌^◌, Bool, Option, none, some, List, [], ◌∷◌, if◌then◌else◌,
  ltb, ◌>>=◌,
}
use horus_app_eval.Prelude.Int.{ℤ, pos, negsuc}
use horus_app_eval.Net.{Net, Status, success, failed, einval}
use horus_app_eval.Net.Arp.Update.{arp_insert}
use horus_app_eval.Configuration.{
  Parameters, Libconfig, Handled, gateway_addr, host_addr, preemption_delay, keep_alive_interval,
  parent_leaf_id, server_id, arp, loader_path, to_word, is_zero, with_setting,
}
use horus_app_eval.Configuration.Settings.{
  parse_port, parse_slo, parse_queue_settings, parse_cpu, parse_devices,
}

-- MAKE_IP_ADDR: the operands of `|` have no bit in common
abbrev pub make_ip_addr : ℕ × ℕ × ℕ × ℕ → ℕ
make_ip_addr (a, b, c, d) = a * 2 ^ 24 + b * 2 ^ 16 + c * 2 ^ 8 + d

-- `CFG` and the ARP table
pub record Boot (Str : Type 0) : Type 0 where
  pub cfg : Parameters Str
  pub net : Net

abbrev pub Booted : Type 0 → Type 0
Booted Str = Option (Status × Boot Str)

module _ {Str : Type 0} where
  -- The mask of `bits` bits, and the broadcast address. A shift by 32 or more is undefined.
  unfoldable pub set_mask : ℕ → Parameters Str → Handled Str
  set_mask bits c =
      let low = (2 ^ 32 - 1) / 2 ^ bits in
      if ltb bits 32
      then some
          (success, record c { mask = 2 ^ 32 - 1 - low; broadcast_addr = bit_or c.host_addr low })
      else none

  -- `!bitmask || !atoi(bitmask)`; a negative number is a shift that is undefined
  unfoldable pub netmask : Option ℤ → Parameters Str → Handled Str
  unfolding set_mask
  netmask none c = some (failed einval, c)
  netmask (some (pos n)) c = if is_zero (pos n) then some (failed einval, c) else set_mask n c
  netmask (some (negsuc n)) c = none

  -- a handler of the parameters as one of the table
  unfoldable pub of_parameters : (Parameters Str → Handled Str) → Boot Str → Booted Str
  of_parameters f b = f b.cfg >>= λ x. some (x.0, record b { cfg = x.1 })

  unfoldable pub go_on : (Boot Str → Booted Str) → Status × Boot Str → Booted Str
  go_on rest (success, b) = rest b
  go_on rest (failed e, b) = some (failed e, b)

  -- the loop of `parse_conf_file`
  unfoldable pub run_handlers : List (Boot Str → Booted Str) → Boot Str → Booted Str
  unfolding go_on
  run_handlers [] b = some (success, b)
  run_handlers (h ∷ hs) b = h b >>= go_on (run_handlers hs)

module _ {S Str : Type 0} (lib : Libconfig S Str) where
  scanned_ip : Option Str → Option (ℕ × ℕ × ℕ × ℕ)
  scanned_ip none = none
  scanned_ip (some ip) = lib.scan_ip ip

  set_gateway : Option (ℕ × ℕ × ℕ × ℕ) → Parameters Str → Handled Str
  set_gateway none c = some (failed einval, c)
  set_gateway (some ip) c = some (success, record c { gateway_addr = make_ip_addr ip })

  unfoldable pub parse_gateway_addr : Parameters Str → Handled Str
  unfolding set_gateway scanned_ip
  parse_gateway_addr c = set_gateway (scanned_ip (lib.lookup_string gateway_addr)) c

  number_of : Option Str → Option ℤ
  number_of none = none
  number_of (some t) = some (lib.atoi t)

  set_host : Option (ℕ × ℕ × ℕ × ℕ) → Option ℤ → Parameters Str → Handled Str
  set_host none bits c = some (failed einval, c)
  set_host (some ip) bits c = netmask bits (record c { host_addr = make_ip_addr ip })

  host_of : Option Str → Parameters Str → Handled Str
  host_of none c = some (failed einval, c)
  host_of (some t) c = set_host (scanned_ip (lib.first_token t)) (number_of (lib.rest t)) c

  unfoldable pub parse_host_addr : Parameters Str → Handled Str
  unfolding host_of set_host scanned_ip number_of
  parse_host_addr c = host_of (lib.lookup_string host_addr) c

  unfoldable pub parse_preemption_delay : Parameters Str → Handled Str
  parse_preemption_delay =
      with_setting (lib.lookup preemption_delay)
        (λ s c. some (success, record c { preemption_delay = to_word 64 (lib.get_int64 s) }))

  unfoldable pub parse_keep_alive_interval : Parameters Str → Handled Str
  parse_keep_alive_interval =
      with_setting (lib.lookup keep_alive_interval)
        (λ s c. some (success, record c { keep_alive_interval_us = to_word 64 (lib.get_int64 s) }))

  unfoldable pub parse_parent_leaf_id : Parameters Str → Handled Str
  parse_parent_leaf_id =
      with_setting (lib.lookup parent_leaf_id)
        (λ s c. some (success, record c { parent_leaf_id = to_word 16 (lib.get_int s) }))

  unfoldable pub parse_server_id : Parameters Str → Handled Str
  parse_server_id =
      with_setting (lib.lookup server_id)
        (λ s c. some (success, record c { server_id = to_word 16 (lib.get_int s) }))

  path_of : Option Str → Parameters Str → Handled Str
  path_of none c = some (failed einval, c)
  path_of (some t) c = some (success, record c { loader_path = some (lib.truncate t) })

  unfoldable pub parse_loader_path : Parameters Str → Handled Str
  unfolding path_of
  parse_loader_path c = path_of (lib.lookup_string loader_path) c

  module _ (hash : ℕ → ℕ) where
    insert_entry : Option (ℕ × ℕ × ℕ × ℕ) → Option ℕ → Boot Str → Booted Str
    insert_entry (some ip) (some mac) b =
        arp_insert hash b.net (make_ip_addr ip) mac >>= λ x. some (x.0, record b { net = x.1 })
    insert_entry (some ip) none b = some (failed einval, b)
    insert_entry none mac b = some (failed einval, b)

    scanned_mac : Option Str → Option ℕ
    scanned_mac none = none
    scanned_mac (some t) = lib.scan_mac t

    -- the loop over the entries, with `n` to go
    unfoldable pub read_entries : S → ℕ → ℕ → Boot Str → Booted Str
    unfolding insert_entry scanned_ip scanned_mac
    read_entries s zero i b = some (success, b)
    read_entries s (suc n) i b =
        insert_entry (scanned_ip (lib.ip_of_entry s i)) (scanned_mac (lib.mac_of_entry s i)) b
        >>= go_on (read_entries s n (i + 1))

    entries_of : Option S → Boot Str → Booted Str
    entries_of none b = some (success, b)
    entries_of (some s) b = read_entries s (lib.setting_length s) 0 b

    unfoldable pub parse_arp : Boot Str → Booted Str
    unfolding entries_of
    parse_arp b = entries_of (lib.lookup arp) b

    -- `config_tbl`
    unfoldable pub config_tbl : ℕ → List (Boot Str → Booted Str)
    config_tbl cpu_count =
        of_parameters parse_host_addr
        ∷ of_parameters (parse_port lib)
        ∷ of_parameters (parse_slo lib)
        ∷ of_parameters (parse_queue_settings lib)
        ∷ of_parameters parse_preemption_delay
        ∷ of_parameters parse_keep_alive_interval
        ∷ of_parameters parse_parent_leaf_id
        ∷ of_parameters parse_server_id
        ∷ of_parameters parse_gateway_addr
        ∷ parse_arp
        ∷ of_parameters (parse_devices lib)
        ∷ of_parameters (parse_cpu lib cpu_count)
        ∷ of_parameters parse_loader_path
        ∷ []

    -- `parse_conf_file`; `readable` is the result of config_read_file
    unfoldable pub parse_conf_file : Bool → ℕ → Boot Str → Booted Str
    unfolding run_handlers
    parse_conf_file readable cpu_count b =
        if readable then run_handlers (config_tbl cpu_count) b else some (failed einval, b)
