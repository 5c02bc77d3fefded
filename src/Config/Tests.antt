-- ===== src/Config/Tests.antt =====
-- The theorems on the configuration at a small manager; texts are compared as they are.
use mcbeproxy.Base.{
  ◌≡◌, ◌≢◌, ◌⊎◌, refl, true, false, String, str_eq, eq_iff, List, [], ◌∷◌, none, some, arith,
  if◌then◌else◌,
}
use mcbeproxy.Base.Int.{pos, negsuc}
use mcbeproxy.Base.Map.{lookup, string_key}
use mcbeproxy.Base.Library.{Library}
use mcbeproxy.Config.ProxyPort.{
  ProxyPortConfig, check_port, apply_defaults, validate_cidr_list, default_top_candidates,
}
use mcbeproxy.Config.ProxyPort.Defaults.{IsFolding, apply_defaults-again}
use mcbeproxy.Config.PortManager.{
  missing, ProxyPortConfigManager, new_manager, add_ports, load, save_to_file, write_failed,
}
use mcbeproxy.Config.PortManager.Unique.{IsSound}
use mcbeproxy.Config.PortManager.Invariant.{
  Operation, adds, loads, updates, deletes, steps, steps-IsSound,
}
use mcbeproxy.Config.PortManager.Batch.{or_old, entries, validated, add_ports-all_or_nothing}
use mcbeproxy.Config.PortManager.File.{load-save_to_file}
use mcbeproxy.Config.OutboundConfig.{
  OutboundConfig, OutboundConfigManager, OutboundConfigError, no_file, write_error,
  get_by_subscription_id, replace_subscription_outbounds, update_node, outbound_count,
}
use mcbeproxy.Config.OutboundConfig.Subscription.{replace_subscription_outbounds-exact}
use mcbeproxy.Config.OutboundConfig.Range.{Reorders}
use mathlib.Core.List.{Perm}
use mathlib.Core.List.Perm
use mcbeproxy.Config.OutboundConfig.Names.{update_node-overwrites}
use mcbeproxy.Base.Map.{IsDistinct}
use mcbeproxy.Base.{◌+◌, Option}

-- A library that knows one address and folds nothing.
abbrev go : Library
go = record {
  trim_space = λ s. s;
  to_lower = λ s. s;
  contains = λ s t. str_eq s "0.0.0.0/0";
  has_prefix = λ s t. false;
  trim_prefix = λ s t. s;
  split = λ s t. s ∷ [];
  join = λ l t. "";
  split_host_port = λ s. if str_eq s "" then none else some (s, "80");
  lookup_port = λ s. some (pos 80);
  parse_cidr = λ s. true;
  parse_ip = λ s. true;
  parse_clock = λ s. true;
}

go-IsFolding : IsFolding go
go-IsFolding = record { again = λ s. refl; socks4 = refl; empty = refl; time = refl }

abbrev port : String → String → ProxyPortConfig
port id addr = record {
  id = id;
  name = id;
  listen_addr = addr;
  port_type = "http";
  enabled = true;
  username = "";
  password = "";
  proxy_outbound = "";
  load_balance = "";
  load_balance_sort = "";
  auto_ping_enabled = false;
  auto_ping_interval_minutes = pos 5;
  auto_ping_top_candidates = pos 3;
  auto_ping_full_scan_mode = "";
  auto_ping_full_scan_time = "03:00";
  auto_ping_full_scan_interval_hours = pos 12;
  allow_list = "0.0.0.0/0" ∷ [];
}

-- The same with a negative number of candidates.
abbrev no_candidates : ProxyPortConfig
no_candidates = record (port "a" "x") { auto_ping_top_candidates = negsuc 0 }

abbrev empty : ProxyPortConfigManager
empty = new_manager missing

abbrev two_ports : ProxyPortConfigManager
two_ports = record empty { ports = ("a", port "a" "x") ∷ ("b", port "b" "y") ∷ [] }

empty-IsSound : IsSound go []
empty-IsSound = record { ids = tt; own = tt; listen = tt }

abbrev IsGiven : String → Type 0
IsGiven id = id ≢ ""

a-IsGiven : IsGiven "a"
a-IsGiven e = let apart : false ≡ true = (eq_iff "a" "").1 e in ground arith

b-IsGiven : IsGiven "b"
b-IsGiven e = let apart : false ≡ true = (eq_iff "b" "").1 e in ground arith

two_ports-IsSound : IsSound go two_ports.ports
unfolding lookup
two_ports-IsSound = record {
  ids = (refl, (refl, tt));
  own = ((refl, a-IsGiven), ((refl, b-IsGiven), tt));
  listen = (refl, (refl, tt));
}

abbrev some_steps : List Operation
some_steps =
    adds (some (port "a" "x")) true
    ∷ adds (some (port "b" "x")) true
    ∷ updates "a" (some (port "c" "y")) false
    ∷ loads
    ∷ deletes "c" true
    ∷ []

steps-IsSound_example : IsSound go (steps go empty some_steps).ports
steps-IsSound_example = steps-IsSound go empty some_steps empty-IsSound

add_ports-all_or_nothing_example :
    (((add_ports go empty (some (port "a" "x") ∷ some (port "b" "x") ∷ []) true).0 ≡ empty)
      × ((add_ports go empty (some (port "a" "x") ∷ some (port "b" "x") ∷ []) true).1 ≢ none))
    ⊎ ((lookup "b"
            (add_ports go empty (some (port "a" "x") ∷ some (port "b" "x") ∷ []) true).0.ports
          ≡ or_old
              (lookup "b" (entries (validated go (some (port "a" "x") ∷ some (port "b" "x") ∷ []))))
              (lookup "b" empty.ports))
        × (((add_ports go empty (some (port "a" "x") ∷ some (port "b" "x") ∷ []) true).1 ≡ none)
            ⊎ ((add_ports go empty (some (port "a" "x") ∷ some (port "b" "x") ∷ []) true).1
                ≡ some write_failed)))
add_ports-all_or_nothing_example =
    add_ports-all_or_nothing go empty (some (port "a" "x") ∷ some (port "b" "x") ∷ []) true "b"

load-save_to_file_example :
    (load go (save_to_file two_ports true).0 ≡ ((save_to_file two_ports true).0, none))
    × ((save_to_file two_ports true).0.ports ≡ two_ports.ports)
unfolding apply_defaults check_port validate_cidr_list
load-save_to_file_example =
    load-save_to_file go two_ports two_ports-IsSound ((refl, refl), ((refl, refl), tt))

-- Here the second time gives 10.
apply_defaults-again_example :
    ((apply_defaults go no_candidates).auto_ping_top_candidates ≡ pos 0)
    × (apply_defaults go (apply_defaults go no_candidates)
        ≡ record (apply_defaults go no_candidates) {
          auto_ping_top_candidates = default_top_candidates;
        })
apply_defaults-again_example = apply_defaults-again go go-IsFolding no_candidates

abbrev config : String → String → OutboundConfig
config name subscription = record {
  name = name;
  group = "";
  subscription_id = subscription;
  fields = 0;
}

abbrev configs_of_two : OutboundConfigManager
configs_of_two = record {
  nodes = ("hk", config "hk" "s1") ∷ ("jp", config "jp" "s2") ∷ [];
  config_file = no_file;
}

abbrev replaced : OutboundConfigManager × Option OutboundConfigError
replaced =
    replace_subscription_outbounds (λ o. true) configs_of_two "s1" (some (config "sg" "s1") ∷ [])
      true

-- A range that begins with the second entry.
abbrev swapped : List (String × OutboundConfig) → List (String × OutboundConfig)
swapped [] = []
swapped (a ∷ []) = a ∷ []
swapped (a ∷ b ∷ m) = b ∷ a ∷ m

swapped-Reorders : Reorders swapped
swapped-Reorders [] = Perm.refl []
swapped-Reorders (a ∷ []) = Perm.refl (a ∷ [])
swapped-Reorders (a ∷ b ∷ m) = Perm.swap a b m

replace_subscription_outbounds-exact_example :
    ((replaced.0 ≡ configs_of_two) × (replaced.1 ≢ none))
    ⊎ (Perm (get_by_subscription_id (λ m. m) replaced.0 "s1") (config "sg" "s1" ∷ [])
        × Perm
            (get_by_subscription_id (λ m. m) replaced.0 "s2")
            (get_by_subscription_id swapped configs_of_two "s2")
        × ((replaced.1 ≡ none) ⊎ (replaced.1 ≡ some write_error)))
replace_subscription_outbounds-exact_example =
    replace_subscription_outbounds-exact (λ o. true) (λ m. m) swapped configs_of_two "s1" "s2"
      (some (config "sg" "s1") ∷ []) true (λ m. Perm.refl m) swapped-Reorders refl

configs-IsDistinct : IsDistinct configs_of_two.nodes
unfolding lookup
configs-IsDistinct = (refl, (refl, tt))

update_node-overwrites_example :
    (lookup "jp" (update_node (λ o. true) configs_of_two "hk" (config "jp" "s1") true).0.nodes
      ≡ some (config "jp" "s1"))
    × (lookup "hk" (update_node (λ o. true) configs_of_two "hk" (config "jp" "s1") true).0.nodes
        ≡ none)
    × (2
        ≡ outbound_count (update_node (λ o. true) configs_of_two "hk" (config "jp" "s1") true).0
          + 1)
    × (((update_node (λ o. true) configs_of_two "hk" (config "jp" "s1") true).1 ≡ none)
        ⊎ ((update_node (λ o. true) configs_of_two "hk" (config "jp" "s1") true).1
            ≡ some write_error))
unfolding lookup
update_node-overwrites_example =
    update_node-overwrites (λ o. true) configs_of_two "hk" (config "jp" "s1") (config "hk" "s1")
      (config "jp" "s2") true configs-IsDistinct refl refl refl refl
