-- ===== src/Config/ProxyPort.antt =====
-- internal/config/proxy_port.go: one proxy port, its defaults and its validation, with the two
-- helpers of internal/config/config.go. A nil list and an empty one are the same list.
pub mod Defaults
use mcbeproxy.Base.{
  ℕ, Bool, true, false, not, ◌&&◌, ◌||◌, String, str_eq, List, [], ◌∷◌, Option, none, some,
  if◌then◌else◌,
}
use mcbeproxy.Base.Library.{Library}
use mcbeproxy.Base.Int.{ℤ, pos, ltb_ℤ, leb_ℤ}

pub record ProxyPortConfig : Type 0 where
  pub id : String
  pub name : String
  pub listen_addr : String
  pub port_type : String
  pub enabled : Bool
  pub username : String
  pub password : String
  pub proxy_outbound : String
  pub load_balance : String
  pub load_balance_sort : String
  pub auto_ping_enabled : Bool
  pub auto_ping_interval_minutes : ℤ
  pub auto_ping_top_candidates : ℤ
  pub auto_ping_full_scan_mode : String
  pub auto_ping_full_scan_time : String
  pub auto_ping_full_scan_interval_hours : ℤ
  pub allow_list : List String

-- The errors of Validate, in the order of its checks.
pub data PortError : Type 0 where
  id_required : PortError
  name_required : PortError
  listen_addr_required : PortError
  invalid_listen_addr : PortError
  port_required : PortError
  port_range : PortError
  invalid_type : PortError
  invalid_interval : PortError
  invalid_candidates : PortError
  invalid_clock : PortError
  invalid_hours : PortError
  invalid_mode : PortError
  invalid_cidr : String → PortError
  invalid_ip : String → PortError

abbrev pub default_top_candidates : ℤ
default_top_candidates = pos 10

abbrev pub default_full_scan_time : String
default_full_scan_time = "04:00"

abbrev pub default_full_scan_interval_hours : ℤ
default_full_scan_interval_hours = pos 24

-- The switch's three cases return what its default returns.
abbrev pub normalize_full_scan_mode : Library → String → String
normalize_full_scan_mode go mode =
    let folded = go.to_lower (go.trim_space mode) in
    if str_eq folded ""
    then ""
    else (if str_eq folded "daily"
        then "daily"
        else (if str_eq folded "interval" then "interval" else folded))

-- The assignments of ApplyDefaults, one function for each field it writes.
abbrev pub default_type : Library → String → String
default_type go t =
    let folded = go.to_lower (go.trim_space t) in if str_eq folded "sock" then "socks4" else folded

abbrev pub default_list : List String → List String
default_list [] = "0.0.0.0/0" ∷ []
default_list (entry ∷ entries) = entry ∷ entries

abbrev pub default_id : String → String → String
default_id id name = if str_eq id "" && not (str_eq name "") then name else id

abbrev pub default_positive : ℤ → ℤ → ℤ
default_positive z n = if leb_ℤ n (pos 0) then z else n

-- The two tests on the number of candidates, one after the other.
abbrev pub default_candidates : ℤ → ℤ
default_candidates n =
    let filled = if leb_ℤ n (pos 0) && leb_ℤ (pos 0) n then default_top_candidates else n in
    if ltb_ℤ filled (pos 0) then pos 0 else filled

abbrev pub default_time : Library → String → String
default_time go t = if str_eq (go.trim_space t) "" then default_full_scan_time else t

unfoldable pub apply_defaults : Library → ProxyPortConfig → ProxyPortConfig
apply_defaults go pc = record pc {
  port_type = default_type go pc.port_type;
  allow_list = default_list pc.allow_list;
  id = default_id pc.id pc.name;
  auto_ping_full_scan_mode = normalize_full_scan_mode go pc.auto_ping_full_scan_mode;
  auto_ping_interval_minutes = default_positive (pos 10) pc.auto_ping_interval_minutes;
  auto_ping_top_candidates = default_candidates pc.auto_ping_top_candidates;
  auto_ping_full_scan_time = default_time go pc.auto_ping_full_scan_time;
  auto_ping_full_scan_interval_hours =
      default_positive default_full_scan_interval_hours pc.auto_ping_full_scan_interval_hours;
}

abbrev pub get_top_candidates : ProxyPortConfig → ℤ
get_top_candidates pc =
    if ltb_ℤ pc.auto_ping_top_candidates (pos 0)
    then pos 0
    else (if leb_ℤ pc.auto_ping_top_candidates (pos 0)
        then default_top_candidates
        else pc.auto_ping_top_candidates)

abbrev pub get_full_scan_time : Library → ProxyPortConfig → String
get_full_scan_time go pc =
    let trimmed = go.trim_space pc.auto_ping_full_scan_time in
    if str_eq trimmed "" then default_full_scan_time else trimmed

abbrev pub get_full_scan_interval_hours : ProxyPortConfig → ℤ
get_full_scan_interval_hours pc =
    default_positive default_full_scan_interval_hours pc.auto_ping_full_scan_interval_hours

-- validateCIDRList: the first entry that is wrong.
unfoldable pub validate_cidr_list : Library → List String → Option PortError
validate_cidr_list go [] = none
validate_cidr_list go (raw ∷ entries) =
    let entry = go.trim_space raw in
    let rest = validate_cidr_list go entries in
    if str_eq entry ""
    then rest
    else (if go.contains entry "/"
        then (if go.parse_cidr entry then rest else some (invalid_cidr entry))
        else (if go.parse_ip entry then rest else some (invalid_ip entry)))

-- An early return.
abbrev pub or_fail : Bool → PortError → Option PortError → Option PortError
or_fail test e rest = if test then some e else rest

abbrev pub is_port : Option ℤ → Bool
is_port none = false
is_port (some port) = ltb_ℤ (pos 0) port && leb_ℤ port (pos 65535)

-- SplitHostPort and the checks on the port.
abbrev pub check_listen_addr : Library → String → Option PortError
check_listen_addr go addr = elim (go.split_host_port addr) [
  | none ↦ some invalid_listen_addr
  | some (host, port) ↦
      or_fail (str_eq port "") port_required
        (or_fail (not (is_port (go.lookup_port port))) port_range none)
]

abbrev pub check_mode : Library → ProxyPortConfig → Option PortError
check_mode go pc =
    let mode = normalize_full_scan_mode go pc.auto_ping_full_scan_mode in
    if str_eq mode ""
    then none
    else (if str_eq mode "daily"
        then or_fail (not (go.parse_clock (go.trim_space (get_full_scan_time go pc)))) invalid_clock
            none
        else (if str_eq mode "interval"
            then or_fail (ltb_ℤ (get_full_scan_interval_hours pc) (pos 1)) invalid_hours none
            else some invalid_mode))

abbrev pub is_type : String → Bool
is_type t = str_eq t "http" || str_eq t "socks5" || str_eq t "socks4" || str_eq t "mixed"

abbrev pub or_else : Option PortError → Option PortError → Option PortError
or_else none rest = rest
or_else (some e) rest = some e

-- The checks of Validate, after ApplyDefaults.
unfoldable pub check_port : Library → ProxyPortConfig → Option PortError
check_port go pc = or_fail (str_eq pc.id "") id_required (
    or_fail (str_eq pc.name "") name_required (
      or_fail (str_eq pc.listen_addr "") listen_addr_required (
        or_else (check_listen_addr go pc.listen_addr) (
          or_fail (not (is_type pc.port_type)) invalid_type (
            or_fail (ltb_ℤ pc.auto_ping_interval_minutes (pos 1)) invalid_interval (
              or_fail (ltb_ℤ pc.auto_ping_top_candidates (pos 0)) invalid_candidates
                (or_else (check_mode go pc) (validate_cidr_list go pc.allow_list))))))))

-- Validate: the port with its defaults, which it writes through the pointer, and the error.
abbrev pub validate : Library → ProxyPortConfig → ProxyPortConfig × Option PortError
validate go pc = (apply_defaults go pc, check_port go (apply_defaults go pc))

abbrev pub is_direct_connection : ProxyPortConfig → Bool
is_direct_connection pc = str_eq pc.proxy_outbound "" || str_eq pc.proxy_outbound "direct"

abbrev pub is_group_selection : Library → ProxyPortConfig → Bool
is_group_selection go pc = go.has_prefix pc.proxy_outbound "@"

abbrev pub is_multi_node_selection : Library → ProxyPortConfig → Bool
is_multi_node_selection go pc =
    if is_direct_connection pc
    then false
    else (if go.has_prefix pc.proxy_outbound "@" then false else go.contains pc.proxy_outbound ",")

-- The loop of GetNodeList.
unfoldable pub trimmed_nodes : Library → List String → List String
trimmed_nodes go [] = []
trimmed_nodes go (node ∷ nodes) =
    let rest = trimmed_nodes go nodes in
    let trimmed = go.trim_space node in if str_eq trimmed "" then rest else trimmed ∷ rest

abbrev pub get_node_list : Library → ProxyPortConfig → List String
get_node_list go pc =
    if is_multi_node_selection go pc then trimmed_nodes go (go.split pc.proxy_outbound ",") else []

abbrev pub get_group_name : Library → ProxyPortConfig → String
get_group_name go pc = if is_group_selection go pc then go.trim_prefix pc.proxy_outbound "@" else ""
