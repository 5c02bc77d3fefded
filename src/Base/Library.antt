-- ===== src/Base/Library.antt =====
-- What the configuration and the node selection use of Go's standard library.
use Prim.Native.String.{String}
use mathlib.Core.Bool.{Bool}
use mathlib.Core.Option.{Option}
use mathlib.Core.List.{List}
use mcbeproxy.Base.Int.{ℤ}

-- strings.TrimSpace, ToLower, Contains, HasPrefix, TrimPrefix, Split and Join; net.SplitHostPort,
-- LookupPort for "tcp", ParseCIDR and ParseIP; time.Parse with "15:04". `none` and `false` are
-- their errors.
pub record Library : Type 0 where
  pub trim_space : String → String
  pub to_lower : String → String
  pub contains : String → String → Bool
  pub has_prefix : String → String → Bool
  pub trim_prefix : String → String → String
  pub split : String → String → List String
  pub join : List String → String → String
  pub split_host_port : String → Option (String × String)
  pub lookup_port : String → Option ℤ
  pub parse_cidr : String → Bool
  pub parse_ip : String → Bool
  pub parse_clock : String → Bool
