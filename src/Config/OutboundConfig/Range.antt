-- ===== src/Config/OutboundConfig/Range.antt =====
-- The nodes that a range over the map of internal/config/proxy_outbound_manager.go collects.
use mcbeproxy.Base.{
  ◌≡◌, refl, ◌∙◌, subst, Bool, String, List, [], ◌∷◌, Option, none, some, arith, if◌then◌else◌,
}
use mathlib.Core.List.{Perm, filter_map}
use mathlib.Core.List.Perm
use mathlib.Core.Option.{Option-elim}
use mcbeproxy.Config.OutboundConfig.{OutboundConfig, nodes_where}

-- A range over a map goes over each entry once.
abbrev pub Reorders : (List (String × OutboundConfig) → List (String × OutboundConfig)) → Type 0
Reorders range = (m : List (String × OutboundConfig)) → Perm (range m) m

abbrev passing : (OutboundConfig → Bool) → String × OutboundConfig → Option OutboundConfig
passing test (name, o) = if test o then some o else none

nodes_where-filter_map :
    (test : OutboundConfig → Bool) (m : List (String × OutboundConfig))
    → filter_map (passing test) m ≡ nodes_where test m
unfolding nodes_where filter_map Option-elim
nodes_where-filter_map test [] = refl
nodes_where-filter_map test ((i, o) ∷ m) = ground (arith, nodes_where-filter_map test m)

-- What passes a test is, in some order, the same for every order of the range.
pub range-Perm :
    (range : List (String × OutboundConfig) → List (String × OutboundConfig))
    → Reorders range
    → (test : OutboundConfig → Bool) (m : List (String × OutboundConfig)) {os : List OutboundConfig}
    → nodes_where test m ≡ os
    → Perm (nodes_where test (range m)) os
range-Perm range go test m {os = gs} e =
    subst (λ (l : List OutboundConfig). Perm l gs) (nodes_where-filter_map test (range m))
      (subst (Perm (filter_map (passing test) (range m))) (nodes_where-filter_map test m ∙ e)
        (Perm.filter_map (passing test) (go m)))
