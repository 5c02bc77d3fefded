-- ===== src/Proxy/OutboundManager/Fits.antt =====
-- The candidates of internal/proxy/outbound_manager.go are known to the manager and not kept out.
use mcbeproxy.Base.{
  ◌≡◌, refl, sym, ◌∙◌, ap, subst, Bool, true, false, not, ◌&&◌, ◌||◌, String, str_eq, eq_iff, List,
  [], ◌∷◌, Option, none, some, arith, if◌then◌else◌, All, Bool-cases, Option-cases, inl, inr, ◌⊎◌,
}
use mcbeproxy.Base.Map.{lookup, string_key, IsDistinct, All-lookup}
use mcbeproxy.Base.Library.{Library}
use mcbeproxy.Proxy.LoadBalancer.{ProxyOutbound, LoadBalancer}
use mcbeproxy.Proxy.OutboundManager.{Runtime}
use mcbeproxy.Proxy.OutboundManager.Nodes.{IsNamed, IsKeyed}
use mcbeproxy.Proxy.OutboundManager.Select.{
  Selection, direct_node, supports_sort, is_selectable, is_excluded, list_candidates,
  group_candidates, select_single_node,
}
use mcbeproxy.Proxy.OutboundManager.Candidates.{OnSome, OnChosen}

-- The direct connection, or a node of the manager under its name that is enabled.
abbrev pub IsKnown : List (String × ProxyOutbound) → ProxyOutbound → Type 0
IsKnown outbounds o = (o ≡ direct_node) ⊎ ((lookup o.name outbounds ≡ some o) × (o.enabled ≡ true))

-- Known, and not kept out by its name.
abbrev pub Fits : (String → Bool) → List (String × ProxyOutbound) → ProxyOutbound → Type 0
Fits exclude outbounds o = (exclude o.name ≡ false) × IsKnown outbounds o

abbrev pub AllFound : List (String × ProxyOutbound) → List (String × ProxyOutbound) → Type 0
AllFound outbounds m = All (λ (p : String × ProxyOutbound). lookup p.0 outbounds ≡ some p.1) m

-- Each pair of a map is what a lookup of its key gives.
AllFound-cons :
    (i : String) (w : ProxyOutbound) (outbounds m : List (String × ProxyOutbound))
    → lookup i m ≡ none
    → AllFound outbounds m
    → AllFound ((i, w) ∷ outbounds) m
unfolding lookup
AllFound-cons i w outbounds [] n h = tt
AllFound-cons i w outbounds ((j, v) ∷ m) n h =
    (ground (arith, h.0, eq_iff i j, eq_iff j i), AllFound-cons i w outbounds m (ground arith) h.1)

pub all_found : (m : List (String × ProxyOutbound)) → IsDistinct m → AllFound m m
unfolding lookup
all_found [] d = tt
all_found ((i, w) ∷ m) d = (ground (arith, eq_iff i i), AllFound-cons i w m m d.0 (all_found m d.1))

-- A selection that is refused by a test, or goes on.
pub test-OnChosen :
    (P : ProxyOutbound → Type 0) (stop : Bool) (a b : Selection)
    → OnChosen P a
    → (stop ≡ false → OnChosen P b)
    → OnChosen P (if stop then a else b)
test-OnChosen P true a b p q = p
test-OnChosen P false a b p q = q refl

pub test-OnResult :
    (P : ProxyOutbound → Type 0) (stop : Bool) (a b : LoadBalancer × Selection)
    → OnChosen P a.1
    → (stop ≡ false → OnChosen P b.1)
    → OnChosen P (if stop then a else b).1
test-OnResult P true a b p q = p
test-OnResult P false a b p q = q refl

pub test-OnSome :
    (P : ProxyOutbound → Type 0) (test : Bool) (a b : Option ProxyOutbound)
    → (test ≡ true → OnSome P a)
    → (test ≡ false → OnSome P b)
    → OnSome P (if test then a else b)
test-OnSome P true a b p q = p refl
test-OnSome P false a b p q = q refl

pub found-OnSome :
    (P : ProxyOutbound → Type 0) (x : Option ProxyOutbound) (test : ProxyOutbound → Bool)
    → ((o : ProxyOutbound) → x ≡ some o → test o ≡ true → P o)
    → OnSome P (elim x [ none ↦ none | some o ↦ if test o then some o else none ])
found-OnSome P none test h = tt
found-OnSome P (some o) test h = test-OnSome P (test o) (some o) none (h o refl) (λ e. tt)

module _ (go : Library) (run : Runtime) where
  pub selectable-enabled : (o : ProxyOutbound) → is_selectable go run o ≡ true → o.enabled ≡ true
  selectable-enabled o h = ground arith

  module _ (exclude : String → Bool) (outbounds : List (String × ProxyOutbound))
      (k : IsKeyed outbounds) where
    pub list_candidates-Fits :
        (test : ProxyOutbound → Bool) (names : List String)
        → ((o : ProxyOutbound) → test o ≡ true → o.enabled ≡ true)
        → All (Fits exclude outbounds) (list_candidates go run outbounds exclude test names).0
    unfolding list_candidates
    list_candidates-Fits test [] t = tt
    list_candidates-Fits test (raw ∷ names) t =
        let rest = list_candidates-Fits test names t in
        let name = go.trim_space raw in
        elim (Bool-cases (str_eq name "" || exclude name)) [
          | inl out ↦ rw (list_candidates, out) rest
          | inr kept ↦ elim (Bool-cases (str_eq name "direct")) [
            | inl d ↦
                rw (list_candidates, kept, d)
                  (
                    (
                      subst (λ (s : String). exclude s ≡ false) ((eq_iff name "direct").0 d)
                          (ground arith),
                      inl refl,
                    ),
                    rest,
                  )
            | inr nd ↦ elim (Option-cases (lookup name outbounds)) [
              | inl lost ↦ rw (list_candidates, kept, nd, lost) rest
              | inr (o, found) ↦ elim (Bool-cases (test o)) [
                | inr bad ↦ rw (list_candidates, kept, nd, found, bad) rest
                | inl good ↦
                    (let named : o.name ≡ name = All-lookup IsNamed name o outbounds k.1 found in
                      rw (list_candidates, kept, nd, found, good)
                        (
                          (
                            subst (λ (s : String). exclude s ≡ false) (sym named) (ground arith),
                            inr (ap (λ (s : String). lookup s outbounds) named ∙ found, t o good),
                          ),
                          rest,
                        ))
              ]
            ]
          ]
        ]

    pub group_candidates-Fits :
        (group sort_by : String) (m : List (String × ProxyOutbound))
        → AllFound outbounds m
        → All IsNamed m
        → All (Fits exclude outbounds) (group_candidates go run exclude group sort_by m).0
    unfolding group_candidates
    group_candidates-Fits group sort_by [] f n = tt
    group_candidates-Fits group sort_by ((i, o) ∷ m) f n =
        let rest = group_candidates-Fits group sort_by m f.1 n.1 in
        elim (Bool-cases (not (str_eq o.group group))) [
          | inl e ↦ rw (group_candidates, e) rest
          | inr e ↦
              elim (Bool-cases (
                exclude o.name
                || not (supports_sort go run o sort_by)
                || not (is_selectable go run o))) [
                  | inl out ↦ rw (group_candidates, e, out) rest
                  | inr kept ↦
                      rw (group_candidates, e, kept)
                        (
                          (
                            ground arith,
                            inr (
                              ap (λ (s : String). lookup s outbounds) n.0 ∙ f.0,
                              selectable-enabled o (ground arith),
                            ),
                          ),
                          rest,
                        )
                ]
        ]

    pub select_single_node-Fits :
        (name : String) (tried : List String)
        → exclude name ≡ is_excluded tried name
        → OnChosen (Fits exclude outbounds) (select_single_node go run outbounds name tried)
    unfolding select_single_node
    select_single_node-Fits name tried x = elim (Bool-cases (is_excluded tried name)) [
      | inl out ↦ rw (OnChosen, select_single_node, out) tt
      | inr kept ↦ elim (Bool-cases (run.is_metadata_like (go.trim_space name))) [
        | inl meta ↦ rw (OnChosen, select_single_node, kept, meta) tt
        | inr real ↦ elim (Option-cases (lookup name outbounds)) [
          | inl lost ↦ rw (OnChosen, select_single_node, kept, real, lost) tt
          | inr (o, found) ↦
              (let P = Fits exclude outbounds in
                let named : o.name ≡ name = All-lookup IsNamed name o outbounds k.1 found in
                rw (OnChosen, select_single_node, kept, real, found)
                  (test-OnChosen P (not o.enabled) _ _ tt (λ on.
                    test-OnChosen P (not o.healthy && not (str_eq o.last_error "")) _ _ tt (λ well.
                      (
                        ap exclude named ∙ x ∙ kept,
                        inr (ap (λ (s : String). lookup s outbounds) named ∙ found, ground arith),
                      )))))
        ]
      ]
    ]
