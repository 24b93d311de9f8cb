-- ===== src/Design/Selects.antt =====
-- The pools that a design claims, and what the claims for nodes and links select
-- (apis/network/v1alpha1/networkdesign_interfaces.go).
use text.Mathlib.Text.{◌==◌ as str_eq}
use kuidapps.LabelMap.{Labels, set_label, find}
use kuidapps.Design.Getters.{
  is_loopback_ipv6_enabled, is_loopback_ipv4_enabled, underlay_of, loopback_of, ◌>?◌,
}
use kuidapps.Text.{◌⧺◌}
use kuidapps.Design.Spec.{
  Underlay, Loopback, DesignInterfaces, ProtocolsEbgp, DesignProtocols, Prefix, NetworkDesign,
}
use kuidapps.Design.Claims.{
  node_claim, get_node_ip_claims, IpClaimRequest, AsClaimRequest, Object, get_node_as_claim,
}
use kuidapps.Infra.{Infra}
use mathlib.Core.List.{Memᴰ}
use mathlib.Core.List.Memᴰ.{head, append_right}
use kuidapps.Prelude.{
  arith, if◌then◌else◌, Bool, ◌++◌, map, All, List, eq_iff, refl, get_or, false, none, ◌∙◌, sym, ap,
  Option, [], ◌∷◌, true, is_some, some, ◌≡◌, String,
}
use kuidapps.Design.Pools.{
  design_object, underlay_pools, loopback_pools, interface_pools, get_ip_claims, ibgp_claims,
  protocol_claims, ebgp_claims, range_claim, AsPool, ip_pool, IpPool, get_as_claims,
}

find-set_label :
    (k j v : String) (l : Labels)
    → find k (set_label j v l) ≡ (if str_eq j k then some v else find k l)
unfolding find set_label
find-set_label k j v [] = refl
find-set_label k j v ((i, w) ∷ l) =
    ground (arith, find-set_label k j v l, eq_iff i j, eq_iff i k, eq_iff j k)

range-ebgp_claims :
    (r : NetworkDesign) (range : String) (e : Option ProtocolsEbgp)
    → (e >? λ x. x.as_pool) ≡ some range
    → Memᴰ (range_claim r range) (ebgp_claims r e)
range-ebgp_claims r range none h = cc
range-ebgp_claims r range (some e) h = rw h (head refl)

range-protocol_claims :
    (r : NetworkDesign) (range : String) (p : Option DesignProtocols)
    → ((p >? λ x. x.ebgp) >? λ x. x.as_pool) ≡ some range
    → Memᴰ (range_claim r range) (protocol_claims r p)
range-protocol_claims r range none h = cc
range-protocol_claims r range (some p) h =
    append_right (ibgp_claims r p.ibgp) (range-ebgp_claims r range p.ebgp h)

-- A claim is made where a range is given.
claimed :
    (range : Option String) (made c : AsClaimRequest)
    → elim range [ none ↦ none | some x ↦ some made ] ≡ some c
    → (x : String) × (range ≡ some x) × (made ≡ c)
claimed none made c h = cc
claimed (some x) made c h = (x, refl, ap (λ o. get_or o made) h)

abbrev pub prefixes_of_loopback : Option Loopback → List Prefix
prefixes_of_loopback none = []
prefixes_of_loopback (some l) = l.prefixes

abbrev pub prefixes_of_underlay : Option Underlay → List Prefix
prefixes_of_underlay none = []
prefixes_of_underlay (some u) = u.prefixes

module _ (infra : Infra) where
  -- A pool is made of a prefix: it has its text, it is the design's, and it has the labels of the
  -- prefix, with the purpose and then the prefix type over them.
  pub record IsMadeOf (r : NetworkDesign) (purpose prefix_type : String) (p : Prefix)
      (pool : IpPool) : Type 0 where
    pub text : pool.prefix.prefix ≡ p.prefix
    pub owned : pool.owner ≡ design_object r
    pub labelled :
        (k : String)
        → find k pool.prefix.labels ≡ (
            if str_eq infra.prefix_type_key k
            then some prefix_type
            else if str_eq infra.purpose_key k
            then some purpose
            else find k p.labels)

  ip_pool-IsMadeOf :
      (r : NetworkDesign) (purpose prefix_type : String) (p : Prefix)
      → IsMadeOf r purpose prefix_type p (ip_pool infra r purpose prefix_type p)
  unfolding ip_pool
  ip_pool-IsMadeOf r purpose prefix_type p = record {
    text = refl;
    owned = refl;
    labelled = λ k.
        find-set_label k infra.prefix_type_key prefix_type _
        ∙ ap (λ o. if str_eq infra.prefix_type_key k then some prefix_type else o)
            (find-set_label k infra.purpose_key purpose p.labels);
  }

  -- One pool for each prefix, in their order.
  abbrev pub AreMadeOf : NetworkDesign → String → String → List Prefix → List IpPool → Type 0
  AreMadeOf r purpose prefix_type [] [] = Unit
  AreMadeOf r purpose prefix_type [] (pool ∷ pools) = ⊥
  AreMadeOf r purpose prefix_type (p ∷ ps) [] = ⊥
  AreMadeOf r purpose prefix_type (p ∷ ps) (pool ∷ pools) =
      IsMadeOf r purpose prefix_type p pool × AreMadeOf r purpose prefix_type ps pools

  pools-AreMadeOf :
      (r : NetworkDesign) (purpose prefix_type : String) (ps : List Prefix)
      → AreMadeOf r purpose prefix_type ps (map (ip_pool infra r purpose prefix_type) ps)
  pools-AreMadeOf r purpose prefix_type [] = tt
  pools-AreMadeOf r purpose prefix_type (p ∷ ps) =
      (ip_pool-IsMadeOf r purpose prefix_type p, pools-AreMadeOf r purpose prefix_type ps)

  -- The purpose and the prefix type that a claim for a node selects.
  abbrev pub Selects : String → String → IpClaimRequest → Type 0
  Selects purpose prefix_type c =
      (find infra.purpose_key c.selector ≡ some purpose) × (c.prefix_type ≡ prefix_type)

  node_claim-Selects :
      (namespace name family : String) (owner cr : Object)
      → Selects "loopback" infra.prefix_type_pool (node_claim infra namespace name family owner cr)
  unfolding node_claim find
  node_claim-Selects namespace name family owner cr =
      (rw ((eq_iff infra.purpose_key infra.purpose_key).1 refl) refl, refl)

  if-Selects :
      (b : Bool) (c d : IpClaimRequest)
      → Selects "loopback" infra.prefix_type_pool c
      → Selects "loopback" infra.prefix_type_pool d
      → Selects "loopback" infra.prefix_type_pool (if b then c else d)
  if-Selects true c d h k = h
  if-Selects false c d h k = k

  if_one-Selects :
      (b : Bool) (c : IpClaimRequest)
      → Selects "loopback" infra.prefix_type_pool c
      → All (Selects "loopback" infra.prefix_type_pool) (if b then c ∷ [] else [])
  if_one-Selects true c h = (h, tt)
  if_one-Selects false c h = tt

  node_claims-Selects :
      (r : NetworkDesign) (cr o : Object)
      → All (Selects "loopback" infra.prefix_type_pool) (get_node_ip_claims infra r cr o)
  unfolding get_node_ip_claims
  node_claims-Selects r cr o =
      let node = (infra.node_of_name o.name).node in
      (
        if-Selects (is_loopback_ipv4_enabled r) _ _
            (node_claim-Selects cr.namespace (cr.name ⧺ "." ⧺ node ⧺ ".ipv4") "ipv4" cr cr)
            (node_claim-Selects cr.namespace (cr.name ⧺ "." ⧺ node ⧺ ".routerid") "ipv4" cr cr),
        if_one-Selects (is_loopback_ipv6_enabled r) _
            (node_claim-Selects o.namespace (cr.name ⧺ "." ⧺ node ⧺ ".ipv6") "ipv6" o cr),
      )

  loopback_pools-AreMadeOf :
      (r : NetworkDesign) (l : Option Loopback)
      → AreMadeOf r "loopback" infra.prefix_type_pool
          (prefixes_of_loopback l)
          (loopback_pools infra r l)
  loopback_pools-AreMadeOf r none = tt
  loopback_pools-AreMadeOf r (some l) =
      pools-AreMadeOf r "loopback" infra.prefix_type_pool l.prefixes

  underlay_pools-AreMadeOf :
      (r : NetworkDesign) (u : Option Underlay)
      → AreMadeOf r "underlay" infra.prefix_type_network
          (prefixes_of_underlay u)
          (underlay_pools infra r u)
  underlay_pools-AreMadeOf r none = tt
  underlay_pools-AreMadeOf r (some u) =
      pools-AreMadeOf r "underlay" infra.prefix_type_network u.prefixes

  interfaces-AreMadeOf :
      {Q : Type 0} (r : NetworkDesign) (i : Option DesignInterfaces)
      → Q
      → (loopbacks : List IpPool) × (underlays : List IpPool) × (interface_pools infra r i
          ≡ loopbacks ++ underlays)
        × AreMadeOf r "loopback" infra.prefix_type_pool
            (prefixes_of_loopback (i >? λ x. x.loopback))
            loopbacks
        × AreMadeOf r "underlay" infra.prefix_type_network
            (prefixes_of_underlay (i >? λ x. x.underlay))
            underlays
        × Q
  interfaces-AreMadeOf r none q = ([], [], refl, tt, tt, q)
  interfaces-AreMadeOf r (some i) q = (
    loopback_pools infra r i.loopback,
    underlay_pools infra r i.underlay,
    refl,
    loopback_pools-AreMadeOf r i.loopback,
    underlay_pools-AreMadeOf r i.underlay,
    q,
  )

  -- The IP claims that a design makes for itself are one for each prefix of the loopbacks, with the
  -- purpose `loopback` and the type of a pool, and then one for each prefix of the underlay, with
  -- the purpose `underlay` and the type of a network, in the order of the prefixes; each is owned
  -- by the design and has the text of its prefix, and its labels but for the two. Each IP claim
  -- that the design makes for a node selects the purpose and the type of the former.
  pub get_ip_claims-AreMadeOf :
      (r : NetworkDesign) (cr o : Object)
      → (loopbacks : List IpPool) × (underlays : List IpPool) × (get_ip_claims infra r
          ≡ loopbacks ++ underlays)
        × AreMadeOf r "loopback" infra.prefix_type_pool
            (prefixes_of_loopback (loopback_of r))
            loopbacks
        × AreMadeOf r "underlay" infra.prefix_type_network
            (prefixes_of_underlay (underlay_of r))
            underlays
        × All (Selects "loopback" infra.prefix_type_pool) (get_node_ip_claims infra r cr o)
  unfolding get_ip_claims
  get_ip_claims-AreMadeOf r cr o =
      interfaces-AreMadeOf r r.spec.interfaces (node_claims-Selects r cr o)

  -- The AS claim that a design makes for a node of the network of its name selects, by the name, a
  -- range that the design claims: in the same namespace, from the same index.
  pub get_node_as_claim-get_as_claims :
      (r : NetworkDesign) (cr o : Object) (c : AsClaimRequest)
      → get_node_as_claim infra r cr o ≡ some c
      → cr.name ≡ r.name
      → (pool : AsPool) × Memᴰ pool (get_as_claims r)
        × (is_some pool.range ≡ true)
        × (pool.namespace ≡ c.namespace)
        × (pool.index ≡ c.index)
        × (c.selector ≡ (infra.claim_name_key, pool.name) ∷ [])
  unfolding get_node_as_claim get_as_claims
  get_node_as_claim-get_as_claims r cr o c made named =
      let (range, given, same) = claimed _ _ c made in
      (
        range_claim r range,
        range-protocol_claims r range r.spec.protocols given,
        refl,
        ap (λ x. x.namespace) same,
        sym named ∙ ap (λ x. x.index) same,
        sym (ap (λ x. x.selector) same)
            ∙ ap (λ n. (infra.claim_name_key, n ⧺ ".aspool") ∷ []) named,
      )
