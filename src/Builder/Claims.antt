-- ===== src/Builder/Claims.antt =====
-- The claims that a design makes (apis/network/v1alpha1/networkdesign_interfaces.go) are those
-- that the builder asks for (pkg/devbuilder/builder.go): where they are served, gathering has the
-- addresses that it needs.
use kuidapps.Prelude.{
  ℕ, zero, suc, String, ◌≡◌, refl, Bool, true, false, Option, none, some, List, [], ◌∷◌, ◌++◌, map,
  All, arith, is_some, if◌then◌else◌,
}
use mathlib.Core.Path.{subst}
use kuidapps.Outcome.{Outcome, ok, err, panic, deref, ◌>>=◌}
use kuidapps.Text.{◌⧺◌}
use kuidapps.Design.Getters.{
  is_loopback_ipv4_enabled, is_loopback_ipv6_enabled, is_ebgp_enabled, is_underlay_ipv4_numbered,
  is_underlay_ipv6_numbered,
}
use kuidapps.Design.Claims.{
  Object, IpClaimRequest, node_claim, get_node_ip_claims, endpoint_claim, link_family_claims,
  get_link_ip_claims, get_reduced_link_name,
}
use kuidapps.Infra.{Infra, Api, InfraLink, EndpointId}
use kuidapps.Link.Ends.{Link, add_as, add_ipv4, add_ipv6}
use kuidapps.Link.Reading.{ok-injective}
use kuidapps.Link.Sharing.{returns}
use kuidapps.Builder.State.{DeviceBuilder}
use kuidapps.Builder.Interfaces.{address_of}
use kuidapps.Builder.Gather.{
  index, get_ip_claim, get_as_claim, router_id_and_ipv4, node_ipv6, when_value, gather_end,
}

returns-value :
    {A B : Type 0} (o : Outcome A) (k : A → Outcome B)
    → returns o ≡ true
    → ((a : A) → o ≡ ok a → returns (k a) ≡ true)
    → returns (o >>= k) ≡ true
returns-value (ok a) k h f = f a refl
returns-value (err e) k h f = ground (arith, h)
returns-value panic k h f = ground (arith, h)

returns-deref : {A : Type 0} (o : Option A) → is_some o ≡ true → returns (deref o) ≡ true
returns-deref none h = ground (arith, h)
returns-deref (some a) h = refl

returns-when_value :
    {A B : Type 0} (infra : Infra) (api : Api) (b : Bool) (o : Outcome A) (f : A → B → B) (x : B)
    → (b ≡ true → returns o ≡ true)
    → returns (when_value infra api b o f x) ≡ true
returns-when_value infra api false o f x h = refl
returns-when_value infra api true o f x h = returns-value o _ (h refl) λ a e. refl

All-append : {A : Type 0} (P : A → Type 0) (xs ys : List A) → All P (xs ++ ys) → All P xs × All P ys
All-append P [] ys h = (tt, h)
All-append P (x ∷ xs) ys (p, h) = let (a, b) = All-append P xs ys h in ((p, a), b)

All-index :
    {A B : Type 0} (P : B → Type 0) (f : A → B) (l : List A) (k : ℕ) (a : A)
    → All P (map f l)
    → index k l ≡ ok a
    → P (f a)
unfolding index
All-index P f [] k a h e = ground (arith, e)
All-index P f (x ∷ l) zero a h e = subst (λ y. P (f y)) (ok-injective x a e) h.0
All-index P f (x ∷ l) (suc k) a h e = All-index P f l k a h.1 e

module _ (infra : Infra) (api : Api) where
  -- The API server holds the claim, it is not known to be unready, and it has an address.
  abbrev pub Served : IpClaimRequest → Type 0
  Served c = returns (get_ip_claim infra api c.namespace c.name) ≡ true

  -- What a claim holds is a prefix that `iputil` can parse.
  abbrev pub Parses : Type 0
  Parses =
      (namespace name ip : String)
      → get_ip_claim infra api namespace name ≡ ok ip
      → is_some (infra.new_prefix ip) ≡ true

  address_of-claim :
      (parses : Parses) (namespace name ip : String)
      → get_ip_claim infra api namespace name ≡ ok ip
      → returns (address_of infra ip) ≡ true
  address_of-claim parses namespace name ip e =
      returns-value (deref (infra.new_prefix ip)) _
        (returns-deref (infra.new_prefix ip) (parses namespace name ip e)) λ p h. refl

  -- The address and the text that is kept of it, for a claim that is served.
  address-Served :
      (parses : Parses) (c : IpClaimRequest) (f : String → String)
      → Served c
      → returns {A = String × String} (
          get_ip_claim infra api c.namespace c.name >>= λ ip.
          address_of infra ip >>= λ a. ok (a, f ip))
        ≡ true
  address-Served parses c f h =
      returns-value {B = String × String} (get_ip_claim infra api c.namespace c.name) _ h λ ip e.
        returns-value {B = String × String} (address_of infra ip) (λ a. ok (a, f ip))
          (address_of-claim parses c.namespace c.name ip e) λ a e'. refl

  ids-Served :
      (parses : Parses) (b : Bool) (c d : IpClaimRequest)
      → Served (if b then c else d)
      → returns {A = String × String} (
          if b
          then (get_ip_claim infra api c.namespace c.name >>= λ ip.
              address_of infra ip >>= λ a. ok (a, ip))
          else (get_ip_claim infra api d.namespace d.name >>= λ ip.
              address_of infra ip >>= λ a. ok (a, "")))
        ≡ true
  ids-Served parses true c d h = address-Served parses c (λ ip. ip) h
  ids-Served parses false c d h = address-Served parses d (λ ip. "") h

  ipv6-Served :
      (b : Bool) (c : IpClaimRequest) (namespace : String)
      → c.namespace ≡ namespace
      → All Served (if b then c ∷ [] else [])
      → returns (if b then get_ip_claim infra api namespace c.name else ok "") ≡ true
  ipv6-Served true c namespace same h = rw (← same) h.0
  ipv6-Served false c namespace same h = refl

  -- For a node in the namespace of the network, if each of the claims that the design makes for
  -- it is served and what claims hold can be parsed, the builder gets the node's addresses and
  -- router ID.
  pub returns-get_node_ip_claims :
      (r : DeviceBuilder) (o : Object)
      → Parses
      → o.namespace ≡ r.network.namespace
      → All Served (
          get_node_ip_claims infra r.network_design
            (record { name = r.network.name; namespace = r.network.namespace })
            o)
      → (returns (router_id_and_ipv4 infra api r (infra.node_of_name o.name).node) ≡ true)
        × (returns (node_ipv6 infra api r (infra.node_of_name o.name).node) ≡ true)
  unfolding get_node_ip_claims router_id_and_ipv4 node_claim
  returns-get_node_ip_claims r o parses same h =
      let cr : Object = record { name = r.network.name; namespace = r.network.namespace } in
      let node = (infra.node_of_name o.name).node in
      (
        ids-Served parses (is_loopback_ipv4_enabled r.network_design)
            (node_claim infra cr.namespace (cr.name ⧺ "." ⧺ node ⧺ ".ipv4") "ipv4" cr cr)
            (node_claim infra cr.namespace (cr.name ⧺ "." ⧺ node ⧺ ".routerid") "ipv4" cr cr) h.0,
        ipv6-Served (is_loopback_ipv6_enabled r.network_design)
            (node_claim infra o.namespace (cr.name ⧺ "." ⧺ node ⧺ ".ipv6") "ipv6" o cr)
            r.network.namespace same h.1,
      )

  family-Served :
      (b : Bool) (cr : Object) (link : InfraLink) (family address_family : String) (length : ℕ)
      (k : ℕ) (e : EndpointId)
      → index k link.endpoints ≡ ok e
      → All Served (if b then link_family_claims infra cr link family address_family length else [])
      → b ≡ true
      → returns (
          get_ip_claim infra api cr.namespace
            (cr.name ⧺ "." ⧺ e.node_id.node ⧺ "." ⧺ e.endpoint ⧺ "." ⧺ family))
        ≡ true
  unfolding link_family_claims endpoint_claim
  family-Served true cr link family address_family length k e at h on =
      All-index Served
        (endpoint_claim infra cr (get_reduced_link_name cr link ⧺ "." ⧺ family) family)
        link.endpoints k e h.1 at
  family-Served false cr link family address_family length k e at h on = ground (arith, on)

  -- For an endpoint of a link, if each of the claims that the design makes for the link is served,
  -- and the AS claim of the node where EBGP is enabled, the builder gets what it asks for at that
  -- end.
  pub returns-get_link_ip_claims :
      (r : DeviceBuilder) (link : InfraLink) (k : ℕ) (e : EndpointId) (l : Link)
      → index k link.endpoints ≡ ok e
      → (is_ebgp_enabled r.network_design ≡ true
          → returns
              (get_as_claim infra api r.network.namespace (r.network.name ⧺ "." ⧺ e.node_id.node))
            ≡ true)
      → All Served (
          get_link_ip_claims infra r.network_design
            (record { name = r.network.name; namespace = r.network.namespace })
            link)
      → returns (gather_end infra api r k e.node_id.node e.endpoint l) ≡ true
  unfolding get_link_ip_claims gather_end
  returns-get_link_ip_claims r link k e l at as_served h =
      let cr : Object = record { name = r.network.name; namespace = r.network.namespace } in
      let (v4, v6) =
        All-append Served
          (if is_underlay_ipv4_numbered r.network_design
            then link_family_claims infra cr link "ipv4" infra.address_family_ipv4 31
            else [])
          (if is_underlay_ipv6_numbered r.network_design
            then link_family_claims infra cr link "ipv6" infra.address_family_ipv6 127
            else [])
          h in
      let family4 =
        family-Served (is_underlay_ipv4_numbered r.network_design) cr link "ipv4"
          infra.address_family_ipv4 31 k e at v4 in
      let family6 =
        family-Served (is_underlay_ipv6_numbered r.network_design) cr link "ipv6"
          infra.address_family_ipv6 127 k e at v6 in
      returns-value _ _
        (returns-value _ _
          (returns-when_value infra api (is_ebgp_enabled r.network_design)
            (get_as_claim infra api r.network.namespace (r.network.name ⧺ "." ⧺ e.node_id.node))
            (add_as k) l as_served)
          λ x h1.
            returns-when_value infra api (is_underlay_ipv4_numbered r.network_design)
              (get_ip_claim infra api r.network.namespace
                (r.network.name ⧺ "." ⧺ e.node_id.node ⧺ "." ⧺ e.endpoint ⧺ ".ipv4"))
              (add_ipv4 k) x family4)
        λ x h1.
          returns-when_value infra api (is_underlay_ipv6_numbered r.network_design)
            (get_ip_claim infra api r.network.namespace
              (r.network.name ⧺ "." ⧺ e.node_id.node ⧺ "." ⧺ e.endpoint ⧺ ".ipv6"))
            (add_ipv6 k) x family6
