-- ===== src/Builder/Sessions.antt =====
-- The two ends of a link meet (pkg/devbuilder/builder.go and link.go): the BGP sessions that the
-- ends are given, and the nodes that cannot be configured.
use text.Mathlib.Text.{◌==◌ as str_eq}
use kuidapps.Devices.Store.{Devices}
use kuidapps.Devices.Neighbors.{read_neighbor, read_neighbor-add_bgp_neighbor}
use kuidapps.Prelude.{
  ◌&&◌, if◌then◌else◌, Bool, ℕ, String, ◌≡◌, refl, sym, ap, ◌∙◌, true, false, Option, none, some,
  arith,
}
use kuidapps.Outcome.{Outcome, ok, err, panic, ◌>>=◌, no_system_id, client}
use kuidapps.Text.{◌⧺◌}
use kuidapps.Schema.{BgpNeighbor}
use kuidapps.Infra.{Infra, PrefixInfo, Api, InfraNode, NodeId}
use kuidapps.Link.Ends.{get_bgp_bfd, get_as, Link}
use kuidapps.Devices.Protocols.{add_bgp_neighbor}
use kuidapps.Devices.Calls.{perform}
use kuidapps.Builder.State.{DeviceBuilder, ◌▹◌, Node, get, has}
use kuidapps.Builder.Node.{bgp_underlay_peer_group_name, network_name_of, update_base_node}
use kuidapps.Builder.Interfaces.{ebgp_neighbor, update_underlay_ebgp_family}
use kuidapps.Link.Reading.{ok-injective}
use kuidapps.Builder.Gather.{
  required, router_id_and_ipv4, node_ipv6, node_as, get_node, gather_node_info, add_node,
}

-- A session of the underlay as an end has it: the addresses of the end and of its peer, then the two
-- AS numbers in that order.
abbrev pub session : String → String → ℕ → ℕ → Bool → BgpNeighbor
session local peer local_as peer_as bfd = record {
  peer_address = peer;
  peer_as = peer_as;
  peer_group = bgp_underlay_peer_group_name;
  local_as = local_as;
  local_address = local;
  bfd = bfd;
}

-- In a numbered family, where the prefixes of both ends can be parsed and have an address: after
-- the two ends of a link are configured, the first has a neighbour at the address of the second,
-- whose own address is that of the first, with the AS number of the first as the local and that of
-- the second as the peer's; the second has a neighbour at the address of the first, with all of
-- this the other way round; and BFD is on at both or at none. Every other neighbour, of any network
-- instance of any node, is as before, and nothing but the devices changes.
pub read_neighbor-update_underlay_ebgp_family :
    (infra : Infra) (m n i j : String) (l : Link) (address : ℕ → Link → String) (p q : PrefixInfo)
    (r : DeviceBuilder) (k h a : String)
    → infra.new_prefix (address 0 l) ≡ some p
    → infra.new_prefix (address 1 l) ≡ some q
    → str_eq p.address "" ≡ false
    → str_eq q.address "" ≡ false
    → (devices : Devices) × ((update_underlay_ebgp_family infra true true m i l 0 address
            ▹ update_underlay_ebgp_family infra true true n j l 1 address)
          r
        ≡ ok (record r { devices = devices }))
      × (read_neighbor k h a devices ≡ (
          if str_eq n k && str_eq (network_name_of r) h && str_eq p.address a
          then some (
              session q.address p.address
                (get_as 1 l)
                (get_as 0 l)
                (get_bgp_bfd r.network_design l))
          else if str_eq m k && str_eq (network_name_of r) h && str_eq q.address a
          then some (
              session p.address q.address
                (get_as 0 l)
                (get_as 1 l)
                (get_bgp_bfd r.network_design l))
          else read_neighbor k h a r.devices))
unfolding update_underlay_ebgp_family perform ebgp_neighbor
read_neighbor-update_underlay_ebgp_family infra m n i j l address p q r k h a first second p_set
      q_set =
    let bfd = get_bgp_bfd r.network_design l in
    let ni = network_name_of r in
    let s0 = session p.address q.address (get_as 0 l) (get_as 1 l) bfd in
    let s1 = session q.address p.address (get_as 1 l) (get_as 0 l) bfd in
    let one = add_bgp_neighbor m ni s0 r.devices in
    (
      add_bgp_neighbor n ni s1 one,
      rw (first, second) refl,
      read_neighbor-add_bgp_neighbor k n ni h a s1 one p_set
          ∙ ap (λ o. if str_eq n k && str_eq ni h && str_eq p.address a then some s1 else o)
              (read_neighbor-add_bgp_neighbor k m ni h a s0 r.devices q_set),
    )

-- What a bind that returns has returned from.
value-ok :
    {A B : Type 0} {P : Type 0} (o : Outcome A) (k : A → Outcome B) (b : B)
    → (o >>= k) ≡ ok b
    → ((a : A) → o ≡ ok a → k a ≡ ok b → P)
    → P
value-ok (ok a) k b h f = f a refl h
value-ok (err e) k b h f = ground (arith, h)
value-ok panic k b h f = ground (arith, h)

add_node-none :
    (infra : Infra) (api : Api) (i : NodeId) (n : Node) (o : Option String) (r s : DeviceBuilder)
    → o ≡ none
    → add_node infra api i n o r ≡ ok s
    → r ≡ s
add_node-none infra api i n none r s e h = ok-injective r s h
add_node-none infra api i n (some t) r s e h = ground (arith, e)

-- A node that has not been gathered, that the API server has without the label of the device
-- type, and that has not been configured: if gathering it returns, configuring it panics.
pub update_base_node-gather_node_info :
    (infra : Infra) (api : Api) (i : NodeId) (n : InfraNode) (r s : DeviceBuilder)
    → api.get_node r.network.namespace (r.network.spec.topology ⧺ "." ⧺ infra.kuid_string i)
      ≡ some n
    → get infra.network_device_type_key n.labels ≡ none
    → get i.node r.nodes ≡ none
    → has i.node r.node_set ≡ false
    → gather_node_info infra api i r ≡ ok s
    → update_base_node infra i.node s ≡ panic
unfolding gather_node_info update_base_node get_node
update_base_node-gather_node_info infra api i n r s there unlabelled unknown unconfigured h =
    let name = r.network.spec.topology ⧺ "." ⧺ infra.kuid_string i in
    let same : r ≡ s =
      value-ok
        (get_node infra api r.network.namespace
          (r.network.spec.topology ⧺ "." ⧺ infra.kuid_string i))
        _ s h
        λ n' e h1. value-ok (required no_system_id n'.system_id) _ s h1 λ system_id e1 h2.
          value-ok (router_id_and_ipv4 infra api r i.node) _ s h2 λ ids e2 h3.
            value-ok (node_ipv6 infra api r i.node) _ s h3 λ ipv6 e3 h4.
              value-ok (node_as infra api r i.node) _ s h4 λ as_number e4 h5.
                add_node-none infra api i
                  (record {
                    node_id = i;
                    system_id = system_id;
                    provider = n'.provider;
                    ipv4 = ids.1;
                    ipv6 = ipv6;
                    router_id = ids.0;
                    as_number = as_number;
                    edge = false;
                  })
                  (get infra.network_device_type_key n'.labels) r s
                  (ap (λ x. get infra.network_device_type_key x.labels)
                      (sym (ok-injective n n' (sym (ap (required (client name)) there) ∙ e)))
                    ∙ unlabelled)
                  h5 in
    rw (← same) (rw (unconfigured, unknown) refl)
