-- ===== src/Builder/Gather.antt =====
-- What the builder reads from the API server (pkg/devbuilder/api.go, and `gatherNodeInfo` and
-- `gatherLinkAndNodeInfo` of builder.go).
use text.Mathlib.Text.{◌==◌ as str_eq}
use kuidapps.Prelude.{
  ℕ, zero, suc, String, Bool, true, false, ◌||◌, Option, none, some, List, [], ◌∷◌, if◌then◌else◌,
}
use kuidapps.Outcome.{
  Error, Outcome, ok, err, panic, ◌>>=◌, client, claim_not_ready, claim_without_address,
  no_system_id,
}
use kuidapps.Text.{◌⧺◌}
use kuidapps.Design.Getters.{
  is_loopback_ipv4_enabled, is_loopback_ipv6_enabled, is_ebgp_enabled, is_underlay_ipv4_numbered,
  is_underlay_ipv6_numbered, get_ibgp_as,
}
use kuidapps.Infra.{Infra, Api, InfraNode, InfraLink, NodeId}
use kuidapps.Link.Ends.{Link, new_link, add_node_name, add_ep_name, add_as, add_ipv4, add_ipv6}
use kuidapps.Builder.State.{Node, DeviceBuilder, get, put, Action, skip}
use kuidapps.Builder.Interfaces.{address_of}

-- A value that has to be there.
abbrev pub required : {A : Type 0} → Error → Option A → Outcome A
required e none = err e
required e (some a) = ok a

-- A test that has to succeed.
abbrev pub ensure : Error → Bool → Outcome (Unit {0})
ensure e b = if b then ok tt else err e

-- `client.Get`, with its error.
abbrev pub found : {A : Type 0} → String → Option A → Outcome A
found name o = required (client name) o

-- `s[i]` of a slice, which panics out of range.
unfoldable pub index : {A : Type 0} → ℕ → List A → Outcome A
index i [] = panic
index zero (a ∷ l) = ok a
index (suc i) (a ∷ l) = index i l

-- A claim that is there: what it holds, if it is not known to be unready.
abbrev pub claimed : {A : Type 0} → String → Bool → Option A → Outcome A
claimed name true o = err (claim_not_ready name)
claimed name false none = err (claim_without_address name)
claimed name false (some a) = ok a

module _ (infra : Infra) (api : Api) where
  unfoldable pub get_ip_claim : String → String → Outcome String
  get_ip_claim namespace name =
      found name (api.get_ip_claim namespace name) >>= λ c. claimed name c.not_ready c.address

  unfoldable pub get_as_claim : String → String → Outcome ℕ
  get_as_claim namespace name =
      found name (api.get_as_claim namespace name) >>= λ c. claimed name c.not_ready c.id

  unfoldable pub get_node : String → String → Outcome InfraNode
  get_node namespace name = found name (api.get_node namespace name)

  -- The test on the endpoints' topology continues the inner loop only: it keeps every link.
  unfoldable pub infra_links : List InfraLink → List InfraLink
  unfolding get
  infra_links [] = []
  infra_links (l ∷ ls) =
      let rest = infra_links ls in
      elim (get infra.link_type_key l.labels) [
        | none ↦ rest
        | some link_type ↦ if str_eq link_type "infra" then l ∷ rest else rest
      ]

  unfoldable pub get_links : DeviceBuilder → Outcome (List InfraLink)
  unfolding infra_links
  get_links r =
      found r.network.namespace (api.list_links r.network.namespace) >>= λ ls. ok (infra_links ls)

  -- The router's identity and the IPv4 address of a node.
  unfoldable pub router_id_and_ipv4 : DeviceBuilder → String → Outcome (String × String)
  unfolding get_ip_claim
  router_id_and_ipv4 r node_name =
      if is_loopback_ipv4_enabled r.network_design
      then get_ip_claim r.network.namespace (r.network.name ⧺ "." ⧺ node_name ⧺ ".ipv4")
        >>= (λ ip. address_of infra ip >>= λ a. ok (a, ip))
      else get_ip_claim r.network.namespace (r.network.name ⧺ "." ⧺ node_name ⧺ ".routerid")
        >>= λ ip. address_of infra ip >>= λ a. ok (a, "")

  abbrev pub node_ipv6 : DeviceBuilder → String → Outcome String
  node_ipv6 r node_name =
      if is_loopback_ipv6_enabled r.network_design
      then get_ip_claim r.network.namespace (r.network.name ⧺ "." ⧺ node_name ⧺ ".ipv6")
      else ok ""

  abbrev pub node_as : DeviceBuilder → String → Outcome ℕ
  node_as r node_name =
      if is_ebgp_enabled r.network_design
      then get_as_claim r.network.namespace (r.network.name ⧺ "." ⧺ node_name)
      else ok (get_ibgp_as r.network_design)

  -- A node without the label of the device type is not added.
  abbrev pub add_node : NodeId → Node → Option String → Action
  add_node node_id node none r = ok r
  add_node node_id node (some device_type) r = ok (record r {
    nodes =
        put node_id.node
          (record node { edge = str_eq device_type "edge" || str_eq device_type "pe" }) r.nodes;
  })

  unfoldable pub gather_node_info : NodeId → Action
  unfolding get_node router_id_and_ipv4 put get
  gather_node_info node_id r =
      get_node r.network.namespace (r.network.spec.topology ⧺ "." ⧺ infra.kuid_string node_id)
      >>= λ n. required no_system_id n.system_id >>= λ system_id.
          router_id_and_ipv4 r node_id.node >>= λ ids. node_ipv6 r node_id.node >>= λ ipv6.
          node_as r node_id.node >>= λ as_number.
          add_node node_id
            (record {
              node_id = node_id;
              system_id = system_id;
              provider = n.provider;
              ipv4 = ids.1;
              ipv6 = ipv6;
              router_id = ids.0;
              as_number = as_number;
              edge = false;
            })
            (get infra.network_device_type_key n.labels) r

  abbrev pub when_value : {A B : Type 0} → Bool → Outcome A → (A → B → B) → B → Outcome B
  when_value b o f x = if b then (o >>= λ a. ok (f a x)) else ok x

  -- What one end adds to the link: the body of the loop after the node.
  unfoldable pub gather_end : DeviceBuilder → ℕ → String → String → Link → Outcome Link
  unfolding get_as_claim get_ip_claim
  gather_end r i node_name ep_name l =
      when_value (is_ebgp_enabled r.network_design)
        (get_as_claim r.network.namespace (r.network.name ⧺ "." ⧺ node_name)) (add_as i) l
      >>= when_value (is_underlay_ipv4_numbered r.network_design)
          (get_ip_claim r.network.namespace
            (r.network.name ⧺ "." ⧺ node_name ⧺ "." ⧺ ep_name ⧺ ".ipv4"))
          (add_ipv4 i)
      >>= when_value (is_underlay_ipv6_numbered r.network_design)
          (get_ip_claim r.network.namespace
            (r.network.name ⧺ "." ⧺ node_name ⧺ "." ⧺ ep_name ⧺ ".ipv6"))
          (add_ipv6 i)

  -- A node that was gathered before is not gathered again.
  abbrev pub gather_unless : NodeId → Option Node → Action
  gather_unless node_id none = gather_node_info node_id
  gather_unless node_id (some node) = skip

  unfoldable pub gather_link_end : ℕ → Link × DeviceBuilder → Outcome (Link × DeviceBuilder)
  unfolding index gather_end get gather_node_info
  gather_link_end i (l, r) = index i l.l.endpoints >>= λ e.
      gather_unless e.node_id (get e.node_id.node r.nodes) r >>= λ s.
      gather_end s i e.node_id.node e.endpoint
        (add_ep_name i e.endpoint (add_node_name i e.node_id.node l))
      >>= λ l'. ok (l', s)

  unfoldable pub gather_link_and_node_info :
      InfraLink → DeviceBuilder → Outcome (Link × DeviceBuilder)
  unfolding gather_link_end
  gather_link_and_node_info link r = gather_link_end 0 (new_link link, r) >>= gather_link_end 1
