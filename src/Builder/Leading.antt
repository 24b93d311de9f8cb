-- ===== src/Builder/Leading.antt =====
-- Each action of the underlay builder (pkg/devbuilder/builder.go) writes to the devices by calls
-- of their methods only.
use kuidapps.Prelude.{ℕ, String, refl, Bool, [], ◌∷◌}
use kuidapps.Infra.{Infra}
use kuidapps.Schema.{BfdLinkParameters}
use kuidapps.Link.Ends.{Link}
use kuidapps.Link.Bfd.{get_bfd_link_parameters}
use kuidapps.Devices.Calls.{run}
use kuidapps.Builder.State.{Node, Action}
use kuidapps.Builder.Node.{
  update_underlay_network_instance, update_underlay_ospf_node, update_underlay_isis_node,
  update_underlay_bgp_node, configure_node, update_base_node, mark_node,
}
use kuidapps.Builder.Interfaces.{
  with_bfd_parameters, update_underlay_bfd_interface, update_underlay_ebgp_family,
  update_underlay_ebgp_interface, update_underlay_ospf_interface, update_underlay_isis_interface,
  update_underlay_end, update_underlay_interface,
}
use kuidapps.Builder.Leads.{Leads-value, Leads-from, IsLeading, Reaches-same, leading_steps}

update_underlay_network_instance-IsLeading :
    (n : String) → IsLeading (update_underlay_network_instance n)
unfolding update_underlay_network_instance
update_underlay_network_instance-IsLeading n = search leading_steps

with_bfd_parameters-IsLeading :
    (l : Link) (k : BfdLinkParameters → Action)
    → ((b : BfdLinkParameters) → IsLeading (k b))
    → IsLeading (with_bfd_parameters l k)
unfolding run
with_bfd_parameters-IsLeading l k h = record {
  leads = λ r.
      Leads-value (λ s. s) r (get_bfd_link_parameters r.network_design l r.memory)
        (λ x. k x.0 (record r { network_design = x.1; memory = x.2 }))
        λ x.
          Leads-from (λ s. s) r (record r { network_design = x.1; memory = x.2 })
            (k x.0 (record r { network_design = x.1; memory = x.2 })) (([], refl), refl)
            ((h x.0).leads (record r { network_design = x.1; memory = x.2 }));
}

update_underlay_bfd_interface-IsLeading :
    (n e : String) (l : Link) → IsLeading (update_underlay_bfd_interface n e l)
unfolding update_underlay_bfd_interface
update_underlay_bfd_interface-IsLeading n e l =
    search (leading_steps, with_bfd_parameters-IsLeading) depth 10

module _ (infra : Infra) where
  update_underlay_bgp_node-IsLeading :
      (n i : String) (a : ℕ) → IsLeading (update_underlay_bgp_node infra n i a)
  unfolding update_underlay_bgp_node
  update_underlay_bgp_node-IsLeading n i a = search leading_steps depth 16

  update_underlay_ospf_node-IsLeading :
      (n i : String) → IsLeading (update_underlay_ospf_node infra n i)
  unfolding update_underlay_ospf_node
  update_underlay_ospf_node-IsLeading n i = search leading_steps

  update_underlay_isis_node-IsLeading :
      (n i : String) → IsLeading (update_underlay_isis_node infra n i)
  unfolding update_underlay_isis_node
  update_underlay_isis_node-IsLeading n i = search leading_steps

  mark-IsLeading : (n : String) → IsLeading (mark_node infra n)
  mark-IsLeading n = record {
    leads = λ r. Reaches-same r (record r { node_set = n ∷ r.node_set }) refl refl;
  }

  ruleset node_steps = (
    leading_steps, update_underlay_network_instance-IsLeading, update_underlay_bgp_node-IsLeading,
    update_underlay_ospf_node-IsLeading, update_underlay_isis_node-IsLeading, mark-IsLeading,
  )

  configure_node-IsLeading : (n : String) (x : Node) → IsLeading (configure_node infra n x)
  unfolding configure_node
  configure_node-IsLeading n x = search node_steps depth 24

  pub update_base_node-IsLeading : (n : String) → IsLeading (update_base_node infra n)
  unfolding update_base_node
  update_base_node-IsLeading n = search (leading_steps, configure_node-IsLeading)

  update_underlay_ebgp_family-IsLeading :
      (e m : Bool) (n i : String) (l : Link) (k : ℕ) (a : ℕ → Link → String)
      → IsLeading (update_underlay_ebgp_family infra e m n i l k a)
  unfolding update_underlay_ebgp_family
  update_underlay_ebgp_family-IsLeading e m n i l k a = search leading_steps depth 10

  update_underlay_ebgp_interface-IsLeading :
      (n i : String) (l : Link) (k : ℕ) → IsLeading (update_underlay_ebgp_interface infra n i l k)
  unfolding update_underlay_ebgp_interface
  update_underlay_ebgp_interface-IsLeading n i l k =
      search (leading_steps, update_underlay_ebgp_family-IsLeading) depth 8

  update_underlay_ospf_interface-IsLeading :
      (n i : String) (l : Link) → IsLeading (update_underlay_ospf_interface infra n i l)
  unfolding update_underlay_ospf_interface
  update_underlay_ospf_interface-IsLeading n i l = search leading_steps depth 8

  update_underlay_isis_interface-IsLeading :
      (n : String) (l : Link) (k : ℕ) → IsLeading (update_underlay_isis_interface infra n l k)
  unfolding update_underlay_isis_interface
  update_underlay_isis_interface-IsLeading n l k = search leading_steps depth 8

  ruleset end_steps = (
    leading_steps, update_underlay_bfd_interface-IsLeading,
    update_underlay_ebgp_interface-IsLeading, update_underlay_ospf_interface-IsLeading,
    update_underlay_isis_interface-IsLeading,
  )

  update_underlay_end-IsLeading : (l : Link) (k : ℕ) → IsLeading (update_underlay_end infra l k)
  unfolding update_underlay_end
  update_underlay_end-IsLeading l k = search end_steps depth 16

  pub update_underlay_interface-IsLeading :
      (l : Link) → IsLeading (update_underlay_interface infra l)
  unfolding update_underlay_interface
  update_underlay_interface-IsLeading l = search (leading_steps, update_underlay_end-IsLeading)
