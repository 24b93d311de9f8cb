-- ===== src/Clab/Nodes.antt =====
-- The ends of the links of a containerlab topology (pkg/clab/clabkuid.go) are on its nodes.
use kuidapps.Text.{split}
use kuidapps.Outcome.{err, Outcome, ok}
use kuidapps.Infra.{EndpointId}
use mathlib.Core.List.{Memᴰ}
use mathlib.Core.Path.{subst}
use kuidapps.Prelude.{
  ◌∷◌, if-false, ◌∙◌, if◌then◌else◌, All-mono, ◌⊎◌, true, sym, Bool, inr, inl, [], refl, none,
  Bool-cases, All, false, get_or, Option, ap, List, ◌≡◌, some, String,
}
use kuidapps.LabelMap.{find}
use kuidapps.Clab.{
  has_two, LinkDefinition, ClabLink, NodeDefinition, ClabNode, ClabEndpoint, ClabConfig, SiteId,
  ClabInfra, is_excluded,
}
use kuidapps.Clab.Objects.{
  links_next, link_of_ends, ends_next, links_of, get_nodes, get_links, get_link_ends, get_node_id,
  end_of_parts, end_at, ends_of, endpoint_spec,
}
use kuidapps.Link.Reading.{bind-ok, ok-injective}
use kuidapps.Clab.Found.{some-injective, node_ids, nodes_of-adds}

if_two :
    {A : Type 0} (b : Bool) (m : Outcome (Option A)) (a : A)
    → (if b then m else ok none) ≡ ok (some a)
    → m ≡ ok (some a)
if_two true m a h = h
if_two false m a h = cc

module _ (infra : ClabInfra) (site_id : SiteId) (cfg : ClabConfig) where
  -- The end of a link, where it is in the topology.
  record IsEnd (e : EndpointId) : Type 0 where
    pub definition : NodeDefinition
    pub in_topology : find e.node_id.node cfg.nodes ≡ some (some definition)
    pub named : e.node_id ≡ get_node_id infra site_id cfg e.node_id.node definition.labels
    pub grouped : e.node_group ≡ cfg.name

  end_at-IsEnd :
      (name ep : String) (o : Option (Option NodeDefinition)) (e : ClabEndpoint)
      → find name cfg.nodes ≡ o
      → end_at infra site_id cfg name ep o ≡ ok (some e)
      → IsEnd e.id
  unfolding endpoint_spec
  end_at-IsEnd name ep none e f r = cc
  end_at-IsEnd name ep (some none) e f r = cc
  end_at-IsEnd name ep (some (some d)) e f r =
      subst (λ (x : ClabEndpoint). IsEnd x.id) (some-injective _ _ (ok-injective _ _ r))
        (record { definition = d; in_topology = f; named = refl; grouped = refl })

  end_of_parts-IsEnd :
      (parts : List String) (e : ClabEndpoint)
      → end_of_parts infra site_id cfg parts ≡ ok (some e)
      → IsEnd e.id
  unfolding end_of_parts
  end_of_parts-IsEnd [] e r = cc
  end_of_parts-IsEnd (n ∷ []) e r = cc
  end_of_parts-IsEnd (n ∷ p ∷ []) e r = end_at-IsEnd n p (find n cfg.nodes) e refl r
  end_of_parts-IsEnd (n ∷ p ∷ q ∷ ps) e r = cc

  abbrev AreEnds : List ClabEndpoint → Type 0
  AreEnds = All (λ e. IsEnd e.id)

  ends_next-AreEnds :
      (o : Option ClabEndpoint) (rest : Outcome (Option (List ClabEndpoint)))
      (es : List ClabEndpoint)
      → ((e : ClabEndpoint) → o ≡ some e → IsEnd e.id)
      → ((fs : List ClabEndpoint) → rest ≡ ok (some fs) → AreEnds fs)
      → ends_next infra site_id cfg o rest ≡ ok (some es)
      → AreEnds es
  ends_next-AreEnds none rest es one all r = cc
  ends_next-AreEnds (some e) (ok none) es one all r = cc
  ends_next-AreEnds (some e) (ok (some fs)) es one all r =
      subst AreEnds (some-injective _ _ (ok-injective _ _ r)) (one e refl, all fs refl)
  ends_next-AreEnds (some e) (err x) es one all r = cc
  ends_next-AreEnds (some e) Outcome.panic es one all r = cc

  ends_of-AreEnds :
      (names : List String) (es : List ClabEndpoint)
      → ends_of infra site_id cfg names ≡ ok (some es)
      → AreEnds es
  unfolding ends_of
  ends_of-AreEnds [] es r = subst AreEnds (some-injective _ _ (ok-injective _ _ r)) tt
  ends_of-AreEnds (n ∷ ns) es r =
      let (o, first, next) =
        bind-ok (end_of_parts infra site_id cfg (split b':' n)) _ (some es) r in
      ends_next-AreEnds o (ends_of infra site_id cfg ns) es
        (λ e h. end_of_parts-IsEnd (split b':' n) e (first ∙ ap ok h)) (ends_of-AreEnds ns) next

  get_link_ends-AreEnds :
      (d : LinkDefinition) (es : List ClabEndpoint)
      → get_link_ends infra site_id cfg d ≡ ok (some es)
      → AreEnds es
  unfolding get_link_ends
  get_link_ends-AreEnds d es r =
      ends_of-AreEnds d.endpoints es (if_two (has_two d.endpoints) _ es r)

  -- Both ends of the link satisfy `P`.
  abbrev Both : ClabLink → Type 0
  Both l = IsEnd l.end_a × IsEnd l.end_b

  link_of_ends-Both :
      (d : LinkDefinition) (o : Option (List ClabEndpoint)) (l : ClabLink)
      → ((es : List ClabEndpoint) → o ≡ some es → AreEnds es)
      → link_of_ends infra site_id cfg d o ≡ some l
      → Both l
  link_of_ends-Both d none l all r = cc
  link_of_ends-Both d (some []) l all r = cc
  link_of_ends-Both d (some (a ∷ [])) l all r = cc
  link_of_ends-Both d (some (a ∷ b ∷ [])) l all r =
      let h = all (a ∷ b ∷ []) refl in subst Both (some-injective _ _ r) (h.0, h.1.0)
  link_of_ends-Both d (some (a ∷ b ∷ c ∷ es)) l all r = cc

  links_next-Both :
      (o : Option ClabLink) (rest : Outcome (Option (List ClabLink))) (ls : List ClabLink)
      → ((l : ClabLink) → o ≡ some l → Both l)
      → ((ms : List ClabLink) → rest ≡ ok (some ms) → All Both ms)
      → links_next infra site_id cfg o rest ≡ ok (some ls)
      → All Both ls
  links_next-Both none rest ls one all r = cc
  links_next-Both (some l) (ok none) ls one all r = cc
  links_next-Both (some l) (ok (some ms)) ls one all r =
      subst (All Both) (some-injective _ _ (ok-injective _ _ r)) (one l refl, all ms refl)
  links_next-Both (some l) (err x) ls one all r = cc
  links_next-Both (some l) Outcome.panic ls one all r = cc

  links_of-Both :
      (l : List (Option LinkDefinition)) (ls : List ClabLink)
      → links_of infra site_id cfg l ≡ ok (some ls)
      → All Both ls
  unfolding links_of
  links_of-Both [] ls r = subst (All Both) (some-injective _ _ (ok-injective _ _ r)) tt
  links_of-Both (none ∷ l) ls r = cc
  links_of-Both (some d ∷ l) ls r = elim (Bool-cases (is_excluded infra site_id d.labels)) [
    | inl out ↦ links_of-Both l ls (sym (rw out refl) ∙ r)
    | inr kept ↦
        let (o, gathered, next) =
          bind-ok (get_link_ends infra site_id cfg d) _ (some ls) (sym (if-false _ _ kept) ∙ r) in
        links_next-Both (link_of_ends infra site_id cfg d o) (links_of infra site_id cfg l) ls
          (λ x h.
            link_of_ends-Both d o x (λ es e. get_link_ends-AreEnds d es (gathered ∙ ap ok e)) h)
          (links_of-Both l) next
  ]

  returned-Both :
      (o : Option (List ClabLink))
      → links_of infra site_id cfg cfg.links ≡ ok o
      → All Both (get_or o [])
  returned-Both none h = tt
  returned-Both (some ls) h = links_of-Both cfg.links ls h

  -- The end of a link is on a node that is returned, or on one with the label of exclusion.
  abbrev pub IsOnNode : List ClabNode → EndpointId → Type 0
  IsOnNode ns e =
      (e.node_group ≡ cfg.name)
      × (Memᴰ e.node_id (node_ids infra site_id cfg ns)
          ⊎ ((d : NodeDefinition) × (find e.node_id.node cfg.nodes ≡ some (some d))
              × (is_excluded infra site_id d.labels ≡ true)))

  IsEnd-IsOnNode :
      (ns : List ClabNode) (e : EndpointId)
      → get_nodes infra site_id cfg ≡ ok ns
      → IsEnd e
      → IsOnNode ns e
  unfolding get_nodes
  IsEnd-IsOnNode ns e nodes h = (
    h.grouped,
    elim (Bool-cases (is_excluded infra site_id h.definition.labels)) [
      | inl out ↦ inr (h.definition, h.in_topology, out)
      | inr kept ↦ inl (
          subst (λ x. Memᴰ x (node_ids infra site_id cfg ns)) (sym h.named)
            (nodes_of-adds infra site_id cfg cfg.nodes ns e.node_id.node h.definition nodes
              h.in_topology kept))
    ],
  )

  -- If `GetNodes` and `GetLinks` return, then each end of each link that is returned is in the node
  -- group that the topology names, and on a node that is returned or on one that the topology has
  -- with the label of exclusion.
  pub get_links-IsOnNode :
      (ns : List ClabNode) (ls : List ClabLink)
      → get_nodes infra site_id cfg ≡ ok ns
      → get_links infra site_id cfg ≡ ok ls
      → All (λ l. IsOnNode ns l.end_a × IsOnNode ns l.end_b) ls
  unfolding get_links
  get_links-IsOnNode ns ls nodes links =
      let (o, gathered, same) = bind-ok (links_of infra site_id cfg cfg.links) _ ls links in
      All-mono ls
        (λ l h. (IsEnd-IsOnNode ns l.end_a nodes h.0, IsEnd-IsOnNode ns l.end_b nodes h.1))
        (subst (All Both) (ok-injective _ _ same) (returned-Both o gathered))
