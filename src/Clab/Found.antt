-- ===== src/Clab/Found.antt =====
-- The nodes of a containerlab topology that `GetNodes` returns (pkg/clab/clabkuid.go).
use kuidapps.Outcome.{ok}
use kuidapps.Infra.{NodeId}
use mathlib.Core.List.{Memᴰ}
use mathlib.Core.List.Memᴰ.{head, tail}
use mathlib.Core.Path.{subst}
use kuidapps.Prelude.{
  ◌∷◌, eq_iff, ◌∙◌, true, sym, inr, inl, [], refl, none, map, Bool-cases, false, get_or, Option, ap,
  List, ◌≡◌, some, String,
}
use kuidapps.LabelMap.{Labels, find}
use kuidapps.Clab.{NodeDefinition, ClabNode, ClabConfig, SiteId, ClabInfra, is_excluded}
use text.Mathlib.Text.{◌==◌ as str_eq}
use kuidapps.Clab.Objects.{get_node_id, build_node, nodes_of, add_node}
use kuidapps.Link.Reading.{bind-ok, ok-injective}

pub some-injective : {A : Type 0} (a b : A) → some a ≡ some b → a ≡ b
some-injective a b h = ap (λ o. get_or o a) h

find-here :
    {A : Type 0} (k j : String) (a : A) (l : List (String × A))
    → str_eq j k ≡ true
    → find k ((j, a) ∷ l) ≡ some a
unfolding find
find-here k j a l h = rw h refl

no_find : {A : Type 0} (k : String) (a : A) → find k [] ≡ some a → ⊥
unfolding find
no_find k a h = cc

find-there :
    {A : Type 0} (k j : String) (a : A) (l : List (String × A))
    → str_eq j k ≡ false
    → find k ((j, a) ∷ l) ≡ find k l
unfolding find
find-there k j a l h = rw h refl

module _ (infra : ClabInfra) (site_id : SiteId) (cfg : ClabConfig) where
  abbrev pub node_ids : List ClabNode → List NodeId
  node_ids = map (λ n. n.node_id)

  add_node-keeps :
      (name : String) (labels : Labels) (id : NodeId) (ns : List ClabNode)
      → Memᴰ id (node_ids ns)
      → Memᴰ id (node_ids (add_node infra site_id cfg name labels ns))
  unfolding add_node
  add_node-keeps name labels id ns m = elim (Bool-cases (is_excluded infra site_id labels)) [
    | inl out ↦ rw out m
    | inr kept ↦ rw kept (tail m)
  ]

  add_node-adds :
      (name : String) (labels : Labels) (ns : List ClabNode)
      → is_excluded infra site_id labels ≡ false
      → Memᴰ
          (get_node_id infra site_id cfg name labels)
          (node_ids (add_node infra site_id cfg name labels ns))
  unfolding add_node build_node
  add_node-adds name labels ns kept = rw kept (head refl)

  -- A node that is not excluded is among those that are returned.
  pub nodes_of-adds :
      (l : List (String × Option NodeDefinition)) (ns : List ClabNode) (name : String)
      (d : NodeDefinition)
      → nodes_of infra site_id cfg l ≡ ok ns
      → find name l ≡ some (some d)
      → is_excluded infra site_id d.labels ≡ false
      → Memᴰ (get_node_id infra site_id cfg name d.labels) (node_ids ns)
  unfolding nodes_of
  nodes_of-adds [] ns name d r f kept = absurd (no_find name (some d) f)
  nodes_of-adds ((k, none) ∷ l) ns name d r f kept = cc
  nodes_of-adds ((k, some c) ∷ l) ns name d r f kept =
      let (ms, rest, e) = bind-ok (nodes_of infra site_id cfg l) _ ns r in
      subst (λ x. Memᴰ (get_node_id infra site_id cfg name d.labels) (node_ids x))
        (ok-injective _ _ e)
        (elim (Bool-cases (str_eq k name)) [
          | inl same ↦
              let p : c ≡ d =
                some-injective _ _
                  (some-injective _ _ (sym (find-here name k (some c) l same) ∙ f)) in
              let M : String → NodeDefinition → Type 0 = λ x y.
                Memᴰ (get_node_id infra site_id cfg x y.labels)
                  (node_ids (add_node infra site_id cfg k c.labels ms)) in
              subst (λ x. M x d) ((eq_iff k name).0 same)
                (subst (λ y. M k y) p
                  (add_node-adds k c.labels ms
                    (subst (λ y. is_excluded infra site_id y.labels ≡ false) (sym p) kept)))
          | inr other ↦
              add_node-keeps k c.labels _ ms
                (nodes_of-adds l ms name d rest (sym (find-there name k (some c) l other) ∙ f) kept)
        ])
