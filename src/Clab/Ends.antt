-- ===== src/Clab/Ends.antt =====
-- The links and the endpoints of a containerlab topology (pkg/clab/clabkuid.go) fit together, and the
-- links fit the nodes.
use kuidapps.Outcome.{err, ok, ◌>>=◌, Outcome}
use kuidapps.Infra.{EndpointId}
use kuidapps.Prelude.{
  ◌∷◌, some, sym, inr, inl, ap, ◌∙◌, refl, Bool-cases, get_or, [], ◌≡◌, none, map, Option, List,
}
use kuidapps.Clab.{
  is_excluded, LinkDefinition, ClabLink, ClabEndpoint, ClabConfig, SiteId, ClabInfra,
}
use kuidapps.Clab.Objects.{
  get_link_ends, link_of_ends, links_next, links_of, get_links, endpoints_next, add_link, add_ends,
  get_endpoints, endpoints_of,
}

-- The ends of links, in the order of the links.
abbrev pub ends : List ClabLink → List EndpointId
ends [] = []
ends (l ∷ ls) = l.end_a ∷ l.end_b ∷ ends ls

abbrev pub on_option : {A B : Type 0} → (A → B) → Option A → Option B
on_option f none = none
on_option f (some a) = some (f a)

abbrev pub ids : List ClabEndpoint → List EndpointId
ids = map (λ e. e.id)

abbrev pub ids_in : Outcome (Option (List ClabEndpoint)) → Outcome (Option (List EndpointId))
ids_in r = r >>= λ es. ok (on_option ids es)

abbrev pub ends_in : Outcome (Option (List ClabLink)) → Outcome (Option (List EndpointId))
ends_in r = r >>= λ ls. ok (on_option ends ls)

-- Two identities before those that are there.
abbrev before :
    EndpointId
    → EndpointId
    → Outcome (Option (List EndpointId))
    → Outcome (Option (List EndpointId))
before a b r = r >>= λ o. ok (on_option (λ is. a ∷ b ∷ is) o)

module _ (infra : ClabInfra) (site_id : SiteId) (cfg : ClabConfig) where
  ids-add_ends :
      (a b : ClabEndpoint) (s : Outcome (Option (List ClabEndpoint)))
      → ids_in (s >>= λ fs. ok (add_ends infra site_id cfg (a ∷ b ∷ []) fs))
        ≡ before a.id b.id (ids_in s)
  ids-add_ends a b (ok none) = refl
  ids-add_ends a b (ok (some es)) = refl
  ids-add_ends a b (err e) = refl
  ids-add_ends a b Outcome.panic = refl

  ends-add_link :
      (l : ClabLink) (r : Outcome (Option (List ClabLink)))
      → ends_in (r >>= λ ls. ok (add_link infra site_id cfg l ls))
        ≡ before l.end_a l.end_b (ends_in r)
  ends-add_link l (ok none) = refl
  ends-add_link l (ok (some ls)) = refl
  ends-add_link l (err e) = refl
  ends-add_link l Outcome.panic = refl

  abbrev Fits : Outcome (Option (List ClabEndpoint)) → Outcome (Option (List ClabLink)) → Type 0
  Fits s r = ids_in s ≡ ends_in r

  next-Fits :
      (d : LinkDefinition) (o : Option (List ClabEndpoint))
      (s : Outcome (Option (List ClabEndpoint))) (r : Outcome (Option (List ClabLink)))
      → Fits s r
      → Fits
          (endpoints_next infra site_id cfg o s)
          (links_next infra site_id cfg (link_of_ends infra site_id cfg d o) r)
  next-Fits d none s r h = refl
  next-Fits d (some []) s r h = refl
  next-Fits d (some (a ∷ [])) s r h = refl
  next-Fits d (some (a ∷ b ∷ [])) s r h =
      ids-add_ends a b s ∙ ap (before a.id b.id) h ∙ sym (ends-add_link _ r)
  next-Fits d (some (a ∷ b ∷ c ∷ es)) s r h = refl

  step-Fits :
      (d : LinkDefinition) (o : Outcome (Option (List ClabEndpoint)))
      (s : Outcome (Option (List ClabEndpoint))) (r : Outcome (Option (List ClabLink)))
      → Fits s r
      → Fits
          (o >>= λ es. endpoints_next infra site_id cfg es s)
          (o >>= λ es. links_next infra site_id cfg (link_of_ends infra site_id cfg d es) r)
  step-Fits d (ok o) s r h = next-Fits d o s r h
  step-Fits d (err e) s r h = refl
  step-Fits d Outcome.panic s r h = refl

  links-Fits :
      (ls : List (Option LinkDefinition))
      → Fits (endpoints_of infra site_id cfg ls) (links_of infra site_id cfg ls)
  unfolding endpoints_of links_of
  links-Fits [] = refl
  links-Fits (none ∷ ls) = refl
  links-Fits (some d ∷ ls) = elim (Bool-cases (is_excluded infra site_id d.labels)) [
    | inl out ↦ rw out (links-Fits ls)
    | inr kept ↦ rw kept (
        step-Fits d (get_link_ends infra site_id cfg d) (endpoints_of infra site_id cfg ls)
          (links_of infra site_id cfg ls) (links-Fits ls))
  ]

  Fits-lists :
      (s : Outcome (Option (List ClabEndpoint))) (r : Outcome (Option (List ClabLink)))
      → Fits s r
      → ((s >>= λ es. ok (get_or es [])) >>= λ es. ok (ids es))
        ≡ ((r >>= λ ls. ok (get_or ls [])) >>= λ ls. ok (ends ls))
  Fits-lists s r h = left s ∙ ap (λ t. t >>= λ is. ok (get_or is [])) h ∙ sym (right r)
    where
      left :
          (s : Outcome (Option (List ClabEndpoint)))
          → ((s >>= λ es. ok (get_or es [])) >>= λ es. ok (ids es))
            ≡ (ids_in s >>= λ is. ok (get_or is []))
      left (ok none) = refl
      left (ok (some es)) = refl
      left (err e) = refl
      left Outcome.panic = refl

      right :
          (r : Outcome (Option (List ClabLink)))
          → ((r >>= λ ls. ok (get_or ls [])) >>= λ ls. ok (ends ls))
            ≡ (ends_in r >>= λ is. ok (get_or is []))
      right (ok none) = refl
      right (ok (some ls)) = refl
      right (err e) = refl
      right Outcome.panic = refl

  -- The identities of the endpoints that `GetEndpoints` returns are the ends of the links that
  -- `GetLinks` returns, in their order; and the one panics just where the other does.
  pub get_endpoints-get_links :
      (get_endpoints infra site_id cfg >>= λ es. ok (ids es))
      ≡ (get_links infra site_id cfg >>= λ ls. ok (ends ls))
  unfolding get_endpoints get_links
  get_endpoints-get_links =
      Fits-lists (endpoints_of infra site_id cfg cfg.links) (links_of infra site_id cfg cfg.links)
        (links-Fits cfg.links)
