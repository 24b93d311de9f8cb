-- ===== src/Watching/Endpoints.antt =====
-- Which links an event of an endpoint brings back (pkg/reconcilers/eventhandler,
-- watch_endpoint_for_link.go).
use kuidapps.Watching.{
  updated, link_key, endpoint_object, queued_of, add_endpoint, queued, on_event, is_concerned,
  same_id, is_id, ListedLink, WatchedEndpoint, Key,
}
use kuidapps.Outcome.{ok, Outcome}
use kuidapps.Infra.{EndpointId}
use mathlib.Core.List.{Memᴰ}
use mathlib.Core.List.Memᴰ.{head, tail, append_cases, append_left, append_right}
use kuidapps.Prelude.{
  refl, inr, inl, false, eq_iff, if◌then◌else◌, get_or, arith, none, ap, [], ◌⊎◌, ◌∷◌, ◌↔◌, true,
  some, ◌≡◌, List, Bool, Option, String,
}
use kuidapps.Watching.Requeues.{Memᴰ-queued}

module _ {I : Type 0} (key : I → Key) (test : I → Bool) where
  abbrev From : Key → List I → Type 0
  From k is = (i : I) × Memᴰ i is × (k ≡ key i) × (test i ≡ true)

  From-cons : (k : Key) (x : I) (xs : List I) → From k xs → From k (x ∷ xs)
  From-cons k x xs (i, mem, same, passed) = (i, tail mem, same, passed)

  From-step :
      (k : Key) (x : I) (xs : List I) (b : Bool)
      → test x ≡ b
      → (Memᴰ k (queued key test xs) → From k xs)
      → Memᴰ k (if b then key x ∷ queued key test xs else queued key test xs)
      → From k (x ∷ xs)
  From-step k x xs true h rest (head e) = (x, head refl, e, h)
  From-step k x xs true h rest (tail m) = From-cons k x xs (rest m)
  From-step k x xs false h rest m = From-cons k x xs (rest m)

  -- What is queued is the key of a listed object that passes the test.
  queued-From : (k : Key) (is : List I) → Memᴰ k (queued key test is) → From k is
  unfolding queued
  queued-From k [] m = elim m [ ]
  queued-From k (x ∷ xs) m = From-step k x xs (test x) refl (queued-From k xs) m

-- The link has the identity at one of its ends, or owns the endpoint.
abbrev pub Concerns : (WatchedEndpoint → ListedLink → Bool) → WatchedEndpoint → ListedLink → Type 0
Concerns is_owned_by e l =
    (l.endpoint_a ≡ some e.id) ⊎ ((l.endpoint_b ≡ some e.id) ⊎ (is_owned_by e l ≡ true))

same_id_iff : (a b : EndpointId) → (same_id a b ≡ true) ↔ (a ≡ b)
same_id_iff a b = (
  λ h. ground (
    arith,
    h,
    eq_iff a.node_group b.node_group,
    eq_iff a.node_id.region b.node_id.region,
    eq_iff a.node_id.site b.node_id.site,
    eq_iff a.node_id.node b.node_id.node,
    eq_iff a.endpoint b.endpoint,
  ),
  λ h. rw h (
      ground (
        arith,
        eq_iff b.node_group b.node_group,
        eq_iff b.node_id.region b.node_id.region,
        eq_iff b.node_id.site b.node_id.site,
        eq_iff b.node_id.node b.node_id.node,
        eq_iff b.endpoint b.endpoint,
      )),
)

is_id_iff : (o : Option EndpointId) (b : EndpointId) → (is_id o b ≡ true) ↔ (o ≡ some b)
is_id_iff none b = (λ h. cc, λ h. cc)
is_id_iff (some a) b =
    (λ h. ap some ((same_id_iff a b).0 h), λ h. (same_id_iff a b).1 (ap (λ o. get_or o b) h))

module _ (is_owned_by : WatchedEndpoint → ListedLink → Bool) where
  is_concerned_iff :
      (e : WatchedEndpoint) (l : ListedLink)
      → (is_concerned is_owned_by e l ≡ true) ↔ Concerns is_owned_by e l
  is_concerned_iff e l = (
    λ h. ground (arith, h, is_id_iff l.endpoint_a e.id, is_id_iff l.endpoint_b e.id),
    λ h. ground (arith, h, is_id_iff l.endpoint_a e.id, is_id_iff l.endpoint_b e.id),
  )

  module _ (list : String → Outcome (List ListedLink)) where
    abbrev Adds : Key → List ListedLink → (ListedLink → Type 0) → Type 0
    Adds k links P = (l : ListedLink) × Memᴰ l links × (k ≡ link_key l) × P l

    add_endpoint_iff :
        (e : WatchedEndpoint) (links : List ListedLink) (k : Key)
        → list e.namespace ≡ ok links
        → Memᴰ k (add_endpoint is_owned_by list (endpoint_object e))
          ↔ Adds k links (Concerns is_owned_by e)
    unfolding add_endpoint queued_of
    add_endpoint_iff e links k listed = rw listed (
      λ m.
          let (l, mem, same, c) = queued-From link_key (is_concerned is_owned_by e) k links m in
          (l, mem, same, (is_concerned_iff e l).0 c),
      λ (l, mem, same, c). rw same (
          Memᴰ-queued link_key (is_concerned is_owned_by e) l links mem
            ((is_concerned_iff e l).1 c)),
    )

    -- Where the client lists the same links for an endpoint before and after an update, the update
    -- adds a request just for each listed link that has the identity of the endpoint, before or
    -- after, at one of its ends, or that owns the endpoint before or after.
    pub add_endpoint-Concerns :
        (e f : WatchedEndpoint) (links : List ListedLink) (k : Key)
        → list e.namespace ≡ ok links
        → list f.namespace ≡ ok links
        → Memᴰ k (
            on_event
              (add_endpoint is_owned_by list)
              (updated (endpoint_object e) (endpoint_object f)))
          ↔ ((l : ListedLink) × Memᴰ l links
              × (k ≡ link_key l)
              × (Concerns is_owned_by e l ⊎ Concerns is_owned_by f l))
    unfolding on_event
    add_endpoint-Concerns e f links k before after = (
      λ m. elim (append_cases _ m) [
        | inl old ↦
            let (l, mem, same, c) = (add_endpoint_iff e links k before).0 old in
            (l, mem, same, inl c)
        | inr new ↦
            let (l, mem, same, c) = (add_endpoint_iff f links k after).0 new in
            (l, mem, same, inr c)
      ],
      λ (l, mem, same, c). elim c [
        | inl old ↦ append_left _ ((add_endpoint_iff e links k before).1 (l, mem, same, old))
        | inr new ↦ append_right _ ((add_endpoint_iff f links k after).1 (l, mem, same, new))
      ],
    )
