-- ===== src/Tests/Claiming.antt =====
-- Two links that claim endpoints. An endpoint holds the name of the link that claims it.
use text.Mathlib.Text.{◌==◌ as str_eq}
use kuidapps.Claiming.Link.{apply, get_endpoints, delete, reconcile, LinkRef, Faults}
use kuidapps.Prelude.{
  arith, ◌⊎◌, if◌then◌else◌, ◌≡◌, eq_iff, String, Option, List, All, refl, none, some, [], ◌∷◌,
  true, false,
}
use kuidapps.Tests.Lease.{server, versioned}
use kuidapps.Claiming.{
  new_world, World, occur, Owner, Event, occur_all, Ownership, IsOwnership, get, claim, release,
  create, free, owned, claimed,
}
use kuidapps.Claiming.Keeping
use kuidapps.Claiming.Keeping.{owns, releases}
use kuidapps.Claiming.Link.Claims
use kuidapps.Claiming.Link.Gathers.{may, ends}

abbrev Endpoint : Type 0
Endpoint = Option String

abbrev is_claimed_by : Endpoint → String → Owner
is_claimed_by none l = free
is_claimed_by (some m) l = if str_eq m l then owned else claimed

abbrev own : Ownership Endpoint
own = record { is_claimed = is_claimed_by; claim = λ l e. some l; release = λ l e. none }

others_claimed :
    (l m : String) (e : Endpoint)
    → is_claimed_by e l ≡ owned
    → str_eq l m ≡ false
    → is_claimed_by e m ≡ claimed
others_claimed l m none h other = cc
others_claimed l m (some n) h other = ground (arith, h, other, eq_iff n l, eq_iff n m, eq_iff l m)

laws : IsOwnership own
laws = record { claims = λ l e. rw ((eq_iff l l).1 refl) refl; others = others_claimed }

abbrev before : List (Event Endpoint)
before =
    create "spine.e1" none
    ∷ create "leaf.e1" none
    ∷ get "l1" "spine.e1"
    ∷ get "l2" "spine.e1"
    ∷ claim "l1" "spine.e1"
    ∷ []

abbrev later : List (Event Endpoint)
later =
    claim "l2" "spine.e1"
    ∷ get "l2" "spine.e1"
    ∷ claim "l2" "spine.e1"
    ∷ release "l2" "spine.e1"
    ∷ []

occur_all-owns_example :
    owns own "l1"
      ((occur_all own server later (occur_all own server before new_world)).server "spine.e1")
    ≡ true
unfolding occur_all occur
occur_all-owns_example =
    Keeping.occur_all-owns own laws server versioned "l1" "spine.e1" before later
      (refl, (refl, (refl, (refl, tt)))) refl

abbrev faults : Faults Endpoint
faults = record {
  on_event = λ e. none;
  on_add_finalizer = none;
  on_remove_finalizer = none;
  on_update = none;
}

abbrev link : LinkRef
link = record {
  name = "l1";
  deleted = false;
  endpoint_a = some "spine.e1";
  endpoint_b = some "leaf.e1";
}

abbrev world : World Endpoint
unfolding occur_all occur
world = occur_all own server (create "spine.e1" none ∷ create "leaf.e1" none ∷ []) new_world

reconcile-owns_example :
    All
      (λ n. owns own "l1" ((reconcile own server faults link world).world.server n) ≡ true)
      (ends link)
unfolding reconcile delete get_endpoints apply occur_all
reconcile-owns_example = Claims.reconcile-owns own laws server faults link world refl refl

reconcile-AllOrNone_example :
    All (λ n. may own "l1" (world.server n) ≡ true) (ends link)
    ⊎ ((reconcile own server faults link world).world.server ≡ world.server)
reconcile-AllOrNone_example = Claims.reconcile-AllOrNone own server faults link world refl
