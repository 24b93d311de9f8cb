-- ===== src/Claiming/Link.antt =====
-- The reconciler of a link (pkg/reconcilers/link/reconciler.go), in a run that no other caller
-- interrupts: it claims the endpoints of the link, or releases them.
pub mod Gathers
pub mod Claims
use kuidapps.Prelude.{
  ℕ, if◌then◌else◌, List, Bool, [], ◌∷◌, ◌++◌, none, some, true, false, Option, String,
}
use kuidapps.Lease.Protocol.{ApiServer}
use kuidapps.Outcome.{
  Error, endpoint_not_found, endpoint_changed, owned_by_another, unexpected_owner, joined, wrapped,
}
use kuidapps.Reconcile.{Answer, found, not_found, failed, Result, no_requeue, requeue, wrap}
use kuidapps.Claiming.{
  Owner, free, owned, claimed, unexpected, Ownership, Stored, World, Event, get, claim, release,
  create, occur,
}

-- A link by its name, with the names of its endpoints, where it has them.
pub record LinkRef : Type 0 where
  pub name : String
  pub deleted : Bool
  pub endpoint_a : Option String
  pub endpoint_b : Option String

-- Which calls fail, whatever the versions are.
pub record Faults (E : Type 0) : Type 0 where
  pub on_event : Event E → Option Error
  pub on_add_finalizer : Option Error
  pub on_remove_finalizer : Option Error
  pub on_update : Option Error

-- What is written into the conditions of the link.
pub data Reported : Type 0 where
  ready : Reported
  not_ready : Error → Reported
  nothing : Reported

pub record LinkRun (E : Type 0) : Type 0 where
  pub reported : Reported
  pub result : Result
  pub error : Option Error
  pub world : World E

pub record Gathered (E : Type 0) : Type 0 where
  pub names : List String
  pub requeue : Bool
  pub error : Option Error
  pub world : World E

pub record Released (E : Type 0) : Type 0 where
  pub error : Option Error
  pub requeue : Bool
  pub world : World E

abbrev pub join : Option Error → Error → Option Error
join none e = some e
join (some x) e = some (joined x e)

abbrev pub answer : {E : Type 0} → Option Error → Option (Stored E) → Answer E
answer (some e) o = failed e
answer none none = not_found
answer none (some s) = found s.endpoint

module _ {E : Type 0} (own : Ownership E) (api : ApiServer) (faults : Faults E) where
  abbrev pub accepted : Option (Stored E) → Option (Stored E) → Bool
  accepted (some s) (some t) = api.accepts s.version t.version
  accepted _ _ = false

  -- Does the server take the call?
  abbrev pub takes : Event E → World E → Bool
  takes (claim l n) w = accepted (w.read l n) (w.server n)
  takes (release l n) w = accepted (w.read l n) (w.server n)
  takes _ w = true

  abbrev pub call_on : Option Error → Bool → Event E → World E → Option Error × World E
  call_on (some x) taken e w = (some x, w)
  call_on none true e w = (none, occur own api e w)
  call_on none false e w = (some endpoint_changed, w)

  unfoldable pub call : Event E → World E → Option Error × World E
  call e w = call_on (faults.on_event e) (takes e w) e w

  unfoldable pub get_endpoint : String → String → World E → Answer E × World E
  unfolding call
  get_endpoint l n w = let r = call (get l n) w in (answer r.0 (r.1.read l n), r.1)

  -- An end of the link, by what `IsClaimed` answers.
  abbrev pub add_owner : String → Owner → Gathered E → Gathered E
  add_owner n free g = record g { names = g.names ++ n ∷ [] }
  add_owner n owned g = record g { names = g.names ++ n ∷ [] }
  add_owner n claimed g = record g { requeue = false; error = join g.error owned_by_another }
  add_owner n unexpected g = record g { requeue = false; error = join g.error unexpected_owner }

  abbrev pub add_answer : String → String → Answer E → Gathered E → Gathered E
  add_answer l n (found e) g = add_owner n (own.is_claimed e l) g
  add_answer l n not_found g = record g { error = join g.error (endpoint_not_found n) }
  add_answer l n (failed x) g = record g { error = join g.error x }

  unfoldable pub gather_end : String → Option String → Gathered E → Gathered E
  unfolding get_endpoint
  gather_end l none g = g
  gather_end l (some n) g =
      let r = get_endpoint l n g.world in add_answer l n r.0 (record g { world = r.1 })

  unfoldable pub get_endpoints : LinkRef → World E → Gathered E
  unfolding gather_end
  get_endpoints link w = gather_end link.name link.endpoint_b (
      gather_end link.name link.endpoint_a
        (record { names = []; requeue = true; error = none; world = w }))

  abbrev pub first_error : Option Error × World E → Option Error × World E → Option Error × World E
  first_error (some x, w) rest = (some x, w)
  first_error (none, w) rest = rest

  -- The endpoints are claimed one after the other, up to the first error.
  unfoldable pub apply : String → List String → World E → Option Error × World E
  unfolding call
  apply l [] w = (none, w)
  apply l (n ∷ ns) w = let r = call (claim l n) w in let rest = apply l ns r.1 in first_error r rest

  abbrev pub released_by : Option Error × World E → Released E
  released_by r = elim r.0 [
    | some x ↦ record { error = some x; requeue = true; world = r.1 }
    | none ↦ record { error = none; requeue = false; world = r.1 }
  ]

  abbrev pub release_owned : String → String → Owner → World E → Released E
  release_owned l n owned w = released_by (call (release l n) w)
  release_owned l n unexpected w = record {
    error = some unexpected_owner;
    requeue = false;
    world = w;
  }
  release_owned l n _ w = record { error = none; requeue = false; world = w }

  abbrev pub release_answer : String → String → Answer E → World E → Released E
  release_answer l n (found e) w = release_owned l n (own.is_claimed e l) w
  release_answer l n not_found w = record { error = none; requeue = false; world = w }
  release_answer l n (failed x) w = record { error = some x; requeue = true; world = w }

  unfoldable pub release_endpoint : String → String → World E → Released E
  unfolding get_endpoint call
  release_endpoint l n w = let r = get_endpoint l n w in release_answer l n r.0 r.1

  -- The release of an end, after what has been released.
  unfoldable pub release_end : String → Option String → Released E → Released E
  unfolding release_endpoint
  release_end l none d = d
  release_end l (some n) d =
      let r = release_endpoint l n d.world in
      elim r.error [
        | none ↦ record d { world = r.world }
        | some x ↦ record {
          error = join d.error x;
          requeue = if r.requeue then true else d.requeue;
          world = r.world;
        }
      ]

  unfoldable pub delete : LinkRef → World E → Released E
  unfolding release_end
  delete link w =
      release_end link.name link.endpoint_b (
        release_end link.name link.endpoint_a (record { error = none; requeue = false; world = w }))

  abbrev pub report : Reported → Result → World E → LinkRun E
  report reported result w = record {
    reported = reported;
    result = result;
    error = wrap "cannot update status" faults.on_update;
    world = w;
  }

  abbrev pub after : ℕ → Result
  after seconds = record { requeue = false; requeue_after = seconds }

  abbrev pub reconcile_deleted : Released E → LinkRun E
  reconcile_deleted d = elim d.error [
    | some x ↦ report (not_ready x) (record { requeue = d.requeue; requeue_after = 0 }) d.world
    | none ↦ elim faults.on_remove_finalizer [
      | some x ↦ report (not_ready x) requeue d.world
      | none ↦ record { reported = nothing; result = no_requeue; error = none; world = d.world }
    ]
  ]

  abbrev pub after_release : Error → Released E → LinkRun E
  after_release x d = elim d.error [
    | some y ↦ report (not_ready (joined x y)) (after 1) d.world
    | none ↦ report (not_ready x) (after 1) d.world
  ]

  -- Where the claims fail, what was claimed is released.
  abbrev pub reconcile_applied : LinkRef → Option Error × World E → LinkRun E
  reconcile_applied link (none, w) = report ready no_requeue w
  reconcile_applied link (some x, w) = after_release x (delete link w)

  abbrev pub gathered_on : LinkRef → Option Error → Gathered E → LinkRun E
  gathered_on link (some x) g =
      report (not_ready x) (if g.requeue then after 5 else no_requeue) g.world
  gathered_on link none g = reconcile_applied link (apply link.name g.names g.world)

  abbrev pub reconcile_gathered : LinkRef → Gathered E → LinkRun E
  reconcile_gathered link g = gathered_on link g.error g

  abbrev pub finalized : LinkRef → Option Error → World E → LinkRun E
  finalized link (some x) w = report (not_ready x) requeue w
  finalized link none w = reconcile_gathered link (get_endpoints link w)

  unfoldable pub reconcile : LinkRef → World E → LinkRun E
  unfolding delete get_endpoints apply
  reconcile link w =
      if link.deleted
      then reconcile_deleted (delete link w)
      else finalized link faults.on_add_finalizer w
