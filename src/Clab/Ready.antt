-- ===== src/Clab/Ready.antt =====
-- What holds when a topology is reported ready (pkg/reconcilers/topology/reconciler.go).
use kuidapps.Reconcile.{requeue, not_found, no_requeue, failed, found, Result, Answer}
use kuidapps.Outcome.{err, wrapped, ok, Outcome, Error}
use kuidapps.Clab.{some, ClabInfra}
use kuidapps.Prelude.{
  refl, inr, inl, false, Option-cases, Bool-cases, none, ◌≡◌, Option, All, String,
}
use kuidapps.Clab.Topology.{
  ready, add_finalizer, remove_finalizer, delete_owned, apply_objects, with_value, objects_of,
  update_status, delete_topology, apply, TopologyObjects, with_topology, update_and_return,
  reconcile_topology, handle_error, cannot_apply, attempt, apply_text, StoredTopology, Run, Request,
  TopologyServer, reconcile,
}

module _ (infra : ClabInfra) (server : TopologyServer) (namespace name : String) where
  -- The topology is there and is not being deleted, its text could be parsed, and what was made of
  -- it was applied.
  pub record AreApplied : Type 0 where
    pub topology : StoredTopology
    pub text : String
    pub objects : TopologyObjects
    pub read : server.get_topology namespace name ≡ found topology
    pub alive : topology.deleted ≡ false
    pub given : topology.container_lab ≡ some text
    pub made : objects_of infra server.load_config topology text ≡ ok objects
    pub taken : server.refuses (apply_objects objects) ≡ none

  -- A call that reports the topology ready.
  abbrev pub OnReady : Request → Type 0
  OnReady (update_status ready) = AreApplied
  OnReady _ = Unit {0}

  abbrev Fine : Run → Type 0
  Fine run = All OnReady run.requests

  failed-OnReady : (msg : String) (e : Option Error) → OnReady (update_status (handle_error msg e))
  unfolding handle_error
  failed-OnReady msg none = tt
  failed-OnReady msg (some e) = tt

  fails-Fine :
      (result : Result) (msg : String) (e : Option Error)
      → Fine (update_and_return infra server result (handle_error msg e))
  unfolding update_and_return
  fails-Fine result msg e = (failed-OnReady msg e, tt)

  attempt-Fine :
      (q : Request) (on_error : Error → Run) (next : Run)
      → OnReady q
      → ((e : Error) → Fine (on_error e))
      → (server.refuses q ≡ none → Fine next)
      → Fine (attempt infra server q on_error next)
  unfolding attempt
  attempt-Fine q on_error next p h k = elim (Option-cases (server.refuses q)) [
    | inl taken ↦ rw taken (p, k taken)
    | inr (e, refused) ↦ rw refused (p, h e)
  ]

  cannot_apply-Fine : (e : Error) → Fine (cannot_apply infra server e)
  unfolding cannot_apply
  cannot_apply-Fine e = fails-Fine no_requeue "cannot apply topology resources" (some e)

  apply-Fine :
      (cr : StoredTopology) (text : String) (o : Outcome TopologyObjects)
      → objects_of infra server.load_config cr text ≡ o
      → server.get_topology namespace name ≡ found cr
      → cr.deleted ≡ false
      → cr.container_lab ≡ some text
      → Fine (
          with_value o
            (λ e. cannot_apply infra server (wrapped "parsing clab topo failed" e))
            λ objects.
              attempt infra server
                (apply_objects objects)
                (cannot_apply infra server)
                (update_and_return infra server no_requeue ready))
  unfolding update_and_return
  apply-Fine cr text (ok objects) made read alive given =
      attempt-Fine (apply_objects objects) _ _ tt cannot_apply-Fine λ taken. (
        record {
          topology = cr;
          text = text;
          objects = objects;
          read = read;
          alive = alive;
          given = given;
          made = made;
          taken = taken;
        },
        tt,
      )
  apply-Fine cr text (err e) made read alive given = cannot_apply-Fine _
  apply-Fine cr text Outcome.panic made read alive given = tt

  apply_text-Fine :
      (cr : StoredTopology) (o : Option String)
      → cr.container_lab ≡ o
      → server.get_topology namespace name ≡ found cr
      → cr.deleted ≡ false
      → Fine (apply_text infra server cr o)
  unfolding apply_text apply
  apply_text-Fine cr none given read alive =
      fails-Fine no_requeue "no containerlab topology provided" none
  apply_text-Fine cr (some text) given read alive =
      apply-Fine cr text (objects_of infra server.load_config cr text) refl read alive given

  topology-Fine :
      (cr : StoredTopology)
      → server.get_topology namespace name ≡ found cr
      → Fine (reconcile_topology infra server cr)
  unfolding reconcile_topology delete_topology
  topology-Fine cr read = elim (Bool-cases cr.deleted) [
    | inl gone ↦ rw gone (
        attempt-Fine delete_owned _ _ tt (λ e. fails-Fine requeue "canot delete resources" (some e))
          λ _.
            attempt-Fine remove_finalizer _ _ tt
              (λ e. fails-Fine requeue "cannot remove finalizer" (some e)) λ _. tt)
    | inr alive ↦ rw alive (
        attempt-Fine add_finalizer _ _ tt (λ e. fails-Fine requeue "cannot add finalizer" (some e))
          λ _. apply_text-Fine cr cr.container_lab refl read alive)
  ]

  answer-Fine :
      (a : Answer StoredTopology)
      → server.get_topology namespace name ≡ a
      → Fine (with_topology infra server a)
  unfolding with_topology
  answer-Fine (found cr) read = topology-Fine cr read
  answer-Fine not_found read = tt
  answer-Fine (failed e) read = tt

  -- Whatever the API server answers, the reconciler of a topology reports it ready only if the
  -- topology is there and is not being deleted, its containerlab text could be parsed, and the API
  -- server took what `GetNodes`, `GetLinks` and `GetGENIDIndex` make of it.
  pub reconcile-AreApplied : All OnReady (reconcile infra server namespace name).requests
  unfolding reconcile
  reconcile-AreApplied = answer-Fine (server.get_topology namespace name) refl
