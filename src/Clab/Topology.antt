-- ===== src/Clab/Topology.antt =====
-- The reconciler of a topology (pkg/reconcilers/topology/reconciler.go): it applies the objects of the
-- topology's containerlab text. The parser of the text is a parameter.
use kuidapps.Text.{◌⧺◌}
use kuidapps.Outcome.{ok, ◌>>=◌, wrapped, Outcome, Error}
use kuidapps.Prelude.{◌∷◌, some, none, [], if◌then◌else◌, Option, List, Bool, String}
use kuidapps.Clab.{ClabInfra, SiteId, ClabConfig, ClabNode, ClabLink}
use kuidapps.Clab.Objects.{get_nodes, get_links}
use kuidapps.Reconcile.{
  wrap, returned, panicked, End, requeue, no_requeue, Result, Answer, found, not_found, failed,
}

pub record StoredTopology : Type 0 where
  pub name : String
  pub namespace : String
  pub deleted : Bool
  pub site_id : SiteId
  pub container_lab : Option String

-- kuid's `GENIDIndex`.
pub record GenidIndex : Type 0 where
  pub namespace : String
  pub name : String
  pub kind : String

-- What is written into the ready condition of the topology: for a failure the text of the error, or
-- the message where there is none.
pub data Reported : Type 0 where
  ready : Reported
  failed_by : Error → Reported
  failed_with : String → Reported

pub record TopologyObjects : Type 0 where
  pub nodes : List ClabNode
  pub links : List ClabLink
  pub index : GenidIndex

-- The calls that change the cluster.
pub data Request : Type 0 where
  add_finalizer : Request
  remove_finalizer : Request
  delete_owned : Request
  apply_objects : TopologyObjects → Request
  update_status : Reported → Request

pub record Run : Type 0 where
  pub requests : List Request
  pub end : End

-- What the API server answers, and containerlab's parser.
pub record TopologyServer : Type 0 where
  pub get_topology : String → String → Answer StoredTopology
  pub load_config : String → Outcome ClabConfig
  pub refuses : Request → Option Error

unfoldable pub get_genid_index : StoredTopology → GenidIndex
get_genid_index cr = record {
  namespace = cr.namespace;
  name = "network." ⧺ cr.name;
  kind = "16bit";
}

unfoldable pub handle_error : String → Option Error → Reported
handle_error msg none = failed_with msg
handle_error msg (some e) = failed_by e

abbrev pub done : Result → Option Error → Run
done result e = record { requests = []; end = returned result e }

abbrev pub sequel : Option Error → (Error → Run) → Run → Run
sequel none on_error next = next
sequel (some e) on_error next = on_error e

-- A value that is read, or an error.
abbrev pub with_value : {A : Type 0} → Outcome A → (Error → Run) → (A → Run) → Run
with_value (Outcome.ok a) on_error next = next a
with_value (Outcome.err e) on_error next = on_error e
with_value Outcome.panic on_error next = record { requests = []; end = panicked }

-- What a topology is made of, where its text can be parsed.
unfoldable pub objects_of :
    ClabInfra → (String → Outcome ClabConfig) → StoredTopology → String → Outcome TopologyObjects
unfolding get_nodes get_links get_genid_index
objects_of infra load_config cr text = load_config text >>= λ cfg.
    get_nodes infra cr.site_id cfg >>= λ nodes. get_links infra cr.site_id cfg >>= λ links.
    ok (record { nodes = nodes; links = links; index = get_genid_index cr })

module _ (infra : ClabInfra) (server : TopologyServer) where
  unfoldable pub attempt : Request → (Error → Run) → Run → Run
  attempt q on_error next =
      let run = sequel (server.refuses q) on_error next in
      record { requests = q ∷ run.requests; end = run.end }

  unfoldable pub update_and_return : Result → Reported → Run
  update_and_return result reported = record {
    requests = update_status reported ∷ [];
    end = returned result (wrap "cannot update status" (server.refuses (update_status reported)));
  }

  unfoldable pub delete_topology : Run
  unfolding attempt update_and_return handle_error
  delete_topology =
      attempt delete_owned
        (λ e. update_and_return requeue (handle_error "canot delete resources" (some e)))
        (attempt remove_finalizer
          (λ e. update_and_return requeue (handle_error "cannot remove finalizer" (some e)))
          (done no_requeue none))

  unfoldable pub cannot_apply : Error → Run
  unfolding update_and_return handle_error
  cannot_apply e =
      update_and_return no_requeue (handle_error "cannot apply topology resources" (some e))

  -- `apply`, and what follows it; what the topology owned and is not applied is deleted by the call.
  unfoldable pub apply : StoredTopology → String → Run
  unfolding objects_of attempt update_and_return cannot_apply
  apply cr text =
      with_value (objects_of infra server.load_config cr text)
        (λ e. cannot_apply (wrapped "parsing clab topo failed" e))
        λ objects. attempt (apply_objects objects) cannot_apply (update_and_return no_requeue ready)

  unfoldable pub apply_text : StoredTopology → Option String → Run
  unfolding apply update_and_return handle_error
  apply_text cr none =
      update_and_return no_requeue (handle_error "no containerlab topology provided" none)
  apply_text cr (some text) = apply cr text

  unfoldable pub reconcile_topology : StoredTopology → Run
  unfolding attempt update_and_return handle_error delete_topology apply_text
  reconcile_topology cr =
      if cr.deleted
      then delete_topology
      else attempt add_finalizer
          (λ e. update_and_return requeue (handle_error "cannot add finalizer" (some e)))
          (apply_text cr cr.container_lab)

  -- The start of a reconcile: a topology that is not there has none.
  unfoldable pub with_topology : Answer StoredTopology → Run
  unfolding reconcile_topology
  with_topology (found cr) = reconcile_topology cr
  with_topology not_found = done no_requeue none
  with_topology (failed e) = done no_requeue (some (wrapped "cannot get cr" e))

  unfoldable pub reconcile : String → String → Run
  unfolding with_topology
  reconcile namespace name = with_topology (server.get_topology namespace name)
