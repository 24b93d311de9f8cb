-- ===== src/Reconcile/Order.antt =====
-- The order in which the child conditions of a network become true, whatever the three reconcilers
-- and the users do (pkg/reconcilers/network, networkparams and networkdevice).
pub mod Rounds
pub mod Deploys
pub mod Reached
use mathlib.Core.Path.{subst}
use kuidapps.Outcome.{Error}
use kuidapps.Conditions.Overall.{get-set_child, get_condition-set_overall_status}
use kuidapps.Reconcile.Overall.{OnStatus}
use kuidapps.Reconcile.System.{write_status, accept, perform}
use kuidapps.Reconcile.{
  delete_owned, remove_finalizer, add_finalizer, apply_configs, apply_devices, apply_claims,
  update_status, Cluster, Request,
}
use kuidapps.Conditions.Stored.{set_conditions, set_overall_status, get_condition, StoredNetwork}
use kuidapps.Conditions.{
  condition_type_network_device_ready, condition_type_network_param_ready, Condition, IsConditioned,
  Kuid, is_true, is_false, condition_true, condition_false, ConditionStatus,
}
use kuidapps.Prelude.{
  refl, none, some, sym, Option, [], ◌∷◌, All, List, true, not, false, arith, ◌≡◌, Bool,
}

-- Both conditions are known, and unless the network is being deleted that of the devices is true
-- only where that of the parameters is.
pub record AreOrdered (deleted : Bool) (param device : ConditionStatus) : Type 0 where
  pub param_known : is_false param ≡ not (is_true param)
  pub device_known : is_false device ≡ not (is_true device)
  pub ordered : deleted ≡ false → is_true device ≡ true → is_true param ≡ true

pub param_true :
    {x : Bool} {p d : ConditionStatus} → AreOrdered x p d → AreOrdered x condition_true d
param_true o = ground arith

pub param_false :
    {x : Bool} {p d : ConditionStatus}
    → AreOrdered x p d
    → (x ≡ false → is_true p ≡ false)
    → AreOrdered x condition_false d
param_false o h = ground (arith, h)

pub device_true :
    {x : Bool} {p d : ConditionStatus}
    → AreOrdered x p d
    → is_false p ≡ false
    → AreOrdered x p condition_true
device_true o h = ground arith

-- The source also makes the condition of the parameters false where a device fails.
pub device_not_true :
    {x : Bool} {p d : ConditionStatus}
    → AreOrdered x p d
    → (x ≡ false → is_true d ≡ false)
    → AreOrdered x condition_false d
device_not_true o h = ground (arith, h)

pub both_false : {x : Bool} → AreOrdered x condition_false condition_false
both_false = ground arith

pub device_false :
    {x : Bool} {p d : ConditionStatus} → AreOrdered x p d → AreOrdered x p condition_false
device_false o = ground arith

module _ {S : Type 0} (k : Kuid S) where
  abbrev pub AreOrderedIn : Bool → StoredNetwork S → Type 0
  AreOrderedIn x r =
      AreOrdered x (get_condition k condition_type_network_param_ready r).status
        (get_condition k condition_type_network_device_ready r).status

  -- The child conditions of a network are ordered.
  abbrev pub IsOrdered : StoredNetwork S → Type 0
  IsOrdered r = AreOrderedIn r.deleted r

  abbrev Kept : Bool → Request S → Type 0
  Kept x = OnStatus (AreOrderedIn x)

  write_status-Kept :
      (q : Request S) (s : StoredNetwork S)
      → Kept s.deleted q
      → IsOrdered s
      → ((write_status q s).deleted ≡ s.deleted) × IsOrdered (write_status q s)
  unfolding get_condition
  write_status-Kept (update_status cr) s h o = (refl, h)
  write_status-Kept add_finalizer s h o = (refl, o)
  write_status-Kept remove_finalizer s h o = (refl, o)
  write_status-Kept delete_owned s h o = (refl, o)
  write_status-Kept (apply_claims l) s h o = (refl, o)
  write_status-Kept (apply_devices l) s h o = (refl, o)
  write_status-Kept (apply_configs l) s h o = (refl, o)

  accept-Kept :
      (e : Option Error) (q : Request S) (s : StoredNetwork S)
      → Kept s.deleted q
      → IsOrdered s
      → ((accept e q s).deleted ≡ s.deleted) × IsOrdered (accept e q s)
  accept-Kept none q s h o = write_status-Kept q s h o
  accept-Kept (some e) q s h o = (refl, o)

  perform-Kept :
      (cl : Cluster S) (qs : List (Request S)) (s : StoredNetwork S)
      → All (Kept s.deleted) qs
      → IsOrdered s
      → IsOrdered (perform cl qs s)
  unfolding perform
  perform-Kept cl [] s h o = o
  perform-Kept cl (q ∷ qs) s h o =
      let (same, o') = accept-Kept (cl.refuses q) q s h.0 o in
      perform-Kept cl qs (accept (cl.refuses q) q s) (subst (λ x. All (Kept x) qs) (sym same) h.1)
        o'

  module _ (laws : IsConditioned k) where
    set_param-ordered :
        (x : Bool) (c : Condition) (r : StoredNetwork S)
        → c.kind ≡ condition_type_network_param_ready
        → AreOrdered x c.status (get_condition k condition_type_network_device_ready r).status
        → AreOrderedIn x (set_conditions k (c ∷ []) r)
    unfolding get_condition set_conditions
    set_param-ordered x c r kind o =
        rw
          (
            laws.get-set condition_type_network_param_ready (c ∷ []) r.status.conditioned,
            laws.get-set condition_type_network_device_ready (c ∷ []) r.status.conditioned,
            kind,
          )
          o

    set_device-ordered :
        (x : Bool) (c : Condition) (r : StoredNetwork S)
        → c.kind ≡ condition_type_network_device_ready
        → AreOrdered x (get_condition k condition_type_network_param_ready r).status c.status
        → AreOrderedIn x (set_conditions k (c ∷ []) r)
    unfolding get_condition set_conditions
    set_device-ordered x c r kind o =
        rw
          (
            laws.get-set condition_type_network_param_ready (c ∷ []) r.status.conditioned,
            laws.get-set condition_type_network_device_ready (c ∷ []) r.status.conditioned,
            kind,
          )
          o

    -- A condition of the ready type leaves the order.
    set_ready-ordered :
        (x : Bool) (c : Condition) (r : StoredNetwork S)
        → c.kind ≡ k.condition_type_ready
        → AreOrderedIn x r
        → AreOrderedIn x (set_conditions k (c ∷ []) r)
    set_ready-ordered x c r kind o =
        rw
          (
            get-set_child k laws condition_type_network_param_ready c r laws.param_apart kind,
            get-set_child k laws condition_type_network_device_ready c r laws.device_apart kind,
          )
          o

    set_overall_status-ordered :
        (x : Bool) (r : StoredNetwork S)
        → AreOrderedIn x r
        → AreOrderedIn x (set_overall_status k r)
    set_overall_status-ordered x r o =
        rw
          (
            get_condition-set_overall_status k laws condition_type_network_param_ready r
                laws.param_apart,
            get_condition-set_overall_status k laws condition_type_network_device_ready r
                laws.device_apart,
          )
          o

    -- A condition of the ready type that the overall status then overwrites.
    pub overall-ordered :
        (x : Bool) (c : Condition) (r : StoredNetwork S)
        → c.kind ≡ k.condition_type_ready
        → AreOrderedIn x r
        → AreOrderedIn x (set_overall_status k (set_conditions k (c ∷ []) r))
    overall-ordered x c r kind o =
        set_overall_status-ordered x (set_conditions k (c ∷ []) r) (set_ready-ordered x c r kind o)
