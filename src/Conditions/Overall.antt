-- ===== src/Conditions/Overall.antt =====
-- What the ready condition of a network says of its child conditions
-- (apis/network/v1alpha1/network_interfaces.go, `SetOverallStatus`).
use kuidapps.Prelude.{true, if◌then◌else◌, Bool, String, false, ◌≡◌, ◌∙◌, [], ◌∷◌, arith, eq_iff}
use text.Mathlib.Text.{◌==◌ as str_eq}
use kuidapps.Text.{◌⧺◌}
use kuidapps.Conditions.{
  Condition, Kuid, IsConditioned, is_true, child_conditions, condition_type_network_param_ready,
  condition_type_network_device_ready,
}
use kuidapps.Conditions.Stored.{
  StoredNetwork, get_condition, set_conditions, set_overall_status, overall_condition, none_false,
  are_child_conditions_ready,
}

-- A choice of two conditions of one type.
pub if-kind :
    {t : String} (b : Bool) (c d : Condition)
    → c.kind ≡ t
    → d.kind ≡ t
    → (if b then c else d).kind ≡ t
if-kind true c d h l = h
if-kind false c d h l = l

module _ {S : Type 0} (k : Kuid S) where
  -- The ready condition is true just where no child condition is false.
  abbrev pub IsOverall : StoredNetwork S → Type 0
  IsOverall r =
      is_true (get_condition k k.condition_type_ready r).status ≡ are_child_conditions_ready k r

  module _ (laws : IsConditioned k) where
    -- A condition of the ready type is read back, and leaves those of other types.
    pub get-set_ready :
        (c : Condition) (r : StoredNetwork S)
        → c.kind ≡ k.condition_type_ready
        → get_condition k k.condition_type_ready (set_conditions k (c ∷ []) r) ≡ c
    unfolding get_condition set_conditions
    get-set_ready c r own =
        laws.get-set k.condition_type_ready (c ∷ []) r.status.conditioned
        ∙ ground (arith, own, eq_iff c.kind k.condition_type_ready)

    pub get-set_child :
        (t : String) (c : Condition) (r : StoredNetwork S)
        → str_eq k.condition_type_ready t ≡ false
        → c.kind ≡ k.condition_type_ready
        → get_condition k t (set_conditions k (c ∷ []) r) ≡ get_condition k t r
    unfolding get_condition set_conditions
    get-set_child t c r apart own = laws.get-set t (c ∷ []) r.status.conditioned ∙ rw (own, apart)

    -- A condition of the ready type does not change whether the child conditions are ready.
    pub are_child_conditions_ready-set :
        (c : Condition) (r : StoredNetwork S)
        → c.kind ≡ k.condition_type_ready
        → are_child_conditions_ready k (set_conditions k (c ∷ []) r)
          ≡ are_child_conditions_ready k r
    unfolding are_child_conditions_ready none_false child_conditions
    are_child_conditions_ready-set c r own = rw (
      get-set_child condition_type_network_param_ready c r laws.param_apart own,
      get-set_child condition_type_network_device_ready c r laws.device_apart own,
    )

    overall_condition_kind :
        (r : StoredNetwork S) → (overall_condition k r).kind ≡ k.condition_type_ready
    unfolding overall_condition
    overall_condition_kind r = ground (
      arith,
      laws.ready_kind,
      laws.failed_kind (
          "network parameters not ready: "
          ⧺ (get_condition k condition_type_network_param_ready r).message),
      laws.failed_kind (
          "device configs for network not ready: "
          ⧺ (get_condition k condition_type_network_device_ready r).message),
    )

    overall_condition_status :
        (r : StoredNetwork S)
        → is_true (overall_condition k r).status ≡ are_child_conditions_ready k r
    unfolding overall_condition are_child_conditions_ready none_false child_conditions
    overall_condition_status r = ground (
      arith,
      laws.ready_status,
      laws.failed_status (
          "network parameters not ready: "
          ⧺ (get_condition k condition_type_network_param_ready r).message),
      laws.failed_status (
          "device configs for network not ready: "
          ⧺ (get_condition k condition_type_network_device_ready r).message),
    )

    pub set_overall_status-IsOverall : (r : StoredNetwork S) → IsOverall (set_overall_status k r)
    unfolding set_overall_status
    set_overall_status-IsOverall r =
        let own = overall_condition_kind r in
        rw
          (
            get-set_ready (overall_condition k r) r own,
            are_child_conditions_ready-set (overall_condition k r) r own,
          )
          (overall_condition_status r)

    pub get_condition-set_overall_status :
        (t : String) (r : StoredNetwork S)
        → str_eq k.condition_type_ready t ≡ false
        → get_condition k t (set_overall_status k r) ≡ get_condition k t r
    unfolding set_overall_status
    get_condition-set_overall_status t r apart =
        get-set_child t (overall_condition k r) r apart (overall_condition_kind r)

    pub are_child_conditions_ready-set_overall_status :
        (r : StoredNetwork S)
        → are_child_conditions_ready k (set_overall_status k r) ≡ are_child_conditions_ready k r
    unfolding set_overall_status
    are_child_conditions_ready-set_overall_status r =
        are_child_conditions_ready-set (overall_condition k r) r (overall_condition_kind r)
