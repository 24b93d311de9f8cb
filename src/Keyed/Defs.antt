-- ===== src/Keyed/Defs.antt =====
-- Identities with their order, elements that carry one, and the operations on a slice of such
-- elements.
use kuidapps.Prelude.{
  ◌≡◌, ◌↔◌, Bool, true, false, Option, none, some, List, [], ◌∷◌, ◌++◌, if◌then◌else◌, is_some,
  get_or,
}

-- `==` on identities, and the order that the `sort.SliceStable` calls use.
pub record KeyOrder {ℓ} (K : Type ℓ) : Type ℓ where
  pub eqb : K → K → Bool
  pub lt : K → K → Bool
  pub eqb_iff : (a b : K) → (eqb a b ≡ true) ↔ (a ≡ b)
  pub lt_asym : (a b : K) → lt a b ≡ true → lt b a ≡ false

-- A kind of element: its identity, and the new element with an identity.
pub record Element {ℓ} (K A : Type ℓ) : Type ℓ where
  pub order : KeyOrder K
  pub ident : A → K
  pub make : K → A
  pub ident-make : (k : K) → ident (make k) ≡ k

module _ {ℓ} {K A : Type ℓ} (e : Element K A) where
  abbrev same : K → A → Bool
  same k x = e.order.eqb (e.ident x) k

  abbrev less : A → A → Bool
  less x y = e.order.lt (e.ident x) (e.ident y)

  -- Before the first element that is not below `x`.
  unfoldable pub insert_stable : A → List A → List A
  insert_stable x [] = x ∷ []
  insert_stable x (y ∷ ys) = if less y x then y ∷ insert_stable x ys else x ∷ y ∷ ys

  -- `sort.SliceStable`: the sorted order in which equal elements keep their places.
  unfoldable pub stable_sort : List A → List A
  unfolding insert_stable
  stable_sort [] = []
  stable_sort (x ∷ xs) = insert_stable x (stable_sort xs)

  -- The loop that returns the first element with the identity.
  unfoldable pub find : K → List A → Option A
  find k [] = none
  find k (x ∷ xs) = if same k x then some x else find k xs

  abbrev pub present : K → List A → Bool
  present k xs = is_some (find k xs)

  -- The slice after `GetOrCreate`.
  unfoldable pub create : K → List A → List A
  unfolding find stable_sort
  create k xs = if present k xs then xs else stable_sort (xs ++ e.make k ∷ [])

  -- A write through the pointer that the search returned.
  unfoldable pub modify : K → (A → A) → List A → List A
  modify k f [] = []
  modify k f (x ∷ xs) = if same k x then f x ∷ xs else x ∷ modify k f xs

  -- `GetOrCreate` and a write through the pointer that it returned.
  unfoldable pub update : K → (A → A) → List A → List A
  unfolding create modify
  update k f xs = modify k f (create k xs)

  -- What `GetOrCreate` returns.
  abbrev pub at : K → List A → A
  at k xs = get_or (find k xs) (e.make k)
