-- ===== src/Keyed/Sort.antt =====
-- What the stable sort of `Keyed.Defs` gives.

use kuidapps.Prelude.{◌≡◌, inl, inr, false, List, [], ◌∷◌, All, Bool-cases}
use kuidapps.Keyed.Defs.{Element, insert_stable, stable_sort}

module _ {ℓ} {K A : Type ℓ} (e : Element K A) where
  open e.order use {eqb, lt, eqb_iff, lt_asym}

  -- No element is below the one before it.
  abbrev pub IsSorted : List A → Type 0
  IsSorted [] = Unit
  IsSorted (x ∷ []) = Unit
  IsSorted (x ∷ y ∷ ys) = (lt (e.ident y) (e.ident x) ≡ false) × IsSorted (y ∷ ys)

  pub insert_stable-IsSorted : (x : A) (xs : List A) → IsSorted xs → IsSorted (insert_stable e x xs)
  unfolding insert_stable
  insert_stable-IsSorted x [] h = tt
  insert_stable-IsSorted x (y ∷ []) h = elim (Bool-cases (lt (e.ident y) (e.ident x))) [
    | inl below ↦ rw below (lt_asym _ _ below, tt)
    | inr above ↦ rw above (above, tt)
  ]
  insert_stable-IsSorted x (y ∷ z ∷ ys) h = elim (Bool-cases (lt (e.ident y) (e.ident x))) [
    | inr above ↦ rw above (above, h)
    | inl below ↦ elim (Bool-cases (lt (e.ident z) (e.ident x))) [
      | inl next ↦ rw (below, next) (h.0, rw next at (insert_stable-IsSorted x (z ∷ ys) h.1))
      | inr last ↦ rw (below, last) (lt_asym _ _ below, (last, h.1))
    ]
  ]

  pub stable_sort-IsSorted : (xs : List A) → IsSorted (stable_sort e xs)
  unfolding stable_sort
  stable_sort-IsSorted [] = tt
  stable_sort-IsSorted (x ∷ xs) =
      insert_stable-IsSorted x (stable_sort e xs) (stable_sort-IsSorted xs)

  -- A predicate on all members goes through.
  pub insert_stable-All {κ} :
      (P : A → Type κ) (x : A) (xs : List A) → P x → All P xs → All P (insert_stable e x xs)
  unfolding insert_stable
  insert_stable-All P x [] p ps = (p, tt)
  insert_stable-All P x (y ∷ ys) p ps = elim (Bool-cases (lt (e.ident y) (e.ident x))) [
    | inl h ↦ rw h (ps.0, insert_stable-All P x ys p ps.1)
    | inr h ↦ rw h (p, ps)
  ]

  pub stable_sort-All {κ} : (P : A → Type κ) (xs : List A) → All P xs → All P (stable_sort e xs)
  unfolding stable_sort
  stable_sort-All P [] ps = tt
  stable_sort-All P (x ∷ xs) ps =
      insert_stable-All P x (stable_sort e xs) ps.0 (stable_sort-All P xs ps.1)
