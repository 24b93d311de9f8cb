-- ===== src/Keyed/Find.antt =====
-- A collection as a map from identities: what a search finds after `GetOrCreate` and a write.
use kuidapps.Prelude.{
  ◌≡◌, refl, ap, ◌∙◌, inl, inr, true, false, none, some, List, [], ◌∷◌, ◌++◌, arith, if◌then◌else◌,
  Bool-cases, Option-cases,
}
use kuidapps.Keyed.Defs.{Element, insert_stable, stable_sort, find, create, modify, update, at}

module _ {ℓ} {K A : Type ℓ} (e : Element K A) where
  open e.order use {eqb, lt, eqb_iff, lt_asym}

  lt_irrefl : (a : K) → lt a a ≡ false
  lt_irrefl a = ground (arith, lt_asym a a)

  -- Of two elements with one identity neither is below the other.
  not-lt_of_same :
      (k : K) (x y : A)
      → eqb (e.ident x) k ≡ true
      → eqb (e.ident y) k ≡ true
      → lt (e.ident y) (e.ident x) ≡ false
  not-lt_of_same k x y p q = rw ((eqb_iff _ _).0 p, (eqb_iff _ _).0 q) (lt_irrefl k)

  find-insert_stable :
      (k : K) (x : A) (xs : List A)
      → find e k (insert_stable e x xs) ≡ (if eqb (e.ident x) k then some x else find e k xs)
  unfolding find insert_stable
  find-insert_stable k x [] = refl
  find-insert_stable k x (y ∷ ys) = ground (arith, find-insert_stable k x ys, not-lt_of_same k x y)

  -- Sorting stably does not change what a search finds, whatever the slice holds.
  pub find-stable_sort : (k : K) (xs : List A) → find e k (stable_sort e xs) ≡ find e k xs
  unfolding find stable_sort
  find-stable_sort k [] = refl
  find-stable_sort k (x ∷ xs) =
      find-insert_stable k x (stable_sort e xs)
      ∙ ap (λ o. if eqb (e.ident x) k then some x else o) (find-stable_sort k xs)

  find-append_one :
      (k : K) (xs : List A) (y : A)
      → find e k (xs ++ y ∷ []) ≡ (elim (find e k xs) [
        | some x ↦ some x
        | none ↦ if eqb (e.ident y) k then some y else none
      ])
  unfolding find
  find-append_one k [] y = refl
  find-append_one k (x ∷ xs) y = ground (arith, find-append_one k xs y)

  eqb_refl : (k : K) → eqb k k ≡ true
  eqb_refl k = (eqb_iff k k).1 refl

  -- After `GetOrCreate` there is an element with the identity, and the others are untouched.
  pub find-create :
      (j k : K) (xs : List A)
      → find e k (create e j xs) ≡ (if eqb j k then some (at e j xs) else find e k xs)
  unfolding create
  find-create j k xs = ground (
    arith,
    find-stable_sort k (xs ++ e.make j ∷ []),
    find-append_one k xs (e.make j),
    e.ident-make j,
    eqb_iff j k,
    eqb_iff (e.ident (e.make j)) k,
  )

  module _ (j : K) (f : A → A) (keeps : (x : A) → e.ident x ≡ j → e.ident (f x) ≡ j) where
    find-modify :
        (k : K) (xs : List A)
        → find e k (modify e j f xs) ≡ (
            if eqb j k
            then (elim (find e k xs) [ none ↦ none | some x ↦ some (f x) ])
            else find e k xs)
    unfolding find modify
    find-modify k [] = ground arith
    find-modify k (x ∷ xs) = elim (Bool-cases (eqb (e.ident x) j)) [
      | inr miss ↦
          ground (
            arith,
            find-modify k xs,
            miss,
            eqb_iff (e.ident x) j,
            eqb_iff (e.ident x) k,
            eqb_iff j k,
          )
      | inl hit ↦ let same = (eqb_iff _ _).0 hit in ground (arith, hit, same, keeps x same)
    ]

    -- The map laws of `GetOrCreate` followed by a write: the element with the identity is the one
    -- that was there, or a new one, after the write; what is found by any other identity is as
    -- before. The write has to keep the identity.
    pub find-update :
        (k : K) (xs : List A)
        → find e k (update e j f xs) ≡ (if eqb j k then some (f (at e j xs)) else find e k xs)
    unfolding update
    find-update k xs = ground (arith, find-modify k (create e j xs), find-create j k xs)

module _ {ℓ} {K A : Type ℓ} (e : Element K A) where
  open e.order use {eqb, eqb_iff}

  ident_of_find : (k : K) (xs : List A) {x : A} → find e k xs ≡ some x → e.ident x ≡ k
  unfolding find
  ident_of_find k [] h = absurd (ground arith)
  ident_of_find k (y ∷ ys) {x} h = elim (Bool-cases (eqb (e.ident y) k)) [
    | inl hit ↦ ground (arith, hit, eqb_iff (e.ident y) k)
    | inr miss ↦ ident_of_find k ys (rw miss at h)
  ]

  -- What `GetOrCreate` returns has the identity that was asked for.
  pub ident-at : (k : K) (xs : List A) → e.ident (at e k xs) ≡ k
  ident-at k xs = elim (Option-cases (find e k xs)) [
    | inl miss ↦ rw miss (e.ident-make k)
    | inr (x, hit) ↦ rw hit (ident_of_find k xs hit)
  ]

  at-update :
      (j : K) (f : A → A) (xs : List A)
      → ((x : A) → e.ident x ≡ j → e.ident (f x) ≡ j)
      → at e j (update e j f xs) ≡ f (at e j xs)
  at-update j f xs keeps = rw (find-update e j f keeps j xs, (eqb_iff j j).1 refl)

  -- Two writes to one element, one after the other.
  pub find-update_twice :
      (j k : K) (f g : A → A) (xs : List A)
      → ((x : A) → e.ident x ≡ j → e.ident (f x) ≡ j)
      → ((x : A) → e.ident x ≡ j → e.ident (g x) ≡ j)
      → find e k (update e j f (update e j g xs))
        ≡ (if eqb j k then some (f (g (at e j xs))) else find e k xs)
  find-update_twice j k f g xs fk gk = ground (
    arith,
    find-update e j f fk k (update e j g xs),
    find-update e j g gk k xs,
    at-update j g xs gk,
  )
