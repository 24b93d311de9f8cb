-- ===== src/Keyed/Canonical.antt =====
-- The form that the operations keep a collection in: sorted, no identity twice, and a given
-- predicate on every element.
use kuidapps.Prelude.{
  ◌≡◌, sym, ◌∙◌, inl, inr, true, false, none, List, [], ◌∷◌, ◌++◌, arith, Bool-cases, Option-cases,
  All,
}
use kuidapps.Keyed.Defs.{Element, insert_stable, stable_sort, find, create, modify, update}
use kuidapps.Keyed.Sort.{IsSorted, stable_sort-IsSorted, insert_stable-All, stable_sort-All}

module _ {ℓ} {K A : Type ℓ} (e : Element K A) where
  open e.order use {eqb, lt, eqb_iff, lt_asym}

  -- No element has the identity.
  abbrev pub Fresh : K → List A → Type 0
  Fresh k = All (λ y. eqb (e.ident y) k ≡ false)

  -- No two elements have the same identity.
  abbrev pub Distinct : List A → Type 0
  Distinct [] = Unit
  Distinct (x ∷ xs) = Fresh (e.ident x) xs × Distinct xs

  pub record IsCanonical {κ} (P : A → Type κ) (xs : List A) : Type κ where
    pub sorted : IsSorted e xs
    pub distinct : Distinct xs
    pub members : All P xs

  insert_stable-Distinct :
      (x : A) (xs : List A) → Fresh (e.ident x) xs → Distinct xs → Distinct (insert_stable e x xs)
  unfolding insert_stable
  insert_stable-Distinct x [] fresh d = (tt, tt)
  insert_stable-Distinct x (y ∷ ys) fresh d = elim (Bool-cases (lt (e.ident y) (e.ident x))) [
    | inr above ↦ rw above (fresh, d)
    | inl below ↦ rw below (
      insert_stable-All e _ x ys
          (ground
            (arith, eqb_iff (e.ident x) (e.ident y), eqb_iff (e.ident y) (e.ident x), fresh.0))
          d.0,
      insert_stable-Distinct x ys fresh.1 d.1,
    )
  ]

  stable_sort-Distinct : (xs : List A) → Distinct xs → Distinct (stable_sort e xs)
  unfolding stable_sort
  stable_sort-Distinct [] d = tt
  stable_sort-Distinct (x ∷ xs) d =
      insert_stable-Distinct x (stable_sort e xs) (stable_sort-All e _ xs d.0)
        (stable_sort-Distinct xs d.1)

  pub All-append_one {κ} :
      (P : A → Type κ) (xs : List A) (y : A) → All P xs → P y → All P (xs ++ y ∷ [])
  All-append_one P [] y ps p = (p, tt)
  All-append_one P (x ∷ xs) y ps p = (ps.0, All-append_one P xs y ps.1 p)

  pub Distinct-append_one :
      (xs : List A) (y : A) → Distinct xs → Fresh (e.ident y) xs → Distinct (xs ++ y ∷ [])
  Distinct-append_one [] y d fresh = (tt, tt)
  Distinct-append_one (x ∷ xs) y d fresh = (
    All-append_one _ xs y d.0
        (ground (arith, eqb_iff (e.ident x) (e.ident y), eqb_iff (e.ident y) (e.ident x), fresh.0)),
    Distinct-append_one xs y d.1 fresh.1,
  )

  pub Fresh-find : (k : K) (xs : List A) → find e k xs ≡ none → Fresh k xs
  unfolding find
  Fresh-find k [] h = tt
  Fresh-find k (x ∷ xs) h = (ground arith, Fresh-find k xs (ground arith))

  create-IsCanonical {κ} :
      (P : A → Type κ) (k : K) (xs : List A)
      → P (e.make k)
      → IsCanonical P xs
      → IsCanonical P (create e k xs)
  unfolding create
  create-IsCanonical P k xs new c = elim (Option-cases (find e k xs)) [
    | inr (x, hit) ↦ rw hit c
    | inl miss ↦ rw miss (record {
      sorted = stable_sort-IsSorted e (xs ++ e.make k ∷ []);
      distinct = stable_sort-Distinct _ (
          Distinct-append_one xs (e.make k) c.distinct
            (rw (e.ident-make k) (Fresh-find k xs miss)));
      members = stable_sort-All e P _ (All-append_one P xs (e.make k) c.members new);
    })
  ]

  IsSorted-head :
      (x y : A) (ys : List A) → e.ident x ≡ e.ident y → IsSorted e (y ∷ ys) → IsSorted e (x ∷ ys)
  IsSorted-head x y [] same s = tt
  IsSorted-head x y (z ∷ zs) same s = rw same s

  -- Writing through the pointer keeps the identities.
  modify-All {κ} :
      (P : A → Type κ) (k : K) (f : A → A) (xs : List A)
      → ((x : A) → e.ident x ≡ k → P x → P (f x))
      → All P xs
      → All P (modify e k f xs)
  unfolding modify
  modify-All P k f [] h ps = tt
  modify-All P k f (x ∷ xs) h ps = elim (Bool-cases (eqb (e.ident x) k)) [
    | inl hit ↦ rw hit (h x ((eqb_iff _ _).0 hit) ps.0, ps.1)
    | inr miss ↦ rw miss (ps.0, modify-All P k f xs h ps.1)
  ]

  module _ (k : K) (f : A → A) (keeps : (x : A) → e.ident x ≡ k → e.ident (f x) ≡ k) where
    kept : (x : A) → eqb (e.ident x) k ≡ true → e.ident (f x) ≡ e.ident x
    kept x hit = let same = (eqb_iff _ _).0 hit in keeps x same ∙ sym same

    modify-Distinct : (xs : List A) → Distinct xs → Distinct (modify e k f xs)
    unfolding modify
    modify-Distinct [] d = tt
    modify-Distinct (x ∷ xs) d = elim (Bool-cases (eqb (e.ident x) k)) [
      | inl hit ↦ rw (hit, kept x hit) d
      | inr miss ↦ rw miss (
        modify-All _ k f xs (λ y same p. rw (keeps y same ∙ sym same) p) d.0,
        modify-Distinct xs d.1,
      )
    ]

    modify-IsSorted : (xs : List A) → IsSorted e xs → IsSorted e (modify e k f xs)
    unfolding modify
    modify-IsSorted [] s = tt
    modify-IsSorted (x ∷ []) s = elim (Bool-cases (eqb (e.ident x) k)) [
      | inl hit ↦ rw hit tt
      | inr miss ↦ rw miss tt
    ]
    modify-IsSorted (x ∷ y ∷ ys) s = elim (Bool-cases (eqb (e.ident x) k)) [
      | inl hit ↦ rw hit (IsSorted-head (f x) x (y ∷ ys) (kept x hit) s)
      | inr miss ↦ elim (Bool-cases (eqb (e.ident y) k)) [
        | inl next ↦
            rw (miss, next) (rw (kept y next) s.0, IsSorted-head (f y) y ys (kept y next) s.1)
        | inr past ↦ rw (miss, past) (s.0, rw past at (modify-IsSorted (y ∷ ys) s.1))
      ]
    ]

    -- `GetOrCreate` and a write keep the form, where the write keeps the identity and the
    -- predicate.
    pub update-IsCanonical {κ} :
        (P : A → Type κ) (xs : List A)
        → P (e.make k)
        → ((x : A) → P x → P (f x))
        → IsCanonical P xs
        → IsCanonical P (update e k f xs)
    unfolding update
    update-IsCanonical P xs new step c =
        let created = create-IsCanonical P k xs new c in
        record {
          sorted = modify-IsSorted (create e k xs) created.sorted;
          distinct = modify-Distinct (create e k xs) created.distinct;
          members = modify-All P k f (create e k xs) (λ x _. step x) created.members;
        }

-- A write that keeps the identity `k` and a predicate.
pub record Keeps {ℓ κ} {K A : Type ℓ} (e : Element K A) (k : K) (P : A → Type κ) (f : A → A)
    : Type (ℓ ⊔ κ) where
  pub ident : (x : A) → e.ident x ≡ k → e.ident (f x) ≡ k
  pub step : (x : A) → P x → P (f x)

pub update-Keeps {ℓ κ} :
    {K A : Type ℓ} (e : Element K A) (k : K) (P : A → Type κ) (f : A → A) (xs : List A)
    → P (e.make k)
    → Keeps e k P f
    → IsCanonical e P xs
    → IsCanonical e P (update e k f xs)
update-Keeps e k P f xs new keeps c = update-IsCanonical e k f keeps.ident P xs new keeps.step c

pub nil-IsCanonical {ℓ κ} : {K A : Type ℓ} (e : Element K A) (P : A → Type κ) → IsCanonical e P []
nil-IsCanonical e P = record { sorted = tt; distinct = tt; members = tt }
