-- ===== src/Link/Effect.antt =====
-- The whole of `getBFDLinkParameters` (pkg/devbuilder/link.go): the values that it returns for a
-- link, and what a link without settings reads after another one of the same design.
use kuidapps.Prelude.{
  ℕ, ◌≡◌, refl, sym, ap, ◌∙◌, Bool, true, Option, none, some, List, [], ◌∷◌, get_or, Option-cases,
  inl, inr,
}
use kuidapps.Outcome.{ok}
use kuidapps.Schema.{Pointer, BfdLinkParameters}
use kuidapps.Design.Spec.{NetworkDesign, DesignInterfaces}
use kuidapps.Design.Getters.{◌>?◌, no_bfd, get_underlay_bfd_parameters}
use kuidapps.Infra.{LinkBfd}
use kuidapps.Link.Ends.{Link}
use kuidapps.Link.Memory.{Memory, to_flag, number_at}
use kuidapps.Link.Bfd.{
  set_underlay_enabled, interfaces_enabled_in, override, get_bfd_link_parameters,
}
use kuidapps.Link.Reading.{AreApart, Reads, over, bind-ok, ok-injective, override-Reads}

-- The numbers behind the pointers of a struct.
abbrev pub numbers_of : BfdLinkParameters → Memory → List (Option ℕ)
numbers_of b m =
    number_at b.min_echo_rx m
    ∷ number_at b.min_rx m
    ∷ number_at b.min_tx m
    ∷ number_at b.multiplier m
    ∷ number_at b.ttl m
    ∷ []

number_at-to_flag :
    (p : Option Pointer) (v : Bool) (m : Memory) → number_at p (to_flag v m) ≡ number_at p m
unfolding number_at to_flag
number_at-to_flag none v m = refl
number_at-to_flag (some p) v m = refl

-- Setting `enabled` leaves the number pointers of the design's struct.
number_pointers : (p : Pointer) (i : Option DesignInterfaces) → BfdLinkParameters
number_pointers p i = record (get_or (i >? (λ x. x.underlay) >? λ u. u.bfd) no_bfd) {
  enabled = some p;
}

number_pointers-set :
    (p q : Pointer) (i : Option DesignInterfaces)
    → number_pointers q (interfaces_enabled_in p i) ≡ number_pointers q i
unfolding number_pointers
number_pointers-set p q none = refl
number_pointers-set p q (some i) = elim (Option-cases i.underlay) [
  | inl missing ↦ rw missing refl
  | inr (u, found) ↦ elim (Option-cases u.bfd) [
    | inl unset ↦ rw (found, unset) refl
    | inr (b, set) ↦ rw (found, set) refl
  ]
]

numbers_of-to_flag :
    (b : BfdLinkParameters) (v : Bool) (m : Memory) → numbers_of b (to_flag v m) ≡ numbers_of b m
numbers_of-to_flag b v m =
    rw
      (
        number_at-to_flag b.min_echo_rx v m,
        number_at-to_flag b.min_rx v m,
        number_at-to_flag b.min_tx v m,
        number_at-to_flag b.multiplier v m,
        number_at-to_flag b.ttl v m,
      )
      refl

Reads-to_flag :
    (b : BfdLinkParameters) (l : LinkBfd) (v : Bool) (m m' : Memory)
    → Reads b l (to_flag v m) m'
    → Reads b l m m'
Reads-to_flag b l v m m' (h1, h2, h3, h4, h5) = (
  h1 ∙ ap (over l.min_echo_rx) (number_at-to_flag b.min_echo_rx v m),
  h2 ∙ ap (over l.min_rx) (number_at-to_flag b.min_rx v m),
  h3 ∙ ap (over l.min_tx) (number_at-to_flag b.min_tx v m),
  h4 ∙ ap (over l.multiplier) (number_at-to_flag b.multiplier v m),
  h5 ∙ ap (over l.ttl) (number_at-to_flag b.ttl v m),
)

-- What a call that returns has done.
get_bfd_link_parameters-ok :
    (design after : NetworkDesign) (r : Link) (m m' : Memory) (b : BfdLinkParameters)
    → get_bfd_link_parameters design r m ≡ ok (b, after, m')
    → (number_pointers m.next design.spec.interfaces ≡ b)
      × (set_underlay_enabled m.next design ≡ after)
      × (override (number_pointers m.next design.spec.interfaces) r.l.bfd (to_flag true m) ≡ ok m')
unfolding get_bfd_link_parameters get_underlay_bfd_parameters number_pointers
get_bfd_link_parameters-ok design after r m m' b h =
    let (m1, e, k) =
      bind-ok (override (number_pointers m.next design.spec.interfaces) r.l.bfd (to_flag true m)) _
        (b, after, m') h in
    let t = ok-injective _ _ k in (ap (λ x. x.0) t, ap (λ x. x.1) t, e ∙ ap ok (ap (λ x. x.2) t))

-- A link with settings, for which the call returns, reads its own numbers, and the design's where
-- it sets none, if the number pointers of the design's struct are apart.
pub get_bfd_link_parameters-Reads :
    (design after : NetworkDesign) (r : Link) (l : LinkBfd) (m m' : Memory) (b : BfdLinkParameters)
    → r.l.bfd ≡ some l
    → AreApart (get_underlay_bfd_parameters design)
    → get_bfd_link_parameters design r m ≡ ok (b, after, m')
    → Reads b l m m'
unfolding get_underlay_bfd_parameters number_pointers
get_bfd_link_parameters-Reads design after r l m m' b set apart h =
    let (eb, ea, e) = get_bfd_link_parameters-ok design after r m m' b h in
    rw (← eb) (
      Reads-to_flag (number_pointers m.next design.spec.interfaces) l true m m' (
        override-Reads (number_pointers m.next design.spec.interfaces) l (to_flag true m) m' apart (
          sym (
            ap (λ x. override (number_pointers m.next design.spec.interfaces) x (to_flag true m))
              set)
          ∙ e)))

-- What a link writes stays: after a call that returns, a link without settings, in the design as
-- the call leaves it, gets its parameters, and their numbers are those that the first link got.
pub get_bfd_link_parameters-leak :
    (design after : NetworkDesign) (r s : Link) (m m' : Memory) (b : BfdLinkParameters)
    → s.l.bfd ≡ none
    → get_bfd_link_parameters design r m ≡ ok (b, after, m')
    → (c : BfdLinkParameters) × (last : NetworkDesign) × (m'' : Memory) × (get_bfd_link_parameters
          after s m'
        ≡ ok (c, last, m''))
      × (numbers_of c m'' ≡ numbers_of b m')
unfolding get_bfd_link_parameters get_underlay_bfd_parameters set_underlay_enabled override
    number_pointers
get_bfd_link_parameters-leak design after r s m m' b unset h =
    let (eb, ea, e) = get_bfd_link_parameters-ok design after r m m' b h in
    rw (← eb, ← ea, unset)
      (
        number_pointers m'.next (interfaces_enabled_in m.next design.spec.interfaces),
        set_underlay_enabled m'.next (set_underlay_enabled m.next design),
        to_flag true m',
        refl,
        numbers_of-to_flag
              (number_pointers m'.next (interfaces_enabled_in m.next design.spec.interfaces)) true
              m'
            ∙ ap (λ x. numbers_of x m') (number_pointers-set m.next m'.next design.spec.interfaces),
      )
