-- ===== src/Link/Reading.antt =====
-- The values that `getBFDLinkParameters` (pkg/devbuilder/link.go) leaves behind its pointers, for
-- the link that it is called for and for a later link of the same design.
use kuidapps.Prelude.{
  ℕ, ◌≡◌, refl, sym, ap, ◌∙◌, ◌≢◌, Bool, true, false, Option, none, some, arith, nat_eq, is_some,
  get_or,
}
use kuidapps.Outcome.{Outcome, ok, err, panic, ◌>>=◌}
use kuidapps.Schema.{Pointer, BfdLinkParameters}
use kuidapps.Infra.{LinkBfd}
use kuidapps.Link.Memory.{Memory, write_flag, write_number, number_at}
use kuidapps.Link.Bfd.{override_number, override_flag, override}

-- Two pointers that are not both there or are not the same.
abbrev pub Apart : Option Pointer → Option Pointer → Type 0
Apart none q = Unit {0}
Apart (some p) none = Unit {0}
Apart (some p) (some q) = p ≢ q

-- The number pointers of a struct do not share a variable.
abbrev pub AreApart : BfdLinkParameters → Type 0
AreApart b =
    Apart b.min_echo_rx b.min_rx
    × Apart b.min_echo_rx b.min_tx
    × Apart b.min_echo_rx b.multiplier
    × Apart b.min_echo_rx b.ttl
    × Apart b.min_rx b.min_tx
    × Apart b.min_rx b.multiplier
    × Apart b.min_rx b.ttl
    × Apart b.min_tx b.multiplier
    × Apart b.min_tx b.ttl
    × Apart b.multiplier b.ttl

-- `v`, where it is set, and else `d`.
abbrev pub over {ℓ} : {A : Type ℓ} → Option A → Option A → Option A
over none d = d
over (some v) d = some v

-- A bind that returns, and what it returns from.
pub bind-ok :
    {A B : Type 0} (x : Outcome A) (f : A → Outcome B) (b : B)
    → (x >>= f) ≡ ok b
    → (a : A) × (x ≡ ok a) × (f a ≡ ok b)
bind-ok (ok a) f b h = (a, refl, h)
bind-ok (err e) f b h = ground (arith, h)
bind-ok panic f b h = ground (arith, h)

pub ok-injective : {A : Type 0} (a b : A) → ok a ≡ ok b → a ≡ b
ok-injective a b h = ap (λ x. elim x [ ok c ↦ c | _ ↦ a ]) h

nat_eq_refl : (p : Pointer) → nat_eq p p ≡ true
nat_eq_refl p = ground arith

nat_eq_apart : (p q : Pointer) → p ≢ q → nat_eq q p ≡ false
nat_eq_apart p q h = ground (arith, h)

written :
    (p q : Option Pointer) (v : ℕ) (m : Memory)
    → Apart p q
    → is_some p ≡ true
    → (number_at p (write_number (get_or p 0) v m) ≡ some v)
      × (number_at q (write_number (get_or p 0) v m) ≡ number_at q m)
unfolding write_number number_at
written none q v m h t = ground (arith, t)
written (some p) none v m h t = (rw (nat_eq_refl p) refl, refl)
written (some p) (some q) v m h t = (rw (nat_eq_refl p) refl, rw (nat_eq_apart p q h) refl)

override_number_self :
    (p : Option Pointer) (v : Option ℕ) (m m' : Memory)
    → override_number p v m ≡ ok m'
    → number_at p m' ≡ over v (number_at p m)
unfolding override_number
override_number_self p none m m' h = rw (ok-injective m m' h) refl
override_number_self none (some v) m m' h = ground (arith, h)
override_number_self (some p) (some v) m m' h =
    rw (← ok-injective (write_number p v m) m' h) (written (some p) none v m tt refl).0

override_number_other :
    (p q : Option Pointer) (v : Option ℕ) (m m' : Memory)
    → override_number p v m ≡ ok m'
    → Apart p q
    → number_at q m' ≡ number_at q m
unfolding override_number
override_number_other p q none m m' h apart = rw (ok-injective m m' h) refl
override_number_other none q (some v) m m' h apart = ground (arith, h)
override_number_other (some p) q (some v) m m' h apart =
    rw (← ok-injective (write_number p v m) m' h) (written (some p) q v m apart refl).1

pub override_flag-number_at :
    (p : Option Pointer) (v : Option Bool) (q : Option Pointer) (m m' : Memory)
    → override_flag p v m ≡ ok m'
    → number_at q m' ≡ number_at q m
unfolding override_flag write_flag number_at
override_flag-number_at p none q m m' h = rw (ok-injective m m' h) refl
override_flag-number_at none (some v) q m m' h = ground (arith, h)
override_flag-number_at (some p) (some v) none m m' h = refl
override_flag-number_at (some p) (some v) (some q) m m' h =
    rw (← ok-injective (write_flag p v m) m' h) refl

Apart-sym : (p q : Option Pointer) → Apart p q → Apart q p
Apart-sym none none h = tt
Apart-sym none (some q) h = tt
Apart-sym (some p) none h = tt
Apart-sym (some p) (some q) h = λ e. h (sym e)

-- The numbers that `m'` has for a struct are those of the link, and else those of `m`.
abbrev pub Reads : BfdLinkParameters → LinkBfd → Memory → Memory → Type 0
Reads b l m m' =
    (number_at b.min_echo_rx m' ≡ over l.min_echo_rx (number_at b.min_echo_rx m))
    × (number_at b.min_rx m' ≡ over l.min_rx (number_at b.min_rx m))
    × (number_at b.min_tx m' ≡ over l.min_tx (number_at b.min_tx m))
    × (number_at b.multiplier m' ≡ over l.multiplier (number_at b.multiplier m))
    × (number_at b.ttl m' ≡ over l.ttl (number_at b.ttl m))

pub override-Reads :
    (b : BfdLinkParameters) (l : LinkBfd) (m m' : Memory)
    → AreApart b
    → override b (some l) m ≡ ok m'
    → Reads b l m m'
unfolding override
override-Reads b l m m' (er, et, em, el, rt, rm, rl, tm, tl, ml) h =
    let (m5, h5, k6) = bind-ok _ (override_number b.ttl l.ttl) m' h in
    let (m4, h4, k5) = bind-ok _ (override_number b.multiplier l.multiplier) m5 h5 in
    let (m3, h3, k4) = bind-ok _ (override_number b.min_tx l.min_tx) m4 h4 in
    let (m2, h2, k3) = bind-ok _ (override_number b.min_rx l.min_rx) m3 h3 in
    let (m1, k1, k2) = bind-ok _ (override_number b.min_echo_rx l.min_echo_rx) m2 h2 in
    (
      override_number_other b.ttl b.min_echo_rx l.ttl m5 m' k6 (Apart-sym b.min_echo_rx b.ttl el)
          ∙ override_number_other b.multiplier b.min_echo_rx l.multiplier m4 m5 k5
              (Apart-sym b.min_echo_rx b.multiplier em)
          ∙ override_number_other b.min_tx b.min_echo_rx l.min_tx m3 m4 k4
              (Apart-sym b.min_echo_rx b.min_tx et)
          ∙ override_number_other b.min_rx b.min_echo_rx l.min_rx m2 m3 k3
              (Apart-sym b.min_echo_rx b.min_rx er)
          ∙ override_number_self b.min_echo_rx l.min_echo_rx m1 m2 k2
          ∙ ap (over l.min_echo_rx)
              (override_flag-number_at b.enabled l.enabled b.min_echo_rx m m1 k1),
      override_number_other b.ttl b.min_rx l.ttl m5 m' k6 (Apart-sym b.min_rx b.ttl rl)
          ∙ override_number_other b.multiplier b.min_rx l.multiplier m4 m5 k5
              (Apart-sym b.min_rx b.multiplier rm)
          ∙ override_number_other b.min_tx b.min_rx l.min_tx m3 m4 k4
              (Apart-sym b.min_rx b.min_tx rt)
          ∙ override_number_self b.min_rx l.min_rx m2 m3 k3
          ∙ ap (over l.min_rx) (
              override_number_other b.min_echo_rx b.min_rx l.min_echo_rx m1 m2 k2 (er)
              ∙ override_flag-number_at b.enabled l.enabled b.min_rx m m1 k1),
      override_number_other b.ttl b.min_tx l.ttl m5 m' k6 (Apart-sym b.min_tx b.ttl tl)
          ∙ override_number_other b.multiplier b.min_tx l.multiplier m4 m5 k5
              (Apart-sym b.min_tx b.multiplier tm)
          ∙ override_number_self b.min_tx l.min_tx m3 m4 k4
          ∙ ap (over l.min_tx) (
              override_number_other b.min_rx b.min_tx l.min_rx m2 m3 k3 (rt)
              ∙ override_number_other b.min_echo_rx b.min_tx l.min_echo_rx m1 m2 k2 (et)
              ∙ override_flag-number_at b.enabled l.enabled b.min_tx m m1 k1),
      override_number_other b.ttl b.multiplier l.ttl m5 m' k6 (Apart-sym b.multiplier b.ttl ml)
          ∙ override_number_self b.multiplier l.multiplier m4 m5 k5
          ∙ ap (over l.multiplier) (
              override_number_other b.min_tx b.multiplier l.min_tx m3 m4 k4 (tm)
              ∙ override_number_other b.min_rx b.multiplier l.min_rx m2 m3 k3 (rm)
              ∙ override_number_other b.min_echo_rx b.multiplier l.min_echo_rx m1 m2 k2 (em)
              ∙ override_flag-number_at b.enabled l.enabled b.multiplier m m1 k1),
      override_number_self b.ttl l.ttl m5 m' k6
          ∙ ap (over l.ttl) (
              override_number_other b.multiplier b.ttl l.multiplier m4 m5 k5 (ml)
              ∙ override_number_other b.min_tx b.ttl l.min_tx m3 m4 k4 (tl)
              ∙ override_number_other b.min_rx b.ttl l.min_rx m2 m3 k3 (rl)
              ∙ override_number_other b.min_echo_rx b.ttl l.min_echo_rx m1 m2 k2 (el)
              ∙ override_flag-number_at b.enabled l.enabled b.ttl m m1 k1),
    )
