-- ===== src/Link/Sharing.antt =====
-- What `getBFDLinkParameters` (pkg/devbuilder/link.go) returns, and what it leaves behind in the
-- struct of the design.
use kuidapps.Prelude.{ℕ, ◌≡◌, refl, ◌∙◌, Bool, true, false, ◌&&◌, Option, none, some, arith}
use kuidapps.Outcome.{Outcome, ok, err, panic, ◌>>=◌}
use kuidapps.Schema.{Pointer, BfdLinkParameters}
use kuidapps.Design.Spec.{NetworkDesign}
use kuidapps.Design.Getters.{get_underlay_bfd_parameters}
use kuidapps.Infra.{LinkBfd}
use kuidapps.Link.Ends.{Link}
use kuidapps.Link.Memory.{Memory, to_flag}
use kuidapps.Link.Bfd.{override_number, override_flag, override, get_bfd_link_parameters}

-- A setting of the link for a number that the design has too.
abbrev pub covered : Option Pointer → Option ℕ → Bool
covered p none = true
covered none (some v) = false
covered (some p) (some v) = true

abbrev pub all_covered : BfdLinkParameters → Option LinkBfd → Bool
all_covered b none = true
all_covered b (some l) =
    covered b.min_echo_rx l.min_echo_rx
    && covered b.min_rx l.min_rx
    && covered b.min_tx l.min_tx
    && covered b.multiplier l.multiplier
    && covered b.ttl l.ttl

abbrev pub returns {ℓ} : {A : Type ℓ} → Outcome A → Bool
returns (ok a) = true
returns (err e) = false
returns panic = false

returns-override_number :
    (p : Option Pointer) (v : Option ℕ) (b : Bool) (x : Outcome Memory)
    → returns x ≡ b
    → returns (x >>= override_number p v) ≡ (b && covered p v)
unfolding override_number
returns-override_number p none b (ok m) h = ground arith
returns-override_number none (some v) b (ok m) h = ground arith
returns-override_number (some p) (some v) b (ok m) h = ground arith
returns-override_number p v b (err e) h = ground arith
returns-override_number p v b panic h = ground arith

returns-override_flag :
    (p : Pointer) (v : Option Bool) (m : Memory) → returns (override_flag (some p) v m) ≡ true
unfolding override_flag
returns-override_flag p none m = refl
returns-override_flag p (some v) m = refl

returns-bind :
    {A B : Type 0} (x : Outcome A) (f : A → B) → returns (x >>= λ a. ok (f a)) ≡ returns x
returns-bind (ok a) f = refl
returns-bind (err e) f = refl
returns-bind panic f = refl

returns-override :
    (b : BfdLinkParameters) (p : Pointer) (l : Option LinkBfd) (m : Memory)
    → returns (override (record b { enabled = some p }) l m) ≡ all_covered b l
unfolding override
returns-override b p none m = refl
returns-override b p (some l) m = returns-override_number b.ttl l.ttl _ _ (
    returns-override_number b.multiplier l.multiplier _ _ (
      returns-override_number b.min_tx l.min_tx _ _ (
        returns-override_number b.min_rx l.min_rx _ _ (
          returns-override_number b.min_echo_rx l.min_echo_rx _ _
            (returns-override_flag p l.enabled m)))))

-- The parameters of a link are returned just where the design has each number that the link
-- sets.
pub returns-get_bfd_link_parameters :
    (design : NetworkDesign) (r : Link) (m : Memory)
    → returns (get_bfd_link_parameters design r m)
      ≡ all_covered (get_underlay_bfd_parameters design) r.l.bfd
unfolding get_bfd_link_parameters
returns-get_bfd_link_parameters design r m =
    returns-bind
      (override (record (get_underlay_bfd_parameters design) { enabled = some m.next }) r.l.bfd
        (to_flag true m))
      _
    ∙ returns-override (get_underlay_bfd_parameters design) m.next r.l.bfd (to_flag true m)
