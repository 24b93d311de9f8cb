-- ===== src/Link/Bfd.antt =====
-- `getBFDLinkParameters` of pkg/devbuilder/link.go. It works on the design's own struct, where
-- the design has one, and writes the link's settings through the pointers of that struct.
use kuidapps.Prelude.{ℕ, Bool, true, Option, none, some}
use kuidapps.Outcome.{Outcome, ok, deref, ◌>>=◌}
use kuidapps.Schema.{Pointer, BfdLinkParameters}
use kuidapps.Design.Spec.{NetworkDesign, DesignInterfaces, Underlay}
use kuidapps.Design.Getters.{get_underlay_bfd_parameters}
use kuidapps.Infra.{LinkBfd}
use kuidapps.Link.Ends.{Link}
use kuidapps.Link.Memory.{Memory, write_flag, write_number, to_flag}

-- `bfdParams.Enabled = …`, seen by the design where it owns the struct.
abbrev pub enabled_in : Pointer → Option BfdLinkParameters → Option BfdLinkParameters
enabled_in p none = none
enabled_in p (some b) = some (record b { enabled = some p })

abbrev pub underlay_enabled_in : Pointer → Option Underlay → Option Underlay
underlay_enabled_in p none = none
underlay_enabled_in p (some u) = some (record u { bfd = enabled_in p u.bfd })

abbrev pub interfaces_enabled_in : Pointer → Option DesignInterfaces → Option DesignInterfaces
interfaces_enabled_in p none = none
interfaces_enabled_in p (some i) = some (record i { underlay = underlay_enabled_in p i.underlay })

unfoldable pub set_underlay_enabled : Pointer → NetworkDesign → NetworkDesign
set_underlay_enabled p r = record r {
  spec = record (r.spec) { interfaces = interfaces_enabled_in p r.spec.interfaces };
}

-- `if v != nil { *p = *v }`
unfoldable pub override_number : Option Pointer → Option ℕ → Memory → Outcome Memory
unfolding write_number
override_number p none m = ok m
override_number p (some v) m = deref p >>= λ q. ok (write_number q v m)

unfoldable pub override_flag : Option Pointer → Option Bool → Memory → Outcome Memory
unfolding write_flag
override_flag p none m = ok m
override_flag p (some v) m = deref p >>= λ q. ok (write_flag q v m)

-- The link's settings, written through the struct in the order of the source.
unfoldable pub override : BfdLinkParameters → Option LinkBfd → Memory → Outcome Memory
unfolding override_flag override_number
override b none m = ok m
override b (some l) m =
    override_flag b.enabled l.enabled m
    >>= override_number b.min_echo_rx l.min_echo_rx
    >>= override_number b.min_rx l.min_rx
    >>= override_number b.min_tx l.min_tx
    >>= override_number b.multiplier l.multiplier
    >>= override_number b.ttl l.ttl

-- The struct, the design as it is left, and the memory.
unfoldable pub get_bfd_link_parameters :
    NetworkDesign → Link → Memory → Outcome (BfdLinkParameters × NetworkDesign × Memory)
unfolding override to_flag set_underlay_enabled
get_bfd_link_parameters design r m =
    let b = record (get_underlay_bfd_parameters design) { enabled = some m.next } in
    override b r.l.bfd (to_flag true m) >>= λ m'. ok (b, set_underlay_enabled m.next design, m')
