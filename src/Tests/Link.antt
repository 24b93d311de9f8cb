-- ===== src/Tests/Link.antt =====
-- Two links of a design with BFD numbers: the first sets one of them, the second sets none.
use kuidapps.Prelude.{◌≡◌, refl, true, false, none, some, [], arith}
use kuidapps.Outcome.{ok}
use kuidapps.Schema.{BfdLinkParameters}
use kuidapps.Design.Spec.{NetworkDesign, addressing_dual_stack}
use kuidapps.Design.Getters.{get_underlay_bfd_parameters}
use kuidapps.Infra.{LinkBfd}
use kuidapps.Link.Ends.{Link, new_link}
use kuidapps.Link.Memory.{Memory, write_number, to_flag}
use kuidapps.Link.Bfd.{get_bfd_link_parameters, override}
use kuidapps.Link.Sharing
use kuidapps.Link.Sharing.{returns, all_covered}
use kuidapps.Link.Reading.{Reads, AreApart}
use kuidapps.Link.Effect
use kuidapps.Link.Effect.{numbers_of}

-- The design sets `min_rx` (variable 1) and `min_tx` (variable 2).
abbrev design : NetworkDesign
design = record {
  name = "default";
  namespace = "default";
  spec = record {
    topology = "topo";
    interfaces = some (record {
      loopback = none;
      underlay = some (record {
        prefixes = [];
        addressing = addressing_dual_stack;
        vlan_tagging = false;
        bfd = some (record {
          enabled = none;
          min_echo_rx = none;
          min_rx = some 1;
          min_tx = some 2;
          multiplier = none;
          ttl = none;
        });
      });
    });
    protocols = none;
    encapsultation = none;
  };
}

abbrev start : Memory
start = record { next = 3; flags = λ p. false; numbers = λ p. 100 }

abbrev settings : LinkBfd
settings = record {
  enabled = none;
  min_echo_rx = none;
  min_rx = some 300;
  min_tx = none;
  multiplier = none;
  ttl = none;
}

abbrev slow : Link
unfolding new_link
slow = new_link (record {
  labels = [];
  endpoints = [];
  bfd = some settings;
  ospf = none;
  isis = none;
  bgp = none;
})

abbrev plain : Link
unfolding new_link
plain =
    new_link
      (record { labels = []; endpoints = []; bfd = none; ospf = none; isis = none; bgp = none })

abbrev parameters : BfdLinkParameters
parameters = record {
  enabled = some 3;
  min_echo_rx = none;
  min_rx = some 1;
  min_tx = some 2;
  multiplier = none;
  ttl = none;
}

abbrev left_memory : Memory
unfolding write_number to_flag
left_memory = write_number 1 300 (to_flag true start)

abbrev left_design : NetworkDesign
left_design = record design {
  spec = record (design.spec) {
    interfaces = some (record {
      loopback = none;
      underlay = some (record {
        prefixes = [];
        addressing = addressing_dual_stack;
        vlan_tagging = false;
        bfd = some parameters;
      });
    });
  };
}

slow_run : get_bfd_link_parameters design slow start ≡ ok (parameters, left_design, left_memory)
unfolding get_bfd_link_parameters override get_underlay_bfd_parameters
    kuidapps.Link.Bfd.set_underlay_enabled slow new_link left_memory
slow_run = refl

returns-get_bfd_link_parameters_example :
    returns (get_bfd_link_parameters design slow start)
    ≡ all_covered (get_underlay_bfd_parameters design) slow.l.bfd
returns-get_bfd_link_parameters_example = Sharing.returns-get_bfd_link_parameters design slow start

abbrev apart : AreApart (get_underlay_bfd_parameters design)
unfolding get_underlay_bfd_parameters
apart = (tt, tt, tt, tt, λ e. ground (arith, e), tt, tt, tt, tt, tt)

get_bfd_link_parameters-Reads_example : Reads parameters settings start left_memory
unfolding slow new_link
get_bfd_link_parameters-Reads_example =
    Effect.get_bfd_link_parameters-Reads design left_design slow settings start left_memory
      parameters refl apart slow_run

get_bfd_link_parameters-leak_example :
    (c : BfdLinkParameters) × (last : NetworkDesign) × (m : Memory) × (get_bfd_link_parameters
        left_design plain left_memory
      ≡ ok (c, last, m))
    × (numbers_of c m ≡ numbers_of parameters left_memory)
unfolding plain new_link
get_bfd_link_parameters-leak_example =
    Effect.get_bfd_link_parameters-leak design left_design slow plain start left_memory parameters
      refl slow_run
