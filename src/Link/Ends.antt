-- ===== src/Link/Ends.antt =====
-- The two ends of a link (pkg/devbuilder/link.go): slices of length 2, which the methods index
-- after a test, and the subinterface that an end is configured with.
use Prim.Native.Nat.{bit_xor}
use kuidapps.Prelude.{
  ℕ, zero, suc, String, Bool, true, false, Option, none, some, [], ◌∷◌, if◌then◌else◌, ltb,
}
use kuidapps.Text.{◌⧺◌}
use kuidapps.Schema.{SubInterfaceAddresses, SubInterface}
use kuidapps.Design.Spec.{NetworkDesign}
use kuidapps.Design.Getters.{
  is_underlay_ipv4_numbered, is_underlay_ipv4_unnumbered, is_underlay_ipv6_numbered,
  is_underlay_ipv6_unnumbered, is_ebgp_bfd_enabled,
}
use kuidapps.Infra.{InfraLink}

-- `make([]A, 2)`
pub record Two (A : Type 0) : Type 0 where
  pub first : A
  pub second : A

-- `s[idx]` and `s[idx] = a`, below the length.
abbrev pub cell : {A : Type 0} → ℕ → Two A → A
cell zero s = s.first
cell (suc _) s = s.second

abbrev pub set_cell : {A : Type 0} → ℕ → A → Two A → Two A
set_cell zero a s = record s { first = a }
set_cell (suc _) a s = record s { second = a }

abbrev pub both : {A : Type 0} → A → Two A
both a = record { first = a; second = a }

pub record Link : Type 0 where
  pub l : InfraLink
  pub node_name : Two String
  pub ep_name : Two String
  pub as_number : Two ℕ
  pub ipv4 : Two String
  pub ipv6 : Two String

unfoldable pub new_link : InfraLink → Link
new_link l = record {
  l = l;
  node_name = both "";
  ep_name = both "";
  as_number = both 0;
  ipv4 = both "";
  ipv6 = both "";
}

unfoldable pub get_node_name : ℕ → Link → String
get_node_name idx r = if ltb 1 idx then "" else cell idx r.node_name

unfoldable pub add_node_name : ℕ → String → Link → Link
add_node_name idx node r =
    if ltb 1 idx then r else record r { node_name = set_cell idx node r.node_name }

unfoldable pub get_ep_name : ℕ → Link → String
get_ep_name idx r = if ltb 1 idx then "" else cell idx r.ep_name

unfoldable pub add_ep_name : ℕ → String → Link → Link
add_ep_name idx name r = if ltb 1 idx then r else record r { ep_name = set_cell idx name r.ep_name }

unfoldable pub get_as : ℕ → Link → ℕ
get_as idx r = if ltb 1 idx then 0 else cell idx r.as_number

unfoldable pub add_as : ℕ → ℕ → Link → Link
add_as idx n r = if ltb 1 idx then r else record r { as_number = set_cell idx n r.as_number }

unfoldable pub get_ipv4 : ℕ → Link → String
get_ipv4 idx r = if ltb 1 idx then "" else cell idx r.ipv4

unfoldable pub add_ipv4 : ℕ → String → Link → Link
add_ipv4 idx ip r = if ltb 1 idx then r else record r { ipv4 = set_cell idx ip r.ipv4 }

unfoldable pub get_ipv6 : ℕ → Link → String
get_ipv6 idx r = if ltb 1 idx then "" else cell idx r.ipv6

unfoldable pub add_ipv6 : ℕ → String → Link → Link
add_ipv6 idx ip r = if ltb 1 idx then r else record r { ipv6 = set_cell idx ip r.ipv6 }

-- `idx ^ 1`
abbrev pub other_end : ℕ → ℕ
other_end idx = bit_xor idx 1

-- The addresses of one family: a numbered underlay first, then the unnumbered test.
abbrev family_addresses : Bool → Bool → String → Option SubInterfaceAddresses
family_addresses numbered unnumbered ip =
    let first : Option SubInterfaceAddresses =
      if numbered then some (record { addresses = ip ∷ [] }) else none in
    if unnumbered then some (record { addresses = [] }) else first

unfoldable pub get_underlay_sub_interface : ℕ → NetworkDesign → ℕ → Link → SubInterface
unfolding get_node_name get_ep_name get_ipv4 get_ipv6
get_underlay_sub_interface idx design id r =
    let j = other_end idx in
    record {
      peer_name = get_node_name j r ⧺ "." ⧺ get_ep_name j r;
      id = id;
      kind = "routed";
      vlan = none;
      ipv4 =
          family_addresses (is_underlay_ipv4_numbered design) (is_underlay_ipv4_unnumbered design)
            (get_ipv4 idx r);
      ipv6 =
          family_addresses (is_underlay_ipv6_numbered design) (is_underlay_ipv6_unnumbered design)
            (get_ipv6 idx r);
    }

-- `x != nil && x.F != nil`, `*x.F` and the value without it.
abbrev pub setting : {A B : Type 0} → Option A → (A → Option B) → B → B
setting none f d = d
setting (some x) f d = elim (f x) [ none ↦ d | some b ↦ b ]

unfoldable pub get_bgp_bfd : NetworkDesign → Link → Bool
get_bgp_bfd design r =
    if is_ebgp_bfd_enabled design then setting r.l.bgp (λ x. x.bfd) true else false
