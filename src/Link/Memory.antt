-- ===== src/Link/Memory.antt =====
-- The variables behind the pointers of a BFD struct: a copy of the struct shares them with the
-- original (kuid's `BFDLinkParameters`, as pkg/devbuilder/link.go writes through it).
use kuidapps.Prelude.{ℕ, suc, Bool, Option, none, some, if◌then◌else◌, nat_eq}
use kuidapps.Schema.{Pointer}

-- A pointer of the first kind points to a Boolean, of the second to a number; `next` is an
-- address that no pointer has yet.
pub record Memory : Type 0 where
  pub next : Pointer
  pub flags : Pointer → Bool
  pub numbers : Pointer → ℕ

-- `*p = v`
unfoldable pub write_flag : Pointer → Bool → Memory → Memory
write_flag p v m = record m { flags = λ q. if nat_eq q p then v else m.flags q }

unfoldable pub write_number : Pointer → ℕ → Memory → Memory
write_number p v m = record m { numbers = λ q. if nat_eq q p then v else m.numbers q }

-- `ptr.To[bool](v)`: the new pointer is the old `next`.
unfoldable pub to_flag : Bool → Memory → Memory
to_flag v m = record m { next = suc m.next; flags = λ q. if nat_eq q m.next then v else m.flags q }

-- `*p`, where `p` is not nil.
unfoldable pub number_at : Option Pointer → Memory → Option ℕ
number_at none m = none
number_at (some p) m = some (m.numbers p)

unfoldable pub flag_at : Option Pointer → Memory → Option Bool
flag_at none m = none
flag_at (some p) m = some (m.flags p)
