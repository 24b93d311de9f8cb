-- ===== src/Tests/Lease.antt =====
-- Two callers: the first takes the lease, the second is refused at first and takes it later.
use kuidapps.Prelude.{
  nat_eq, nat_eq_iff, arith, ℕ, zero, suc, String, ◌≡◌, refl, List, [], ◌∷◌, some,
}
use kuidapps.Lease.Protocol.{
  ApiServer, IsVersioned, Event, get, create, update, new_world, get_lease, may_take, occur,
  occur_all, acquire_lease,
}
use kuidapps.Lease.Exclusion
use kuidapps.Lease.Exclusion.{AreSpaced}

abbrev holder : ℕ → String
holder zero = "network/a"
holder (suc c) = "network/b"

-- Versions count up, and an update has to name the version that is there.
abbrev pub server : ApiServer
server = record { first_version = 0; next_version = suc; accepts = nat_eq }

pub versioned : IsVersioned server
versioned = record { newer = λ v. ground arith; unchanged = λ a b. (nat_eq_iff a b).0 }

abbrev events : List Event
events =
    get 0
    ∷ get 1
    ∷ create 0 1000
    ∷ create 1 1100
    ∷ get 0
    ∷ get 1
    ∷ update 1 1200
    ∷ update 0 1300
    ∷ get 1
    ∷ update 1 2000000
    ∷ []

occur_all-AreSpaced_example : AreSpaced (occur_all server holder events new_world).granted
occur_all-AreSpaced_example = Exclusion.occur_all-AreSpaced server versioned holder events

acquire_lease-get_lease_example :
    (v : ℕ) × ((acquire_lease server holder 1 5 7 new_world).1.server
      ≡ some (get_lease "network/b" 7 v))
unfolding acquire_lease occur may_take get_lease
acquire_lease-get_lease_example =
    Exclusion.acquire_lease-get_lease server holder 1 5 7 new_world refl
