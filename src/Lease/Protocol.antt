-- ===== src/Lease/Protocol.antt =====
-- `AcquireLease` of pkg/reconcilers/lease/lease.go, and the API server that the callers share. The
-- server refuses a creation where the object is there. Times are microseconds.
use text.Mathlib.Text.{◌==◌ as str_eq}
use kuidapps.Prelude.{
  ℕ, ◌+◌, ◌*◌, ◌<◌, ◌≡◌, String, Bool, true, false, Option, none, some, List, [], ◌∷◌, ltb, nat_eq,
  if◌then◌else◌,
}
use kuidapps.Outcome.{
  Outcome, ok, err, deref, ◌>>=◌, lease_without_holder, lease_held, lease_changed,
}

-- `version` is the resource version.
pub record Lease : Type 0 where
  pub holder : Option String
  pub duration : Option ℕ
  pub renew_time : Option ℕ
  pub version : ℕ

-- `getLease`, and the specification that a lease is updated with. The acquire time is the renew
-- time.
unfoldable pub get_lease : String → ℕ → ℕ → Lease
get_lease holder now version = record {
  holder = some holder;
  duration = some 1;
  renew_time = some now;
  version = version;
}

-- May `holder` take the lease that was read? A lease of another holder is free when its time has
-- run out, or if it has none.
unfoldable pub may_take : String → ℕ → Lease → Outcome (Unit {0})
may_take holder now l = elim l.holder [
  | none ↦ err lease_without_holder
  | some h ↦ if str_eq h holder then ok tt else elim l.renew_time [
    | none ↦ ok tt
    | some t ↦ deref l.duration >>= λ d. if ltb (t + d * 1000000) now then ok tt else err lease_held
  ]
]

-- What the callers share: the lease, what each caller has read last, and who was given the lease
-- and when, the latest first.
pub record World : Type 0 where
  pub server : Option Lease
  pub read : ℕ → Option Lease
  pub granted : List (String × ℕ)

abbrev pub new_world : World
new_world = record { server = none; read = λ c. none; granted = [] }

abbrev pub remember : ℕ → Option Lease → (ℕ → Option Lease) → ℕ → Option Lease
remember c o f k = if nat_eq k c then o else f k

abbrev pub grant : String → ℕ → ℕ → World → World
grant holder now version w = record w {
  server = some (get_lease holder now version);
  granted = (holder, now) ∷ w.granted;
}

abbrev pub is_ok : Outcome (Unit {0}) → Bool
is_ok (ok a) = true
is_ok _ = false

-- How the API server gives versions, and whether it accepts an update, by the version that was
-- read and the version that it has.
pub record ApiServer : Type 0 where
  pub first_version : ℕ
  pub next_version : ℕ → ℕ
  pub accepts : ℕ → ℕ → Bool

-- Kubernetes' optimistic concurrency: versions grow, and an update of an object that has changed
-- since it was read is refused.
pub record IsVersioned (api : ApiServer) : Type 0 where
  pub newer : (v : ℕ) → v < api.next_version v
  pub unchanged : (a b : ℕ) → api.accepts a b ≡ true → a ≡ b

abbrev pub accepted : ApiServer → Lease → Option Lease → Bool
accepted api l none = false
accepted api l (some s) = api.accepts l.version s.version

-- The update of a lease that was read.
abbrev pub put_lease : ApiServer → String → ℕ → Lease → Option Lease → World → World
put_lease api holder now l none w = w
put_lease api holder now l (some s) w =
    if api.accepts l.version s.version then grant holder now (api.next_version s.version) w else w

-- The creation of a lease, where there is none.
abbrev pub post_lease : ApiServer → String → ℕ → Option Lease → World → World
post_lease api holder now none w = grant holder now api.first_version w
post_lease api holder now (some s) w = w

abbrev pub try_update : ApiServer → String → ℕ → Option Lease → World → World
try_update api holder now none w = w
try_update api holder now (some l) w =
    if is_ok (may_take holder now l) then put_lease api holder now l w.server w else w

-- The calls of the API server that a run of `AcquireLease` makes, of a caller and at its time.
pub data Event : Type 0 where
  get : ℕ → Event
  create : ℕ → ℕ → Event
  update : ℕ → ℕ → Event

module _ (api : ApiServer) (holder : ℕ → String) where
  unfoldable pub occur : Event → World → World
  unfolding get_lease may_take
  occur (get c) w = record w { read = remember c w.server w.read }
  occur (create c now) w = post_lease api (holder c) now w.server w
  occur (update c now) w = try_update api (holder c) now (w.read c) w

  unfoldable pub occur_all : List Event → World → World
  unfolding occur
  occur_all [] w = w
  occur_all (e ∷ es) w = occur_all es (occur e w)

  -- The update at the end of a run, and what the run returns, by what was read.
  abbrev pub take : ℕ → ℕ → Option Lease → World → Outcome (Unit {0}) × World
  take c now none w = (err lease_without_holder, w)
  take c now (some l) w = (
    may_take (holder c) now l
        >>= (λ _. if accepted api l w.server then ok tt else err lease_changed),
    occur (update c now) w,
  )

  -- A run of `AcquireLease` that no other caller interrupts: it looks for the lease, creates it if
  -- it is not there, reads it and updates it.
  unfoldable pub acquire_lease : ℕ → ℕ → ℕ → World → Outcome (Unit {0}) × World
  unfolding occur may_take
  acquire_lease c created now w =
      let found = occur (get c) w in
      let there = occur (create c created) found in
      let again = occur (get c) there in take c now (again.read c) again
