-- ===== src/Lease/Exclusion.antt =====
-- The grants of a lease (pkg/reconcilers/lease/lease.go) to different holders, in whatever order
-- the callers get, create and update it.
use text.Mathlib.Text.{◌==◌ as str_eq}
use kuidapps.Prelude.{
  Bool, if◌then◌else◌, ℕ, ◌+◌, ◌≤◌, ◌<◌, String, ◌≡◌, refl, true, false, Option, none, some, List,
  [], ◌∷◌, sym, arith, nat_eq_iff, Bool-cases, inl, inr, nat_eq,
}
use mathlib.Core.Path.{subst}
use kuidapps.Outcome.{Outcome, ok, err, panic, ◌>>=◌, lease_changed}
use kuidapps.Lease.Protocol.{
  ApiServer, IsVersioned, accepted, Lease, World, Event, post_lease, get, create, update, new_world,
  get_lease, may_take, put_lease, try_update, is_ok, remember, grant, occur, occur_all, take,
  acquire_lease,
}

-- A grant to another holder comes more than a second after the one before it.
abbrev pub Apart : String × ℕ → List (String × ℕ) → Type 0
Apart e [] = Unit {0}
Apart e (f ∷ l) = str_eq f.0 e.0 ≡ false → f.1 + 1000000 < e.1

abbrev pub AreSpaced : List (String × ℕ) → Type 0
AreSpaced [] = Unit {0}
AreSpaced (e ∷ l) = Apart e l × AreSpaced l

-- The lease on the server is the last that was granted.
abbrev Latest : Option Lease → List (String × ℕ) → Type 0
Latest none l = l ≡ []
Latest (some s) [] = ⊥
Latest (some s) (e ∷ l) = s ≡ get_lease e.0 e.1 s.version

-- What was read is not newer than the server's lease, and is that lease in the same version.
abbrev Known : Option Lease → Option Lease → Type 0
Known none o = Unit {0}
Known (some l) none = ⊥
Known (some l) (some s) = (l.version ≤ s.version) × (l.version ≡ s.version → l ≡ s)

record IsConsistent (w : World) : Type 0 where
  latest : Latest w.server w.granted
  known : (c : ℕ) → Known (w.read c) w.server
  spaced : AreSpaced w.granted

may_take-get_lease :
    (other holder : String) (t now v : ℕ)
    → is_ok (may_take holder now (get_lease other t v)) ≡ true
    → str_eq other holder ≡ false
    → t + 1000000 < now
unfolding may_take get_lease
may_take-get_lease other holder t now v h differ = ground (arith, h, differ)

may_take-Apart :
    (holder : String) (now : ℕ) (s : Lease) (l : List (String × ℕ))
    → Latest (some s) l
    → is_ok (may_take holder now s) ≡ true
    → Apart (holder, now) l
may_take-Apart holder now s [] last h = tt
may_take-Apart holder now s (e ∷ l) last h = λ differ.
    may_take-get_lease e.0 holder e.1 now s.version
      (subst (λ x. is_ok (may_take holder now x) ≡ true) last h) differ

grant-IsConsistent :
    (holder : String) (now v : ℕ) (w : World)
    → ((c : ℕ) → Known (w.read c) (some (get_lease holder now v)))
    → Apart (holder, now) w.granted
    → IsConsistent w
    → IsConsistent (grant holder now v w)
unfolding get_lease
grant-IsConsistent holder now v w known apart i = record {
  latest = refl;
  known = known;
  spaced = (apart, i.spaced);
}

-- A newer version of the server's lease keeps what was read in order.
Known-newer :
    (o : Option Lease) (s : Lease) (holder : String) (now v : ℕ)
    → s.version < v
    → Known o (some s)
    → Known o (some (get_lease holder now v))
unfolding get_lease
Known-newer none s holder now v newer h = tt
Known-newer (some l) s holder now v newer (le, same) =
    (ground (arith, le, newer), λ e. ground (arith, le, newer, e))

Known-self : (o : Option Lease) → Known o o
Known-self none = tt
Known-self (some s) = (ground arith, λ e. refl)

Known-none : (o : Option Lease) (s : Lease) → Known o none → Known o (some s)
Known-none none s h = tt
Known-none (some l) s h = ground (arith, h)

get-Known : (c k : ℕ) (w : World) → IsConsistent w → Known (remember c w.server w.read k) w.server
get-Known c k w i = elim (Bool-cases (nat_eq k c)) [
  | inl same ↦ rw same (Known-self w.server)
  | inr other ↦ rw other (i.known k)
]

put_lease-same :
    (api : ApiServer) (holder : String) (now : ℕ) (l : Lease) (o : Option Lease) (w : World)
    → o ≡ some l
    → accepted api l o ≡ true
    → (put_lease api holder now l o w).server
      ≡ some (get_lease holder now (api.next_version l.version))
put_lease-same api holder now l o w e allowed =
    subst
      (λ x.
        (put_lease api holder now l x w).server
        ≡ some (get_lease holder now (api.next_version l.version)))
      (sym e) (rw (subst (λ x. accepted api l x ≡ true) e allowed) refl)

try_update-same :
    (api : ApiServer) (holder : String) (now : ℕ) (l : Lease) (o : Option Lease) (w : World)
    → o ≡ some l
    → w.server ≡ some l
    → is_ok (may_take holder now l) ≡ true
    → accepted api l w.server ≡ true
    → (try_update api holder now o w).server
      ≡ some (get_lease holder now (api.next_version l.version))
try_update-same api holder now l o w e at free allowed =
    subst
      (λ x.
        (try_update api holder now x w).server
        ≡ some (get_lease holder now (api.next_version l.version)))
      (sym e) (rw free (put_lease-same api holder now l w.server w at allowed))

is_ok-both :
    (o : Outcome (Unit {0})) (b : Bool)
    → is_ok (o >>= λ _. if b then ok tt else err lease_changed) ≡ true
    → (is_ok o ≡ true) × (b ≡ true)
is_ok-both (ok a) true h = (refl, refl)
is_ok-both (ok a) false h = ground (arith, h)
is_ok-both (err e) b h = ground (arith, h)
is_ok-both panic b h = ground (arith, h)

module _ (api : ApiServer) (versioned : IsVersioned api) where
  put_lease-IsConsistent :
      (holder : String) (now : ℕ) (l : Lease) (o : Option Lease) (w : World)
      → w.server ≡ o
      → Known (some l) o
      → is_ok (may_take holder now l) ≡ true
      → IsConsistent w
      → IsConsistent (put_lease api holder now l o w)
  put_lease-IsConsistent holder now l none w at known free i = ground (arith, known)
  put_lease-IsConsistent holder now l (some s) w at known free i =
      elim (Bool-cases (api.accepts l.version s.version)) [
        | inr changed ↦ rw changed i
        | inl same ↦ rw same (
            grant-IsConsistent holder now (api.next_version s.version) w
              (λ c.
                Known-newer (w.read c) s holder now (api.next_version s.version)
                  (versioned.newer s.version) (subst (λ x. Known (w.read c) x) at (i.known c)))
              (may_take-Apart holder now l w.granted
                (subst (λ x. Latest (some x) w.granted)
                  (sym (known.1 (versioned.unchanged l.version s.version same)))
                  (subst (λ x. Latest x w.granted) at i.latest))
                free)
              i)
      ]

  try_update-IsConsistent :
      (holder : String) (now : ℕ) (o : Option Lease) (w : World)
      → Known o w.server
      → IsConsistent w
      → IsConsistent (try_update api holder now o w)
  try_update-IsConsistent holder now none w known i = i
  try_update-IsConsistent holder now (some l) w known i =
      elim (Bool-cases (is_ok (may_take holder now l))) [
        | inr refused ↦ rw refused i
        | inl free ↦ rw free (put_lease-IsConsistent holder now l w.server w refl known free i)
      ]

  post_lease-IsConsistent :
      (holder : String) (now : ℕ) (o : Option Lease) (w : World)
      → w.server ≡ o
      → IsConsistent w
      → IsConsistent (post_lease api holder now o w)
  post_lease-IsConsistent holder now (some s) w at i = i
  post_lease-IsConsistent holder now none w at i =
      grant-IsConsistent holder now api.first_version w
        (λ c.
          Known-none (w.read c) (get_lease holder now api.first_version)
            (subst (λ x. Known (w.read c) x) at (i.known c)))
        (subst (λ l. Apart (holder, now) l) (sym (subst (λ x. Latest x w.granted) at i.latest)) tt)
        i

  module _ (holder : ℕ → String) where
    occur-IsConsistent :
        (e : Event) (w : World) → IsConsistent w → IsConsistent (occur api holder e w)
    unfolding occur
    occur-IsConsistent (get c) w i = record {
      latest = i.latest;
      known = λ k. get-Known c k w i;
      spaced = i.spaced;
    }
    occur-IsConsistent (create c now) w i = post_lease-IsConsistent (holder c) now w.server w refl i
    occur-IsConsistent (update c now) w i =
        try_update-IsConsistent (holder c) now (w.read c) w (i.known c) i

    occur_all-IsConsistent :
        (es : List Event) (w : World) → IsConsistent w → IsConsistent (occur_all api holder es w)
    unfolding occur_all
    occur_all-IsConsistent [] w i = i
    occur_all-IsConsistent (e ∷ es) w i =
        occur_all-IsConsistent es (occur api holder e w) (occur-IsConsistent e w i)

    -- On an API server whose versions grow and that refuses an update of an object that has
    -- changed since it was read, where there was no lease at first: whatever the callers get,
    -- create and update in whatever order and at whatever times, each grant of the lease to a
    -- holder other than the one before comes later than a second after the time of that one.
    pub occur_all-AreSpaced :
        (es : List Event) → AreSpaced (occur_all api holder es new_world).granted
    occur_all-AreSpaced es =
        (occur_all-IsConsistent es new_world
          (record { latest = refl; known = λ c. tt; spaced = tt })).spaced

module _ (api : ApiServer) (holder : ℕ → String) where
  take-get_lease :
      (c now : ℕ) (o : Option Lease) (w : World)
      → w.read c ≡ o
      → w.server ≡ o
      → is_ok (take api holder c now o w).0 ≡ true
      → (v : ℕ) × ((take api holder c now o w).1.server ≡ some (get_lease (holder c) now v))
  unfolding occur
  take-get_lease c now none w e at h = ground (arith, h)
  take-get_lease c now (some l) w e at h =
      let (free, allowed) = is_ok-both (may_take (holder c) now l) (accepted api l w.server) h in
      (
        api.next_version l.version,
        try_update-same api (holder c) now l (w.read c) w e at free allowed,
      )

  -- The caller of an uninterrupted run of `AcquireLease` that returns without an error holds the
  -- lease from the time of the run.
  pub acquire_lease-get_lease :
      (c created now : ℕ) (w : World)
      → is_ok (acquire_lease api holder c created now w).0 ≡ true
      → (v : ℕ) × ((acquire_lease api holder c created now w).1.server
          ≡ some (get_lease (holder c) now v))
  unfolding acquire_lease occur
  acquire_lease-get_lease c created now w h =
      let there = occur api holder (create c created) (occur api holder (get c) w) in
      let again = occur api holder (get c) there in
      take-get_lease c now (again.read c) again refl (rw ((nat_eq_iff c c).1 refl) refl) h
