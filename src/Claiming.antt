-- ===== src/Claiming.antt =====
-- The endpoints that links claim (pkg/reconcilers/link/reconciler.go), on an API server that the
-- reconcilers of many links share. Kuid's methods of an endpoint on its claim are a parameter.
pub mod Link
pub mod Keeping
use text.Mathlib.Text.{◌==◌ as str_eq}
use kuidapps.Prelude.{
  ℕ, String, Bool, true, false, ◌&&◌, ◌≡◌, Option, none, some, List, [], ◌∷◌, if◌then◌else◌,
}
use kuidapps.Lease.Protocol.{ApiServer}

-- What `IsClaimed` answers a link.
pub data Owner : Type 0 where
  free owned claimed unexpected : Owner

-- `IsClaimed`, `Claim` and `Release` of an endpoint, for a link by its name.
pub record Ownership (E : Type 0) : Type 0 where
  pub is_claimed : E → String → Owner
  pub claim : String → E → E
  pub release : String → E → E

-- The link that claims an endpoint owns it, and what a link owns is claimed for every other.
pub record IsOwnership {E : Type 0} (own : Ownership E) : Type 0 where
  pub claims : (l : String) (e : E) → own.is_claimed (own.claim l e) l ≡ owned
  pub others :
      (l m : String) (e : E)
      → own.is_claimed e l ≡ owned
      → str_eq l m ≡ false
      → own.is_claimed e m ≡ claimed

pub record Stored (E : Type 0) : Type 0 where
  pub endpoint : E
  pub version : ℕ

-- The endpoints by name, and what each link has read last.
pub record World (E : Type 0) : Type 0 where
  pub server : String → Option (Stored E)
  pub read : String → String → Option (Stored E)

abbrev pub new_world : {E : Type 0} → World E
new_world = record { server = λ n. none; read = λ l n. none }

-- The calls of a link's reconciler on an endpoint, and the creation of an endpoint by others.
pub data Event (E : Type 0) : Type 0 where
  get : String → String → Event E
  claim : String → String → Event E
  release : String → String → Event E
  create : String → E → Event E

-- May the link claim the endpoint?
abbrev pub may_claim : Owner → Bool
may_claim free = true
may_claim owned = true
may_claim _ = false

abbrev pub is_owned : Owner → Bool
is_owned owned = true
is_owned _ = false

abbrev pub put : {A : Type 0} → String → A → (String → A) → String → A
put n a f k = if str_eq k n then a else f k

module _ {E : Type 0} (own : Ownership E) (api : ApiServer) where
  -- The update of an object that was read, on what the server has.
  abbrev pub write : (E → E) → Stored E → Option (Stored E) → Option (Stored E)
  write f s none = none
  write f s (some t) =
      if api.accepts s.version t.version
      then some (record { endpoint = f s.endpoint; version = api.next_version t.version })
      else some t

  -- An update where the code makes it: of what was read, if that passes a test.
  abbrev pub try_write :
      (E → Bool) → (E → E) → Option (Stored E) → Option (Stored E) → Option (Stored E)
  try_write test f none o = o
  try_write test f (some s) o = if test s.endpoint then write f s o else o

  abbrev pub post : E → Option (Stored E) → Option (Stored E)
  post e none = some (record { endpoint = e; version = api.first_version })
  post e (some t) = some t

  unfoldable pub occur : Event E → World E → World E
  occur (get l n) w = record w {
    read = λ m k. if str_eq m l && str_eq k n then w.server k else w.read m k;
  }
  occur (claim l n) w = record w {
    server =
        put n
          (try_write (λ e. may_claim (own.is_claimed e l)) (own.claim l) (w.read l n) (w.server n))
          w.server;
  }
  occur (release l n) w = record w {
    server =
        put n
          (try_write (λ e. is_owned (own.is_claimed e l)) (own.release l) (w.read l n) (w.server n))
          w.server;
  }
  occur (create n e) w = record w { server = put n (post e (w.server n)) w.server }

  unfoldable pub occur_all : List (Event E) → World E → World E
  unfolding occur
  occur_all [] w = w
  occur_all (e ∷ es) w = occur_all es (occur e w)
