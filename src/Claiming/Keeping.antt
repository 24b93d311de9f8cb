-- ===== src/Claiming/Keeping.antt =====
-- What a link owns stays its own (pkg/reconcilers/link/reconciler.go), whatever calls the reconcilers
-- of links make, in any order.
use mathlib.Core.Path.{subst}
use kuidapps.Claiming.{
  create, claim, get, unexpected, new_world, claimed, release, may_claim, free, try_write, str_eq,
  put, owned, is_owned, Event, post, occur_all, occur, World, Owner, IsOwnership, write, Stored,
  Ownership,
}
use kuidapps.Prelude.{
  ◌&&◌, sym, eq_iff, All, List, String, Bool, inr, inl, ◌≡◌, Bool-cases, ◌≤◌, arith, Option, [],
  ◌∷◌, none, some, true, false, refl,
}
use kuidapps.Lease.Protocol.{ApiServer, IsVersioned}

owned_of : (o : Owner) → is_owned o ≡ true → o ≡ owned
owned_of free h = cc
owned_of owned h = refl
owned_of claimed h = cc
owned_of unexpected h = cc

module _ {E : Type 0} where
  -- What was read is not newer than what the server has, and is that in the same version.
  abbrev Known : Option (Stored E) → Option (Stored E) → Type 0
  Known none o = Unit {0}
  Known (some s) none = ⊥
  Known (some s) (some t) = (s.version ≤ t.version) × (s.version ≡ t.version → s ≡ t)

  Known-self : (o : Option (Stored E)) → Known o o
  Known-self none = tt
  Known-self (some s) = (ground arith, λ e. refl)

  module _ (own : Ownership E) (api : ApiServer) (versions : IsVersioned api) where
    write-Known :
        (f : E → E) (s : Stored E) (r o : Option (Stored E))
        → Known r o
        → Known r (write own api f s o)
    write-Known f s none none h = tt
    write-Known f s none (some t) h = tt
    write-Known f s (some u) none h = h
    write-Known f s (some u) (some t) (le, same) =
        elim (Bool-cases (api.accepts s.version t.version)) [
          | inl taken ↦ rw taken (
            omega (arith, versions.newer t.version),
            λ e. absurd (omega (arith, versions.newer t.version, e)),
          )
          | inr refused ↦ rw refused (le, same)
        ]

    try_write-Known :
        (test : E → Bool) (f : E → E) (q r o : Option (Stored E))
        → Known r o
        → Known r (try_write own api test f q o)
    try_write-Known test f none r o h = h
    try_write-Known test f (some s) r o h = elim (Bool-cases (test s.endpoint)) [
      | inl passed ↦ rw passed (write-Known f s r o h)
      | inr failed ↦ rw failed h
    ]

    post-Known : (e : E) (r o : Option (Stored E)) → Known r o → Known r (post own api e o)
    post-Known e none none h = tt
    post-Known e none (some t) h = tt
    post-Known e (some s) none h = absurd h
    post-Known e (some s) (some t) h = h

    abbrev IsFresh : World E → Type 0
    IsFresh w = (l n : String) → Known (w.read l n) (w.server n)

    put-IsFresh :
        (w : World E) (n : String) (o : Option (Stored E))
        → IsFresh w
        → ((l : String) → Known (w.read l n) o)
        → (l k : String) → Known (w.read l k) (put n o w.server k)
    put-IsFresh w n o h at_n l k = elim (Bool-cases (str_eq k n)) [
      | inl same ↦ rw same (subst (λ x. Known (w.read l x) o) (sym ((eq_iff k n).0 same)) (at_n l))
      | inr other ↦ rw other (h l k)
    ]

    occur-IsFresh : (e : Event E) (w : World E) → IsFresh w → IsFresh (occur own api e w)
    unfolding occur
    occur-IsFresh (get l n) w h m k = elim (Bool-cases (str_eq m l && str_eq k n)) [
      | inl same ↦ rw same (Known-self (w.server k))
      | inr other ↦ rw other (h m k)
    ]
    occur-IsFresh (claim l n) w h m k =
        put-IsFresh w n _ h
          (λ m.
            try_write-Known (λ e. may_claim (own.is_claimed e l)) (own.claim l) (w.read l n)
              (w.read m n) (w.server n) (h m n))
          m k
    occur-IsFresh (release l n) w h m k =
        put-IsFresh w n _ h
          (λ m.
            try_write-Known (λ e. is_owned (own.is_claimed e l)) (own.release l) (w.read l n)
              (w.read m n) (w.server n) (h m n))
          m k
    occur-IsFresh (create n e) w h m k =
        put-IsFresh w n _ h (λ m. post-Known e (w.read m n) (w.server n) (h m n)) m k

    occur_all-IsFresh :
        (es : List (Event E)) (w : World E) → IsFresh w → IsFresh (occur_all own api es w)
    unfolding occur_all
    occur_all-IsFresh [] w h = h
    occur_all-IsFresh (e ∷ es) w h = occur_all-IsFresh es (occur own api e w) (occur-IsFresh e w h)

  module _ (own : Ownership E) where
    -- Does the link own what the server has?
    abbrev pub owns : String → Option (Stored E) → Bool
    owns l none = false
    owns l (some t) = is_owned (own.is_claimed t.endpoint l)

  -- Is the call the release of the endpoint by the link?
  abbrev pub releases : String → String → Event E → Bool
  releases l n (release m k) = str_eq l m && str_eq n k
  releases l n _ = false

  module _ (own : Ownership E) (laws : IsOwnership own) (api : ApiServer)
      (versions : IsVersioned api) where
    try_write-owns :
        (l : String) (test : E → Bool) (f : E → E) (r o : Option (Stored E))
        → ((e : E)
            → own.is_claimed e l ≡ owned
            → test e ≡ true
            → is_owned (own.is_claimed (f e) l) ≡ true)
        → Known r o
        → owns own l o ≡ true
        → owns own l (try_write own api test f r o) ≡ true
    try_write-owns l test f none o keep known h = h
    try_write-owns l test f (some s) none keep known h = cc
    try_write-owns l test f (some s) (some t) keep (le, same) h =
        elim (Bool-cases (test s.endpoint)) [
          | inl passed ↦ rw passed (elim (Bool-cases (api.accepts s.version t.version)) [
            | inl taken ↦ rw taken (
                keep s.endpoint
                  (subst (λ x. own.is_claimed x.endpoint l ≡ owned)
                    (sym (same (versions.unchanged s.version t.version taken)))
                    (owned_of (own.is_claimed t.endpoint l) h))
                  passed)
            | inr refused ↦ rw refused h
          ])
          | inr failed ↦ rw failed h
        ]

    claim-owns :
        (l m : String) (e : E)
        → own.is_claimed e l ≡ owned
        → may_claim (own.is_claimed e m) ≡ true
        → is_owned (own.is_claimed (own.claim m e) l) ≡ true
    claim-owns l m e h may = elim (Bool-cases (str_eq l m)) [
      | inl same ↦
          subst (λ x. is_owned (own.is_claimed (own.claim m e) x) ≡ true)
            (sym ((eq_iff l m).0 same)) (rw (laws.claims m e) refl)
      | inr other ↦ ground (arith, may, laws.others l m e h other)
    ]

    put-owns :
        (l n k : String) (o : Option (Stored E)) (server : String → Option (Stored E))
        → owns own l (server n) ≡ true
        → (str_eq n k ≡ true → owns own l (server k) ≡ true → owns own l o ≡ true)
        → owns own l (put k o server n) ≡ true
    put-owns l n k o server h keep = elim (Bool-cases (str_eq n k)) [
      | inl same ↦
          rw same (keep same (subst (λ x. owns own l (server x) ≡ true) ((eq_iff n k).0 same) h))
      | inr other ↦ rw other h
    ]

    post-owns :
        (l : String) (e : E) (o : Option (Stored E))
        → owns own l o ≡ true
        → owns own l (post own api e o) ≡ true
    post-owns l e none h = cc
    post-owns l e (some t) h = h

    occur-owns :
        (l n : String) (e : Event E) (w : World E)
        → IsFresh own api versions w
        → releases l n e ≡ false
        → owns own l (w.server n) ≡ true
        → owns own l ((occur own api e w).server n) ≡ true
    unfolding occur
    occur-owns l n (get m k) w fresh not_released h = h
    occur-owns l n (claim m k) w fresh not_released h = put-owns l n k _ w.server h λ same here.
        try_write-owns l (λ e. may_claim (own.is_claimed e m)) (own.claim m) (w.read m k)
          (w.server k) (claim-owns l m) (fresh m k) here
    occur-owns l n (release m k) w fresh not_released h = put-owns l n k _ w.server h λ same here.
        try_write-owns l (λ e. is_owned (own.is_claimed e m)) (own.release m) (w.read m k)
          (w.server k)
          (λ e mine theirs.
            ground
              (arith, not_released, same, theirs, Bool-cases (str_eq l m), laws.others l m e mine))
          (fresh m k) here
    occur-owns l n (create k e) w fresh not_released h =
        put-owns l n k _ w.server h λ same here. post-owns l e (w.server k) here

    keeps :
        (l n : String) (es : List (Event E)) (w : World E)
        → IsFresh own api versions w
        → All (λ e. releases l n e ≡ false) es
        → owns own l (w.server n) ≡ true
        → owns own l ((occur_all own api es w).server n) ≡ true
    unfolding occur_all
    keeps l n [] w fresh all h = h
    keeps l n (e ∷ es) w fresh (first, rest) h =
        keeps l n es (occur own api e w) (occur-IsFresh own api versions e w fresh) rest
          (occur-owns l n e w fresh first h)

    -- On an API server whose versions grow and that refuses an update of an object that has changed
    -- since it was read, where there were no endpoints at first: an endpoint that a link owns after
    -- any calls of the reconcilers of links, in any order, it owns after any further calls among
    -- which it does not release the endpoint.
    pub occur_all-owns :
        (l n : String) (es fs : List (Event E))
        → All (λ e. releases l n e ≡ false) fs
        → owns own l ((occur_all own api es new_world).server n) ≡ true
        → owns own l ((occur_all own api fs (occur_all own api es new_world)).server n) ≡ true
    occur_all-owns l n es fs =
        keeps l n fs (occur_all own api es new_world)
          (occur_all-IsFresh own api versions es new_world λ m k. tt)
