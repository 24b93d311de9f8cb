-- ===== src/Claiming/Link/Gathers.antt =====
-- The endpoints that the reconciler of a link gathers (`getEndpoints` of
-- pkg/reconcilers/link/reconciler.go).
use mathlib.Core.List.{append-nil}
use kuidapps.Outcome.{unexpected_owner, owned_by_another, endpoint_not_found, Error}
use kuidapps.Lease.Protocol.{ApiServer}
use kuidapps.Prelude.{
  All-append, ◌∙◌, ap, All-mono, inr, inl, Bool-cases, sym, eq_iff, ◌≡◌, Bool, String, All, Option,
  List, [], ◌∷◌, ◌++◌, none, some, true, false, refl,
}
use kuidapps.Claiming.{
  unexpected, get, claimed, owned, free, Owner, str_eq, occur, may_claim, World, Stored, Ownership,
}
use kuidapps.Claiming.Link.{
  get_endpoint, answer, add_owner, join, get_endpoints, gather_end, add_answer, Gathered, Faults,
  LinkRef, call, call_on,
}

abbrev pub names_of : Option String → List String
names_of none = []
names_of (some n) = n ∷ []

-- The names of the endpoints of a link.
abbrev pub ends : LinkRef → List String
ends link = names_of link.endpoint_a ++ names_of link.endpoint_b

module _ {E : Type 0} (own : Ownership E) where
  -- Is there an endpoint that the link may claim?
  abbrev pub may : String → Option (Stored E) → Bool
  may l none = false
  may l (some s) = may_claim (own.is_claimed s.endpoint l)

  module _ (api : ApiServer) (faults : Faults E) where
    -- The endpoints that are gathered are those that may be claimed; reading changes none.
    pub record Gathers (l : String) (ns : List String) (server : String → Option (Stored E))
        (g : Gathered E) : Type 0 where
      pub names : g.error ≡ none → g.names ≡ ns
      pub allowed : g.error ≡ none → All (λ n. may l (server n) ≡ true) g.names
      pub fresh : g.error ≡ none → All (λ n. g.world.read l n ≡ server n) g.names
      pub same : g.world.server ≡ server

    join-some : (o : Option Error) (x : Error) → join o x ≡ none → ⊥
    join-some none x h = cc
    join-some (some y) x h = cc

    no_error :
        (l : String) (ns : List String) (server : String → Option (Stored E)) (g : Gathered E)
        → (g.error ≡ none → ⊥)
        → g.world.server ≡ server
        → Gathers l ns server g
    no_error l ns server g h same = record {
      names = λ e. absurd (h e);
      allowed = λ e. absurd (h e);
      fresh = λ e. absurd (h e);
      same = same;
    }

    add_owner-Gathers :
        (l n : String) (ns : List String) (server : String → Option (Stored E)) (g : Gathered E)
        (o : Owner)
        → Gathers l ns server g
        → (may_claim o ≡ true → may l (server n) ≡ true)
        → (may_claim o ≡ true → g.world.read l n ≡ server n)
        → Gathers l (ns ++ n ∷ []) server (add_owner own api faults n o g)
    add_owner-Gathers l n ns server g free h may_n read_n = record {
      names = λ e. ap (λ l. l ++ n ∷ []) (h.names e);
      allowed = λ e. All-append _ g.names (n ∷ []) (h.allowed e) (may_n refl, tt);
      fresh = λ e. All-append _ g.names (n ∷ []) (h.fresh e) (read_n refl, tt);
      same = h.same;
    }
    add_owner-Gathers l n ns server g owned h may_n read_n = record {
      names = λ e. ap (λ l. l ++ n ∷ []) (h.names e);
      allowed = λ e. All-append _ g.names (n ∷ []) (h.allowed e) (may_n refl, tt);
      fresh = λ e. All-append _ g.names (n ∷ []) (h.fresh e) (read_n refl, tt);
      same = h.same;
    }
    add_owner-Gathers l n ns server g claimed h may_n read_n =
        no_error l _ server _ (join-some g.error owned_by_another) h.same
    add_owner-Gathers l n ns server g unexpected h may_n read_n =
        no_error l _ server _ (join-some g.error unexpected_owner) h.same

    add_answer-Gathers :
        (l n : String) (ns : List String) (server : String → Option (Stored E)) (g : Gathered E)
        (o : Option (Stored E))
        → g.world.read l n ≡ o
        → server n ≡ o
        → Gathers l ns server g
        → Gathers l (ns ++ n ∷ []) server (add_answer own api faults l n (answer none o) g)
    add_answer-Gathers l n ns server g none r s h =
        no_error l _ server _ (join-some g.error (endpoint_not_found n)) h.same
    add_answer-Gathers l n ns server g (some t) r s h =
        add_owner-Gathers l n ns server g (own.is_claimed t.endpoint l) h (λ m. rw s m)
          λ m. r ∙ sym s

    -- What was gathered is as fresh after a further read.
    read_Gathers :
        (l n : String) (ns : List String) (server : String → Option (Stored E)) (g : Gathered E)
        → Gathers l ns server g
        → Gathers l ns server (record g { world = occur own api (get l n) g.world })
    unfolding occur
    read_Gathers l n ns server g h = record {
      names = h.names;
      allowed = h.allowed;
      fresh = λ e.
          All-mono g.names
            (λ k f. elim (Bool-cases (str_eq k n)) [
              | inl at_n ↦ rw ((eq_iff l l).1 refl, at_n) (ap (λ f. f k) h.same)
              | inr other ↦ rw ((eq_iff l l).1 refl, other) f
            ])
            (h.fresh e);
      same = h.same;
    }

    answer-Gathers :
        (l n : String) (ns : List String) (server : String → Option (Stored E)) (g : Gathered E)
        (x : Option Error)
        → Gathers l ns server g
        → let r = call_on own api faults x true (get l n) g.world in
          Gathers l
            (ns ++ n ∷ [])
            server
            (add_answer own api faults l n (answer r.0 (r.1.read l n)) (record g { world = r.1 }))
    unfolding occur
    answer-Gathers l n ns server g (some x) h = no_error l _ server _ (join-some g.error x) h.same
    answer-Gathers l n ns server g none h =
        let v = occur own api (get l n) g.world in
        add_answer-Gathers l n ns server (record g { world = v }) (v.read l n) refl
          (rw ((eq_iff l l).1 refl, (eq_iff n n).1 refl) (sym (ap (λ f. f n) h.same)))
          (read_Gathers l n ns server g h)

    gather_end-Gathers :
        (l : String) (o : Option String) (ns : List String) (server : String → Option (Stored E))
        (g : Gathered E)
        → Gathers l ns server g
        → Gathers l (ns ++ names_of o) server (gather_end own api faults l o g)
    unfolding gather_end get_endpoint call
    gather_end-Gathers l none ns server g h = rw append-nil h
    gather_end-Gathers l (some n) ns server g h =
        answer-Gathers l n ns server g (faults.on_event (get l n)) h

    pub get_endpoints-Gathers :
        (link : LinkRef) (w : World E)
        → Gathers link.name (ends link) w.server (get_endpoints own api faults link w)
    unfolding get_endpoints
    get_endpoints-Gathers link w =
        gather_end-Gathers link.name link.endpoint_b (names_of link.endpoint_a) w.server _ (
          gather_end-Gathers link.name link.endpoint_a [] w.server
            (record { names = []; requeue = true; error = none; world = w })
            (record { names = λ e. refl; allowed = λ e. tt; fresh = λ e. tt; same = refl }))
