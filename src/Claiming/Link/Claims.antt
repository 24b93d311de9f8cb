-- ===== src/Claiming/Link/Claims.antt =====
-- What the reconciler of a link has claimed when it reports the link ready, and what it has changed
-- otherwise (pkg/reconcilers/link/reconciler.go).
use mathlib.Core.Path.{subst}
use kuidapps.Outcome.{Error}
use kuidapps.Claiming.Keeping.{owns}
use kuidapps.Lease.Protocol.{ApiServer}
use kuidapps.Prelude.{
  ◌⊎◌, if-false, All-both, inr, inl, Bool-cases, sym, eq_iff, arith, ◌≡◌, Bool, String, All, Option,
  List, [], ◌∷◌, none, some, true, false, refl,
}
use kuidapps.Claiming.{
  str_eq, try_write, occur, may_claim, World, Stored, IsOwnership, Ownership, claim,
}
use kuidapps.Claiming.Link.{
  reconcile, finalized, LinkRun, delete, after_release, reconcile_applied, gathered_on, Released,
  ready, get_endpoints, first_error, Gathered, accepted, Faults, LinkRef, apply, call, call_on,
}
use kuidapps.Claiming.Link.Gathers.{ends, may, Gathers, get_endpoints-Gathers}

module _ {E : Type 0} (own : Ownership E) where
  module _ (laws : IsOwnership own) (api : ApiServer) (faults : Faults E) where
    write-owns :
        (l : String) (r o : Option (Stored E))
        → may own l r ≡ true
        → accepted own api faults r o ≡ true
        → owns own l (try_write own api (λ e. may_claim (own.is_claimed e l)) (own.claim l) r o)
          ≡ true
    write-owns l none o m a = cc
    write-owns l (some s) none m a = cc
    write-owns l (some s) (some t) m a = rw (m, a, laws.claims l s.endpoint) refl

    -- A link that owns an endpoint owns what it writes there.
    rewrite-owns :
        (l : String) (r o : Option (Stored E))
        → owns own l o ≡ true
        → owns own l (try_write own api (λ e. may_claim (own.is_claimed e l)) (own.claim l) r o)
          ≡ true
    rewrite-owns l none o h = h
    rewrite-owns l (some s) none h = cc
    rewrite-owns l (some s) (some t) h = ground (arith, h, laws.claims l s.endpoint)

    -- A claim that goes through: the link owns the endpoint, and what it owned before.
    record Claims (l n : String) (w v : World E) : Type 0 where
      pub gained : owns own l (v.server n) ≡ true
      kept : (m : String) → owns own l (w.server m) ≡ true → owns own l (v.server m) ≡ true
      read : v.read ≡ w.read

    claim-Claims :
        (l n : String) (w : World E)
        → may own l (w.read l n) ≡ true
        → accepted own api faults (w.read l n) (w.server n) ≡ true
        → Claims l n w (occur own api (claim l n) w)
    unfolding occur
    claim-Claims l n w m a = record {
      gained = rw ((eq_iff n n).1 refl) (write-owns l (w.read l n) (w.server n) m a);
      kept = λ k h. elim (Bool-cases (str_eq k n)) [
        | inl same ↦ rw same (write-owns l (w.read l n) (w.server n) m a)
        | inr other ↦ rw other h
      ];
      read = refl;
    }

    call-Claims :
        (l n : String) (w : World E) (x : Option Error) (taken : Bool)
        → may own l (w.read l n) ≡ true
        → taken ≡ accepted own api faults (w.read l n) (w.server n)
        → (call_on own api faults x taken (claim l n) w).0 ≡ none
        → Claims l n w (call_on own api faults x taken (claim l n) w).1
    call-Claims l n w (some x) taken m t e = cc
    call-Claims l n w none true m t e = claim-Claims l n w m (sym t)
    call-Claims l n w none false m t e = cc

    abbrev Applied : String → List String → World E → Option Error × World E → Type 0
    Applied l ns w r =
        r.0 ≡ none
        → All (λ n. owns own l (r.1.server n) ≡ true) ns
          × ((m : String) → owns own l (w.server m) ≡ true → owns own l (r.1.server m) ≡ true)

    apply_next :
        (l n : String) (ns : List String) (w : World E) (r rest : Option Error × World E)
        → (r.0 ≡ none → Claims l n w r.1)
        → (r.1.read ≡ w.read → Applied l ns r.1 rest)
        → Applied l (n ∷ ns) w (first_error own api faults r rest)
    apply_next l n ns w (some x, v) rest one more e = cc
    apply_next l n ns w (none, v) rest one more e =
        let c = one refl in
        let (all, kept) = more c.read e in ((kept n c.gained, all), λ m h. kept m (c.kept m h))

    apply-Applied :
        (l : String) (ns : List String) (w : World E)
        → All (λ n. may own l (w.read l n) ≡ true) ns
        → Applied l ns w (apply own api faults l ns w)
    unfolding apply call
    apply-Applied l [] w h = λ e. (tt, λ m o. o)
    apply-Applied l (n ∷ ns) w (m, h) =
        apply_next l n ns w (call own api faults (claim l n) w)
          (apply own api faults l ns (call own api faults (claim l n) w).1)
          (λ e. call-Claims l n w (faults.on_event (claim l n)) _ m refl e)
          λ same.
            apply-Applied l ns _ (subst (λ r. All (λ k. may own l (r l k) ≡ true) ns) (sym same) h)

    after_release-ready :
        (x : Error) (d : Released E) → (after_release own api faults x d).reported ≡ ready → ⊥
    after_release-ready x d h = ground arith

    reconcile_applied-owns :
        (link : LinkRef) (w : World E) (r : Option Error × World E)
        → Applied link.name (ends link) w r
        → (reconcile_applied own api faults link r).reported ≡ ready
        → All
            (λ n.
              owns own link.name ((reconcile_applied own api faults link r).world.server n) ≡ true)
            (ends link)
    reconcile_applied-owns link w (none, v) h r = (h refl).0
    reconcile_applied-owns link w (some x, v) h r =
        absurd (after_release-ready x (delete own api faults link v) r)

    gathered_on-owns :
        (link : LinkRef) (w : World E) (g : Gathered E) (o : Option Error)
        → g.error ≡ o
        → Gathers own api faults link.name (ends link) w.server g
        → (gathered_on own api faults link o g).reported ≡ ready
        → All
            (λ n. owns own link.name ((gathered_on own api faults link o g).world.server n) ≡ true)
            (ends link)
    gathered_on-owns link w g (some x) e h r = cc
    gathered_on-owns link w g none e h r =
        let claims =
          apply-Applied link.name g.names g.world
            (All-both g.names (λ n m f. rw f m) (h.allowed e) (h.fresh e)) in
        reconcile_applied-owns link g.world (apply own api faults link.name g.names g.world)
          (subst
            (λ ns. Applied link.name ns g.world (apply own api faults link.name g.names g.world))
            (h.names e) claims)
          r

    finalized-owns :
        (link : LinkRef) (w : World E) (x : Option Error)
        → (finalized own api faults link x w).reported ≡ ready
        → All
            (λ n. owns own link.name ((finalized own api faults link x w).world.server n) ≡ true)
            (ends link)
    finalized-owns link w (some x) r = cc
    finalized-owns link w none r =
        let g = get_endpoints own api faults link w in
        gathered_on-owns link w g g.error refl (get_endpoints-Gathers own api faults link w) r

    alive_run :
        (link : LinkRef) (w : World E)
        → link.deleted ≡ false
        → reconcile own api faults link w ≡ finalized own api faults link faults.on_add_finalizer w
    unfolding reconcile
    alive_run link w alive = if-false _ _ alive

    -- A link that is not being deleted and that its reconciler, in a run that no other caller
    -- interrupts, reports ready owns each of its endpoints after the run.
    pub reconcile-owns :
        (link : LinkRef) (w : World E)
        → link.deleted ≡ false
        → (reconcile own api faults link w).reported ≡ ready
        → All
            (λ n. owns own link.name ((reconcile own api faults link w).world.server n) ≡ true)
            (ends link)
    reconcile-owns link w alive =
        subst
          (λ (run : LinkRun E).
            run.reported ≡ ready
            → All (λ n. owns own link.name (run.world.server n) ≡ true) (ends link))
          (sym (alive_run link w alive)) (finalized-owns link w faults.on_add_finalizer)

  module _ (api : ApiServer) (faults : Faults E) where
    abbrev AllOrNone : LinkRef → World E → LinkRun E → Type 0
    AllOrNone link w run =
        All (λ n. may own link.name (w.server n) ≡ true) (ends link) ⊎ (run.world.server ≡ w.server)

    gathered-AllOrNone :
        (link : LinkRef) (w : World E) (g : Gathered E) (o : Option Error)
        → g.error ≡ o
        → Gathers own api faults link.name (ends link) w.server g
        → AllOrNone link w (gathered_on own api faults link o g)
    gathered-AllOrNone link w g (some x) e h = inr h.same
    gathered-AllOrNone link w g none e h = inl (
        subst (λ ns. All (λ n. may own link.name (w.server n) ≡ true) ns) (h.names e) (h.allowed e))

    finalized-AllOrNone :
        (link : LinkRef) (w : World E) (x : Option Error)
        → AllOrNone link w (finalized own api faults link x w)
    finalized-AllOrNone link w (some x) = inr refl
    finalized-AllOrNone link w none =
        let g = get_endpoints own api faults link w in
        gathered-AllOrNone link w g g.error refl (get_endpoints-Gathers own api faults link w)

    -- The reconciler of a link that is not being deleted changes an endpoint only if each endpoint
    -- of the link is there and was free or the link's own.
    pub reconcile-AllOrNone :
        (link : LinkRef) (w : World E)
        → link.deleted ≡ false
        → All (λ n. may own link.name (w.server n) ≡ true) (ends link)
          ⊎ ((reconcile own api faults link w).world.server ≡ w.server)
    unfolding reconcile
    reconcile-AllOrNone link w alive =
        subst (AllOrNone link w) (sym (if-false _ _ alive))
          (finalized-AllOrNone link w faults.on_add_finalizer)
