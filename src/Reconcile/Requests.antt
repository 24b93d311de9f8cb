-- ===== src/Reconcile/Requests.antt =====
-- The requests of a reconcile (pkg/reconcilers): a property of each request, by the parts that a
-- reconcile is put together from.
use kuidapps.Prelude.{String, Bool, true, false, ◌≡◌, refl, Option, none, some, All, if◌then◌else◌}
use kuidapps.Outcome.{Error, Outcome}
use kuidapps.Conditions.Stored.{StoredNetwork}
use kuidapps.Reconcile.{
  Request, remove_finalizer, delete_owned, update_status, Answer, found, not_found, failed, Cluster,
  Run, sequel, attempt, update_and_return, with_read, with_network, delete_network,
}

module _ {S : Type 0} (P : Request S → Type 0) where
  abbrev pub Each : Run S → Type 0
  Each run = All P run.requests

  pub if-Each :
      (b : Bool) (x y : Run S)
      → (b ≡ true → Each x)
      → (b ≡ false → Each y)
      → Each (if b then x else y)
  if-Each true x y h k = h refl
  if-Each false x y h k = k refl

  sequel-Each :
      (o : Option Error) (on_error : Error → Run S) (next : Run S)
      → ((e : Error) → Each (on_error e))
      → Each next
      → Each (sequel o on_error next)
  sequel-Each none on_error next h k = k
  sequel-Each (some e) on_error next h k = h e

  module _ (cl : Cluster S) where
    pub attempt-Each :
        (q : Request S) (on_error : Error → Run S) (next : Run S)
        → P q
        → ((e : Error) → Each (on_error e))
        → Each next
        → Each (attempt cl q on_error next)
    unfolding attempt
    attempt-Each q on_error next p h k = (p, sequel-Each (cl.refuses q) on_error next h k)

    pub with_read-Each :
        {A : Type 0} (o : Outcome A) (on_error : Error → Run S) (next : A → Run S)
        → ((e : Error) → Each (on_error e))
        → ((a : A) → o ≡ Outcome.ok a → Each (next a))
        → Each (with_read cl o on_error next)
    unfolding with_read
    with_read-Each (Outcome.ok a) on_error next h k = k a refl
    with_read-Each (Outcome.err e) on_error next h k = h e
    with_read-Each Outcome.panic on_error next h k = tt

    pub with_network-Each :
        (a : Answer (StoredNetwork S)) (next : StoredNetwork S → Run S)
        → ((cr : StoredNetwork S) → a ≡ found cr → Each (next cr))
        → Each (with_network cl a next)
    with_network-Each (found cr) next h = h cr refl
    with_network-Each not_found next h = tt
    with_network-Each (failed e) next h = tt

    pub delete_network-Each :
        (handle_error : String → Option Error → StoredNetwork S → StoredNetwork S)
        (cr : StoredNetwork S)
        → P delete_owned
        → P remove_finalizer
        → ((msg : String) (e : Error) → P (update_status (handle_error msg (some e) cr)))
        → Each (delete_network cl handle_error cr)
    unfolding delete_network update_and_return
    delete_network-Each handle_error cr p q h =
        attempt-Each delete_owned _ _ p (λ e. (h "canot delete resources" e, tt))
          (attempt-Each remove_finalizer _ _ q (λ e. (h "cannot remove finalizer" e, tt)) tt)
