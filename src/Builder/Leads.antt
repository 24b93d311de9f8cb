-- ===== src/Builder/Leads.antt =====
-- The builder (pkg/devbuilder/builder.go) writes to the devices only by calls of their methods:
-- what it means that a step does so, and how it passes to steps made of others.
use kuidapps.Prelude.{
  String, ◌≡◌, refl, sym, ap, ◌∙◌, Bool, true, false, List, [], ◌∷◌, ◌++◌, if◌then◌else◌,
}
use mathlib.Core.Path.{subst}
use kuidapps.Outcome.{Outcome, ok, err, panic, ◌>>=◌}
use kuidapps.Devices.Store.{Devices}
use kuidapps.Devices.Calls.{Call, perform, run}
use kuidapps.Builder.State.{DeviceBuilder, Action, call, ◌▹◌, when, with_value, reading, each, skip}

-- The devices of `s` are those of `r` after some calls; the network is the same.
abbrev pub Reaches : DeviceBuilder → DeviceBuilder → Type 0
Reaches r s =
    ((calls : List (String × Call)) × (s.devices ≡ run calls r.devices)) × (s.network ≡ r.network)

run-append : (l m : List (String × Call)) (d : Devices) → run (l ++ m) d ≡ run m (run l d)
unfolding run
run-append [] m d = refl
run-append ((n, c) ∷ l) m d = run-append l m (perform n c d)

pub Reaches-same :
    (r s : DeviceBuilder) → s.devices ≡ r.devices → s.network ≡ r.network → Reaches r s
unfolding run
Reaches-same r s h k = (([], h), k)

Reaches-trans : (r s t : DeviceBuilder) → Reaches r s → Reaches s t → Reaches r t
Reaches-trans r s t ((l, p), h) ((m, q), k) =
    ((l ++ m, q ∙ ap (run m) p ∙ sym (run-append l m r.devices)), k ∙ h)

-- If the step returns, the state of the builder in its result is reached from `r`.
abbrev pub Leads : {A : Type 0} → (A → DeviceBuilder) → DeviceBuilder → Outcome A → Type 0
Leads π r (ok a) = Reaches r (π a)
Leads π r (err e) = Unit {0}
Leads π r panic = Unit {0}

pub Leads-ok :
    {A : Type 0} (π : A → DeviceBuilder) (r : DeviceBuilder) (o : Outcome A) (a : A)
    → Leads π r o
    → o ≡ ok a
    → Reaches r (π a)
Leads-ok π r o a h e = subst (λ x. Leads π r x) e h

pub Leads-from :
    {A : Type 0} (π : A → DeviceBuilder) (r s : DeviceBuilder) (o : Outcome A)
    → Reaches r s
    → Leads π s o
    → Leads π r o
Leads-from π r s (ok a) h k = Reaches-trans r s (π a) h k
Leads-from π r s (err e) h k = tt
Leads-from π r s panic h k = tt

pub Leads-bind :
    {A B : Type 0} (π : A → DeviceBuilder) (ρ : B → DeviceBuilder) (r : DeviceBuilder)
    (o : Outcome A) (k : A → Outcome B)
    → Leads π r o
    → ((a : A) → Leads ρ (π a) (k a))
    → Leads ρ r (o >>= k)
Leads-bind π ρ r (ok a) k h f = Leads-from ρ r (π a) (k a) h (f a)
Leads-bind π ρ r (err e) k h f = tt
Leads-bind π ρ r panic k h f = tt

pub Leads-value :
    {A B : Type 0} (ρ : B → DeviceBuilder) (r : DeviceBuilder) (o : Outcome A) (k : A → Outcome B)
    → ((a : A) → Leads ρ r (k a))
    → Leads ρ r (o >>= k)
Leads-value ρ r (ok a) k f = f a
Leads-value ρ r (err e) k f = tt
Leads-value ρ r panic k f = tt

-- An action leads from every state.
pub record IsLeading (f : Action) : Type 0 where
  pub leads : (r : DeviceBuilder) → Leads (λ s. s) r (f r)

pub skip-IsLeading : IsLeading skip
skip-IsLeading = record { leads = λ r. Reaches-same r r refl refl }

pub call-IsLeading : (n : String) (c : Call) → IsLeading (call n c)
unfolding run
call-IsLeading n c = record { leads = λ r. (((n, c) ∷ [], refl), refl) }

pub then-IsLeading : (f g : Action) → IsLeading f → IsLeading g → IsLeading (f ▹ g)
then-IsLeading f g h k = record {
  leads = λ r. Leads-bind (λ s. s) (λ s. s) r (f r) g (h.leads r) k.leads;
}

pub when-IsLeading : (b : Bool) (f : Action) → IsLeading f → IsLeading (when b f)
when-IsLeading true f h = record { leads = h.leads }
when-IsLeading false f h = record { leads = λ r. Reaches-same r r refl refl }

pub if-IsLeading :
    (b : Bool) (f g : Action) → IsLeading f → IsLeading g → IsLeading (if b then f else g)
if-IsLeading true f g h k = h
if-IsLeading false f g h k = k

pub with_value-IsLeading :
    {A : Type 0} (o : Outcome A) (k : A → Action)
    → ((a : A) → IsLeading (k a))
    → IsLeading (with_value o k)
with_value-IsLeading o k h = record {
  leads = λ r. Leads-value (λ s. s) r o (λ a. k a r) (λ a. (h a).leads r);
}

pub reading-IsLeading :
    (k : DeviceBuilder → Action) → ((r : DeviceBuilder) → IsLeading (k r)) → IsLeading (reading k)
reading-IsLeading k h = record { leads = λ r. (h r).leads r }

pub each-IsLeading :
    {A : Type 0} (f : A → Action) (l : List A) → ((a : A) → IsLeading (f a)) → IsLeading (each f l)
unfolding each
each-IsLeading f [] h = skip-IsLeading
each-IsLeading f (a ∷ l) h = then-IsLeading (f a) (each f l) (h a) (each-IsLeading f l h)

pub ruleset leading_steps = (
  call-IsLeading, then-IsLeading, when-IsLeading, if-IsLeading, with_value-IsLeading,
  reading-IsLeading, each-IsLeading,
)
