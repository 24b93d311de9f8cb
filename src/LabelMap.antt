-- ===== src/LabelMap.antt =====
-- A Go map with strings as keys, of labels for the most part.
use text.Mathlib.Text.{◌==◌ as str_eq}
use kuidapps.Prelude.{String, Option, none, some, List, [], ◌∷◌, if◌then◌else◌}

abbrev pub Labels : Type 0
Labels = List (String × String)

-- A key of a Go map.
unfoldable pub find {ℓ} : {A : Type ℓ} → String → List (String × A) → Option A
find k [] = none
find k ((j, a) ∷ l) = if str_eq j k then some a else find k l

-- `m[k] = v`
unfoldable pub set_label : String → String → Labels → Labels
set_label k v [] = (k, v) ∷ []
set_label k v ((j, w) ∷ l) = if str_eq j k then (j, v) ∷ l else (j, w) ∷ set_label k v l

unfoldable pub set_labels : Labels → Labels → Labels
unfolding set_label
set_labels [] l = l
set_labels ((k, v) ∷ ms) l = set_labels ms (set_label k v l)
