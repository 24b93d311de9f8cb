-- ===== src/Text.antt =====
-- The parts of Go's standard library on strings that the program calls: the order of strings
-- (byte order, which on UTF-8 is the order of code points), `strings.Split` by one character,
-- concatenation, and `%d` of a number.
use Prim.Native.Char.{Char, code}
use Prim.Native.Nat.{Ordering, compare as compare_ℕ}
use Prim.Native.String.compare
use Prim.Native.String.{compare, ◌++◌ as append, then as and_then}
use text.Mathlib.Text.{is_lt}
use kuidapps.Prelude.{
  ℕ, zero, suc, ◌/◌, ◌%◌, ◌<◌, String, ◌≡◌, refl, sym, ap, ◌∙◌, Bool, true, false, List, [], ◌∷◌,
  arith, ltb, nat_eq, if◌then◌else◌,
}

-- `s < t`
unfoldable pub str_lt : String → String → Bool
str_lt s t = is_lt (compare s t)

abbrev flip : Ordering → Ordering
flip Ordering.lt = Ordering.gt
flip Ordering.eq = Ordering.eq
flip Ordering.gt = Ordering.lt

flip-compare_ℕ : (m n : ℕ) → compare_ℕ n m ≡ flip (compare_ℕ m n)
flip-compare_ℕ m n = ground arith

flip-and_then : (o p : Ordering) → and_then (flip o) (flip p) ≡ flip (and_then o p)
flip-and_then Ordering.lt p = refl
flip-and_then Ordering.eq p = refl
flip-and_then Ordering.gt p = refl

flip-compare : (s t : String) → compare t s ≡ flip (compare s t)
flip-compare String.[] String.[] = refl
flip-compare String.[] (String.◌∷◌ d t) =
    compare.cons-nil d t ∙ sym (ap flip (compare.nil-cons d t))
flip-compare (String.◌∷◌ c s) String.[] =
    compare.nil-cons c s ∙ sym (ap flip (compare.cons-nil c s))
flip-compare (String.◌∷◌ c s) (String.◌∷◌ d t) =
    rw
      (
        compare.cons-cons d c t s,
        compare.cons-cons c d s t,
        flip-compare s t,
        flip-compare_ℕ (code c) (code d),
      )
      (flip-and_then (compare_ℕ (code c) (code d)) (compare s t))

is_lt-flip : (o : Ordering) → is_lt o ≡ true → is_lt (flip o) ≡ false
is_lt-flip o h = ground arith

pub str_lt_asym : (s t : String) → str_lt s t ≡ true → str_lt t s ≡ false
unfolding str_lt
str_lt_asym s t h = ap is_lt (flip-compare s t) ∙ is_lt-flip (compare s t) h

-- Concatenation, as `fmt.Sprintf` with `%s` does it.
infixr 66 ◌⧺◌
abbrev pub ◌⧺◌ : String → String → String
s ⧺ t = append s t

-- The first piece grows by a character.
unfoldable pub grow : Char → List String → List String
grow c [] = String.◌∷◌ c "" ∷ []
grow c (p ∷ ps) = String.◌∷◌ c p ∷ ps

-- `strings.Split(s, sep)` for a separator of one character, given by its code. There is always
-- at least one piece.
unfoldable pub split : ℕ → String → List String
unfolding grow
split sep String.[] = "" ∷ []
split sep (String.◌∷◌ c s) =
    let rest = split sep s in if nat_eq (code c) sep then "" ∷ rest else grow c rest

-- `parts[len(parts)-1]`, with the empty string for no parts.
unfoldable pub last_part : List String → String
last_part [] = ""
last_part (p ∷ []) = p
last_part (p ∷ q ∷ ps) = last_part (q ∷ ps)

-- `parts[0]`
unfoldable pub first_part : List String → String
first_part [] = ""
first_part (p ∷ ps) = p

unfoldable pub digit : ℕ → String
digit d =
    if nat_eq d 0
    then "0"
    else if nat_eq d 1
    then "1"
    else if nat_eq d 2
    then "2"
    else if nat_eq d 3
    then "3"
    else if nat_eq d 4
    then "4"
    else if nat_eq d 5
    then "5"
    else if nat_eq d 6
    then "6"
    else if nat_eq d 7
    then "7"
    else if nat_eq d 8
    then "8"
    else "9"

-- The digits of `n`, most significant first, on fuel.
unfoldable pub decimal_from : ℕ → ℕ → String
unfolding digit
decimal_from zero n = ""
decimal_from (suc f) n =
    let more = decimal_from f (n / 10) ⧺ digit (n % 10) in if ltb n 10 then digit n else more

-- `%d`: a number below `n + 1` has fewer than `n + 1` divisions by ten in it.
unfoldable pub decimal : ℕ → String
unfolding decimal_from
decimal n = decimal_from (suc n) n

-- More fuel changes nothing: the fuel of `decimal` is enough.
pub decimal_from_fuel : (f g n : ℕ) → n < f → n < g → decimal_from f n ≡ decimal_from g n
unfolding decimal_from
decimal_from_fuel zero g n hf hg = elim hf [ ]
decimal_from_fuel (suc f) zero n hf hg = elim hg [ ]
decimal_from_fuel (suc f) (suc g) n hf hg = ground (arith, decimal_from_fuel f g (n / 10))

split_test : split b'.' "topo.default" ≡ "topo" ∷ "default" ∷ []
unfolding split
split_test = refl

decimal_test : decimal 65535 ≡ "65535"
unfolding decimal
decimal_test = refl
