-- ===== src/Cost/Families.antt =====
-- The prices that a model may get, and the cost of a call as its tokens grow.
use text.Mathlib.Text.{starts_with}
use Prim.Native.String.{◌++◌ as text_append}
use native.Mathlib.Nat.{mul-le-mul_left}
use text.Mathlib.TextEquality.{starts_with_iff}
use text.Mathlib.TextPositions.{starts_with_of_prefix}
use text.Mathlib.TextLemmas.{append_assoc}
use multi_tenant_agentic_wor.Base.{
  ℕ, ◌+◌, ◌*◌, ◌≤◌, ◌≡◌, refl, sym, ◌∙◌, String, Bool, true, false, Option, none, some, [], ◌∷◌,
  arith, All, ◌==◌, if◌then◌else◌, string_eq, Bool-cases, inl, inr,
}
use multi_tenant_agentic_wor.Base.Dict
use multi_tenant_agentic_wor.Base.Dict.{Dict}
use multi_tenant_agentic_wor.Cost.{
  Prices, opus, sonnet, gpt_4o, gpt_4o_mini, price_table, match_family, fallback, family_or,
  known_or, resolve_prices, calculate_cost,
}

-- The price lies between those of the cheapest and the dearest model of the table.
abbrev InRange : Prices → Type 0
InRange p =
    ((gpt_4o_mini.input ≤ p.input) × (p.input ≤ opus.input))
    × ((gpt_4o_mini.output ≤ p.output) × (p.output ≤ opus.output))

abbrev MaybeInRange : Option Prices → Type 0
MaybeInRange none = Unit
MaybeInRange (some p) = InRange p

get?-InRange :
    (d : Dict String Prices) (k : String) → All (λ e. InRange e.1) d → MaybeInRange (Dict.get? d k)
unfolding Dict.get?
get?-InRange [] k h = tt
get?-InRange ((j, p) ∷ d) k h = elim (Bool-cases (j == k)) [
  | inl e ↦ rw e h.0
  | inr e ↦ rw e (get?-InRange d k h.1)
]

match_family-InRange :
    (s : String) (d : Dict String Prices)
    → All (λ e. InRange e.1) d
    → MaybeInRange (match_family s d)
unfolding match_family
match_family-InRange s [] h = tt
match_family-InRange s ((j, p) ∷ d) h = elim (Bool-cases (starts_with s j)) [
  | inl e ↦ rw e h.0
  | inr e ↦ rw e (match_family-InRange s d h.1)
]

choose-InRange : (b : Bool) (p q : Prices) → InRange p → InRange q → InRange (if b then p else q)
choose-InRange true p q hp hq = hp
choose-InRange false p q hp hq = hq

opus-InRange : InRange opus
opus-InRange = ((omega arith, omega arith), (omega arith, omega arith))

sonnet-InRange : InRange sonnet
sonnet-InRange = ((omega arith, omega arith), (omega arith, omega arith))

gpt_4o-InRange : InRange gpt_4o
gpt_4o-InRange = ((omega arith, omega arith), (omega arith, omega arith))

gpt_4o_mini-InRange : InRange gpt_4o_mini
gpt_4o_mini-InRange = ((omega arith, omega arith), (omega arith, omega arith))

price_table-InRange : All (λ (e : String × Prices). InRange e.1) price_table
price_table-InRange = (gpt_4o-InRange, (gpt_4o_mini-InRange, (sonnet-InRange, (opus-InRange, tt))))

fallback-InRange : (s : String) → InRange (fallback s)
fallback-InRange s =
    choose-InRange _ _ _ opus-InRange
      (choose-InRange _ _ _ sonnet-InRange (choose-InRange _ _ _ gpt_4o_mini-InRange opus-InRange))

family_or-InRange : (s : String) (o : Option Prices) → MaybeInRange o → InRange (family_or s o)
family_or-InRange s none h = fallback-InRange s
family_or-InRange s (some p) h = h

known_or-InRange :
    (lower : String → String) (m : String) (o : Option Prices)
    → MaybeInRange o
    → InRange (known_or lower m o)
known_or-InRange lower m none h =
    family_or-InRange (lower m) (match_family (lower m) price_table)
      (match_family-InRange (lower m) price_table price_table-InRange)
known_or-InRange lower m (some p) h = h

-- Whatever the model is called, a call costs at least what GPT-4o mini and at most what Claude Opus
-- costs for the same tokens.
pub calculate_cost_bounds :
    (lower : String → String) (model : String) (input output : ℕ)
    → (input * 15 + output * 60 ≤ calculate_cost lower model input output)
      × (calculate_cost lower model input output ≤ input * 1500 + output * 7500)
unfolding calculate_cost resolve_prices
calculate_cost_bounds lower model input output =
    let ((a, b), (c, d)) =
      known_or-InRange lower model _ (get?-InRange price_table model price_table-InRange) in
    (
      omega (arith, mul-le-mul_left input a, mul-le-mul_left output c),
      omega (arith, mul-le-mul_left input b, mul-le-mul_left output d),
    )

-- What starts with the longer name starts with the shorter one.
starts_with_family :
    (s : String) → starts_with s "gpt-4o-mini" ≡ true → starts_with s "gpt-4o" ≡ true
starts_with_family s h =
    let (rest, e) = (starts_with_iff s "gpt-4o-mini").0 h in
    starts_with_of_prefix "gpt-4o" s
      (text_append "-mini" rest, sym (append_assoc "gpt-4o" "-mini" rest) ∙ e)

-- A model that is not a name of the table and whose name in lower case starts with gpt-4o-mini has the
-- price of GPT-4o, 250 and 1000 units for each token, not that of GPT-4o mini.
pub calculate_cost_dated_mini :
    (lower : String → String) (model : String) (input output : ℕ)
    → Dict.get? price_table model ≡ none
    → starts_with (lower model) "gpt-4o-mini" ≡ true
    → calculate_cost lower model input output ≡ input * 250 + output * 1000
unfolding calculate_cost resolve_prices match_family
calculate_cost_dated_mini lower model input output new mini =
    rw new (rw (starts_with_family (lower model) mini) refl)
