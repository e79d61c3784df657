-- ===== src/Cost.antt =====
-- backend/app/engine/cost.py: the price of a call of a language model. A price of 1 USD for a million
-- tokens is 100 units of 1e-8 USD for each token, so the rounding to eight places changes nothing.
pub mod Families
use text.Mathlib.Text.{starts_with, find?}
use multi_tenant_agentic_wor.Base.{
  ℕ, ◌+◌, ◌*◌, String, Bool, true, false, ◌||◌, Option, none, some, List, [], ◌∷◌, ◌==◌,
  if◌then◌else◌, string_eq,
}
use multi_tenant_agentic_wor.Base.Dict
use multi_tenant_agentic_wor.Base.Dict.{Dict}

pub record Prices : Type 0 where
  pub input : ℕ
  pub output : ℕ

abbrev pub opus : Prices
opus = record { input = 1500; output = 7500 }

abbrev pub sonnet : Prices
sonnet = record { input = 300; output = 1500 }

abbrev pub gpt_4o : Prices
gpt_4o = record { input = 250; output = 1000 }

abbrev pub gpt_4o_mini : Prices
gpt_4o_mini = record { input = 15; output = 60 }

-- COST_PER_1M_TOKENS, in its order.
abbrev pub price_table : Dict String Prices
price_table =
    ("gpt-4o", gpt_4o)
    ∷ ("gpt-4o-mini", gpt_4o_mini)
    ∷ ("claude-sonnet", sonnet)
    ∷ ("claude-opus", opus)
    ∷ []

-- The first entry whose name the model starts with.
unfoldable pub match_family : String → Dict String Prices → Option Prices
match_family lowered [] = none
match_family lowered ((known, p) ∷ d) =
    if starts_with lowered known then some p else match_family lowered d

-- `needle in text`.
abbrev pub names : String → String → Bool
names text needle = elim (find? text needle) [ none ↦ false | some n ↦ true ]

abbrev pub fallback : String → Prices
fallback lowered =
    if names lowered "opus"
    then opus
    else if names lowered "sonnet"
    then sonnet
    else if starts_with lowered "gpt-4o-mini" || names lowered "mini"
    then gpt_4o_mini
    else opus

abbrev pub family_or : String → Option Prices → Prices
family_or lowered none = fallback lowered
family_or lowered (some p) = p

abbrev pub known_or : (String → String) → String → Option Prices → Prices
known_or lower model none = family_or (lower model) (match_family (lower model) price_table)
known_or lower model (some p) = p

-- `lower` is `str.lower`.
unfoldable pub resolve_prices : (String → String) → String → Prices
unfolding match_family
resolve_prices lower model = known_or lower model (Dict.get? price_table model)

unfoldable pub calculate_cost : (String → String) → String → ℕ → ℕ → ℕ
unfolding resolve_prices
calculate_cost lower model input_tokens output_tokens =
    let p = resolve_prices lower model in input_tokens * p.input + output_tokens * p.output

unfoldable pub estimate_cost : (String → String) → String → ℕ → ℕ → ℕ
unfolding calculate_cost
estimate_cost = calculate_cost
