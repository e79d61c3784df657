-- ===== src/Texts.antt =====
-- What the services read from and write into texts by Python's own library: the text of an identifier
-- and of a time, their readers, lower case and white space by the Unicode tables, and encoding.
use text.Mathlib.Text.{starts_with}
use multi_tenant_agentic_wor.Base.{
  ◌||◌, ◌==◌, string_eq, List, ℕ, zero, suc, String, Bool, true, false, Option, none, some,
  if◌then◌else◌,
}
use multi_tenant_agentic_wor.Base.Int.{ℤ, pos, at_least_one}
use multi_tenant_agentic_wor.Base.Json
use multi_tenant_agentic_wor.Base.Json.{Json, Fields, as_dict, is_text, is_true}

pub record Texts : Type 0 where
  pub show_id : ℕ → String
  pub show_time : ℕ → String
  pub read_time : String → Option ℕ
  pub read_int : String → Option ℤ
  pub lower : String → String
  pub strip : String → String
  pub utf8 : String → List ℕ
  pub read_id : String → Option ℕ
  pub is_space : ℕ → Bool

-- `input_data if isinstance(input_data, dict) else {}`.
abbrev pub input_dict : Option Json → Fields
input_dict = as_dict

-- `input_data.get("dispatch")`, where it is a dict.
abbrev pub dispatch_metadata : Option Json → Fields
dispatch_metadata input = as_dict (Json.get "dispatch" (input_dict input))

-- `trigger.get("type") == "webhook"`.
abbrev pub is_webhook_trigger : Option Json → Bool
is_webhook_trigger input =
    is_text (Json.get "type" (as_dict (Json.get "trigger" (input_dict input)))) "webhook"

module _ (t : Texts) where
  -- `int(value)`; `none` stands for a TypeError or a ValueError.
  abbrev pub to_int : Option Json → Option ℤ
  to_int (some (Json.num n)) = some n
  to_int (some (Json.bool true)) = some (pos 1)
  to_int (some (Json.bool false)) = some (pos 0)
  to_int (some (Json.str s)) = t.read_int s
  to_int _ = none

  abbrev pub attempt_of : Option ℤ → ℕ
  attempt_of none = 1
  attempt_of (some n) = at_least_one n

  -- `_attempt_number`, and `_get_dispatch_attempt` of the execution service.
  unfoldable pub attempt_number : Option Json → ℕ
  attempt_number input = attempt_of (to_int (Json.get "attempt" (dispatch_metadata input)))

-- `dispatch.get("root_execution_id") or own`.
abbrev pub root_or : Option Json → Json → Json
root_or none own = own
root_or (some v) own = if Json.truthy v then v else own

-- `s[:n]`.
abbrev pub first_chars : ℕ → String → String
first_chars zero s = ""
first_chars (suc n) String.[] = ""
first_chars (suc n) (String.◌∷◌ c s) = String.◌∷◌ c (first_chars n s)

-- `part in s`.
abbrev pub has_text : String → String → Bool
has_text String.[] part = part == ""
has_text (String.◌∷◌ c s) part = starts_with (String.◌∷◌ c s) part || has_text s part
