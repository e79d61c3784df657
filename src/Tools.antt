-- ===== src/Tools.antt =====
-- backend/app/services/tool_service.py: the tools of a tenant, whose secrets are masked when they are
-- read and kept when a masked value comes back. An operation that raises leaves the world as it was. The
-- check of URLs in backend/app/engine/tools/safe_http.py, a regular expression and str.upper are
-- arguments.
use text.Mathlib.Text.{starts_with}
use multi_tenant_agentic_wor.Base.{
  ℕ, suc, String, Bool, true, false, not, ◌&&◌, ◌||◌, Option, none, some, List, [], ◌∷◌, ◌++◌, map,
  ◌==◌, if◌then◌else◌, leb, contains, find_where, select_where, update_where, Result, ok, err,
  require, ◌>>=◌, ◌>>◌, nat_eq, string_eq,
}
use multi_tenant_agentic_wor.Base.Json
use multi_tenant_agentic_wor.Base.Json.{Json, Fields}
use multi_tenant_agentic_wor.Tables.{Tool}
use multi_tenant_agentic_wor.Store.{World}
use multi_tenant_agentic_wor.Texts.{Texts, has_text}
use multi_tenant_agentic_wor.Health.{is_present}

pub data ToolError : Type 0 where
  url_required invalid_url invalid_method method_not_text : ToolError
  connection_string_required base_path_required tool_exists tool_not_found : ToolError
  unsafe_url : String → ToolError

-- `safe_url` answers the text of the ValueError that `assert_safe_api_url` raises.
pub record UrlRules : Type 0 where
  pub safe_url : String → Option String
  pub upper : String → String
  pub mask_connection : String → String

abbrev pub is_masked_placeholder : Json → Bool
is_masked_placeholder (Json.str s) = has_text s "****"
is_masked_placeholder _ = false

abbrev pub kept_value : Option Json → Json → Json
kept_value none v = v
kept_value (some old) v = if is_masked_placeholder v then old else v

-- The headers that come in, where a masked one keeps the stored value.
unfoldable pub merge_headers : Fields → Fields → Fields
merge_headers existing Json.end = Json.end
merge_headers existing (Json.field k v d) =
    Json.field k (kept_value (Json.get k existing) v) (merge_headers existing d)

unfoldable pub merge_database_config : Fields → Fields → Fields
merge_database_config merged Json.end = merged
merge_database_config merged (Json.field k v d) =
    merge_database_config
      (if k == "connection_string" && is_masked_placeholder v then merged else Json.put k v merged)
      d

abbrev pub sensitive_keys : List String
sensitive_keys = "authorization" ∷ "api-key" ∷ "x-api-key" ∷ "apikey" ∷ []

module _ (t : Texts) (u : UrlRules) where
  -- `_assert_safe_api_url`.
  unfoldable pub assert_safe_url : String → Result ToolError (Unit {0})
  assert_safe_url s = elim (u.safe_url s) [ none ↦ ok tt | some detail ↦ err (unsafe_url detail) ]

  -- One key of `_merge_api_config`.
  unfoldable pub merge_api_key : String → Json → Fields → Result ToolError Fields
  unfolding merge_headers assert_safe_url
  merge_api_key k (Json.obj headers) merged = ok (
      if k == "headers"
      then Json.put "headers"
          (Json.obj (merge_headers (Json.as_dict (Json.get "headers" merged)) headers)) merged
      else Json.put k (Json.obj headers) merged)
  merge_api_key k (Json.str s) merged = do
    if k == "url" then assert_safe_url s else ok tt
    ok (Json.put k (Json.str s) merged)
  merge_api_key k v merged = ok (Json.put k v merged)

  unfoldable pub merge_api_config : Fields → Fields → Result ToolError Fields
  unfolding merge_api_key
  merge_api_config merged Json.end = ok merged
  merge_api_config merged (Json.field k v d) = do
    merged' ← merge_api_key k v merged
    merge_api_config merged' d

  unfoldable pub mask_headers : Fields → Fields
  unfolding contains
  mask_headers Json.end = Json.end
  mask_headers (Json.field k v d) =
      Json.field k (if contains sensitive_keys (t.lower k) then Json.str "****" else v)
        (mask_headers d)

  -- A connection string that is no text, which the regular expression refuses, is left.
  abbrev pub mask_connection_of : Option Json → Fields → Fields
  mask_connection_of (some (Json.str s)) d =
      Json.put "connection_string" (Json.str (u.mask_connection s)) d
  mask_connection_of _ d = d

  abbrev pub mask_headers_of : Option Json → Fields → Fields
  unfolding mask_headers
  mask_headers_of (some (Json.obj headers)) d =
      Json.put "headers" (Json.obj (mask_headers headers)) d
  mask_headers_of _ d = d

  unfoldable pub mask_config : Fields → String → Fields
  unfolding mask_headers
  mask_config d kind =
      let masked =
        if kind == "database" then mask_connection_of (Json.get "connection_string" d) d else d in
      if kind == "api" then mask_headers_of (Json.get "headers" masked) masked else masked

  -- `_tool_response`.
  unfoldable pub tool_response : Tool → Tool
  unfolding mask_config
  tool_response x = record x { config = mask_config x.config x.tool_type }

  abbrev pub text_url : Option Json → Result ToolError String
  text_url (some (Json.str s)) = if s == "" then err url_required else ok s
  text_url _ = err url_required

  -- `config.get("method", "GET")`; another value than a text raises an AttributeError.
  abbrev pub text_method : Option Json → Result ToolError String
  text_method none = ok "GET"
  text_method (some (Json.str s)) = ok s
  text_method (some v) = err method_not_text

  unfoldable pub validate_api_config : Fields → Result ToolError (Unit {0})
  unfolding contains assert_safe_url
  validate_api_config d = do
    url ← text_url (Json.get "url" d)
    require (starts_with url "http://" || starts_with url "https://") invalid_url
    method ← text_method (Json.get "method" d)
    require (contains ("GET" ∷ "POST" ∷ "PUT" ∷ "DELETE" ∷ []) (u.upper method)) invalid_method
    assert_safe_url url

  unfoldable pub validate_config : String → Fields → Result ToolError (Unit {0})
  unfolding validate_api_config
  validate_config kind d =
      if kind == "api"
      then validate_api_config d
      else (if kind == "database"
          then require (is_present (Json.get "connection_string" d)) connection_string_required
          else (if kind == "file_system"
              then require (is_present (Json.get "base_path" d)) base_path_required
              else ok tt))

  abbrev pub is_named : ℕ → String → Tool → Bool
  is_named tenant name x = x.tenant_id == tenant && x.name == name && x.is_active

  abbrev pub no_tool : Option Tool → Bool
  no_tool none = true
  no_tool (some x) = false

  abbrev pub new_tool : World → ℕ → String → String → String → Fields → Tool
  new_tool w tenant name description kind d = record {
    id = w.next_id;
    tenant_id = tenant;
    name = name;
    description = description;
    tool_type = kind;
    config = d;
    is_active = true;
    created_at = w.clock;
  }

  unfoldable pub create_tool :
      World → ℕ → String → String → String → Fields → Result ToolError (Tool × World)
  unfolding validate_config tool_response find_where
  create_tool w tenant name description kind d = do
    validate_config kind d
    require (no_tool (find_where (is_named tenant name) w.tools)) tool_exists
    let x = new_tool w tenant name description kind d
    ok (tool_response x, record w { tools = w.tools ++ x ∷ []; next_id = suc w.next_id })

  -- `order_by(created_at)`.
  unfoldable pub insert_tool : Tool → List Tool → List Tool
  insert_tool x [] = x ∷ []
  insert_tool x (y ∷ ys) =
      let rest = insert_tool x ys in if leb x.created_at y.created_at then x ∷ y ∷ ys else y ∷ rest

  unfoldable pub order_tools : List Tool → List Tool
  unfolding insert_tool
  order_tools [] = []
  order_tools (x ∷ xs) = insert_tool x (order_tools xs)

  unfoldable pub list_tools : World → ℕ → List Tool
  unfolding order_tools tool_response select_where
  list_tools w tenant =
      map tool_response
        (order_tools (select_where (λ x. x.tenant_id == tenant && x.is_active) w.tools))

  abbrev pub is_current_tool : ℕ → ℕ → Tool → Bool
  is_current_tool tenant i x = x.id == i && x.tenant_id == tenant && x.is_active

  abbrev pub tool_or_missing : Option Tool → Result ToolError Tool
  tool_or_missing none = err tool_not_found
  tool_or_missing (some x) = ok x

  unfoldable pub get_tool : World → ℕ → ℕ → Result ToolError Tool
  unfolding find_where
  get_tool w tenant i = tool_or_missing (find_where (is_current_tool tenant i) w.tools)

  abbrev pub given_or {ℓ} : {A : Type ℓ} → Option A → A → A
  given_or none a = a
  given_or (some b) a = b

  abbrev pub check_name : World → ℕ → ℕ → Tool → Option String → Result ToolError (Unit {0})
  unfolding find_where
  check_name w tenant i x none = ok tt
  check_name w tenant i x (some name) =
      require
        (name == x.name
          || no_tool (find_where (λ y. is_named tenant name y && not (y.id == i)) w.tools))
        tool_exists

  unfoldable pub merged_config : Tool → String → Fields → Result ToolError Fields
  unfolding merge_api_config merge_database_config
  merged_config x kind d =
      if x.tool_type == "api" && kind == "api"
      then merge_api_config x.config d
      else (if x.tool_type == "database" && kind == "database"
          then ok (merge_database_config x.config d)
          else ok d)

  -- The configuration after an update: a new one is merged and validated, and the stored one is
  -- validated when only the type changes.
  unfoldable pub updated_config : Tool → Option String → Option Fields → Result ToolError Fields
  unfolding merged_config validate_config
  updated_config x kind (some d) = do
    let effective = given_or kind x.tool_type
    d' ← merged_config x effective d
    validate_config effective d'
    ok d'
  updated_config x (some kind) none = do validate_config kind x.config; ok x.config
  updated_config x none none = ok x.config

  unfoldable pub update_tool :
      World
      → ℕ
      → ℕ
      → Option String
      → Option String
      → Option String
      → Option Fields
      → Result ToolError (Tool × World)
  unfolding get_tool updated_config tool_response update_where
  update_tool w tenant i name description kind d = do
    x ← get_tool w tenant i
    check_name w tenant i x name
    d' ← updated_config x kind d
    let y : Tool = record x {
      name = given_or name x.name;
      description = given_or description x.description;
      tool_type = given_or kind x.tool_type;
      config = d';
    }
    ok (
      tool_response y,
      record w { tools = update_where (is_current_tool tenant i) (λ _. y) w.tools },
    )

  unfoldable pub delete_tool : World → ℕ → ℕ → Result ToolError World
  unfolding get_tool update_where
  delete_tool w tenant i = do
    x ← get_tool w tenant i
    ok (record w {
      tools = update_where (is_current_tool tenant i) (λ y. record y { is_active = false }) w.tools;
    })
