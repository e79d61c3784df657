-- ===== src/Auth/Users.antt =====
-- The users of a tenant and their passwords: the other operations of
-- backend/app/services/auth_service.py, each of which leaves the world as it was when it raises.
use Prim.Native.String.{◌++◌ as text_append}
use Prim.Native.Char.{Char, code}
use multi_tenant_agentic_wor.Base.{
  ℕ, suc, String, Bool, true, false, not, ◌&&◌, ◌||◌, Option, none, some, List, [], ◌∷◌, ◌++◌, ◌==◌,
  if◌then◌else◌, leb, take, any_where, find_where, select_where, update_where, Result, ok, err,
  require, ◌>>=◌, ◌>>◌, string_eq, nat_eq,
}
use multi_tenant_agentic_wor.Tables.{User}
use multi_tenant_agentic_wor.Store.{Tenant, World}
use multi_tenant_agentic_wor.Texts.{Texts, first_chars}
use multi_tenant_agentic_wor.Auth.{
  AuthError, Crypto, or_fail, TokenPair, find_user, revoke_refresh_tokens, issue_token_pair,
}

abbrev pub bcrypt_max_bytes : ℕ
bcrypt_max_bytes = 72

abbrev pub is_between : ℕ → ℕ → ℕ → Bool
is_between lo hi n = leb lo n && leb n hi

-- The code point of a hyphen.
abbrev pub dash : ℕ
dash = 45

-- `[a-z0-9]`, by code points.
abbrev pub is_plain : ℕ → Bool
is_plain n = is_between 97 122 n || is_between 48 57 n

-- What `register` returns.
pub record Registered : Type 0 where
  pub user_id : ℕ
  pub tenant_id : ℕ
  pub tokens : TokenPair

module _ (t : Texts) where
  abbrev pub normalize_email : String → String
  normalize_email email = t.lower (t.strip email)

  -- `[\s-]`.
  abbrev pub is_gap : Char → Bool
  is_gap c = t.is_space (code c) || code c == dash

  -- `re.sub(r"[^a-z0-9\s-]", "", slug)`.
  unfoldable pub keep_plain : String → String
  keep_plain String.[] = ""
  keep_plain (String.◌∷◌ c s) =
      let rest = keep_plain s in if is_plain (code c) || is_gap c then String.◌∷◌ c rest else rest

  -- `re.sub(r"[\s-]+", "-", slug)`, where the flag says that a run has begun.
  unfoldable pub join_gaps : Bool → String → String
  join_gaps begun String.[] = ""
  join_gaps begun (String.◌∷◌ c s) =
      let inside = join_gaps true s in
      let outside = join_gaps false s in
      if is_gap c then (if begun then inside else String.◌∷◌ "-" inside) else String.◌∷◌ c outside

  unfoldable pub slugify : String → String
  unfolding keep_plain join_gaps
  slugify name = join_gaps false (keep_plain (t.strip (t.lower name)))

  -- `func.lower(User.email) == normalized_email`.
  abbrev pub has_email : String → User → Bool
  has_email email u = t.lower u.email == email

  abbrev pub owner_error : ℕ → Option User → Result AuthError (Unit {0})
  owner_error tenant none = ok tt
  owner_error tenant (some u) =
      if u.tenant_id == tenant then err AuthError.in_this_tenant else err AuthError.in_other_tenant

  abbrev pub find_member : World → ℕ → ℕ → Option User
  find_member w tenant i = find_where (λ u. u.id == i && u.tenant_id == tenant) w.users

  module _ (c : Crypto) where
    -- `hash_password` and `verify_password`: bcrypt of the first 72 bytes.
    abbrev pub hash_password : ℕ → String → String
    hash_password salt password = c.bcrypt salt (take bcrypt_max_bytes (t.utf8 password))

    abbrev pub verify_password : String → String → Bool
    verify_password password hashed =
        c.bcrypt_verify (take bcrypt_max_bytes (t.utf8 password)) hashed

    -- A slug that is taken gets the first characters of a new identifier.
    unfoldable pub fresh_slug : String → World → String × World
    unfolding slugify
    fresh_slug name w =
        if any_where (λ x. x.slug == slugify name) w.tenants
        then (
          text_append (slugify name) (text_append "-" (first_chars 8 (t.show_id w.next_id))),
          record w { next_id = suc w.next_id },
        )
        else (slugify name, w)

    abbrev pub new_tenant : ℕ → String → String → World → Tenant
    new_tenant i name slug w = record {
      id = i;
      name = name;
      slug = slug;
      plan = some "free";
      tokens_used = 0;
      token_budget = 100000;
      max_workflows = 2;
      max_agents_per_workflow = 3;
      alert_policy = record {
        enabled = none;
        channels = none;
        severities = none;
        alert_codes = none;
        cooldown_minutes = none;
      };
      worker_config = record { enabled = none; interval_minutes = none; max_plans_per_run = none };
      created_at = w.clock;
    }

    -- A row of `users`, and its identifier and salt.
    abbrev pub new_user : World → ℕ → String → String → String → String → Bool → User
    new_user w tenant email password full_name role must_change = record {
      id = w.next_id;
      tenant_id = tenant;
      email = email;
      password_hash = hash_password (suc w.next_id) password;
      full_name = some full_name;
      role = role;
      is_active = true;
      must_change_password = must_change;
      created_at = w.clock;
    }

    unfoldable pub add_user : User → World → World
    add_user u w = record w { users = w.users ++ u ∷ []; next_id = suc (suc w.next_id) }

    unfoldable pub add_tenant : String → String → World → ℕ × World
    add_tenant name slug w = (
      w.next_id,
      record w {
        tenants = w.tenants ++ new_tenant w.next_id name slug w ∷ [];
        next_id = suc w.next_id;
      },
    )

    unfoldable pub register :
        World → String → String → String → String → Result AuthError (Registered × World)
    unfolding fresh_slug add_tenant add_user issue_token_pair
    register w email password full_name tenant_name = do
      let normalized = normalize_email email
      require (not (any_where (has_email normalized) w.users)) AuthError.email_taken
      let (slug, w₁) = fresh_slug tenant_name w
      let (tenant, w₂) = add_tenant tenant_name slug w₁
      let u = new_user w₂ tenant normalized password full_name "owner" false
      let (pair, w₃) = issue_token_pair t c u (add_user u w₂)
      ok (record { user_id = u.id; tenant_id = tenant; tokens = pair }, w₃)

    unfoldable pub login : World → String → String → Result AuthError ((TokenPair × User) × World)
    unfolding issue_token_pair
    login w email password = do
      u ←
          or_fail (find_where (has_email (normalize_email email)) w.users)
            AuthError.invalid_credentials
      require (verify_password password u.password_hash) AuthError.invalid_credentials
      require u.is_active AuthError.deactivated
      ok (((issue_token_pair t c u w).0, u), (issue_token_pair t c u w).1)

    -- `not current_password`.
    abbrev pub check_current : User → Option String → Result AuthError (Unit {0})
    check_current u none = err AuthError.current_password_required
    check_current u (some s) =
        if s == ""
        then err AuthError.current_password_required
        else require (verify_password s u.password_hash) AuthError.wrong_password

    abbrev pub check_change : User → Option String → Result AuthError (Unit {0})
    check_change u current = if u.must_change_password then ok tt else check_current u current

    abbrev pub rename_user : Option String → User → User
    rename_user none u = u
    rename_user (some name) u = record u { full_name = some name }

    -- The new hash, and every refresh token of the user revoked.
    abbrev pub set_hash : User → String → World → World
    set_hash u password w = revoke_refresh_tokens u.id (record w {
      users =
          update_where (λ v. v.id == u.id)
            (λ v. record v {
              password_hash = hash_password w.next_id password;
              must_change_password = false;
            })
            w.users;
      next_id = suc w.next_id;
    })

    abbrev pub change_password :
        User → Option String → Option String → World → Result AuthError World
    change_password u none current w = ok w
    change_password u (some password) current w = do
      check_change u current
      ok (set_hash u password w)

    unfoldable pub update_profile :
        World → ℕ → Option String → Option String → Option String → Result AuthError (User × World)
    unfolding revoke_refresh_tokens
    update_profile w i full_name password current = do
      u ← or_fail (find_user w i) AuthError.user_not_found
      let w₁ = record w { users = update_where (λ v. v.id == i) (rename_user full_name) w.users }
      w₂ ← change_password u password current w₁
      v ← or_fail (find_user w₂ i) AuthError.server_error
      ok (v, w₂)

    unfoldable pub set_password :
        World → ℕ → String → Option String → Result AuthError ((User × TokenPair) × World)
    unfolding update_profile issue_token_pair
    set_password w i password current = do
      (u, w₁) ← update_profile w i none (some password) current
      let (pair, w₂) = issue_token_pair t c u w₁
      ok ((u, pair), w₂)

    -- The temporary password is text of a new identifier.
    unfoldable pub invite_user :
        World → ℕ → String → String → Result AuthError ((User × String) × World)
    unfolding add_user
    invite_user w tenant email role = do
      let normalized = normalize_email email
      owner_error tenant (find_where (has_email normalized) w.users)
      let temporary = first_chars 12 (t.show_id w.next_id)
      let w₁ : World = record w { next_id = suc w.next_id }
      let u = new_user w₁ tenant normalized temporary normalized role true
      ok ((u, temporary), add_user u w₁)

  unfoldable pub get_profile : World → ℕ → Result AuthError User
  get_profile w i = or_fail (find_user w i) AuthError.user_not_found

  unfoldable pub update_user_role : World → ℕ → ℕ → String → ℕ → Result AuthError (User × World)
  update_user_role w tenant i role current = do
    u ← or_fail (find_member w tenant i) AuthError.user_not_found
    require (not (u.id == current)) AuthError.own_role
    ok (
      record u { role = role },
      record w { users = update_where (λ v. v.id == u.id) (λ v. record v { role = role }) w.users },
    )

  -- `delete_row` is the ORM's deletion, with what it does to the rows that refer to the user.
  unfoldable pub remove_user : (User → World → World) → World → ℕ → ℕ → ℕ → Result AuthError World
  remove_user delete_row w tenant i current = do
    u ← or_fail (find_member w tenant i) AuthError.user_not_found
    require (not (u.id == current)) AuthError.own_removal
    ok (delete_row u w)

-- `order_by(User.created_at)`.
unfoldable pub insert_user : User → List User → List User
insert_user x [] = x ∷ []
insert_user x (y ∷ ys) =
    let rest = insert_user x ys in if leb x.created_at y.created_at then x ∷ y ∷ ys else y ∷ rest

unfoldable pub order_users : List User → List User
unfolding insert_user
order_users [] = []
order_users (x ∷ xs) = insert_user x (order_users xs)

unfoldable pub list_tenant_users : World → ℕ → List User
unfolding order_users select_where
list_tenant_users w tenant = order_users (select_where (λ u. u.tenant_id == tenant) w.users)
