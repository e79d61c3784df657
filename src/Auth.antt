-- ===== src/Auth.antt =====
-- backend/app/services/auth_service.py: refresh tokens, which are rotated at each use. Passwords and
-- users are in Auth/Users. The JWT, hash and bcrypt libraries are the record Crypto.
pub mod Rotation
pub mod Sessions
pub mod Users
use multi_tenant_agentic_wor.Base.{
  ℕ, suc, ◌+◌, ◌*◌, String, Bool, true, false, not, ◌&&◌, Option, none, some, List, [], ◌∷◌, ◌++◌,
  ◌==◌, if◌then◌else◌, leb, take, find_where, select_where, update_where, Result, ok, err, require,
  ◌>>=◌, ◌>>◌, string_eq, nat_eq,
}
use multi_tenant_agentic_wor.Base.Int.{pos}
use multi_tenant_agentic_wor.Base.Json
use multi_tenant_agentic_wor.Base.Json.{Json, Fields, is_text}
use multi_tenant_agentic_wor.Tables.{User, RefreshToken}
use multi_tenant_agentic_wor.Store.{World}
use multi_tenant_agentic_wor.Texts.{Texts}

-- The HTTPExceptions of the service; `server_error` is any other exception.
pub data AuthError : Type 0 where
  email_taken in_this_tenant in_other_tenant invalid_credentials deactivated user_not_found :
      AuthError
  invalid_token invalid_payload token_reused inactive_user : AuthError
  current_password_required wrong_password own_role own_removal server_error : AuthError

-- python-jose, hashlib, passlib and the settings: a JWT is decoded at a time, a bcrypt hash has a salt.
pub record Crypto : Type 0 where
  pub jwt_encode : Fields → String
  pub jwt_decode : ℕ → String → Option Fields
  pub sha256 : String → String
  pub bcrypt : ℕ → List ℕ → String
  pub bcrypt_verify : List ℕ → String → Bool
  pub access_minutes : ℕ
  pub refresh_days : ℕ

abbrev pub or_fail {ℓ} : {A : Type ℓ} → Option A → AuthError → Result AuthError A
or_fail none e = err e
or_fail (some a) e = ok a

-- What `_issue_token_pair` returns; `token_id` is that of the new row.
pub record TokenPair : Type 0 where
  pub access_token : String
  pub refresh_token : String
  pub token_id : ℕ

-- The identifiers of a decoded refresh token.
pub record Claims : Type 0 where
  pub user : ℕ
  pub tenant : ℕ
  pub token : ℕ

abbrev pub is_revoked : RefreshToken → Bool
is_revoked r = elim r.revoked_at [ none ↦ false | some n ↦ true ]

abbrev pub find_user : World → ℕ → Option User
find_user w i = find_where (λ u. u.id == i) w.users

-- `_revoke_refresh_tokens`.
unfoldable pub revoke_refresh_tokens : ℕ → World → World
revoke_refresh_tokens user w = record w {
  refresh_tokens =
      update_where (λ r. r.user_id == user && not (is_revoked r))
        (λ r. record r { revoked_at = some w.clock }) w.refresh_tokens;
}

abbrev seconds_per_day : ℕ
seconds_per_day = 24 * 60 * 60

-- `value is None`.
abbrev pub present : Option Json → Result AuthError Json
present none = err invalid_payload
present (some Json.null) = err invalid_payload
present (some v) = ok v

module _ (t : Texts) (c : Crypto) where
  unfoldable pub refresh_token_expiry : World → ℕ
  refresh_token_expiry w = w.clock + c.refresh_days * seconds_per_day

  unfoldable pub create_access_token : World → User → String
  create_access_token w u =
      let exp = w.clock + c.access_minutes * 60 in
      c.jwt_encode (
        Fields.field "sub" (Json.str (t.show_id u.id)) (
          Fields.field "tenant_id" (Json.str (t.show_id u.tenant_id)) (
            Fields.field "role" (Json.str u.role) (
              Fields.field "exp" (Json.num (pos exp))
                (Fields.field "type" (Json.str "access") Fields.end)))))

  unfoldable pub create_refresh_token_with_id : World → User → ℕ → String
  unfolding refresh_token_expiry
  create_refresh_token_with_id w u i = c.jwt_encode (
      Fields.field "sub" (Json.str (t.show_id u.id)) (
        Fields.field "tenant_id" (Json.str (t.show_id u.tenant_id)) (
          Fields.field "jti" (Json.str (t.show_id i)) (
            Fields.field "exp" (Json.num (pos (refresh_token_expiry w)))
              (Fields.field "type" (Json.str "refresh") Fields.end)))))

  unfoldable pub issue_token_pair : User → World → TokenPair × World
  unfolding create_access_token create_refresh_token_with_id refresh_token_expiry
  issue_token_pair u w =
      let refresh = create_refresh_token_with_id w u w.next_id in
      let row : RefreshToken = record {
        id = w.next_id;
        user_id = u.id;
        tenant_id = u.tenant_id;
        token_hash = c.sha256 refresh;
        expires_at = refresh_token_expiry w;
        revoked_at = none;
        replaced_by_id = none;
      } in
      (
        record {
          access_token = create_access_token w u;
          refresh_token = refresh;
          token_id = w.next_id;
        },
        record w { refresh_tokens = w.refresh_tokens ++ row ∷ []; next_id = suc w.next_id },
      )

  -- `UUID(value)`, which only catches a ValueError.
  abbrev pub read_uuid : Json → Result AuthError ℕ
  read_uuid (Json.str s) = or_fail (t.read_id s) invalid_payload
  read_uuid _ = err server_error

  -- The checks of the payload.
  unfoldable pub read_claims : Option Fields → Result AuthError Claims
  read_claims payload = do
    p ← or_fail payload invalid_token
    require (is_text (Json.get "type" p) "refresh") invalid_token
    sub ← present (Json.get "sub" p)
    tenant_id ← present (Json.get "tenant_id" p)
    jti ← present (Json.get "jti" p)
    user ← read_uuid sub
    tenant ← read_uuid tenant_id
    token ← read_uuid jti
    ok (record { user = user; tenant = tenant; token = token })

  abbrev pub is_row_of : Claims → String → RefreshToken → Bool
  is_row_of k token r =
      r.id == k.token
      && r.user_id == k.user
      && r.tenant_id == k.tenant
      && r.token_hash == c.sha256 token

  abbrev pub revoke_row : ℕ → ℕ → World → World
  revoke_row i now w = record w {
    refresh_tokens =
        update_where (λ r. r.id == i) (λ r. record r { revoked_at = some now }) w.refresh_tokens;
  }

  abbrev pub replace_row : ℕ → ℕ → World → World
  replace_row i new w = record w {
    refresh_tokens =
        update_where (λ r. r.id == i) (λ r. record r { replaced_by_id = some new })
          w.refresh_tokens;
  }

  -- The old row is revoked, a pair is issued, and the old row names its successor.
  unfoldable pub rotate : RefreshToken → User → World → TokenPair × World
  unfolding issue_token_pair
  rotate row u w =
      let (pair, w₁) = issue_token_pair u (revoke_row row.id w.clock w) in
      (pair, replace_row row.id pair.token_id w₁)

  abbrev pub refresh_user : World → RefreshToken → Option User → Result AuthError TokenPair × World
  refresh_user w row none = (err inactive_user, w)
  refresh_user w row (some u) =
      if u.is_active then (ok (rotate row u w).0, (rotate row u w).1) else (err inactive_user, w)

  -- A row that was revoked before is a token used twice: all tokens of the user go.
  abbrev pub refresh_row : World → Claims → Option RefreshToken → Result AuthError TokenPair × World
  refresh_row w k none = (err invalid_token, w)
  refresh_row w k (some row) =
      if is_revoked row
      then (err token_reused, revoke_refresh_tokens k.user w)
      else if leb row.expires_at w.clock
      then (err invalid_token, w)
      else refresh_user w row (find_user w k.user)

  abbrev pub refresh_claimed :
      World → String → Result AuthError Claims → Result AuthError TokenPair × World
  refresh_claimed w token (err e) = (err e, w)
  refresh_claimed w token (ok k) = refresh_row w k (find_where (is_row_of k token) w.refresh_tokens)

  -- The world after an error is the one that was committed before the exception.
  unfoldable pub refresh_tokens : World → String → Result AuthError TokenPair × World
  unfolding read_claims rotate revoke_refresh_tokens
  refresh_tokens w token = refresh_claimed w token (read_claims (c.jwt_decode w.clock token))

  -- The token of a logout; `none` where the code returns early or raises, which changes nothing.
  abbrev pub logout_id : Option Fields → Option ℕ
  logout_id none = none
  logout_id (some p) =
      if is_text (Json.get "type" p) "refresh" then as_id (Json.get "jti" p) else none
    where
      as_id : Option Json → Option ℕ
      as_id (some (Json.str s)) = if s == "" then none else t.read_id s
      as_id _ = none

  abbrev pub revoke_found : World → Option RefreshToken → World
  revoke_found w none = w
  revoke_found w (some row) = revoke_row row.id w.clock w

  abbrev pub revoke_id : World → String → Option ℕ → World
  revoke_id w token none = w
  revoke_id w token (some i) = revoke_found w (
      find_where (λ r. r.id == i && r.token_hash == c.sha256 token && not (is_revoked r))
        w.refresh_tokens)

  -- `revoke_refresh_token`, the logout.
  unfoldable pub revoke_refresh_token : World → String → World
  revoke_refresh_token w token = revoke_id w token (logout_id (c.jwt_decode w.clock token))
