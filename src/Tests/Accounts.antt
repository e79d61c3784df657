-- ===== src/Tests/Accounts.antt =====
-- Refresh tokens of the small instance.
use multi_tenant_agentic_wor.Base.{
  ◌≡◌, ◌≢◌, refl, true, false, none, some, [], ◌∷◌, arith, ok, err, find_where, update_where,
  string_eq, nat_eq,
}
use multi_tenant_agentic_wor.Base.Json
use multi_tenant_agentic_wor.Base.Json.{Json, Fields}
use multi_tenant_agentic_wor.Tables.{User, RefreshToken}
use multi_tenant_agentic_wor.Store.{World}
use multi_tenant_agentic_wor.Auth.{
  token_reused, Crypto, TokenPair, read_claims, rotate, issue_token_pair, refresh_tokens,
}
use multi_tenant_agentic_wor.Auth.Sessions.{IsDead, AuthReach}
use multi_tenant_agentic_wor.Auth.Rotation.{
  IsNumbered, DecodesAlike, refresh_tokens_once, refresh_tokens_replayed,
}
use multi_tenant_agentic_wor.Tests.{texts, idle_world}

abbrev payload : Fields
payload = Fields.field "type" (Json.str "refresh") (
    Fields.field "sub" (Json.str "7")
      (Fields.field "tenant_id" (Json.str "7") (Fields.field "jti" (Json.str "7") Fields.end)))

abbrev crypto : Crypto
crypto = record {
  jwt_encode = λ p. "jwt";
  jwt_decode = λ n s. some payload;
  sha256 = λ s. s;
  bcrypt = λ salt p. "hash";
  bcrypt_verify = λ p h. true;
  access_minutes = 15;
  refresh_days = 7;
}

abbrev user : User
user = record {
  id = 7;
  tenant_id = 7;
  email = "ann@acme.com";
  password_hash = "hash";
  full_name = none;
  role = "owner";
  is_active = true;
  must_change_password = false;
  created_at = 1;
}

abbrev token_row : RefreshToken
token_row = record {
  id = 7;
  user_id = 7;
  tenant_id = 7;
  token_hash = "old";
  expires_at = 1000;
  revoked_at = none;
  replaced_by_id = none;
}

abbrev session_world : World
session_world = record idle_world { users = user ∷ []; refresh_tokens = token_row ∷ [] }

abbrev exchanged : TokenPair × World
exchanged = rotate texts crypto token_row user session_world

session-IsNumbered : IsNumbered session_world
session-IsNumbered = (omega arith, tt)

payload-DecodesAlike : DecodesAlike texts crypto "old"
payload-DecodesAlike n m p q hp hq = ground arith

exchanged_once : refresh_tokens texts crypto session_world "old" ≡ (ok (exchanged.0), exchanged.1)
unfolding refresh_tokens read_claims Json.get rotate issue_token_pair find_where update_where
exchanged_once = refl

refresh_tokens_once_example : (refresh_tokens texts crypto exchanged.1 "old").0 ≢ ok (exchanged.0)
refresh_tokens_once_example =
    refresh_tokens_once texts crypto session_world exchanged.1 "old" exchanged.0 exchanged.1
      session-IsNumbered payload-DecodesAlike exchanged_once AuthReach.here exchanged.0

refresh_tokens_replayed_example :
    (w : World) × (refresh_tokens texts crypto exchanged.1 "old" ≡ (err token_reused, w))
    × IsDead exchanged.0.token_id w
refresh_tokens_replayed_example =
    refresh_tokens_replayed texts crypto session_world "old" exchanged.0 exchanged.1
      session-IsNumbered exchanged_once
