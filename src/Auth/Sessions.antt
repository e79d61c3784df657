-- ===== src/Auth/Sessions.antt =====
-- What the operations do to a refresh token that is revoked: the steps of the service, any sequence of
-- them, and the rows of one identifier along it.
use multi_tenant_agentic_wor.Base.{
  ℕ, ◌<◌, ◌≤◌, ◌≡◌, refl, sym, subst, String, Bool, true, false, Option, none, some, arith, ◌==◌,
  nat_eq, leb, All, All-append, All-update_where, update_where, any_where, string_eq, Bool-cases,
  inl, inr, Result, ok, err, >>=-eq-ok, >>-eq-ok, ok-pair, ok-value, find_where,
}
use multi_tenant_agentic_wor.Tables.{User, RefreshToken}
use multi_tenant_agentic_wor.Store.{World}
use multi_tenant_agentic_wor.Texts.{Texts}
use multi_tenant_agentic_wor.Auth.{
  AuthError, Crypto, TokenPair, Claims, or_fail, is_revoked, find_user, revoke_refresh_tokens,
  issue_token_pair, revoke_row, replace_row, rotate, refresh_user, refresh_row, refresh_claimed,
  refresh_tokens, revoke_found, revoke_id, revoke_refresh_token,
}
use multi_tenant_agentic_wor.Auth.Users.{
  Registered, register, login, update_profile, set_password, change_password, set_hash, slugify,
  fresh_slug, add_tenant, add_user, check_change, has_email, normalize_email, new_user,
}

-- The identifier is given, and every row of it is revoked.
pub record IsDead (i : ℕ) (w : World) : Type 0 where
  pub given : i < w.next_id
  pub revoked : All (λ r. (r.id == i) ≡ true → is_revoked r ≡ true) w.refresh_tokens

-- The service's own operations, and whatever the rest of the system does to other tables.
pub data AuthStep (t : Texts) (c : Crypto) : World → World → Type 0 where
  refreshes : (w : World) (token : String) → AuthStep t c w (refresh_tokens t c w token).1
  logs_out : (w : World) (token : String) → AuthStep t c w (revoke_refresh_token t c w token)
  logs_in :
      {w w' : World} {r : TokenPair × User} (email password : String)
      → login t c w email password ≡ ok (r, w')
      → AuthStep t c w w'
  registers :
      {w w' : World} {r : Registered} (email password full_name tenant_name : String)
      → register t c w email password full_name tenant_name ≡ ok (r, w')
      → AuthStep t c w w'
  updates :
      {w w' : World} {u : User} (i : ℕ) (full_name password current : Option String)
      → update_profile t c w i full_name password current ≡ ok (u, w')
      → AuthStep t c w w'
  sets_password :
      {w w' : World} {r : User × TokenPair} (i : ℕ) (password : String) (current : Option String)
      → set_password t c w i password current ≡ ok (r, w')
      → AuthStep t c w w'
  elsewhere :
      {w w' : World}
      → w'.refresh_tokens ≡ w.refresh_tokens
      → w.next_id ≤ w'.next_id
      → AuthStep t c w w'

pub data AuthReach (t : Texts) (c : Crypto) (w : World) : World → Type 0 where
  here : AuthReach t c w w
  next : {v u : World} → AuthReach t c w v → AuthStep t c v u → AuthReach t c w u

module _ (t : Texts) (c : Crypto) (i : ℕ) where
  -- Updates that keep the identifier and revoke nothing back.
  update-IsDead :
      (p : RefreshToken → Bool) (f : RefreshToken → RefreshToken) (w : World)
      → ((r : RefreshToken) → (f r).id ≡ r.id)
      → ((r : RefreshToken) → is_revoked r ≡ true → is_revoked (f r) ≡ true)
      → IsDead i w
      → IsDead i (record w { refresh_tokens = update_where p f w.refresh_tokens })
  update-IsDead p f w same keep d = record {
    given = d.given;
    revoked =
        All-update_where (λ r. (r.id == i) ≡ true → is_revoked r ≡ true) p f w.refresh_tokens
          (λ r _ h own. keep r (h (rw (same r) at own))) d.revoked;
  }

  revoke-IsDead : (user : ℕ) (w : World) → IsDead i w → IsDead i (revoke_refresh_tokens user w)
  unfolding revoke_refresh_tokens
  revoke-IsDead user w d = update-IsDead _ _ w (λ r. refl) (λ r h. refl) d

  revoke_row-IsDead : (k n : ℕ) (w : World) → IsDead i w → IsDead i (revoke_row t c k n w)
  revoke_row-IsDead k n w d = update-IsDead _ _ w (λ r. refl) (λ r h. refl) d

  pub replace_row-IsDead : (k n : ℕ) (w : World) → IsDead i w → IsDead i (replace_row t c k n w)
  replace_row-IsDead k n w d = update-IsDead _ _ w (λ r. refl) (λ r h. h) d

  -- A new row has a new identifier.
  pub issue-IsDead : (u : User) (w : World) → IsDead i w → IsDead i (issue_token_pair t c u w).1
  unfolding issue_token_pair
  issue-IsDead u w d = record {
    given = omega (arith, d.given);
    revoked =
        All-append (λ r. (r.id == i) ≡ true → is_revoked r ≡ true) w.refresh_tokens _ d.revoked
          ((λ own. absurd (clash w.next_id own d.given)), tt);
  }
    where
      clash : (n : ℕ) → (n == i) ≡ true → i < n → ⊥
      clash n own lt = ground arith

  rotate-IsDead :
      (row : RefreshToken) (u : User) (w : World) → IsDead i w → IsDead i (rotate t c row u w).1
  unfolding rotate
  rotate-IsDead row u w d =
      replace_row-IsDead _ _ _ (issue-IsDead u _ (revoke_row-IsDead row.id w.clock w d))

  refresh_user-IsDead :
      (w : World) (row : RefreshToken) (u : Option User)
      → IsDead i w
      → IsDead i (refresh_user t c w row u).1
  unfolding rotate
  refresh_user-IsDead w row none d = d
  refresh_user-IsDead w row (some u) d = elim (Bool-cases u.is_active) [
    | inl e ↦ rw e (rotate-IsDead row u w d)
    | inr e ↦ rw e d
  ]

  refresh_row-IsDead :
      (w : World) (k : Claims) (row : Option RefreshToken)
      → IsDead i w
      → IsDead i (refresh_row t c w k row).1
  refresh_row-IsDead w k none d = d
  refresh_row-IsDead w k (some row) d = elim (Bool-cases (is_revoked row)) [
    | inl e ↦ rw e (revoke-IsDead k.user w d)
    | inr e ↦ rw e (elim (Bool-cases (leb row.expires_at w.clock)) [
      | inl late ↦ rw late d
      | inr early ↦ rw early (refresh_user-IsDead w row (find_user w k.user) d)
    ])
  ]

  refresh_claimed-IsDead :
      (w : World) (token : String) (k : Result AuthError Claims)
      → IsDead i w
      → IsDead i (refresh_claimed t c w token k).1
  refresh_claimed-IsDead w token (err e) d = d
  refresh_claimed-IsDead w token (ok k) d = refresh_row-IsDead w k _ d

  revoke_found-IsDead :
      (w : World) (row : Option RefreshToken) → IsDead i w → IsDead i (revoke_found t c w row)
  revoke_found-IsDead w none d = d
  revoke_found-IsDead w (some row) d = revoke_row-IsDead row.id w.clock w d

  revoke_id-IsDead :
      (w : World) (token : String) (k : Option ℕ) → IsDead i w → IsDead i (revoke_id t c w token k)
  revoke_id-IsDead w token none d = d
  revoke_id-IsDead w token (some k) d = revoke_found-IsDead w _ d

  -- Writes of other tables, and new identifiers.
  elsewhere-IsDead :
      (w w' : World)
      → w'.refresh_tokens ≡ w.refresh_tokens
      → w.next_id ≤ w'.next_id
      → IsDead i w
      → IsDead i w'
  elsewhere-IsDead w w' same later d = record {
    given = omega (arith, d.given);
    revoked = rw same d.revoked;
  }

  set_hash-IsDead :
      (u : User) (password : String) (w : World) → IsDead i w → IsDead i (set_hash t c u password w)
  unfolding revoke_refresh_tokens
  set_hash-IsDead u password w d = revoke-IsDead u.id _ (elsewhere-IsDead w _ refl (omega arith) d)

  change_password-IsDead :
      (u : User) (password current : Option String) (w w' : World)
      → change_password t c u password current w ≡ ok w'
      → IsDead i w
      → IsDead i w'
  change_password-IsDead u none current w w' e d = subst (IsDead i) (ok-value e) d
  change_password-IsDead u (some password) current w w' e d =
      subst (IsDead i) (ok-value ((>>-eq-ok (check_change t c u current) _).0 e).1)
        (set_hash-IsDead u password w d)

  update_profile-IsDead :
      (w w' : World) (k : ℕ) (full_name password current : Option String) (v : User)
      → update_profile t c w k full_name password current ≡ ok (v, w')
      → IsDead i w
      → IsDead i w'
  unfolding update_profile
  update_profile-IsDead w w' k full_name password current v e d =
      let (u, found, e₁) = >>=-eq-ok (or_fail (find_user w k) _) _ e in
      let (w₂, changed, e₂) = >>=-eq-ok (change_password t c u password current _) _ e₁ in
      let (v', again, e₃) = >>=-eq-ok (or_fail (find_user w₂ k) _) _ e₂ in
      let (_, same) = ok-pair e₃ in
      subst (IsDead i) (sym same) (
        change_password-IsDead u password current _ w₂ changed
          (elsewhere-IsDead w _ refl (omega arith) d))

  login-IsDead :
      (w w' : World) (email password : String) (r : TokenPair × User)
      → login t c w email password ≡ ok (r, w')
      → IsDead i w
      → IsDead i w'
  unfolding login
  login-IsDead w w' email password r e d =
      let (u, found, e₁) =
        >>=-eq-ok (or_fail (find_where (has_email t (normalize_email t email)) w.users) _) _ e in
      let (_, e₂) = (>>-eq-ok _ _).0 e₁ in
      let (_, e₃) = (>>-eq-ok _ _).0 e₂ in
      let (_, same) = ok-pair e₃ in subst (IsDead i) (sym same) (issue-IsDead u w d)

  set_password-IsDead :
      (w w' : World) (k : ℕ) (password : String) (current : Option String) (r : User × TokenPair)
      → set_password t c w k password current ≡ ok (r, w')
      → IsDead i w
      → IsDead i w'
  unfolding set_password
  set_password-IsDead w w' k password current r e d =
      let ((u, w₁), updated, e₁) =
        >>=-eq-ok (update_profile t c w k none (some password) current) _ e in
      let (_, same) = ok-pair e₁ in
      subst (IsDead i) (sym same)
        (issue-IsDead u w₁ (update_profile-IsDead w w₁ k none (some password) current u updated d))

  fresh_slug-IsDead : (name : String) (w : World) → IsDead i w → IsDead i (fresh_slug t c name w).1
  unfolding fresh_slug
  fresh_slug-IsDead name w d =
      elim (Bool-cases (any_where (λ x. x.slug == slugify t name) w.tenants)) [
        | inl taken ↦ rw taken (elsewhere-IsDead w _ refl (omega arith) d)
        | inr free ↦ rw free d
      ]

  register-IsDead :
      (w w' : World) (email password full_name tenant_name : String) (r : Registered)
      → register t c w email password full_name tenant_name ≡ ok (r, w')
      → IsDead i w
      → IsDead i w'
  unfolding register add_tenant add_user
  register-IsDead w w' email password full_name tenant_name r e d =
      let (_, e₁) = (>>-eq-ok _ _).0 e in
      let (_, same) = ok-pair e₁ in
      let (slug, w₁) = fresh_slug t c tenant_name w in
      let (tenant, w₂) = add_tenant t c tenant_name slug w₁ in
      let u = new_user t c w₂ tenant (normalize_email t email) password full_name "owner" false in
      subst (IsDead i) (sym same) (
        issue-IsDead u (add_user t c u w₂) (
          elsewhere-IsDead w₁ (add_user t c u w₂) refl (omega arith)
            (fresh_slug-IsDead tenant_name w d)))

  -- A revoked token stays revoked.
  AuthStep-IsDead : {w w' : World} → AuthStep t c w w' → IsDead i w → IsDead i w'
  unfolding refresh_tokens revoke_refresh_token
  AuthStep-IsDead (refreshes w token) d = refresh_claimed-IsDead w token _ d
  AuthStep-IsDead (logs_out w token) d = revoke_id-IsDead w token _ d
  AuthStep-IsDead (logs_in email password e) d = login-IsDead _ _ email password _ e d
  AuthStep-IsDead (registers email password full_name tenant_name e) d =
      register-IsDead _ _ email password full_name tenant_name _ e d
  AuthStep-IsDead (updates k full_name password current e) d =
      update_profile-IsDead _ _ k full_name password current _ e d
  AuthStep-IsDead (sets_password k password current e) d =
      set_password-IsDead _ _ k password current _ e d
  AuthStep-IsDead (elsewhere same later) d = elsewhere-IsDead _ _ same later d

  pub AuthReach-IsDead : {w v : World} → IsDead i w → AuthReach t c w v → IsDead i v
  AuthReach-IsDead d here = d
  AuthReach-IsDead d (next r s) = AuthStep-IsDead s (AuthReach-IsDead d r)
