-- ===== src/Auth/Rotation.antt =====
-- The use of a refresh token, its second use, and the new token.
use multi_tenant_agentic_wor.Base.{
  ℕ, ◌<◌, ◌≡◌, ◌≢◌, refl, sym, ap, subst, ◌∙◌, String, true, false, not, ◌&&◌, Option, none, some,
  List, [], ◌∷◌, arith, ◌==◌, ==-refl, nat_eq, string_eq, leb, All, All-append, All-map, All-both,
  All-find_where, All-update_where, update_where, find_where, find_where-holds,
  find_where-update_where, find_where-append, Bool-cases, Option-cases, inl, inr, Result, ok, err,
  nat_beq_iff, ok-value,
}
use multi_tenant_agentic_wor.Base.Json.{Fields}
use multi_tenant_agentic_wor.Tables.{User, RefreshToken}
use multi_tenant_agentic_wor.Store.{World}
use multi_tenant_agentic_wor.Texts.{Texts}
use multi_tenant_agentic_wor.Auth.{
  AuthError, token_reused, Crypto, TokenPair, Claims, is_revoked, find_user, revoke_refresh_tokens,
  issue_token_pair, read_claims, is_row_of, rotate, refresh_row, refresh_claimed, refresh_tokens,
}
use multi_tenant_agentic_wor.Auth.Sessions.{
  IsDead, AuthReach, AuthReach-IsDead, issue-IsDead, replace_row-IsDead,
}

-- No refresh token has an identifier that is yet to be given.
abbrev pub IsNumbered : World → Type 0
IsNumbered w = All (λ r. r.id < w.next_id) w.refresh_tokens

-- What a successful use of a refresh token found: the claims, the row and the user.
pub record Used (t : Texts) (c : Crypto) (w : World) (token : String) (pair : TokenPair)
    (w' : World) : Type 0 where
  pub claims : Claims
  pub row : RefreshToken
  pub user : User
  pub decoded : read_claims t c (c.jwt_decode w.clock token) ≡ ok claims
  pub found : find_where (is_row_of t c claims token) w.refresh_tokens ≡ some row
  pub unused : is_revoked row ≡ false
  pub unexpired : w.clock < row.expires_at
  pub known : find_user w claims.user ≡ some user
  pub active : user.is_active ≡ true
  pub issued : rotate t c row user w ≡ (pair, w')

module _ (t : Texts) (c : Crypto) where
  -- The parts of a reply.
  ok-reply :
      {p q : TokenPair} {v w : World}
      → ◌≡◌ {A = Result AuthError TokenPair × World} (ok p, v) (ok q, w)
      → ◌≡◌ {A = TokenPair × World} (p, v) (q, w)
  ok-reply h = ground arith

  not_ok :
      {e : AuthError} {q : TokenPair} {v w : World} {X : Type 0}
      → ◌≡◌ {A = Result AuthError TokenPair × World} (err e, v) (ok q, w)
      → X
  not_ok h = absurd (cc (ap (λ r. r.0) h))

  Used-row :
      (w : World) (token : String) (k : Claims) (row : Option RefreshToken) (pair : TokenPair)
      (w' : World)
      → read_claims t c (c.jwt_decode w.clock token) ≡ ok k
      → find_where (is_row_of t c k token) w.refresh_tokens ≡ row
      → refresh_row t c w k row ≡ (ok pair, w')
      → Used t c w token pair w'
  unfolding rotate revoke_refresh_tokens
  Used-row w token k none pair w' dec found e = not_ok e
  Used-row w token k (some row) pair w' dec found e = elim (Bool-cases (is_revoked row)) [
    | inl old ↦ not_ok (rw old at e)
    | inr new ↦ elim (Bool-cases (leb row.expires_at w.clock)) [
      | inl late ↦ not_ok (rw (new, late) at e)
      | inr early ↦ elim (Option-cases (find_user w k.user)) [
        | inl gone ↦ not_ok (rw (new, early, gone) at e)
        | inr (u, here) ↦ elim (Bool-cases u.is_active) [
          | inl active ↦ record {
            claims = k;
            row = row;
            user = u;
            decoded = dec;
            found = found;
            unused = new;
            unexpired = ground arith;
            known = here;
            active = active;
            issued = ok-reply (rw (new, early, here, active) at e);
          }
          | inr idle ↦ not_ok (rw (new, early, here, idle) at e)
        ]
      ]
    ]
  ]

  Used-claimed :
      (w : World) (token : String) (k : Result AuthError Claims) (pair : TokenPair) (w' : World)
      → read_claims t c (c.jwt_decode w.clock token) ≡ k
      → refresh_claimed t c w token k ≡ (ok pair, w')
      → Used t c w token pair w'
  Used-claimed w token (err e) pair w' dec h = not_ok h
  Used-claimed w token (ok k) pair w' dec h = Used-row w token k _ pair w' dec refl h

  refresh_tokens-Used :
      (w : World) (token : String) (pair : TokenPair) (w' : World)
      → refresh_tokens t c w token ≡ (ok pair, w')
      → Used t c w token pair w'
  unfolding refresh_tokens
  refresh_tokens-Used w token pair w' h = Used-claimed w token _ pair w' refl h

  -- The claims of a text do not depend on when it is decoded.
  abbrev pub DecodesAlike : String → Type 0
  DecodesAlike token =
      (n m : ℕ) (p q : Fields)
      → c.jwt_decode n token ≡ some p
      → c.jwt_decode m token ≡ some q
      → p ≡ q

  read_claims-some :
      (o : Option Fields) (k : Claims) → read_claims t c o ≡ ok k → (p : Fields) × (o ≡ some p)
  unfolding read_claims
  read_claims-some none k h = cc
  read_claims-some (some p) k h = (p, refl)

  claims_alike :
      (token : String) (n m : ℕ) (j k : Claims)
      → DecodesAlike token
      → read_claims t c (c.jwt_decode n token) ≡ ok j
      → read_claims t c (c.jwt_decode m token) ≡ ok k
      → j ≡ k
  claims_alike token n m j k alike hj hk =
      let (p, ep) = read_claims-some (c.jwt_decode n token) j hj in
      let (q, eq) = read_claims-some (c.jwt_decode m token) k hk in
      let same : c.jwt_decode n token ≡ c.jwt_decode m token =
        ep ∙ ap (λ (f : Fields). some f) (alike n m p q ep eq) ∙ sym eq in
      ok-value (sym hj ∙ ap (read_claims t c) same ∙ hk)

  row-token :
      (k : Claims) (token : String) (r : RefreshToken)
      → is_row_of t c k token r ≡ true
      → r.id ≡ k.token
  row-token k token r h = ground arith

  revoked-All :
      (i n : ℕ) (rs : List RefreshToken)
      → All
          (λ r. (r.id == i) ≡ true → is_revoked r ≡ true)
          (update_where (λ r. r.id == i) (λ r. record r { revoked_at = some n }) rs)
  unfolding update_where
  revoked-All i n [] = tt
  revoked-All i n (r ∷ rs) = (ground arith, revoked-All i n rs)

  Used-IsDead :
      (w : World) (token : String) (pair : TokenPair) (w' : World)
      → IsNumbered w
      → (u : Used t c w token pair w') → IsDead u.claims.token w'
  unfolding rotate
  Used-IsDead w token pair w' numbered u =
      let (below, own) =
        All-find_where (λ r. r.id < w.next_id) (is_row_of t c u.claims token) w.refresh_tokens u.row
          numbered u.found in
      subst (λ i. IsDead i w') (row-token u.claims token u.row own)
        (subst (IsDead u.row.id) (ap (λ r. r.1) u.issued) (
          replace_row-IsDead t c u.row.id u.row.id _ _ (
            issue-IsDead t c u.row.id u.user _
              (record { given = below; revoked = revoked-All u.row.id w.clock w.refresh_tokens }))))

  -- If every refresh token has an identifier that was given before, and the claims of a text do
  -- not depend on the time at which it is decoded, a refresh token that was exchanged for a new
  -- pair is never exchanged again, whatever exchanges, logouts, logins, registrations and changes
  -- of profiles and passwords come between, and whatever else leaves the refresh tokens as they
  -- are and reuses no identifier.
  pub refresh_tokens_once :
      (w v : World) (token : String) (pair : TokenPair) (w' : World)
      → IsNumbered w
      → DecodesAlike token
      → refresh_tokens t c w token ≡ (ok pair, w')
      → AuthReach t c w' v
      → (p : TokenPair) → (refresh_tokens t c v token).0 ≢ ok p
  refresh_tokens_once w v token pair w' numbered alike used later p again =
      let u = refresh_tokens-Used w token pair w' used in
      let u' =
        refresh_tokens-Used v token p (refresh_tokens t c v token).1
          (ap (λ r. (r, (refresh_tokens t c v token).1)) again) in
      let dead =
        AuthReach-IsDead t c u.claims.token (Used-IsDead w token pair w' numbered u) later in
      let (revoked, own) =
        All-find_where (λ r. (r.id == u.claims.token) ≡ true → is_revoked r ≡ true)
          (is_row_of t c u'.claims token) v.refresh_tokens u'.row dead.revoked u'.found in
      let here : u'.row.id ≡ u.claims.token =
        row-token u'.claims token u'.row own
        ∙ ap (λ (k : Claims). k.token)
            (claims_alike token v.clock w.clock u'.claims u.claims alike u'.decoded u.decoded) in
      let stale : is_revoked u'.row ≡ true = revoked (rw here (==-refl u.claims.token)) in
      cc (stale, u'.unused)

  revoke-All_of :
      (user n : ℕ) (rs : List RefreshToken)
      → All
          (λ r. (r.user_id == user) ≡ true → is_revoked r ≡ true)
          (update_where
            (λ r. r.user_id == user && not (is_revoked r))
            (λ r. record r { revoked_at = some n })
            rs)
  unfolding update_where
  revoke-All_of user n [] = tt
  revoke-All_of user n (r ∷ rs) = (
    elim (Bool-cases (is_revoked r)) [ inl e ↦ ground arith | inr e ↦ ground arith ],
    revoke-All_of user n rs,
  )

  -- The row of the token is still found after its use, and is revoked.
  Used-found :
      (w : World) (token : String) (pair : TokenPair) (w' : World)
      → (u : Used t c w token pair w')
      → (r : RefreshToken) × (find_where (is_row_of t c u.claims token) w'.refresh_tokens ≡ some r)
        × (is_revoked r ≡ true)
  unfolding rotate issue_token_pair
  Used-found w token pair w' u =
      let old : RefreshToken = record u.row { revoked_at = some w.clock } in
      let last : RefreshToken = record old { replaced_by_id = some w.next_id } in
      let rows = is_row_of t c u.claims token in
      (
        last,
        subst (λ (v : World). find_where rows v.refresh_tokens ≡ some last) (ap (λ r. r.1) u.issued)
            (find_where-update_where rows (λ r. r.id == u.row.id) _ _ old (λ r. refl)
              (==-refl u.row.id)
              (find_where-append rows _ _ old (
                find_where-update_where rows (λ r. r.id == u.row.id) _ w.refresh_tokens u.row
                  (λ r. refl) (==-refl u.row.id) u.found))),
        refl,
      )

  -- The only row with the identifier of the new pair is the user's.
  abbrev IsOf : ℕ → ℕ → RefreshToken → Type 0
  IsOf i user r = (r.id == i) ≡ true → (r.user_id == user) ≡ true

  rotate-IsOf :
      (row : RefreshToken) (u : User) (w : World)
      → IsNumbered w
      → All (IsOf w.next_id u.id) (rotate t c row u w).1.refresh_tokens
  unfolding rotate issue_token_pair
  rotate-IsOf row u w numbered =
      let P = IsOf w.next_id u.id in
      All-update_where P _ _ _ (λ r _ h. h)
        (All-append P _ _
          (All-update_where P _ _ w.refresh_tokens (λ r _ h. h)
            (All-map (λ r. r.id < w.next_id) P (λ r lt own. absurd (clash r.id w.next_id lt own))
              w.refresh_tokens numbered))
          ((λ own. ==-refl u.id), tt))
    where
      clash : (a b : ℕ) → a < b → (a == b) ≡ true → ⊥
      clash a b lt own = ground arith

  find_user-id : (w : World) (i : ℕ) (u : User) → find_user w i ≡ some u → u.id ≡ i
  find_user-id w i u h = (nat_beq_iff u.id i).0 (find_where-holds (λ v. v.id == i) w.users u h)

  rotated_clock :
      (row : RefreshToken) (u : User) (w : World) → w.clock ≡ (rotate t c row u w).1.clock
  unfolding rotate issue_token_pair
  rotated_clock row u w = refl

  rotated_id :
      (row : RefreshToken) (u : User) (w : World) → w.next_id ≡ (rotate t c row u w).0.token_id
  unfolding rotate issue_token_pair
  rotated_id row u w = refl

  revoke-rotate-IsDead :
      (row : RefreshToken) (u : User) (w : World)
      → IsNumbered w
      → IsDead w.next_id (revoke_refresh_tokens u.id (rotate t c row u w).1)
  unfolding revoke_refresh_tokens rotate issue_token_pair
  revoke-rotate-IsDead row u w numbered =
      let rows = (rotate t c row u w).1.refresh_tokens in
      record {
        given = omega arith;
        revoked =
            All-both (IsOf w.next_id u.id) (λ r. (r.user_id == u.id) ≡ true → is_revoked r ≡ true) _
              (λ r own gone same. gone (own same)) _
              (All-update_where (IsOf w.next_id u.id) _ _ rows (λ r _ h. h)
                (rotate-IsOf row u w numbered))
              (revoke-All_of u.id w.clock rows);
      }

  -- If every refresh token has an identifier that was given before, the second use of a token
  -- directly after a successful exchange is refused as a reuse, and the token of the pair that the
  -- first use gave is revoked then.
  pub refresh_tokens_replayed :
      (w : World) (token : String) (pair : TokenPair) (w' : World)
      → IsNumbered w
      → refresh_tokens t c w token ≡ (ok pair, w')
      → (w'' : World) × (refresh_tokens t c w' token ≡ (err token_reused, w''))
        × IsDead pair.token_id w''
  unfolding refresh_tokens revoke_refresh_tokens
  refresh_tokens_replayed w token pair w' numbered used =
      let u = refresh_tokens-Used w token pair w' used in
      let (r, found, revoked) = Used-found w token pair w' u in
      let clock : w.clock ≡ w'.clock =
        rotated_clock u.row u.user w ∙ ap (λ r. r.1.clock) u.issued in
      let new : w.next_id ≡ pair.token_id =
        rotated_id u.row u.user w ∙ ap (λ r. r.0.token_id) u.issued in
      let decoded : read_claims t c (c.jwt_decode w'.clock token) ≡ ok u.claims =
        rw (← clock) u.decoded in
      (
        revoke_refresh_tokens u.claims.user w',
        rw (decoded, found, revoked) refl,
        subst (λ i. IsDead i (revoke_refresh_tokens u.claims.user w')) new
            (subst (λ (v : World). IsDead w.next_id (revoke_refresh_tokens u.claims.user v))
              (ap (λ r. r.1) u.issued)
              (subst (λ k. IsDead w.next_id (revoke_refresh_tokens k (rotate t c u.row u.user w).1))
                (find_user-id w u.claims.user u.user u.known)
                (revoke-rotate-IsDead u.row u.user w numbered))),
      )
