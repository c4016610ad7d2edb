-- ===== src/Auth/Sessions.antt =====
-- How a login and the renewal of an access token end.
pub mod Steps
use mathlib.Core.Path.{subst}
use go_order_service.Prelude.{
  ℕ, suc, String, ◌≡◌, refl, inl, inr, true, false, ◌||◌, not, some, ◌+◌, ◌/◌, ◌*◌, ltb, ◌==◌,
  string_eq, nat_eq, ◌∷◌, arith, ◌∙◌, List, [],
}
use go_order_service.Prelude.Lists.{find}
use go_order_service.Schema.{Db, User, RefreshToken}
use go_order_service.Runtime.{tick, Error, ok, Env, World, ◌>>=◌}
use go_order_service.Runtime.Ends.{
  Ends, Ends-bind, Ends-pure, Ends-raise, Ends-if, Ends-weaken, Ends-new_uuid, Ends-after, Atomic,
}
use go_order_service.Runtime.Uuids.{render-ne-nil}
use go_order_service.Store.Users as UserStore
use go_order_service.Auth.{
  Crypto, Config, LoginParams, LoginResult, RefreshAccessTokenResult, read_clock, claims_of,
  generate_access_token, parse_access_token, normal_email, accepts_method, open_session, login,
  is_revoked, renew, renew_unexpired, refresh_access_token,
}
use go_order_service.Auth.Tokens.{find_token, find_user}
use go_order_service.Auth.Sessions.Steps.{
  signs, draws, reads, searched, searched_in_vain, Kept, keeps, got_token, got_no_token, got_owner,
  got_no_owner,
}

-- A session of the user with the email, whose password was given: one refresh token is stored, by
-- its hash, and the access token is issued at a time.
pub record Opened (env : Env) (crypto : Crypto) (config : Config) (p : LoginParams) (issued : ℕ)
    (before : Db) (r : LoginResult) (after : Db) : Type 0 where
  pub token : RefreshToken
  pub stores : after ≡ record before { refresh_tokens = token ∷ before.refresh_tokens }
  pub found : find_user (normal_email env p.email) before ≡ some r.user
  pub password : crypto.check_password p.password r.user.password_hash ≡ true
  pub owner : token.user_id ≡ r.user.id
  pub hash : token.token_hash ≡ crypto.hash_token r.refresh_token
  pub expiry : token.expires_at ≡ r.refresh_token_expires_at
  pub live : is_revoked token ≡ false
  pub signed : crypto.sign (claims_of env crypto config r.user issued) ≡ some r.access_token

-- A new access token, issued at a time, for the owner of a stored refresh token that is neither
-- revoked nor expired when it is looked at.
pub record Renewed (env : Env) (crypto : Crypto) (config : Config) (refresh_token : String)
    (looked_at issued : ℕ) (before : Db) (r : RefreshAccessTokenResult) (after : Db) : Type 0 where
  pub unchanged : after ≡ before
  pub token : RefreshToken
  pub found : find_token (crypto.hash_token refresh_token) before ≡ some token
  pub live : is_revoked token ≡ false
  pub unexpired : ltb token.expires_at looked_at ≡ false
  pub owner : r.user.id ≡ token.user_id
  pub known : find (λ (u : User). u.id == token.user_id) before.users ≡ some r.user
  pub signed : crypto.sign (claims_of env crypto config r.user issued) ≡ some r.access_token

user_id-found :
    (us : List User) (id : ℕ) (u : User) → find (λ (x : User). x.id == id) us ≡ some u → u.id ≡ id
user_id-found [] id u h = cc
user_id-found (x ∷ us) id u h = ground (arith, user_id-found us id u)

module _ (env : Env) (crypto : Crypto) (config : Config) where
  open_session-Opened :
      (p : LoginParams) (u : User) (before : Db) (w : World)
      → find_user (normal_email env p.email) before ≡ some u
      → w.db ≡ before
      → Ends
          (Opened env crypto config p (env.now w.ticks) before)
          (Atomic before (Opened env crypto config p (env.now w.ticks) before))
          (open_session env crypto config p.password u w)
  unfolding open_session
  open_session-Opened p u before w found same =
      Ends-if (not (crypto.check_password p.password u.password_hash)) _ _ w
        (λ _. Ends-raise _ w (inl same))
        λ passed.
          Ends-bind _ _ w
            (Ends-weaken _ (signs env crypto config u w) (λ _ _ h. h) (λ _ _ e. inl (e ∙ same)))
            λ access w₁ (signed, same₁).
              Ends-bind _ _ w₁
                (Ends-weaken _ (draws env crypto config w₁) (λ _ _ h. h)
                  (λ _ _ e. inl (e ∙ same₁ ∙ same)))
                λ token w₂ same₂. Ends-bind _ _ w₂ (reads env crypto config w₂) λ now w₃ (_, same₃).
                  Ends-bind _ _ w₃ (Ends-new_uuid env w₃) λ id w₄ same₄.
                    let here : w₄.db ≡ before = same₄ ∙ same₃ ∙ same₂ ∙ same₁ ∙ same in
                    Ends-bind _ _ w₄
                      (Ends-weaken _ (keeps env crypto config _ w₄) (λ _ _ h. h)
                        λ e v h.
                          kept_or_lost e w₄.db v.db access token now id signed (ground arith) here
                            h)
                      λ t w₅ kept. Ends-pure _ w₅ (
                        kept_here w₄.db w₅.db access token now id t signed (ground arith) here kept)
    where
      params : String → ℕ → String → UserStore.CreateRefreshTokenParams
      params token now id = record {
        id = id;
        user_id = env.render u.id;
        token_hash = crypto.hash_token token;
        expires_at = now + config.refresh_ttl;
      }

      session : String → String → ℕ → LoginResult
      session access token now = record {
        user = u;
        access_token = access;
        refresh_token = token;
        refresh_token_expires_at = now + config.refresh_ttl;
      }

      kept_here :
          (middle after : Db) (access token : String) (now : ℕ) (id : String) (t : RefreshToken)
          → crypto.sign (claims_of env crypto config u (env.now w.ticks)) ≡ some access
          → crypto.check_password p.password u.password_hash ≡ true
          → middle ≡ before
          → Kept env crypto config (params token now id) middle t after
          → Opened env crypto config p (env.now w.ticks) before (session access token now) after
      kept_here middle after access token now id t signed passed here kept = record {
        token = t;
        stores = kept.stores ∙ rw here refl;
        found = found;
        password = passed;
        owner = ground (arith, env.scan-render u.id, kept.owner);
        hash = kept.hash;
        expiry = kept.expiry;
        live = kept.live;
        signed = signed;
      }

      kept_or_lost :
          (e : Error) (middle after : Db) (access token : String) (now : ℕ) (id : String)
          → crypto.sign (claims_of env crypto config u (env.now w.ticks)) ≡ some access
          → crypto.check_password p.password u.password_hash ≡ true
          → middle ≡ before
          → Atomic middle (Kept env crypto config (params token now id) middle) e after
          → Atomic before (Opened env crypto config p (env.now w.ticks) before) e after
      kept_or_lost e middle after access token now id signed passed here (inl same') =
          inl (same' ∙ here)
      kept_or_lost e middle after access token now id signed passed here (inr (lost, t, kept)) =
          inr (
            lost,
            session access token now,
            kept_here middle after access token now id t signed passed here kept,
          )

  -- `Login` answers with the user whose email and password were given, an access token for that user,
  -- issued at the time of the login, and a refresh token, of which it stores the hash; or it fails and
  -- writes nothing, unless only the answer of the insert is lost and the refresh token is there.
  pub login-Opened :
      (p : LoginParams) (w : World)
      → Ends
          (Opened env crypto config p (env.now (suc w.ticks)) w.db)
          (Atomic w.db (Opened env crypto config p (env.now (suc w.ticks)) w.db))
          (login env crypto config p w)
  unfolding login
  login-Opened p w =
      Ends-if (normal_email env p.email == "" || p.password == "") _ _ w
        (λ _. Ends-raise _ w (inl refl))
        λ _.
          Ends-after _ _ w
            (λ u v h.
              let (ticks, found, same) =
                searched env crypto config (normal_email env p.email) u w v h in
              subst
                (λ n.
                  Ends (Opened env crypto config p (env.now n) w.db)
                    (Atomic w.db (Opened env crypto config p (env.now n) w.db))
                    (open_session env crypto config p.password u v))
                ticks (open_session-Opened p u w.db v found same))
            (λ e v h. inl (searched_in_vain env crypto config (normal_email env p.email) e w v h))

  renew-Renewed :
      (token : String) (looked_at : ℕ) (t : RefreshToken) (before : Db) (w : World)
      → find_token (crypto.hash_token token) before ≡ some t
      → is_revoked t ≡ false
      → ltb t.expires_at looked_at ≡ false
      → w.db ≡ before
      → Ends
          (Renewed env crypto config token looked_at (env.now (suc w.ticks)) before)
          (λ _ db. db ≡ before)
          (renew env crypto config t w)
  unfolding renew
  renew-Renewed token looked_at t before w found live unexpired same =
      Ends-after _ _ w
        (λ u v h.
          let (ticks, known, same') = got_owner env crypto config t.user_id u w v h in
          Ends-bind _ _ v
            (Ends-weaken _ (signs env crypto config u v) (λ _ _ h. h) (λ _ _ e. e ∙ same' ∙ same))
            λ access x (signed, same''). Ends-pure _ x (record {
              unchanged = same'' ∙ same' ∙ same;
              token = t;
              found = found;
              live = live;
              unexpired = unexpired;
              owner = user_id-found w.db.users t.user_id u known;
              known =
                  subst (λ (db : Db). find (λ (x : User). x.id == t.user_id) db.users ≡ some u) same
                    known;
              signed =
                  subst (λ n. crypto.sign (claims_of env crypto config u (env.now n)) ≡ some access)
                    ticks signed;
            }))
        (λ e v h. got_no_owner env crypto config t.user_id e w v h ∙ same)

  renew_unexpired-Renewed :
      (token : String) (t : RefreshToken) (before : Db) (w : World)
      → find_token (crypto.hash_token token) before ≡ some t
      → is_revoked t ≡ false
      → w.db ≡ before
      → Ends
          (Renewed env crypto config token (env.now w.ticks) (env.now (suc (suc w.ticks))) before)
          (λ _ db. db ≡ before)
          (renew_unexpired env crypto config t w)
  unfolding renew_unexpired read_clock ◌>>=◌
  renew_unexpired-Renewed token t before w found live same =
      Ends-if (ltb t.expires_at (env.now w.ticks)) _ _ (tick w) (λ _. Ends-raise _ (tick w) same)
        λ unexpired.
          renew-Renewed token (env.now w.ticks) t before (tick w) found live unexpired same

  -- `RefreshAccessToken` gives an access token to the owner of a refresh token that is stored, not
  -- revoked and not expired by the clock when the token was found, and to nobody else. It writes
  -- nothing.
  pub refresh_access_token-Renewed :
      (token : String) (w : World)
      → Ends
          (Renewed env crypto config token
            (env.now (suc w.ticks))
            (env.now (suc (suc (suc w.ticks))))
            w.db)
          (λ _ db. db ≡ w.db)
          (refresh_access_token env crypto config token w)
  unfolding refresh_access_token
  refresh_access_token-Renewed token w =
      Ends-if (token == "") _ _ w (λ _. Ends-raise _ w refl)
        λ _.
          Ends-after _ _ w
            (λ t v h.
              let (ticks, found, same) = got_token env crypto config token t w v h in
              Ends-if (is_revoked t) _ _ v (λ _. Ends-raise _ v same)
                λ live.
                  subst
                    (λ n.
                      Ends
                        (Renewed env crypto config token (env.now n) (env.now (suc (suc n))) w.db)
                        (λ _ db. db ≡ w.db) (renew_unexpired env crypto config t v))
                    ticks (renew_unexpired-Renewed token t w.db v found live same))
            (λ e v h. got_no_token env crypto config token e w v h)

  -- An access token is accepted until it expires, with the identity, the email and the role of the
  -- user that it was made for.
  pub parse_access_token-generate :
      (u : User) (token : String) (made w : World)
      → (generate_access_token env crypto config u made).0 ≡ ok token
      → (u.email == "" || u.role == "") ≡ false
      → ltb (env.now w.ticks) ((env.now made.ticks + config.access_ttl) / 1000000 * 1000000) ≡ true
      → (parse_access_token env crypto config token w).0
        ≡ ok (claims_of env crypto config u (env.now made.ticks))
  unfolding generate_access_token read_clock ◌>>=◌ parse_access_token
  parse_access_token-generate u token made w e named early =
      let signed : crypto.sign (claims_of env crypto config u (env.now made.ticks)) ≡ some token =
        ground arith in
      rw (crypto.verify-sign _ token (env.now w.ticks) accepts_method signed refl early)
        (ground (arith, render-ne-nil env u.id))
