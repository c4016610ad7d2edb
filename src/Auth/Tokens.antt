-- ===== src/Auth/Tokens.antt =====
-- What the tokens are worth: who gets one, and until when.
use mathlib.Core.Path.{subst}
use go_order_service.Prelude.{
  ℕ, inl, String, ◌≡◌, refl, true, ◌&&◌, Option, some, if◌then◌else◌, ◌==◌, string_eq, nat_eq,
  arith,
}
use go_order_service.Prelude.Lists.{find, update, find-update}
use go_order_service.Schema.{Db, User, RefreshToken}
use go_order_service.Runtime.{Error, invalid_refresh_token, Result, ok, err, Env, World, query}
use go_order_service.Runtime.Autocommit.{Ends-execute}
use go_order_service.Runtime.Ends.{
  Any, Atomic, Ends-scan_uuid, Ends, Ends-bind, Ends-pure, Ends-raise, Ends-if, Ends-or_raise,
}
use go_order_service.Sqlc.RefreshTokens as TokenQueries
use go_order_service.Sqlc.RefreshTokens.{is_active}
use go_order_service.Store.Users as UserStore
use go_order_service.Auth.{Crypto, Config, is_revoked, refresh_access_token, logout}

abbrev pub find_token : String → Db → Option RefreshToken
find_token hash db = find (λ (t : RefreshToken). t.token_hash == hash) db.refresh_tokens

abbrev pub find_user : String → Db → Option User
find_user email db = find (λ (u : User). u.email == email) db.users

-- The stored token is revoked.
abbrev pub Revoked : String → Db → Type 0
Revoked hash db = (t : RefreshToken) × (find_token hash db ≡ some t) × (is_revoked t ≡ true)

module _ (env : Env) (crypto : Crypto) (config : Config) where
  pub found_token :
      (hash : String) (w : World)
      → Ends
          (λ t db. (find_token hash w.db ≡ some t) × (db ≡ w.db))
          (λ _ db. db ≡ w.db)
          (UserStore.get_refresh_token_by_hash env hash w)
  unfolding UserStore.get_refresh_token_by_hash query TokenQueries.get_refresh_token_by_hash
  found_token hash w = ground arith

  -- The row is revoked.
  abbrev pub Revokes : RefreshToken → Db → RefreshToken → Db → Type 0
  Revokes t before r after =
      (after ≡ record before {
        refresh_tokens =
            update (λ x. x.id == t.id && is_active x) (λ x. record x { revoked_at = r.revoked_at })
              before.refresh_tokens;
      })
      × (is_revoked r ≡ true)

  row-Revokes :
      (t : RefreshToken) (now : ℕ) (before : Db) (r : RefreshToken) (after : Db)
      → TokenQueries.revoke_refresh_token t.id now before ≡ ok (r, after)
      → Revokes t before r after
  unfolding TokenQueries.revoke_refresh_token
  row-Revokes t now before r after done = ground arith

  pub revokes :
      (t : RefreshToken) (w : World)
      → Ends
          (Revokes t w.db)
          (Atomic w.db (Revokes t w.db))
          (UserStore.revoke_refresh_token env (env.render t.id) w)
  unfolding UserStore.revoke_refresh_token
  revokes t w = Ends-scan_uuid env (env.render t.id) _ w (inl refl) λ id given.
      Ends-execute env _ w λ r db done.
        row-Revokes t (env.now w.ticks) w.db r db (ground (arith, env.scan-render t.id))

  refused :
      {A : Type 0} (x : Error) (before : Db) (r : Result A × World)
      → Ends (λ _ _. ⊥) (λ e db. (e ≡ x) × (db ≡ before)) r
      → (r.0 ≡ err x) × (r.1.db ≡ before)
  refused x before (ok a, w) h = absurd h.as_stated
  refused x before (err e, w) h = let (same, unchanged) = h.as_stated in (rw same refl, unchanged)

  -- A refresh token that is revoked is refused, whatever fails, and nothing is written.
  pub refresh_access_token-Revoked :
      (token : String) (w : World)
      → Revoked (crypto.hash_token token) w.db
      → ((refresh_access_token env crypto config token w).0 ≡ err invalid_refresh_token)
        × ((refresh_access_token env crypto config token w).1.db ≡ w.db)
  unfolding refresh_access_token
  refresh_access_token-Revoked token w (t, found, revoked) = refused invalid_refresh_token w.db _ (
      Ends-if (token == "") _ _ w (λ _. Ends-raise _ w (refl, refl))
        λ _.
          Ends-bind _ _ w
            (Ends-or_raise _ _ w (found_token (crypto.hash_token token) w)
              (λ _ _ same. (refl, same)))
            λ t' v (found', same).
              Ends-if (is_revoked t') _ _ v (λ _. Ends-raise _ v (refl, same))
                (λ live. absurd (ground arith)))

  logout-Revoked :
      (token : String) (w : World)
      → Ends (λ _ db. Revoked (crypto.hash_token token) db) Any (logout env crypto config token w)
  unfolding logout
  logout-Revoked token w =
      Ends-if (token == "") _ _ w (λ _. Ends-raise _ w tt)
        λ _.
          Ends-bind _ _ w
            (Ends-or_raise _ _ w (found_token (crypto.hash_token token) w) (λ _ _ same. tt))
            λ t v (found, same).
              Ends-bind _ _ v (Ends-or_raise _ _ v (revokes t v) (λ _ _ h. tt))
                λ r u (stores, revoked). Ends-pure _ u (
                  if t.id == t.id && is_active t then record t { revoked_at = r.revoked_at } else t,
                  rw stores (
                      find-update (λ x. x.id == t.id && is_active x)
                        (λ (x : RefreshToken). x.token_hash == crypto.hash_token token)
                        (λ x. record x { revoked_at = r.revoked_at }) v.db.refresh_tokens t
                        (λ _. refl) (ground arith)),
                  ground arith,
                )

  -- After a logout the refresh token is refused for as long as the table of tokens stays as it is,
  -- whatever else is called and whatever fails.
  pub logout_ends :
      (token : String) (w w' v : World)
      → logout env crypto config token w ≡ (ok tt, w')
      → v.db.refresh_tokens ≡ w'.db.refresh_tokens
      → (refresh_access_token env crypto config token v).0 ≡ err invalid_refresh_token
  logout_ends token w w' v e same =
      let (t, found, revoked) =
        (subst (Ends (λ _ db. Revoked (crypto.hash_token token) db) Any) e
          (logout-Revoked token w)).as_stated in
      (refresh_access_token-Revoked token v (t, rw same found, revoked)).0
