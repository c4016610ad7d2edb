-- ===== src/Auth/Sessions/Steps.antt =====
-- The calls that a login and a renewal are made of.
use go_order_service.Prelude.{
  ℕ, suc, String, ◌≡◌, refl, inl, inr, false, some, ◌==◌, string_eq, nat_eq, ◌∷◌, arith,
  Option-cases,
}
use go_order_service.Prelude.Lists.{find}
use go_order_service.Schema.{Db, User, RefreshToken}
use go_order_service.Runtime.{
  invalid_credentials, invalid_refresh_token, or_raise, err, Error, ok, Env, World, ◌>>=◌, query,
  scan_uuid,
}
use go_order_service.Runtime.Autocommit.{Ends-execute}
use go_order_service.Runtime.Ends.{Ends, Ends-scan_uuid, Atomic}
use go_order_service.Sqlc.Users as UserQueries
use go_order_service.Sqlc.RefreshTokens as TokenQueries
use go_order_service.Store.Users as UserStore
use go_order_service.Auth.{
  Crypto, Config, read_clock, generate_refresh_token, claims_of, generate_access_token, is_revoked,
}
use go_order_service.Auth.Tokens.{find_token, find_user}

module _ (env : Env) (crypto : Crypto) (config : Config) where
  pub signs :
      (u : User) (w : World)
      → Ends
          (λ t db.
            (crypto.sign (claims_of env crypto config u (env.now w.ticks)) ≡ some t) × (db ≡ w.db))
          (λ _ db. db ≡ w.db)
          (generate_access_token env crypto config u w)
  unfolding generate_access_token read_clock ◌>>=◌
  signs u w = elim (Option-cases (crypto.sign (claims_of env crypto config u (env.now w.ticks)))) [
    | inl unsigned ↦ rw unsigned (record { as_stated = refl })
    | inr (t, signed) ↦ rw signed (record { as_stated = (refl, refl) })
  ]

  pub draws :
      (w : World)
      → Ends (λ _ db. db ≡ w.db) (λ _ db. db ≡ w.db) (generate_refresh_token env crypto config w)
  unfolding generate_refresh_token
  draws w = ground arith

  pub reads :
      {E : Error → Db → Type 0} (w : World)
      → Ends
          (λ now db. ((n : ℕ) × (now ≡ env.now n)) × (db ≡ w.db))
          E
          (read_clock env crypto config w)
  unfolding read_clock
  reads w = record { as_stated = ((w.ticks, refl), refl) }

  -- The first search, with the call that it takes.
  pub searched :
      (email : String) (u : User) (w v : World)
      → or_raise (UserStore.get_user_by_email env email) invalid_credentials w ≡ (ok u, v)
      → (v.ticks ≡ suc w.ticks) × (find_user email w.db ≡ some u) × (v.db ≡ w.db)
  unfolding or_raise UserStore.get_user_by_email query UserQueries.get_user_by_email
  searched email u w v h = ground arith

  pub searched_in_vain :
      (email : String) (e : Error) (w v : World)
      → or_raise (UserStore.get_user_by_email env email) invalid_credentials w ≡ (err e, v)
      → v.db ≡ w.db
  unfolding or_raise UserStore.get_user_by_email query UserQueries.get_user_by_email
  searched_in_vain email e w v h = ground arith

  pub record Kept (p : UserStore.CreateRefreshTokenParams) (before : Db) (t : RefreshToken)
      (after : Db) : Type 0 where
    pub stores : after ≡ record before { refresh_tokens = t ∷ before.refresh_tokens }
    pub owner : env.scan p.user_id ≡ some t.user_id
    pub hash : t.token_hash ≡ p.token_hash
    pub expiry : t.expires_at ≡ p.expires_at
    pub live : is_revoked t ≡ false

  row-Kept :
      (p : UserStore.CreateRefreshTokenParams) (id user now : ℕ) (before : Db) (t : RefreshToken)
      (after : Db)
      → env.scan p.user_id ≡ some user
      → TokenQueries.create_refresh_token
          (record { id = id; user_id = user; token_hash = p.token_hash; expires_at = p.expires_at })
          now
          before
        ≡ ok (t, after)
      → Kept p before t after
  unfolding TokenQueries.create_refresh_token
  row-Kept p id user now before t after owner made = record {
    stores = ground arith;
    owner = ground arith;
    hash = ground arith;
    expiry = ground arith;
    live = ground arith;
  }

  pub keeps :
      (p : UserStore.CreateRefreshTokenParams) (w : World)
      → Ends (Kept p w.db) (Atomic w.db (Kept p w.db)) (UserStore.create_refresh_token env p w)
  unfolding UserStore.create_refresh_token
  keeps p w = Ends-scan_uuid env p.id _ w (inl refl) λ id _.
      Ends-scan_uuid env p.user_id _ w (inl refl) λ user owner.
        Ends-execute env _ w λ t db made. row-Kept p id user (env.now w.ticks) w.db t db owner made

  pub got_token :
      (token : String) (t : RefreshToken) (w v : World)
      → or_raise
          (UserStore.get_refresh_token_by_hash env (crypto.hash_token token))
          invalid_refresh_token
          w
        ≡ (ok t, v)
      → (v.ticks ≡ suc w.ticks)
        × (find_token (crypto.hash_token token) w.db ≡ some t)
        × (v.db ≡ w.db)
  unfolding or_raise UserStore.get_refresh_token_by_hash query
      TokenQueries.get_refresh_token_by_hash
  got_token token t w v h = ground arith

  pub got_no_token :
      (token : String) (e : Error) (w v : World)
      → or_raise
          (UserStore.get_refresh_token_by_hash env (crypto.hash_token token))
          invalid_refresh_token
          w
        ≡ (err e, v)
      → v.db ≡ w.db
  unfolding or_raise UserStore.get_refresh_token_by_hash query
      TokenQueries.get_refresh_token_by_hash
  got_no_token token e w v h = ground arith

  pub got_owner :
      (id : ℕ) (u : User) (w v : World)
      → or_raise (UserStore.get_user env (env.render id)) invalid_refresh_token w ≡ (ok u, v)
      → (v.ticks ≡ suc w.ticks)
        × (find (λ (x : User). x.id == id) w.db.users ≡ some u)
        × (v.db ≡ w.db)
  unfolding or_raise UserStore.get_user ◌>>=◌ scan_uuid query UserQueries.get_user
  got_owner id u w v h = ground (arith, env.scan-render id)

  pub got_no_owner :
      (id : ℕ) (e : Error) (w v : World)
      → or_raise (UserStore.get_user env (env.render id)) invalid_refresh_token w ≡ (err e, v)
      → v.db ≡ w.db
  unfolding or_raise UserStore.get_user ◌>>=◌ scan_uuid query UserQueries.get_user
  got_no_owner id e w v h = ground (arith, env.scan-render id)
