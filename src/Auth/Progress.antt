-- ===== src/Auth/Progress.antt =====
-- `AuthService.Login` while nothing outside fails.
use go_order_service.Prelude.{
  ℕ, String, ◌≡◌, refl, true, false, ◌||◌, not, some, ◌==◌, string_eq, nat_eq, ◌∷◌, arith, ◌∙◌,
  eq_iff,
}
use mathlib.Core.Path.{subst}
use go_order_service.Prelude.Lists.{contains}
use go_order_service.Schema.{Db, User}
use go_order_service.Runtime.{Result, ok, err, Env, World, ◌>>=◌, query, execute, scan_uuid}
use go_order_service.Runtime.Ends.{Atomic, Ends, Ends-bind, Ends-pure, Ends-if, Ends-or_raise}
use go_order_service.Runtime.Reachable.{Reachable, Never, new_uuid-fresh}
use go_order_service.Sqlc.Users as UserQueries
use go_order_service.Sqlc.RefreshTokens as TokenQueries
use go_order_service.Store.Users as UserStore
use go_order_service.Auth.{
  Crypto, Config, RegisterUserParams, LoginParams, LoginResult, read_clock, generate_refresh_token,
  claims_of, generate_access_token, normal_email, open_session, login, register_user,
}
use go_order_service.Auth.Tokens.{find_user}
use go_order_service.Auth.Registration.{Registered, register_user-Registered}

-- The random source gives bytes, the claims of the user can be signed, and neither the hash of a
-- random token nor an id that `uuid.New` gives is in the table of tokens.
pub record CanOpen (env : Env) (crypto : Crypto) (config : Config) (u : User) (db : Db)
    : Type 0 where
  pub draws : (n : ℕ) → (t : String) × (crypto.random n ≡ some t)
  pub signs :
      (n : ℕ) → (t : String) × (crypto.sign (claims_of env crypto config u (env.now n)) ≡ some t)
  pub new_hash :
      (n : ℕ) (t : String)
      → crypto.random n ≡ some t
      → contains (λ r. r.token_hash == crypto.hash_token t) db.refresh_tokens ≡ false
  pub new_id : (n : ℕ) → contains (λ r. r.id == env.fresh n) db.refresh_tokens ≡ false

module _ (env : Env) (crypto : Crypto) (config : Config) (good : Reachable env) where
  finds :
      (email : String) (u : User) (w : World)
      → find_user email w.db ≡ some u
      → Ends (λ x db. (x ≡ u) × (db ≡ w.db)) Never (UserStore.get_user_by_email env email w)
  unfolding UserStore.get_user_by_email query UserQueries.get_user_by_email
  finds email u w found = ground (arith, good.answers w.ticks)

  stores :
      (p : UserStore.CreateRefreshTokenParams) (id : ℕ) (u : User) (w : World)
      → env.scan p.id ≡ some id
      → env.scan p.user_id ≡ some u.id
      → contains (λ r. r.id == id) w.db.refresh_tokens ≡ false
      → contains (λ r. r.token_hash == p.token_hash) w.db.refresh_tokens ≡ false
      → contains (λ x. x.id == u.id) w.db.users ≡ true
      → Ends (λ _ _. Unit) Never (UserStore.create_refresh_token env p w)
  unfolding UserStore.create_refresh_token ◌>>=◌ scan_uuid execute TokenQueries.create_refresh_token
  stores p id u w scanned owner free new there =
      ground (arith, good.answers w.ticks, good.commits w.ticks)

  module _ (u : User) (before : Db) (can : CanOpen env crypto config u before) where
    signs :
        (w : World) → Ends (λ _ db. db ≡ w.db) Never (generate_access_token env crypto config u w)
    unfolding generate_access_token read_clock ◌>>=◌
    signs w = let (t, signed) = can.signs w.ticks in rw signed (record { as_stated = refl })

    draws :
        (w : World)
        → Ends
            (λ t db. ((n : ℕ) × (crypto.random n ≡ some t)) × (db ≡ w.db))
            Never
            (generate_refresh_token env crypto config w)
    unfolding generate_refresh_token
    draws w =
        let (t, drawn) = can.draws w.ticks in
        rw drawn (record { as_stated = ((w.ticks, drawn), refl) })

    reads : (w : World) → Ends (λ _ db. db ≡ w.db) Never (read_clock env crypto config w)
    unfolding read_clock
    reads w = record { as_stated = refl }

    opens :
        (password : String) (w : World)
        → w.db ≡ before
        → crypto.check_password password u.password_hash ≡ true
        → contains (λ x. x.id == u.id) before.users ≡ true
        → Ends (λ r _. r.user ≡ u) Never (open_session env crypto config password u w)
    unfolding open_session
    opens password w same passed there =
        Ends-if (not (crypto.check_password password u.password_hash)) _ _ w (λ failed. cc)
          λ _. Ends-bind _ _ w (signs w) λ access w₁ same₁.
            Ends-bind _ _ w₁ (draws w₁) λ token w₂ ((n, drawn), same₂).
              Ends-bind _ _ w₂ (reads w₂) λ now w₃ same₃.
                Ends-bind _ _ w₃ (new_uuid-fresh env w₃) λ id w₄ ((k, given), same₄).
                  let here : w₄.db ≡ before = same₄ ∙ same₃ ∙ same₂ ∙ same₁ ∙ same in
                  Ends-bind _ _ w₄
                    (stores _ (env.fresh k) u w₄ (rw given (env.scan-render (env.fresh k)))
                      (env.scan-render u.id) (rw here (can.new_id k))
                      (rw here (can.new_hash n token drawn)) (rw here there))
                    λ t w₅ _. Ends-pure _ w₅ refl

    login-Known :
        (p : LoginParams) (w : World)
        → w.db ≡ before
        → (normal_email env p.email == "" || p.password == "") ≡ false
        → find_user (normal_email env p.email) before ≡ some u
        → crypto.check_password p.password u.password_hash ≡ true
        → contains (λ x. x.id == u.id) before.users ≡ true
        → Ends (λ r _. r.user ≡ u) Never (login env crypto config p w)
    unfolding login
    login-Known p w same complete found passed there =
        Ends-if (normal_email env p.email == "" || p.password == "") _ _ w (λ empty. cc)
          λ _.
            Ends-bind _ _ w (Ends-or_raise _ _ w (finds _ u w (rw same found)) (λ _ _ h. h))
              λ x v (is_u, same'). rw is_u (opens p.password v (same' ∙ same) passed there)

module _ (env : Env) (crypto : Crypto) (config : Config) where
  register_user_made :
      (p : RegisterUserParams) (u : User) (w v : World)
      → register_user env crypto config p w ≡ (ok u, v)
      → Registered env crypto p w.db u v.db
  register_user_made p u w v made =
      (subst (Ends (Registered env crypto p w.db) (Atomic w.db (Registered env crypto p w.db))) made
        (register_user-Registered env crypto config p w)).as_stated

  register_user_complete :
      (p : RegisterUserParams) (u : User) (w v : World)
      → register_user env crypto config p w ≡ (ok u, v)
      → (normal_email env p.email == "" || p.password == "") ≡ false
  unfolding register_user
  register_user_complete p u w v made = ground arith

  login_made :
      (u : User) (r : Result LoginResult × World)
      → Ends (λ l _. l.user ≡ u) Never r
      → (l : LoginResult) × (r.0 ≡ ok l) × (l.user ≡ u)
  login_made u (ok l, w) h = (l, refl, h.as_stated)
  login_made u (err e, w) h = absurd h.as_stated

  -- Who has registered can log in with the same password and with any spelling of the email that has
  -- the same normal form, and gets a session for the registered user, as long as the table of users
  -- stays as it is, while the database and the random source answer, claims can be signed, and no
  -- random token or id is in use.
  pub login-registered :
      Reachable env
      → (p : RegisterUserParams) (q : LoginParams) (u : User) (w v x : World)
      → register_user env crypto config p w ≡ (ok u, v)
      → normal_email env q.email ≡ normal_email env p.email
      → q.password ≡ p.password
      → x.db.users ≡ v.db.users
      → CanOpen env crypto config u x.db
      → (l : LoginResult) × ((login env crypto config q x).0 ≡ ok l) × (l.user ≡ u)
  login-registered good p q u w v x made spelled same kept can =
      let r = register_user_made p u w v made in
      let row : x.db.users ≡ u ∷ w.db.users = kept ∙ rw r.stores refl in
      login_made u _ (
        login-Known env crypto config good u x.db can q x refl
          (rw (spelled, same) (register_user_complete p u w v made))
          (rw (row, spelled) (ground (arith, eq_iff u.email (normal_email env p.email), r.email)))
          (rw same r.password) (rw row (ground arith)))
