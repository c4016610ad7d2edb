-- ===== src/Auth/Accounts.antt =====
-- What the auth service leaves alone: everything but the users and their refresh tokens.
use go_order_service.Prelude.{String, ◌≡◌, refl, ◌==◌, string_eq, nat_eq, arith}
use go_order_service.Schema.{Db}
use go_order_service.Runtime.{Env, World, ◌>>=◌, query, scan_uuid}
use go_order_service.Runtime.Ends.{
  Ends, Ends-bind, Ends-pure, Ends-raise, Ends-if, Ends-or_raise, Ends-always, Atomic-always,
}
use go_order_service.Sqlc.Users as UserQueries
use go_order_service.Store.Users as UserStore
use go_order_service.Auth.{
  Crypto, Config, RegisterUserParams, LoginParams, register_user, login, refresh_access_token,
  logout, get_user,
}
use go_order_service.Auth.Tokens.{found_token, revokes}
use go_order_service.Auth.Registration.{register_user-Registered}
use go_order_service.Auth.Sessions.{login-Opened, refresh_access_token-Renewed}

-- A change of the accounts and of nothing else.
abbrev pub Accounts : Db → Db → Type 0
Accounts before after =
    after ≡ record before { users = after.users; refresh_tokens = after.refresh_tokens }

module _ (env : Env) (crypto : Crypto) (config : Config) (w : World) where
  pub register_user-Accounts :
      (p : RegisterUserParams) → Accounts w.db (register_user env crypto config p w).1.db
  register_user-Accounts p =
      Ends-always (Accounts w.db) _ (register_user-Registered env crypto config p w)
        (λ u db made. rw made.stores refl)
        (Atomic-always (Accounts w.db) refl λ u db made. rw made.stores refl)

  pub login-Accounts : (p : LoginParams) → Accounts w.db (login env crypto config p w).1.db
  login-Accounts p =
      Ends-always (Accounts w.db) _ (login-Opened env crypto config p w)
        (λ l db made. rw made.stores refl)
        (Atomic-always (Accounts w.db) refl λ l db made. rw made.stores refl)

  pub refresh_access_token-same :
      (token : String) → (refresh_access_token env crypto config token w).1.db ≡ w.db
  refresh_access_token-same token =
      Ends-always (λ db. db ≡ w.db) _ (refresh_access_token-Renewed env crypto config token w)
        (λ l db made. made.unchanged) (λ e db same. same)

  logout-Ends :
      (token : String)
      → Ends
          (λ _ db. Accounts w.db db)
          (λ _ db. Accounts w.db db)
          (logout env crypto config token w)
  unfolding logout
  logout-Ends token =
      Ends-if (token == "") _ _ w (λ _. Ends-raise _ w refl)
        λ _.
          Ends-bind _ _ w
            (Ends-or_raise _ _ w (found_token env crypto config (crypto.hash_token token) w)
              (λ _ _ same. rw same refl))
            λ t v (_, same).
              Ends-bind _ _ v
                (Ends-or_raise _ _ v (revokes env crypto config t v) (
                  Atomic-always (Accounts w.db) (rw same refl)
                    λ r db (stores, _). rw (stores, same) refl))
                λ _ u (stores, _). Ends-pure _ u (rw (stores, same) refl)

  pub logout-Accounts : (token : String) → Accounts w.db (logout env crypto config token w).1.db
  logout-Accounts token =
      Ends-always (Accounts w.db) _ (logout-Ends token) (λ _ db h. h) (λ e db h. h)

  pub get_user-same : (id : String) → (get_user env crypto config id w).1.db ≡ w.db
  unfolding get_user UserStore.get_user ◌>>=◌ scan_uuid query UserQueries.get_user
  get_user-same id = ground arith
