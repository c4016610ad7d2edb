-- ===== src/Auth/Registration.antt =====
-- How a registration ends.
use go_order_service.Prelude.{
  ℕ, inl, inr, String, ◌≡◌, refl, ◌⊎◌, true, false, ◌||◌, ◌&&◌, not, none, ◌==◌, string_eq, nat_eq,
  ◌∷◌, arith, eq_iff, ◌∙◌,
}
use go_order_service.Schema.{Db, User}
use go_order_service.Runtime.{Result, ok, err, Env, World}
use go_order_service.Runtime.Autocommit.{Ends-execute}
use go_order_service.Runtime.Ends.{
  Ends, Either, Ends-bind, Ends-pure, Ends-raise, Ends-if, Ends-attempt, Ends-new_uuid, Atomic,
  Ends-weaken, Ends-scan_uuid,
}
use go_order_service.Sqlc.Users as UserQueries
use go_order_service.Store.Users as UserStore
use go_order_service.Auth.{
  Crypto, Config, RegisterUserParams, hash_password, normal_email, role_of, registered,
  register_user,
}
use go_order_service.Auth.Tokens.{find_user}

-- A new user, whose email no other has.
pub record Registered (env : Env) (crypto : Crypto) (p : RegisterUserParams) (before : Db)
    (u : User) (after : Db) : Type 0 where
  pub stores : after ≡ record before { users = u ∷ before.users }
  pub email : u.email ≡ normal_email env p.email
  pub named : (normal_email env p.email == "") ≡ false
  pub role : u.role ≡ role_of p
  pub known_role : (u.role ≡ "customer") ⊎ (u.role ≡ "admin")
  pub password : crypto.check_password p.password u.password_hash ≡ true
  pub first : find_user u.email before ≡ none

module _ (env : Env) (crypto : Crypto) (config : Config) where
  record Stored (p : UserStore.CreateUserParams) (before : Db) (u : User) (after : Db)
      : Type 0 where
    stores : after ≡ record before { users = u ∷ before.users }
    email : u.email ≡ p.email
    password_hash : u.password_hash ≡ p.password_hash
    role : u.role ≡ p.role
    known_role : (u.role ≡ "customer") ⊎ (u.role ≡ "admin")
    first : find_user u.email before ≡ none

  row-Stored :
      (p : UserStore.CreateUserParams) (id now : ℕ) (before : Db) (u : User) (after : Db)
      → UserQueries.create_user
          (record { id = id; email = p.email; password_hash = p.password_hash; role = p.role })
          now
          before
        ≡ ok (u, after)
      → Stored p before u after
  unfolding UserQueries.create_user
  row-Stored p id now before u after made = record {
    stores = ground arith;
    email = ground arith;
    password_hash = ground arith;
    role = ground arith;
    known_role = ground (arith, eq_iff p.role "customer", eq_iff p.role "admin");
    first = ground arith;
  }

  creates :
      (p : UserStore.CreateUserParams) (w : World)
      → Ends (Stored p w.db) (Atomic w.db (Stored p w.db)) (UserStore.create_user env p w)
  unfolding UserStore.create_user
  creates p w =
      Ends-scan_uuid env p.id _ w (inl refl)
        λ id _. Ends-execute env _ w λ u db made. row-Stored p id (env.now w.ticks) w.db u db made

  hashes :
      (password : String) (w : World)
      → Ends
          (λ h db. (crypto.check_password password h ≡ true) × (db ≡ w.db))
          (λ _ db. db ≡ w.db)
          (hash_password env crypto config password w)
  unfolding hash_password
  hashes password w = grind (arith, crypto.check-hash)

  answers :
      (r : Result User) (before : Db) (Q : User → Db → Type 0) (w : World)
      → Either Q (Atomic before Q) r w.db
      → Ends Q (Atomic before Q) (registered r w)
  answers (ok u) before Q w h = Ends-pure _ w h
  answers (err e) before Q w (inl same) = Ends-raise _ w (inl same)
  answers (err e) before Q w (inr (lost, u, h)) = Ends-raise _ w (inr (rw lost refl, u, h))

  -- `RegisterUser` stores a user with the normal form of the email, which no other user has, with one
  -- of the two roles and a hash that the password passes; or it fails and writes nothing, unless only
  -- the answer of the insert is lost and the user is there.
  pub register_user-Registered :
      (p : RegisterUserParams) (w : World)
      → Ends
          (Registered env crypto p w.db)
          (Atomic w.db (Registered env crypto p w.db))
          (register_user env crypto config p w)
  unfolding register_user
  register_user-Registered p w =
      Ends-if (normal_email env p.email == "" || p.password == "") _ _ w
        (λ _. Ends-raise _ w (inl refl))
        λ complete.
          Ends-if (not (role_of p == "customer") && not (role_of p == "admin")) _ _ w
            (λ _. Ends-raise _ w (inl refl))
            λ known.
              Ends-bind _ _ w
                (Ends-weaken _ (hashes p.password w) (λ _ _ h. h) (λ _ _ same. inl same))
                λ h v (good, same). Ends-bind _ _ v (Ends-new_uuid env v) λ id u same'.
                  Ends-bind _ _ u (Ends-attempt _ u (creates _ u)) λ r x stored.
                    answers r w.db _ x (made_or_same r x u h id good (same' ∙ same) complete stored)
    where
      params : String → String → UserStore.CreateUserParams
      params h id = record {
        id = id;
        email = normal_email env p.email;
        password_hash = h;
        role = role_of p;
      }

      made :
          (y : User) (before after : Db) (h id : String)
          → crypto.check_password p.password h ≡ true
          → before ≡ w.db
          → (normal_email env p.email == "" || p.password == "") ≡ false
          → Stored (params h id) before y after
          → Registered env crypto p w.db y after
      made y before after h id good same complete s = record {
        stores = ground arith;
        email = s.email;
        named = ground arith;
        role = s.role;
        known_role = s.known_role;
        password = rw s.password_hash good;
        first = rw⁻¹ same s.first;
      }

      made_or_same :
          (r : Result User) (x u : World) (h id : String)
          → crypto.check_password p.password h ≡ true
          → u.db ≡ w.db
          → (normal_email env p.email == "" || p.password == "") ≡ false
          → Either (Stored (params h id) u.db) (Atomic u.db (Stored (params h id) u.db)) r x.db
          → Either
              (Registered env crypto p w.db)
              (Atomic w.db (Registered env crypto p w.db))
              r
              x.db
      made_or_same (ok y) x u h id good same complete s = made y u.db x.db h id good same complete s
      made_or_same (err e) x u h id good same complete (inl unchanged) = inl (unchanged ∙ same)
      made_or_same (err e) x u h id good same complete (inr (lost, y, s)) =
          inr (lost, y, made y u.db x.db h id good same complete s)
