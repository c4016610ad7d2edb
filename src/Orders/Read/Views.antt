-- ===== src/Orders/Read/Views.antt =====
-- What `GetOrder` and `ListOrders` show, and to whom.
use go_order_service.Prelude.{
  ℕ, String, ◌≡◌, ◌≢◌, ◌⊎◌, inl, inr, Bool, true, false, ◌&&◌, not, refl, none, some, List, arith,
  ◌∙◌, Option-cases, ◌==◌, nat_eq, string_eq, eq_iff,
}
use go_order_service.Prelude.Lists.{count, select, count-select}
use go_order_service.Prelude.Sorting.{IsSorted, sort_by, count-sort_by, sort_by-IsSorted}
use go_order_service.Schema.{Db, Order}
use go_order_service.Runtime.{
  Error, order_not_found, order_forbidden, ok, err, Env, World, ◌>>=◌, query, scan_uuid, or_raise,
}
use go_order_service.Runtime.Ends.{Ends, Ends-after, Ends-pure, Ends-raise, Ends-if, Ends-weaken}
use go_order_service.Sqlc.Orders as OrderQueries
use go_order_service.Sqlc.Orders.{find_order, is_newer}
use go_order_service.Store.Orders as OrderStore
use go_order_service.Store.Reads.{find_order-id, Same}
use go_order_service.Orders.Read.{ListOrdersParams, GetOrderParams, list_orders, get_order}

-- An order that is returned is the one asked for, and is the caller's own unless the caller is an
-- admin. A failure says that there is none, or that it is another's.
pub record Shown (env : Env) (p : GetOrderParams) (before : Db) (o : Order) (after : Db)
    : Type 0 where
  pub unchanged : after ≡ before
  pub scanned : env.scan p.order_id ≡ some o.id
  pub found : find_order o.id before.orders ≡ some o
  pub permitted : (p.role ≡ "admin") ⊎ (env.render o.user_id ≡ p.user_id)

-- The search at a call found the order, and it is another's.
pub record Foreign (env : Env) (p : GetOrderParams) (call : ℕ) (before : Db) : Type 0 where
  pub order : Order
  pub reached : env.fault call ≡ false
  pub scanned : env.scan p.order_id ≡ some order.id
  pub found : find_order order.id before.orders ≡ some order
  pub customer : p.role ≢ "admin"
  pub stranger : env.render order.user_id ≢ p.user_id

abbrev pub Hidden : Env → GetOrderParams → ℕ → Db → Error → Db → Type 0
Hidden env p call before e after =
    (after ≡ before) × ((e ≡ order_not_found) ⊎ ((e ≡ order_forbidden) × Foreign env p call before))

-- What `ListOrders` returns: all orders to an admin, and their own to any other caller with the
-- UUID `user`, each as often as the table has it, and the newest first.
pub record Listed (env : Env) (p : ListOrdersParams) (before : Db) (os : List Order) (after : Db)
    : Type 0 where
  pub unchanged : after ≡ before
  pub newest_first : IsSorted is_newer os
  pub all_of_them :
      (p.role == "admin") ≡ true → (q : Order → Bool) → count q os ≡ count q before.orders
  pub own_only :
      (p.role == "admin") ≡ false
      → (user : ℕ) → env.scan p.user_id ≡ some user
      → (q : Order → Bool)
      → count q os ≡ count (λ (o : Order). (o.user_id == user) && q o) before.orders

newer_asym : (x y : Order) → is_newer x y ≡ true → is_newer y x ≡ false
newer_asym x y h = ground arith

newer_trans : (x y z : Order) → is_newer y x ≡ false → is_newer z y ≡ false → is_newer z x ≡ false
newer_trans x y z h k = ground arith

module _ (env : Env) where
  -- The search, at its call.
  record Searched (p : GetOrderParams) (o : Order) (w v : World) : Type 0 where
    unchanged : v.db ≡ w.db
    reached : env.fault w.ticks ≡ false
    scanned : env.scan p.order_id ≡ some o.id
    found : find_order o.id w.db.orders ≡ some o

  searched :
      (p : GetOrderParams) (o : Order) (w v : World)
      → or_raise (OrderStore.get_order env p.order_id) order_not_found w ≡ (ok o, v)
      → Searched p o w v
  unfolding or_raise ◌>>=◌ OrderStore.get_order query scan_uuid OrderQueries.get_order
  searched p o w v h = record {
    unchanged = ground arith;
    reached = ground arith;
    scanned = grind (arith, find_order-id);
    found = grind (arith, find_order-id);
  }

  searched_in_vain :
      (p : GetOrderParams) (e : Error) (w v : World)
      → or_raise (OrderStore.get_order env p.order_id) order_not_found w ≡ (err e, v)
      → Hidden env p w.ticks w.db e v.db
  unfolding or_raise ◌>>=◌ OrderStore.get_order query scan_uuid OrderQueries.get_order
  searched_in_vain p e w v h = (ground arith, inl (ground arith))

  -- `GetOrder` shows an order to its owner and to admins only, whatever fails, and changes nothing.
  pub get_order-Shown :
      (p : GetOrderParams) (w : World)
      → Ends (Shown env p w.db) (Hidden env p w.ticks w.db) (get_order env p w)
  unfolding get_order
  get_order-Shown p w =
      Ends-after _ _ w
        (λ o v h.
          let s = searched p o w v h in
          Ends-if (not (p.role == "admin") && not (env.render o.user_id == p.user_id)) _ _ v
            (λ stranger. Ends-raise _ v (
              s.unchanged,
              inr (
                refl,
                record {
                  order = o;
                  reached = s.reached;
                  scanned = s.scanned;
                  found = s.found;
                  customer = λ admin. ground (arith, eq_iff p.role "admin");
                  stranger = λ owner. ground (arith, eq_iff (env.render o.user_id) p.user_id);
                },
              ),
            ))
            λ known. Ends-pure _ v (record {
              unchanged = s.unchanged;
              scanned = s.scanned;
              found = s.found;
              permitted =
                  ground (arith, eq_iff p.role "admin", eq_iff (env.render o.user_id) p.user_id);
            }))
        (λ e v h. searched_in_vain p e w v h)

  all_rows :
      (w : World)
      → Ends
          (λ os db. (os ≡ sort_by is_newer w.db.orders) × (db ≡ w.db))
          (Same w.db)
          (OrderStore.list_orders env w)
  unfolding OrderStore.list_orders query OrderQueries.list_orders
  all_rows w = ground arith

  rows_of :
      (id : String) (user : ℕ) (w : World)
      → env.scan id ≡ some user
      → Ends
          (λ os db.
            (os ≡ sort_by is_newer (select (λ o. o.user_id == user) w.db.orders)) × (db ≡ w.db))
          (Same w.db)
          (OrderStore.list_orders_by_user env id w)
  unfolding OrderStore.list_orders_by_user ◌>>=◌ scan_uuid query OrderQueries.list_orders_by_user
  rows_of id user w scanned = ground arith

  rows_of_none :
      {Q : List Order → Db → Type 0} (id : String) (w : World)
      → env.scan id ≡ none
      → Ends Q (Same w.db) (OrderStore.list_orders_by_user env id w)
  unfolding OrderStore.list_orders_by_user ◌>>=◌ scan_uuid
  rows_of_none id w unknown = ground arith

  sorted : (rows os : List Order) → os ≡ sort_by is_newer rows → IsSorted is_newer os
  sorted rows os e = rw e (sort_by-IsSorted is_newer newer_asym newer_trans rows)

  mine :
      (p : ListOrdersParams) (w : World)
      → (p.role == "admin") ≡ false
      → Ends (Listed env p w.db) (Same w.db) (OrderStore.list_orders_by_user env p.user_id w)
  mine p w customer = elim (Option-cases (env.scan p.user_id)) [
    | inl unknown ↦ rows_of_none p.user_id w unknown
    | inr (user, scanned) ↦
        Ends-weaken _ (rows_of p.user_id user w scanned)
          (λ os v (e, same). record {
            unchanged = same;
            newest_first = sorted _ os e;
            all_of_them = λ admin q. ground arith;
            own_only = λ _ other s q.
                let one : user ≡ other = ground arith in
                rw (e, ← one)
                  (count-sort_by is_newer q _
                    ∙ count-select (λ (o : Order). o.user_id == user) q w.db.orders);
          })
          (λ _ _ same. same)
  ]

  -- `ListOrders` shows customers their own orders and admins all of them, the newest first.
  pub list_orders-Listed :
      (p : ListOrdersParams) (w : World)
      → Ends (Listed env p w.db) (Same w.db) (list_orders env p w)
  unfolding list_orders
  list_orders-Listed p w =
      Ends-if (p.role == "admin") _ _ w
        (λ admin.
          Ends-weaken _ (all_rows w)
            (λ os v (e, same). record {
              unchanged = same;
              newest_first = sorted _ os e;
              all_of_them = λ _ q. rw e (count-sort_by is_newer q w.db.orders);
              own_only = λ customer user s q. ground arith;
            })
            (λ _ _ same. same))
        (mine p w)
