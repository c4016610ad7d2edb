-- ===== src/DistributedLock.antt =====
-- internal/distributedlock/lock.go, over a Redis server: an interface with what the commands that the
-- code uses promise at a time.
pub mod Exclusion
pub mod Manager
use go_order_service.Prelude.{
  ℕ, String, ◌≡◌, ◌≢◌, ◌≤◌, ◌<◌, ◌+◌, ◌⊎◌, Bool, true, false, Option, none, some, if◌then◌else◌,
  ◌==◌, string_eq,
}

-- `GET`, `SET key value NX PX ttl` and `DEL`, by the time of the server. The value of a key stays
-- until the key is deleted or its time to live is over, and `SET` with `NX` writes only where there
-- is no value.
pub record Redis (Store : Type 0) : Type 0 where
  pub get : Store → ℕ → String → Option String
  pub set_nx : ℕ → String → String → ℕ → Store → Bool × Store
  pub del : ℕ → String → Store → Store
  pub set_nx-taken :
      (s : Store) (now ttl : ℕ) (key value old : String)
      → get s now key ≡ some old
      → ((set_nx now key value ttl s).0 ≡ false)
        × ((t : ℕ) (k : String) → get (set_nx now key value ttl s).1 t k ≡ get s t k)
  pub set_nx-free :
      (s : Store) (now ttl : ℕ) (key value : String)
      → get s now key ≡ none
      → ((set_nx now key value ttl s).0 ≡ true)
        × ((t : ℕ)
            → now ≤ t
            → t < now + ttl
            → get (set_nx now key value ttl s).1 t key ≡ some value)
  pub set_nx-other :
      (s : Store) (now ttl : ℕ) (key value other : String)
      → (other == key) ≡ false
      → (t : ℕ) → get (set_nx now key value ttl s).1 t other ≡ get s t other
  pub del-other :
      (s : Store) (now : ℕ) (key other : String)
      → (other == key) ≡ false
      → (t : ℕ) → get (del now key s) t other ≡ get s t other
  pub del-self : (s : Store) (now t : ℕ) (key : String) → now ≤ t → get (del now key s) t key ≡ none

-- `Lock`; the manager is the section's server and time to live.
pub record Lock : Type 0 where
  pub key : String
  pub token : String

module _ {Store : Type 0} (redis : Redis Store) (ttl : ℕ) where
  -- `Acquire` at a time, with the token that `uuid.NewString` gave: `none` is `ErrLockNotAcquired`.
  unfoldable pub acquire : ℕ → String → String → Store → Option Lock × Store
  acquire now key token s =
      let (acquired, s') = redis.set_nx now key token ttl s in
      (if acquired then some (record { key = key; token = token }) else none, s')

  -- `Release`: the script that compares and deletes runs at one time.
  abbrev pub release_held : ℕ → Lock → Option String → Store → Store
  release_held now l none s = s
  release_held now l (some held) s = if held == l.token then redis.del now l.key s else s

  unfoldable pub release : ℕ → Lock → Store → Store
  release now l s = release_held now l (redis.get s now l.key) s
