-- ===== src/Examples/DistributedLock.antt =====
-- The property of the lock, with a server that keeps one entry for each write.
use go_order_service.Prelude.{
  ℕ, String, ◌≡◌, refl, ◌≤◌, ◌<◌, ◌+◌, Bool, true, false, Option, none, some, List, [], ◌∷◌, arith,
  ltb, if◌then◌else◌, ◌==◌, string_eq, eq_iff,
}
use go_order_service.DistributedLock.{Redis, acquire}
use go_order_service.DistributedLock.Exclusion.{Move, acquires, releases, moves, acquire-Exclusive}

-- An entry with the time at which its life is over; a deleted key has an entry that is over.
abbrev pub Entry : Type 0
Entry = String × String × ℕ

abbrev pub value_at : ℕ → String → ℕ → Option String
value_at now value deadline = if ltb now deadline then some value else none

abbrev pub get : List Entry → ℕ → String → Option String
get [] now key = none
get ((k, v, d) ∷ es) now key =
    let rest = get es now key in if key == k then value_at now v d else rest

abbrev pub write : ℕ → String → String → ℕ → List Entry → Option String → Bool × List Entry
write now key value ttl es none = (true, (key, value, now + ttl) ∷ es)
write now key value ttl es (some old) = (false, es)

abbrev pub set_nx : ℕ → String → String → ℕ → List Entry → Bool × List Entry
set_nx now key value ttl es = write now key value ttl es (get es now key)

abbrev pub del : ℕ → String → List Entry → List Entry
del now key es = (key, "", 0) ∷ es

pub set_nx-taken_lem :
    (s : List Entry) (now ttl : ℕ) (key value old : String)
    → get s now key ≡ some old
    → ((set_nx now key value ttl s).0 ≡ false)
      × ((t : ℕ) (k : String) → get (set_nx now key value ttl s).1 t k ≡ get s t k)
set_nx-taken_lem s now ttl key value old h = rw h (refl, λ t k. refl)

pub set_nx-free_lem :
    (s : List Entry) (now ttl : ℕ) (key value : String)
    → get s now key ≡ none
    → ((set_nx now key value ttl s).0 ≡ true)
      × ((t : ℕ) → now ≤ t → t < now + ttl → get (set_nx now key value ttl s).1 t key ≡ some value)
set_nx-free_lem s now ttl key value h = rw h (refl, λ t a b. ground (arith, eq_iff key key))

pub set_nx-other_lem :
    (s : List Entry) (now ttl : ℕ) (key value other : String)
    → (other == key) ≡ false
    → (t : ℕ) → get (set_nx now key value ttl s).1 t other ≡ get s t other
set_nx-other_lem s now ttl key value other h t = written (get s now key)
  where
    written : (o : Option String) → get (write now key value ttl s o).1 t other ≡ get s t other
    written none = rw h refl
    written (some old) = refl

pub del-other_lem :
    (s : List Entry) (now : ℕ) (key other : String)
    → (other == key) ≡ false
    → (t : ℕ) → get (del now key s) t other ≡ get s t other
del-other_lem s now key other h t = rw h refl

pub del-self_lem :
    (s : List Entry) (now t : ℕ) (key : String) → now ≤ t → get (del now key s) t key ≡ none
del-self_lem s now t key late = ground (arith, eq_iff key key)

abbrev pub redis : Redis (List Entry)
redis = record {
  get = get;
  set_nx = set_nx;
  del = del;
  set_nx-taken = set_nx-taken_lem;
  set_nx-free = set_nx-free_lem;
  set_nx-other = set_nx-other_lem;
  del-other = del-other_lem;
  del-self = del-self_lem;
}

-- Another request tries to get the lock, and releases a lock that it does not have.
abbrev rivals : List Move
rivals =
    acquires 7 "lock:order:111" "second"
    ∷ releases 8 (record { key = "lock:order:111"; token = "second" })
    ∷ []

acquire-Exclusive_example :
    ((acquire redis 10 5 "lock:order:111" "first" []).0
      ≡ some (record { key = "lock:order:111"; token = "first" }))
    × ((acquire redis 10 9 "lock:order:111" "third"
          (moves redis 10 rivals (acquire redis 10 5 "lock:order:111" "first" []).1)).0
        ≡ none)
acquire-Exclusive_example =
    acquire-Exclusive redis 10 5 "lock:order:111" "first" [] rivals 9 "third" refl
      ((omega arith, omega arith), ((omega arith, omega arith, refl), tt)) (omega arith)
      (omega arith)
