-- ===== src/DistributedLock/Exclusion.antt =====
-- The holder of a lock, among the moves of others.
use go_order_service.Prelude.{
  ℕ, String, ◌≡◌, ◌≤◌, ◌<◌, ◌+◌, inl, inr, Bool, true, false, Option, none, some, List, [], ◌∷◌,
  arith, if◌then◌else◌, ◌==◌, string_eq, Bool-cases, eq_iff, refl, ◌∙◌, sym,
}
use go_order_service.DistributedLock.{Redis, Lock, acquire, release, release_held}

-- What others do with locks: they acquire with their own tokens, and release their own locks.
pub data Move : Type 0 where
  acquires : ℕ → String → String → Move
  releases : ℕ → Lock → Move

module _ {Store : Type 0} (redis : Redis Store) (ttl : ℕ) where
  unfoldable pub move : Move → Store → Store
  move (acquires now key token) s = (acquire redis ttl now key token s).1
  move (releases now l) s = release redis ttl now l s

  unfoldable pub moves : List Move → Store → Store
  moves [] s = s
  moves (m ∷ ms) s = moves ms (move m s)

  -- A move before the deadline by someone with another token.
  abbrev pub Foreign : ℕ → ℕ → Lock → Move → Type 0
  Foreign from deadline l (acquires now key token) = (from ≤ now) × (now < deadline)
  Foreign from deadline l (releases now m) =
      (from ≤ now) × (now < deadline) × ((m.token == l.token) ≡ false)

  abbrev pub AllForeign : ℕ → ℕ → Lock → List Move → Type 0
  AllForeign from deadline l [] = Unit
  AllForeign from deadline l (m ∷ ms) = Foreign from deadline l m × AllForeign from deadline l ms

  -- The key has the lock's token from a time until the deadline.
  abbrev pub Held : ℕ → ℕ → Lock → Store → Type 0
  Held from deadline l s = (t : ℕ) → from ≤ t → t < deadline → redis.get s t l.key ≡ some l.token

  if-Held :
      (from deadline : ℕ) (l : Lock) (b : Bool) (x y : Store)
      → (b ≡ true → Held from deadline l x)
      → Held from deadline l y
      → Held from deadline l (if b then x else y)
  if-Held from deadline l true x y h k = h refl
  if-Held from deadline l false x y h k = k

  release_held-Held :
      (from deadline : ℕ) (l m : Lock) (now : ℕ) (s : Store) (o : Option String)
      → redis.get s now m.key ≡ o
      → redis.get s now l.key ≡ some l.token
      → (m.token == l.token) ≡ false
      → Held from deadline l s
      → Held from deadline l (release_held redis ttl now m o s)
  release_held-Held from deadline l m now s none there mine foreign h = h
  release_held-Held from deadline l m now s (some held) there mine foreign h =
      if-Held from deadline l (held == m.token) _ _ deleted h
    where
      deleted : (held == m.token) ≡ true → Held from deadline l (redis.del now m.key s)
      deleted own t a b = elim (Bool-cases (l.key == m.key)) [
        | inl same ↦
            let one : l.key ≡ m.key = (eq_iff l.key m.key).0 same in
            let token : held ≡ m.token = (eq_iff held m.token).0 own in
            let both : some held ≡ some l.token = sym there ∙ rw⁻¹ one mine in
            absurd (ground (arith, eq_iff m.token l.token))
        | inr other ↦ redis.del-other s now m.key l.key other t ∙ h t a b
      ]

  move-Held :
      (from deadline : ℕ) (l : Lock) (m : Move) (s : Store)
      → Foreign from deadline l m
      → Held from deadline l s
      → Held from deadline l (move m s)
  unfolding move acquire release
  move-Held from deadline l (acquires now key token) s (late, early) h t a b =
      elim (Bool-cases (l.key == key)) [
        | inl same ↦
            let one : l.key ≡ key = (eq_iff l.key key).0 same in
            (redis.set_nx-taken s now ttl key token l.token (rw⁻¹ one (h now late early))).1 t l.key
            ∙ h t a b
        | inr other ↦ redis.set_nx-other s now ttl key token l.key other t ∙ h t a b
      ]
  move-Held from deadline l (releases now m) s (late, early, foreign) h t a b =
      release_held-Held from deadline l m now s (redis.get s now m.key) refl (h now late early)
        foreign h t a b

  moves-Held :
      (from deadline : ℕ) (l : Lock) (ms : List Move) (s : Store)
      → AllForeign from deadline l ms
      → Held from deadline l s
      → Held from deadline l (moves ms s)
  unfolding moves
  moves-Held from deadline l [] s foreign h = h
  moves-Held from deadline l (m ∷ ms) s (first, rest) h =
      moves-Held from deadline l ms (move m s) rest (move-Held from deadline l m s first h)

  -- A free lock is acquired, and while it is held, nobody else gets it: whoever acquires and releases
  -- locks, with other tokens, before the holder's time to live is over, an attempt to acquire the same
  -- key in that time fails.
  pub acquire-Exclusive :
      (now : ℕ) (key token : String) (s : Store) (ms : List Move) (t : ℕ) (other : String)
      → redis.get s now key ≡ none
      → AllForeign now (now + ttl) (record { key = key; token = token }) ms
      → now ≤ t
      → t < now + ttl
      → ((acquire redis ttl now key token s).0 ≡ some (record { key = key; token = token }))
        × ((acquire redis ttl t key other (moves ms (acquire redis ttl now key token s).1)).0
            ≡ none)
  unfolding acquire
  acquire-Exclusive now key token s ms t other free foreign late early =
      let (got, holds) = redis.set_nx-free s now ttl key token free in
      let held : Held now (now + ttl) (record { key = key; token = token })
          (moves ms (redis.set_nx now key token ttl s).1) =
        moves-Held now (now + ttl) (record { key = key; token = token }) ms _ foreign holds in
      let (refused, _) = redis.set_nx-taken _ t ttl key other token (held t late early) in
      (rw got refl, rw refused refl)
