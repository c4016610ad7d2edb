-- ===== src/RateLimit/Stays.antt =====
-- How long a counter of the limiter stays, and what it counts.
use go_order_service.Prelude.{
  ℕ, suc, ◌≡◌, refl, ◌≤◌, ◌<◌, ◌+◌, true, Option, none, some, arith, nat_eq, string_eq, Bool-cases,
  inl, inr,
}
use go_order_service.RateLimit.{Counter, window_start, live_value, bumped, renewed, is_live}

-- The counter stays until a second after the window, at least.
abbrev pub Stays : ℕ → Option Counter → Type 0
Stays last none = Unit
Stays last (some c) = (t : ℕ) → t < last → is_live t c.deadline ≡ true

abbrev pub value_of : Option Counter → ℕ
value_of none = 0
value_of (some c) = c.value

pub window_start-le : (now window : ℕ) → window_start now window ≤ now
unfolding window_start
window_start-le now window = omega arith

pub Stays-live :
    (last t : ℕ) (e : Option Counter) → Stays last e → t < last → live_value t e ≡ value_of e
Stays-live last t none h early = refl
Stays-live last t (some c) h early = rw (h t early) refl

pub Stays-bumped :
    (last t : ℕ) (e : Option Counter)
    → Stays last e
    → t < last
    → Stays last (some (bumped t e)) × ((bumped t e).value ≡ suc (value_of e))
Stays-bumped last t none h early = ((λ u e. refl), refl)
Stays-bumped last t (some c) h early = rw (h t early) (h, refl)

pub Stays-renewed :
    (last t ttl : ℕ) (e : Option Counter)
    → Stays last e
    → last ≤ t + ttl
    → Stays last (renewed t ttl e) × (value_of (renewed t ttl e) ≡ value_of e)
Stays-renewed last t ttl none h late = (tt, refl)
Stays-renewed last t ttl (some c) h late = elim (Bool-cases (is_live t c.deadline)) [
  | inl live ↦ rw live ((λ u early. ground arith), refl)
  | inr over ↦ rw over (h, refl)
]

-- What `EXPIRE` does to a counter: its value is kept.
abbrev pub Kept : ℕ → Option Counter → Option Counter → Type 0
Kept last before after = Stays last after × (value_of after ≡ value_of before)
