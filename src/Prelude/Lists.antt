-- ===== src/Prelude/Lists.antt =====
-- Lists as tables: search, selection, counting and update by a Boolean test on the rows.
use Prim.Native.Nat.{ℕ, zero, suc, ◌≤◌}
use mathlib.Core.Path.{◌≡◌, refl}
use mathlib.Core.Bool.{Bool, true, false, ◌&&◌}
use mathlib.Core.Logic.{inl, inr}
use mathlib.Core.Option.{Option, none, some}
use mathlib.Core.List.{List, [], ◌∷◌}
use native.Mathlib.Omega.{arith}
use go_order_service.Prelude.Tests.{if◌then◌else◌, Bool-cases}

module _ {ℓ} {A : Type ℓ} where
  abbrev pub length : List A → ℕ
  length [] = 0
  length (x ∷ xs) = suc (length xs)

  abbrev pub take : ℕ → List A → List A
  take zero xs = []
  take (suc n) [] = []
  take (suc n) (x ∷ xs) = x ∷ take n xs

  -- The first row that passes the test.
  abbrev pub find : (A → Bool) → List A → Option A
  find p [] = none
  find p (x ∷ xs) = if p x then some x else find p xs

  -- The rows that pass the test, in their order.
  abbrev pub select : (A → Bool) → List A → List A
  select p [] = []
  select p (x ∷ xs) = let rest = select p xs in if p x then x ∷ rest else rest

  -- How many rows pass the test.
  abbrev pub count : (A → Bool) → List A → ℕ
  count p [] = 0
  count p (x ∷ xs) = let rest = count p xs in if p x then suc rest else rest

  -- The rows with `f` put to those that pass the test.
  abbrev pub update : (A → Bool) → (A → A) → List A → List A
  update p f [] = []
  update p f (x ∷ xs) = (if p x then f x else x) ∷ update p f xs

  abbrev pub contains : (A → Bool) → List A → Bool
  contains p xs = elim (find p xs) [ none ↦ false | some _ ↦ true ]

  abbrev pub All {κ} : (A → Type κ) → List A → Type κ
  All P [] = Unit
  All P (x ∷ xs) = P x × All P xs

  pub find-test : (p : A → Bool) (xs : List A) (x : A) → find p xs ≡ some x → p x ≡ true
  find-test p [] x h = cc
  find-test p (y ∷ xs) x h = ground (arith, find-test p xs x)

  pub length-take : (n : ℕ) (xs : List A) → length (take n xs) ≤ n
  length-take zero xs = omega arith
  length-take (suc n) [] = omega arith
  length-take (suc n) (x ∷ xs) = omega (arith, length-take n xs)

module _ {ℓ} {A : Type ℓ} where
  pub count-select :
      (p q : A → Bool) (xs : List A) → count q (select p xs) ≡ count (λ x. p x && q x) xs
  count-select p q [] = refl
  count-select p q (x ∷ xs) = ground (arith, count-select p q xs)

  pub All-select : (p : A → Bool) (xs : List A) → All (λ x. p x ≡ true) (select p xs)
  All-select p [] = tt
  All-select p (x ∷ xs) = elim (Bool-cases (p x)) [
    | inl yes_x ↦ rw yes_x (yes_x, All-select p xs)
    | inr no_x ↦ rw no_x (All-select p xs)
  ]

  pub All-map {κ μ} :
      {P : A → Type κ} {Q : A → Type μ} (xs : List A) → ((x : A) → P x → Q x) → All P xs → All Q xs
  All-map [] f h = tt
  All-map (x ∷ xs) f (p, h) = (f x p, All-map xs f h)

  -- An update that no test `q` can see leaves the count of `q` alone.
  pub count-update :
      (p q : A → Bool) (f : A → A) (xs : List A)
      → ((x : A) → q (f x) ≡ q x)
      → count q (update p f xs) ≡ count q xs
  count-update p q f [] h = refl
  count-update p q f (x ∷ xs) h = ground (arith, h x, count-update p q f xs h)

  pub All-update {κ} :
      {P : A → Type κ} (p : A → Bool) (f : A → A) (xs : List A)
      → ((x : A) → p x ≡ true → P x → P (f x))
      → All P xs
      → All P (update p f xs)
  All-update p f [] h ps = tt
  All-update p f (x ∷ xs) h (px, ps) = elim (Bool-cases (p x)) [
    | inl hit ↦ rw hit (h x hit px, All-update p f xs h ps)
    | inr miss ↦ rw miss (px, All-update p f xs h ps)
  ]

  -- What is found before an update that the search does not see is found after it.
  pub find-update :
      (p q : A → Bool) (f : A → A) (xs : List A) (x : A)
      → ((y : A) → q (f y) ≡ q y)
      → find q xs ≡ some x
      → find q (update p f xs) ≡ some (if p x then f x else x)
  find-update p q f [] x h found = cc
  find-update p q f (y ∷ xs) x h found = ground (arith, h y, find-update p q f xs x h)

  -- What all rows have, the rows of a selection have, and the first ones.
  pub All-selected {κ} :
      (P : A → Type κ) (p : A → Bool) (xs : List A) → All P xs → All P (select p xs)
  All-selected P p [] h = tt
  All-selected P p (x ∷ xs) (px, h) = elim (Bool-cases (p x)) [
    | inl hit ↦ rw hit (px, All-selected P p xs h)
    | inr miss ↦ rw miss (All-selected P p xs h)
  ]

  pub All-take {κ} : (P : A → Type κ) (n : ℕ) (xs : List A) → All P xs → All P (take n xs)
  All-take P zero xs h = tt
  All-take P (suc n) [] h = tt
  All-take P (suc n) (x ∷ xs) (px, h) = (px, All-take P n xs h)
