-- ===== src/Prelude/Sorting.antt =====
-- Insertion sort, for `ORDER BY`.
use mathlib.Core.Path.{◌≡◌, refl}
use mathlib.Core.Logic.{inl, inr}
use mathlib.Core.Bool.{Bool, true, false}
use mathlib.Core.List.{List, [], ◌∷◌}
use native.Mathlib.Omega.{arith}
use go_order_service.Prelude.Tests.{if◌then◌else◌, Bool-cases}
use go_order_service.Prelude.Lists.{All, All-map, count}

module _ {ℓ} {A : Type ℓ} (before : A → A → Bool) where
  pub insert_by : A → List A → List A
  insert_by x [] = x ∷ []
  insert_by x (y ∷ ys) = let rest = insert_by x ys in if before y x then y ∷ rest else x ∷ y ∷ ys

  -- `before a b` says that a row `a` comes before a row `b`.
  unfoldable pub sort_by : List A → List A
  unfolding insert_by
  sort_by [] = []
  sort_by (x ∷ xs) = insert_by x (sort_by xs)

  -- No row comes before one that stands above it.
  abbrev pub IsSorted : List A → Type ℓ
  IsSorted [] = Unit
  IsSorted (x ∷ xs) = All (λ y. before y x ≡ false) xs × IsSorted xs

  count-insert_by :
      (q : A → Bool) (x : A) (ys : List A) → count q (insert_by x ys) ≡ count q (x ∷ ys)
  unfolding insert_by
  count-insert_by q x [] = refl
  count-insert_by q x (y ∷ ys) = ground (arith, count-insert_by q x ys)

  -- A sort keeps every row, as often as it is there.
  pub count-sort_by : (q : A → Bool) (xs : List A) → count q (sort_by xs) ≡ count q xs
  unfolding sort_by
  count-sort_by q [] = refl
  count-sort_by q (x ∷ xs) = ground (arith, count-insert_by q x (sort_by xs), count-sort_by q xs)

  All-insert_by {κ} :
      (P : A → Type κ) (x : A) (ys : List A) → P x → All P ys → All P (insert_by x ys)
  unfolding insert_by
  All-insert_by P x [] p h = (p, tt)
  All-insert_by P x (y ∷ ys) p h = elim (Bool-cases (before y x)) [
    | inl first ↦ rw first (h.0, All-insert_by P x ys p h.1)
    | inr last ↦ rw last (p, h)
  ]

  pub All-sort_by {κ} : (P : A → Type κ) (xs : List A) → All P xs → All P (sort_by xs)
  unfolding sort_by
  All-sort_by P [] h = tt
  All-sort_by P (x ∷ xs) (p, h) = All-insert_by P x (sort_by xs) p (All-sort_by P xs h)

  module _ (before_asym : (x y : A) → before x y ≡ true → before y x ≡ false)
      (after_trans : (x y z : A)
        → before y x ≡ false
        → before z y ≡ false
        → before z x ≡ false) where
    insert_by-IsSorted : (x : A) (ys : List A) → IsSorted ys → IsSorted (insert_by x ys)
    unfolding insert_by
    insert_by-IsSorted x [] h = (tt, tt)
    insert_by-IsSorted x (y ∷ ys) (above, h) = elim (Bool-cases (before y x)) [
      | inl first ↦
          rw first (All-insert_by _ x ys (before_asym y x first) above, insert_by-IsSorted x ys h)
      | inr last ↦
          rw last ((last, All-map ys (λ z later. after_trans x y z last later) above), (above, h))
    ]

    pub sort_by-IsSorted : (xs : List A) → IsSorted (sort_by xs)
    unfolding sort_by
    sort_by-IsSorted [] = tt
    sort_by-IsSorted (x ∷ xs) = insert_by-IsSorted x (sort_by xs) (sort_by-IsSorted xs)
