-- ===== src/Runtime/Ends.antt =====
-- How an action ends: a condition on the result and the database where it returns, another on the
-- error and the database where it fails. One rule for each way to build an action.
use mathlib.Core.Path.{subst}
use go_order_service.Prelude.{
  sym, ℕ, ◌≡◌, refl, ◌⊎◌, inl, inr, Bool, true, false, some, if◌then◌else◌, String, Option-cases,
}
use go_order_service.Schema.{Db}
use go_order_service.Runtime.{
  Error, unavailable, commit_unanswered, Result, ok, err, CommitOutcome, committed, rolled_back,
  answer_lost, Env, World, tick, Action, pure, raise, continue, ◌>>=◌, conclude, settle, with_tx,
  new_uuid, attempt, or_raise, bad_uuid, scan_uuid, Metric, count_metric, ◌>>◌,
}

abbrev pub EndsAs :
    {A : Type 0} → (A → Db → Type 0) → (Error → Db → Type 0) → Result A × World → Type 0
EndsAs Q E (ok a, w) = Q a w.db
EndsAs Q E (err e, w) = E e w.db

pub record Ends {A : Type 0} (Q : A → Db → Type 0) (E : Error → Db → Type 0) (r : Result A × World)
    : Type 0 where
  pub as_stated : EndsAs Q E r

-- No condition on failure: inside a transaction, where a failure is rolled back.
abbrev pub Any : Error → Db → Type 0
Any e db = Unit

-- What a transaction leaves where it fails: the database as it was, or, where only the answer of
-- the commit is lost, the database that the body has made.
abbrev pub Atomic : {A : Type 0} → Db → (A → Db → Type 0) → Error → Db → Type 0
Atomic {A} before Q e db = (db ≡ before) ⊎ ((e ≡ commit_unanswered) × (a : A) × Q a db)

module _ {A B : Type 0} {Q : B → Db → Type 0} {E : Error → Db → Type 0} {P : A → Db → Type 0} where
  Ends-continue :
      (r : Result A × World) (f : A → Action B)
      → Ends P E r
      → ((a : A) (w : World) → P a w.db → Ends Q E (f a w))
      → Ends Q E (continue r f)
  Ends-continue (ok a, w) f h k = k a w h.as_stated
  Ends-continue (err e, w) f h k = record { as_stated = h.as_stated }

  pub Ends-bind :
      (m : Action A) (f : A → Action B) (w : World)
      → Ends P E (m w)
      → ((a : A) (w' : World) → P a w'.db → Ends Q E (f a w'))
      → Ends Q E ((m >>= f) w)
  unfolding ◌>>=◌
  Ends-bind m f w h k = Ends-continue (m w) f h k

module _ {A B : Type 0} {Q : B → Db → Type 0} {E : Error → Db → Type 0} where
  Ends-continue_after :
      (s r : Result A × World) (f : A → Action B)
      → s ≡ r
      → ((a : A) (v : World) → s ≡ (ok a, v) → Ends Q E (f a v))
      → ((e : Error) (v : World) → s ≡ (err e, v) → E e v.db)
      → Ends Q E (continue r f)
  Ends-continue_after s (ok a, v) f same h k = h a v same
  Ends-continue_after s (err e, v) f same h k = record { as_stated = k e v same }

  -- After a call of which more is known than what becomes of the database.
  pub Ends-after :
      (m : Action A) (f : A → Action B) (w : World)
      → ((a : A) (v : World) → m w ≡ (ok a, v) → Ends Q E (f a v))
      → ((e : Error) (v : World) → m w ≡ (err e, v) → E e v.db)
      → Ends Q E ((m >>= f) w)
  unfolding ◌>>=◌
  Ends-after m f w h k = Ends-continue_after (m w) (m w) f refl h k

-- A call whose error is looked at ends as either case says.
abbrev pub Either :
    {A : Type 0} → (A → Db → Type 0) → (Error → Db → Type 0) → Result A → Db → Type 0
Either Q E (ok a) db = Q a db
Either Q E (err e) db = E e db

module _ {A : Type 0} {P : A → Db → Type 0} {F : Error → Db → Type 0} where
  Ends-looked_at : (r : Result A × World) → Ends P F r → Either P F r.0 r.1.db
  Ends-looked_at (ok a, w) h = h.as_stated
  Ends-looked_at (err e, w) h = h.as_stated

  pub Ends-attempt :
      {E : Error → Db → Type 0} (m : Action A) (w : World)
      → Ends P F (m w)
      → Ends (Either P F) E (attempt m w)
  unfolding attempt
  Ends-attempt m w h = record { as_stated = Ends-looked_at (m w) h }

-- Counting changes nothing in the database.
pub Ends-count :
    {A : Type 0} {Q : A → Db → Type 0} {E : Error → Db → Type 0} (m : Metric) (k : Action A)
    (w : World)
    → ((v : World) → v.db ≡ w.db → Ends Q E (k v))
    → Ends Q E ((count_metric m >> k) w)
unfolding ◌>>=◌
Ends-count m k w h = h _ refl

-- A fresh UUID changes nothing.
pub Ends-new_uuid :
    {E : Error → Db → Type 0} (env : Env) (w : World) → Ends (λ _ db. db ≡ w.db) E (new_uuid env w)
unfolding new_uuid
Ends-new_uuid env w = record { as_stated = refl }

module _ {A : Type 0} {Q : A → Db → Type 0} where
  Ends-conclude :
      (before : Db) (a : A) (outcome : CommitOutcome) (w : World)
      → Q a w.db
      → Ends Q (Atomic before Q) (conclude before a outcome w)
  Ends-conclude before a committed w h = record { as_stated = h }
  Ends-conclude before a rolled_back w h = record { as_stated = inl refl }
  Ends-conclude before a answer_lost w h = record { as_stated = inr (refl, a, h) }

  Ends-settle :
      (before : Db) (outcome : ℕ → CommitOutcome) (r : Result A × World)
      → Ends Q Any r
      → Ends Q (Atomic before Q) (settle before outcome r)
  Ends-settle before outcome (ok a, w) h = Ends-conclude before a (outcome w.ticks) w h.as_stated
  Ends-settle before outcome (err e, w) h = record { as_stated = inl refl }

  -- A transaction commits what its body has made, or leaves no trace of it.
  pub Ends-with_tx :
      (env : Env) (body : Action A) (w : World)
      → ((v : World) → v.db ≡ w.db → Ends Q Any (body v))
      → Ends Q (Atomic w.db Q) (with_tx env body w)
  unfolding with_tx
  Ends-with_tx env body w h =
      elim (env.fault w.ticks)
        as (λ b. Ends Q (Atomic w.db Q) (
          if b
          then (err unavailable, tick w)
          else settle w.db env.commit (body (record (tick w) { tx = some (env.now w.ticks) })))) [
            | true ↦ record { as_stated = inl refl }
            | false ↦ Ends-settle w.db env.commit _ (h _ refl)
          ]

  -- A text that has to be a UUID.
  pub Ends-scan_uuid :
      {E : Error → Db → Type 0} (env : Env) (text : String) (f : ℕ → Action A) (w : World)
      → E bad_uuid w.db
      → ((id : ℕ) → env.scan text ≡ some id → Ends Q E (f id w))
      → Ends Q E ((scan_uuid env text >>= f) w)
  unfolding ◌>>=◌ scan_uuid
  Ends-scan_uuid env text f w bad h = elim (Option-cases (env.scan text)) [
    | inl none ↦ rw none (record { as_stated = bad })
    | inr (id, given) ↦ rw given (h id given)
  ]

  pub Ends-pure : {E : Error → Db → Type 0} (a : A) (w : World) → Q a w.db → Ends Q E (pure a w)
  Ends-pure a w h = record { as_stated = h }

  pub Ends-raise :
      {E : Error → Db → Type 0} (e : Error) (w : World) → E e w.db → Ends Q E (raise e w)
  Ends-raise e w h = record { as_stated = h }

  -- Each branch may use the outcome of the test.
  pub Ends-if :
      {E : Error → Db → Type 0} (b : Bool) (m n : Action A) (w : World)
      → (b ≡ true → Ends Q E (m w))
      → (b ≡ false → Ends Q E (n w))
      → Ends Q E ((if b then m else n) w)
  Ends-if true m n w h k = h refl
  Ends-if false m n w h k = k refl

  -- A weaker conclusion.
  pub Ends-weaken :
      {P : A → Db → Type 0} {E F : Error → Db → Type 0} (r : Result A × World)
      → Ends P E r
      → ((a : A) (w : World) → P a w.db → Q a w.db)
      → ((e : Error) (w : World) → E e w.db → F e w.db)
      → Ends Q F r
  Ends-weaken (ok a, w) h q e = record { as_stated = q a w h.as_stated }
  Ends-weaken (err x, w) h q e = record { as_stated = e x w h.as_stated }

module _ {A : Type 0} {Q : A → Db → Type 0} {E : Error → Db → Type 0} where
  -- What holds of the database however the action ends.
  pub Ends-always :
      (I : Db → Type 0) (r : Result A × World)
      → Ends Q E r
      → ((a : A) (db : Db) → Q a db → I db)
      → ((e : Error) (db : Db) → E e db → I db)
      → I r.1.db
  Ends-always I (ok a, w) h q e = q a w.db h.as_stated
  Ends-always I (err x, w) h q e = e x w.db h.as_stated

-- What holds of a transaction's writes, and of the database before it, holds however it ends.
pub Atomic-always :
    {A : Type 0} {Q : A → Db → Type 0} {before : Db} (I : Db → Type 0)
    → I before
    → ((a : A) (db : Db) → Q a db → I db)
    → (e : Error) (db : Db) → Atomic before Q e db
    → I db
Atomic-always I i q e db (inl same) = subst I (sym same) i
Atomic-always I i q e db (inr (_, a, h)) = q a db h

module _ {A : Type 0} {Q : A → Db → Type 0} {E F : Error → Db → Type 0} where
  replaced :
      (r : Result A × World) (x : Error)
      → Ends Q E r
      → ((e : Error) (db : Db) → E e db → F x db)
      → Ends Q F (elim r.0 [ ok a ↦ (ok a, r.1) | err _ ↦ (err x, r.1) ])
  replaced (ok a, w) x h f = record { as_stated = h.as_stated }
  replaced (err e, w) x h f = record { as_stated = f e w.db h.as_stated }

  -- Every error of the call is replaced by `x`.
  pub Ends-or_raise :
      (m : Action A) (x : Error) (w : World)
      → Ends Q E (m w)
      → ((e : Error) (db : Db) → E e db → F x db)
      → Ends Q F (or_raise m x w)
  unfolding or_raise
  Ends-or_raise m x w h f = replaced (m w) x h f
