-- ===== src/Subscriptions/Periods.antt =====
-- What a new subscription is, and how long its first period.
use pay_fast_processor.Prelude.{
  ℕ, ◌+◌, ◌≤◌, String, Bool, true, false, List, [], ◌∷◌, ◌++◌, ◌≡◌, refl, ◌⊎◌, inl, inr, Bool-cases,
  ◌==◌, ◌||◌, arith, eq_iff, concat,
}
use pay_fast_processor.Prelude.Int.{ℤ, pos, leb_ℤ, ◌<ℤ◌}
use pay_fast_processor.Store.Schema.{Db, Subscription}
use pay_fast_processor.Store.Sql.{SqlError, Result, ok, err, constrained}
use pay_fast_processor.Runtime.Json.{Error}
use pay_fast_processor.Runtime.World.{Env, World}
use pay_fast_processor.Runtime.Act.{◌>>=◌, wrapping, pool_exec, generate}
use pay_fast_processor.Subscriptions.Calendar.{add_month_bounds, add_year_bounds}
use pay_fast_processor.Subscriptions.Creation.{
  CreateSubscriptionRequest, SubscriptionResponse, subscription_of, subscription_response,
  period_end, insert_subscription, subscription_constraints, store_subscription,
  create_subscription,
}

-- A period of a month has 28 to 31 days, and one of a year 365 or 366.
abbrev pub IsPeriod : String → ℕ → ℕ → Type 0
IsPeriod interval start end_ =
    ((interval ≡ "month") × (start + 2419200 ≤ end_) × (end_ ≤ start + 2678400))
    ⊎ ((interval ≡ "year") × (start + 31536000 ≤ end_) × (end_ ≤ start + 31622400))

module _ (req : CreateSubscriptionRequest) (w : World) where
  -- The row, and the answer that agrees with it.
  pub record Created (s : SubscriptionResponse) (u : World) : Type 0 where
    pub positive : pos 0 <ℤ req.amount
    pub row : Subscription
    pub stored : u.db ≡ record w.db { subscriptions = w.db.subscriptions ++ row ∷ [] }
    pub requested : row ≡ subscription_of row.id req w.now
    pub period : IsPeriod req.interval row.current_period_start row.current_period_end
    pub answer : s ≡ subscription_response row.id req.interval w.now

  abbrev pub Outcome : Result Error SubscriptionResponse × World → Type 0
  Outcome (ok s, u) = Created s u
  Outcome (err e, u) = u.db ≡ w.db

constrained_cases :
    {A : Type 0} (cs : List (Bool × SqlError)) (a : A)
    → ((e : SqlError) × (constrained cs a ≡ err e)) ⊎ (constrained cs a ≡ ok a)
constrained_cases [] a = inr refl
constrained_cases ((true, e) ∷ cs) a = constrained_cases cs a
constrained_cases ((false, e) ∷ cs) a = inl (e, refl)

insert_cases :
    (s : Subscription) (d : Db)
    → ((e : SqlError) × (insert_subscription s d ≡ err e))
      ⊎ (insert_subscription s d ≡ ok (tt, record d { subscriptions = d.subscriptions ++ s ∷ [] }))
unfolding insert_subscription
insert_cases s d = constrained_cases (subscription_constraints s d) _

period_end-IsPeriod :
    (interval : String) (now : ℕ)
    → (interval == "month" || interval == "year") ≡ true
    → IsPeriod interval now (period_end interval now)
period_end-IsPeriod interval now known = elim (Bool-cases (interval == "month")) [
  | inl month ↦
      rw month (
        inl ((eq_iff interval "month").0 month, (add_month_bounds now).0, (add_month_bounds now).1))
  | inr other ↦ rw other (
      inr (
        (eq_iff interval "year").0 (rw other at known),
        (add_year_bounds now).0,
        (add_year_bounds now).1,
      ))
]

positive_lem : (z : ℤ) → leb_ℤ z (pos 0) ≡ false → pos 0 <ℤ z
positive_lem z h = ground arith

module _ (env : Env) (req : CreateSubscriptionRequest) (w : World) where
  store_lem :
      pos 0 <ℤ req.amount
      → (req.interval == "month" || req.interval == "year") ≡ true
      → Outcome req w (store_subscription env req w)
  unfolding store_subscription generate pool_exec wrapping ◌>>=◌
  store_lem positive known = elim (Bool-cases (env.fails (w.tick + 1))) [
    | inl broken ↦ rw broken refl
    | inr works ↦
        elim (insert_cases (subscription_of (concat "sub_" (env.ulid w.tick)) req w.now) w.db) [
          | inl (e, refused) ↦ rw (works, refused) refl
          | inr inserted ↦
              rw (works, inserted)
                (record {
                  positive = positive;
                  row = subscription_of (concat "sub_" (env.ulid w.tick)) req w.now;
                  stored = refl;
                  requested = refl;
                  period = period_end-IsPeriod req.interval w.now known;
                  answer = refl;
                })
        ]
  ]

  -- A subscription that is accepted has a positive amount and the interval "month" or "year". It is
  -- the only row that is added, active from now on, and its first period has 28 to 31 days or 365 to
  -- 366; the answer agrees with the row. A request that is refused changes no table.
  pub create_subscription-Outcome : Outcome req w (create_subscription env req w)
  unfolding create_subscription
  create_subscription-Outcome = elim (Bool-cases (leb_ℤ req.amount (pos 0))) [
    | inl low ↦ rw low refl
    | inr positive ↦ elim (Bool-cases (req.interval == "month" || req.interval == "year")) [
      | inl known ↦ rw (positive, known) (store_lem (positive_lem req.amount positive) known)
      | inr unknown ↦ rw (positive, unknown) refl
    ]
  ]
