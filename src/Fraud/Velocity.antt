-- ===== src/Fraud/Velocity.antt =====
-- How the attempts of a token decide the risk score.
use pay_fast_processor.Prelude.{
  ℕ, ◌+◌, ◌≤◌, ◌<◌, String, true, false, Option, some, ◌≡◌, refl, ◌⊎◌, inl, inr, update, ltb, eqb,
  ◌==◌, ◌||◌, Bool-cases, arith,
}
use pay_fast_processor.Prelude.Int.{ℤ, pos, ltb_ℤ}
use pay_fast_processor.Store.Sql.{ok}
use pay_fast_processor.Runtime.World.{Env, World, counter}
use pay_fast_processor.Runtime.Act.{Act, ◌>>=◌, wrapping, attempt, pool_exec}
use pay_fast_processor.Runtime.Cache.{get, put, incr}
use pay_fast_processor.Fraud.{
  PaymentEvent, velocity_key, base_score, with_score, set_risk_score, count_attempt, score,
  simulate_fraud_check, analyze,
}

base_score-bound : (r : ℕ) (amount : ℤ) → base_score r amount < 80
base_score-bound r amount = elim (Bool-cases (ltb_ℤ (pos 100000) amount)) [
  | inl large ↦ rw large (omega arith)
  | inr small ↦ rw small (omega arith)
]

module _ (env : Env) (works : (n : ℕ) → env.fails n ≡ false) where
  abbrev recounted : String → ℕ → Option ℕ → World → World
  recounted token n expires w = record w {
    cache = put (velocity_key token) (record { value = counter n; expires = expires }) w.cache;
    tick = w.tick + 1;
  }

  not_first : (n : ℕ) → 1 ≤ n → eqb (n + 1) 1 ≡ false
  not_first n h = ground arith

  count_attempt_lem :
      (token : String) (n : ℕ) (expires : Option ℕ) (w : World)
      → 1 ≤ n
      → get w.now (velocity_key token) w.cache
        ≡ some (record { value = counter n; expires = expires })
      → count_attempt env token w ≡ (ok (n + 1), recounted token (n + 1) expires w)
  unfolding count_attempt attempt incr ◌>>=◌
  count_attempt_lem token n expires w positive there = rw (works, there, not_first n positive) refl

  -- The scored payments, whose score the count decides.
  abbrev pub Scored : PaymentEvent → World → ℕ → World → Type 0
  Scored event w n u =
      (s : ℕ) × (u.db ≡ record w.db {
        payments = update (λ p. p.id == event.payment_id) (with_score s) w.db.payments;
      })
      × (3 < n → s ≡ 90)
      × (n ≤ 3 → s < 80)

  abbrev scoring : PaymentEvent → ℕ → Act Unit
  scoring event n = score env n event.amount >>= λ s.
      wrapping "failed to update risk score" (pool_exec env (set_risk_score s event.payment_id))

  score_lem :
      (event : PaymentEvent) (n : ℕ) (w : World)
      → (scoring event n w).0 ≡ ok tt
        × Scored event w n (scoring event n w).1
        × ((scoring event n w).1.cache ≡ w.cache)
        × ((scoring event n w).1.now ≡ w.now)
  unfolding score simulate_fraud_check ◌>>=◌ wrapping pool_exec set_risk_score
  score_lem event n w = elim (Bool-cases (ltb 3 n)) [
    | inl high ↦
        rw (high, works)
          (refl, (90, refl, (λ _. refl), λ few. absurd (few_lem n high few)), refl, refl)
    | inr low ↦
        rw (low, works)
          (
            refl,
            (
              base_score (env.random w.tick) event.amount,
              refl,
              (λ many. absurd (many_lem n low many)),
              λ _. base_score-bound (env.random w.tick) event.amount,
            ),
            refl,
            refl,
          )
  ]
    where
      few_lem : (n : ℕ) → ltb 3 n ≡ true → n ≤ 3 → ⊥
      few_lem n high few = ground arith

      many_lem : (n : ℕ) → ltb 3 n ≡ false → 3 < n → ⊥
      many_lem n low many = ground arith

  is_analyzed :
      (s : String)
      → (s ≡ "created") ⊎ (s ≡ "authorized")
      → s == "created" || s == "authorized" ≡ true
  is_analyzed s (inl e) = rw e refl
  is_analyzed s (inr e) = rw e refl

  -- A payment that is created or authorized is analyzed while its token has an unexpired count of
  -- `n` earlier attempts, at least one, and no call fails: the payment's score is 90 from the
  -- fourth attempt on and below 80 up to the third, nothing else in the database changes, and the
  -- attempt is counted in the same window.
  pub analyze-velocity :
      (event : PaymentEvent) (w : World) (n : ℕ) (expires : Option ℕ)
      → (event.status ≡ "created") ⊎ (event.status ≡ "authorized")
      → 1 ≤ n
      → get w.now (velocity_key event.token_id) w.cache
        ≡ some (record { value = counter n; expires = expires })
      → let (result, u) = analyze env event w in
        (result ≡ ok tt)
        × Scored event w (n + 1) u
        × (u.cache
            ≡ put
                (velocity_key event.token_id)
                (record { value = counter (n + 1); expires = expires })
                w.cache)
        × (u.now ≡ w.now)
  unfolding analyze ◌>>=◌
  analyze-velocity event w n expires status positive there =
      rw
        (
          is_analyzed event.status status,
          count_attempt_lem event.token_id n expires w positive there,
        )
        (score_lem event (n + 1) (recounted event.token_id (n + 1) expires w))
