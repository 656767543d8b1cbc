-- ===== src/Base/Outcome.antt =====
-- Rust's `anyhow::Result`. An error is known by the part of the program that raises it and the
-- guard that fails there.
use mathlib.Core.Path.{◌≡◌, refl, subst}
use mathlib.Core.Bool.{Bool, true, false}
use fossil.Base.Tests.{if◌then◌else◌}

pub data Error : Type 0 where
  -- head.rs and tiered.rs
  invalid_head invalid_l0_weight invalid_level_weight invalid_run not_covering : Error
  invalid_account invalid_tombstone : Error
  chain_mismatch invalid_interval bad_gate bad_transition backlog_full : Error
  too_many_levels capacity_exceeded noncontiguous head_changed head_vanished head_too_large : Error
  cas_lost cas_exhausted empty_package bad_lifecycle outside_interval staged_too_large : Error
  duplicate_version out_of_fuel : Error
  bad_code_blob deadline_exceeded missing_head outside_history over_budget bad_value : Error
  -- run.rs
  empty_key not_sorted too_large bad_header bad_count truncated misrouted bad_length : Error
  object_mismatch bad_fence_ref bad_fence bad_leaf bad_page too_long bad_zstd failed_scanner : Error
  -- summary.rs
  shard_too_large bad_shard : Error
  -- normalized.rs
  too_few_records bad_first_record bad_block_record bad_event bad_block_end bad_trailer : Error
  -- what a store or a parameter answers
  unavailable : Error
  integrity limit invalid_params block_unavailable backend_failed : Error

-- Either the failed guard or the value. `bail!` is the first, `Ok` the second.
pub data Result {ℓ} (Value : Type ℓ) : Type ℓ where
  err : Error → Result Value
  ok : Value → Result Value

-- The question mark operator, and a step that is only taken for its guard.
infixl 5 ◌>>◌ ◌>>=◌
abbrev pub ◌>>=◌ {ℓ κ} :
    {Value : Type ℓ} {Final : Type κ} → Result Value → (Value → Result Final) → Result Final
err why >>= next = err why
ok value >>= next = next value

abbrev pub ◌>>◌ {ℓ} : {Value : Type ℓ} → Result (Unit {0}) → Result Value → Result Value
guard >> next = guard >>= (λ passed. next)

-- `if refused { bail!(…) }`
abbrev pub bail_if : Bool → Error → Result (Unit {0})
bail_if refused why = if refused then err why else ok tt

-- A guarded continuation that succeeds has passed its guard.
pub bail_if-eq-ok {ℓ} :
    {Value : Type ℓ} (refused : Bool) (why : Error) (next : Result Value) {final : Value}
    → (bail_if refused why >> next) ≡ ok final
    → (refused ≡ false) × (next ≡ ok final)
bail_if-eq-ok false why next done = (refl, done)
bail_if-eq-ok true why next done = cc

-- What a successful step passed on.
pub >>=-eq-ok {ℓ κ} :
    {Value : Type ℓ} {Final : Type κ} (step : Result Value) (next : Value → Result Final)
    {final : Final}
    → (step >>= next) ≡ ok final
    → (value : Value) × (step ≡ ok value) × (next value ≡ ok final)
>>=-eq-ok (err why) next done = cc
>>=-eq-ok (ok value) next done = (value, refl, done)

-- What every value that a step may answer with satisfies.
module _ {ℓ κ} {Value : Type ℓ} (P : Value → Type κ) where
  unfoldable pub Gives : Result Value → Type κ
  Gives (err why) = Unit {κ}
  Gives (ok value) = P value

module _ {ℓ κ} {Value : Type ℓ} (P : Value → Type κ) where
  pub Gives-err : (why : Error) → Gives P (err why)
  unfolding Gives
  Gives-err why = tt

  pub Gives-ok : (value : Value) → P value → Gives P (ok value)
  unfolding Gives
  Gives-ok value h = h

  pub Gives-bind {μ} :
      {Before : Type μ} (step : Result Before) (next : Before → Result Value)
      → ((before : Before) → step ≡ ok before → Gives P (next before))
      → Gives P (step >>= next)
  unfolding Gives
  Gives-bind (err why) next h = tt
  Gives-bind (ok before) next h = h before refl

  pub Gives-bail_if :
      (refused : Bool) (why : Error) (next : Result Value)
      → (refused ≡ false → Gives P next)
      → Gives P (bail_if refused why >> next)
  unfolding Gives
  Gives-bail_if true why next h = tt
  Gives-bail_if false why next h = h refl

  pub gives_at : (step : Result Value) (value : Value) → Gives P step → step ≡ ok value → P value
  unfolding Gives
  gives_at step value h e = subst (Gives P) e h

  pub Gives-if :
      (test : Bool) (taken other : Result Value)
      → (test ≡ true → Gives P taken)
      → (test ≡ false → Gives P other)
      → Gives P (if test then taken else other)
  Gives-if true taken other h k = h refl
  Gives-if false taken other h k = k refl

-- What follows from what holds holds.
pub Gives-map {ℓ κ μ} :
    {Value : Type ℓ} (P : Value → Type κ) (Q : Value → Type μ) (step : Result Value)
    → ((value : Value) → P value → Q value)
    → Gives P step
    → Gives Q step
unfolding Gives
Gives-map P Q (err why) f h = tt
Gives-map P Q (ok value) f h = f value h

-- Steps that go on alike after every value that is answered are alike.
pub >>=-cong {ℓ κ} :
    {Value : Type ℓ} {Final : Type κ} (step : Result Value) (f g : Value → Result Final)
    → ((value : Value) → step ≡ ok value → f value ≡ g value)
    → (step >>= f) ≡ (step >>= g)
>>=-cong (err why) f g h = refl
>>=-cong (ok value) f g h = h value refl
