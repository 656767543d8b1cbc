-- ===== src/Tiered/Reader/Ends.antt =====
-- How a step of a request ends: with its value at a bounded price, or for want of budget.
use fossil.Base.{
  Bool-cases, Result, arith, err, inl, inr, ltb, ltb→lt, ok, over_budget, refl, ℕ, ◌+◌, ◌<◌, ◌>>=◌,
  ◌≡◌, ◌≤◌, ◌⊎◌,
}
use fossil.Tiered.Reader.{ShardCache, Request, charge, max_gets, max_bytes}

module _ (cache : ShardCache) (Sound : cache.Store → Type 0) where
  -- The counters moved by at most the price, and the cache is still sound.
  pub record Spent (gets bytes : ℕ) (s t : Request cache) : Type 0 where
    pub few_gets : t.gets ≤ s.gets + gets
    pub few_bytes : t.bytes ≤ s.bytes + bytes
    pub sound : Sound t.store

  -- The budget does not hold the price.
  abbrev pub TooDear : ℕ → ℕ → Request cache → Type 0
  TooDear gets bytes s = (max_gets < s.gets + gets) ⊎ (max_bytes < s.bytes + bytes)

  abbrev pub Ends : {A : Type 0} → ℕ → ℕ → A → Request cache → Result (A × Request cache) → Type 0
  Ends {A} gets bytes value s result =
      ((t : Request cache) × (result ≡ ok (value, t)) × Spent gets bytes s t)
      ⊎ ((result ≡ err over_budget) × TooDear gets bytes s)

  pub Ends-ok :
      {A : Type 0} (value : A) (s : Request cache)
      → Sound s.store
      → Ends 0 0 value s (ok (value, s))
  Ends-ok value s sound =
      inl (s, refl, record { few_gets = omega arith; few_bytes = omega arith; sound = sound })

  -- A price may be rounded up.
  pub Ends-weaken :
      {A : Type 0} (gets bytes gets' bytes' : ℕ) (value : A) (s : Request cache)
      (result : Result (A × Request cache))
      → gets ≤ gets'
      → bytes ≤ bytes'
      → Ends gets bytes value s result
      → Ends gets' bytes' value s result
  Ends-weaken gets bytes gets' bytes' value s result g b (inl (t, e, p)) = inl (
    t,
    e,
    record {
      few_gets = omega (arith, p.few_gets);
      few_bytes = omega (arith, p.few_bytes);
      sound = p.sound;
    },
  )
  Ends-weaken gets bytes gets' bytes' value s result g b (inr (e, inl dear)) =
      inr (e, inl (omega arith))
  Ends-weaken gets bytes gets' bytes' value s result g b (inr (e, inr dear)) =
      inr (e, inr (omega arith))

  -- One step behind another costs both prices.
  pub Ends-bind :
      {A B : Type 0} (gets bytes gets' bytes' : ℕ) (value : A) (final : B) (s : Request cache)
      (step : Result (A × Request cache)) (next : A × Request cache → Result (B × Request cache))
      → Ends gets bytes value s step
      → ((t : Request cache) → Sound t.store → Ends gets' bytes' final t (next (value, t)))
      → Ends (gets + gets') (bytes + bytes') final s (step >>= next)
  Ends-bind gets bytes gets' bytes' value final s step next (inr (e, inl dear)) h =
      inr (rw e refl, inl (omega arith))
  Ends-bind gets bytes gets' bytes' value final s step next (inr (e, inr dear)) h =
      inr (rw e refl, inr (omega arith))
  Ends-bind gets bytes gets' bytes' value final s step next (inl (t, e, p)) h = elim (h t p.sound) [
    | inl (u, e2, p2) ↦ inl (
      u,
      rw e e2,
      record {
        few_gets = omega (arith, p.few_gets, p2.few_gets);
        few_bytes = omega (arith, p.few_bytes, p2.few_bytes);
        sound = p2.sound;
      },
    )
    | inr (e2, inl dear) ↦ inr (rw e e2, inl (omega (arith, p.few_gets)))
    | inr (e2, inr dear) ↦ inr (rw e e2, inr (omega (arith, p.few_bytes)))
  ]

  -- A charge is what it asks for, and fails only beyond the limits.
  charge_cases :
      (maximum : ℕ) (s : Request cache)
      → (charge cache maximum s ≡ ok (record s { gets = s.gets + 1; bytes = s.bytes + maximum }))
        ⊎ ((charge cache maximum s ≡ err over_budget) × TooDear 1 maximum s)
  unfolding charge
  charge_cases maximum s = elim (Bool-cases (ltb max_gets (s.gets + 1))) [
    | inl many ↦ inr (rw many refl, inl (ltb→lt _ _ many))
    | inr few ↦ elim (Bool-cases (ltb max_bytes (s.bytes + maximum))) [
      | inl long ↦ inr (rw (few, long) refl, inr (ltb→lt _ _ long))
      | inr short ↦ inl (rw (few, short) refl)
    ]
  ]

  -- A step behind a charge costs one GET and what was charged.
  pub Ends-charge :
      {A : Type 0} (maximum : ℕ) (value : A) (s : Request cache)
      (next : Request cache → Result (A × Request cache))
      → Sound s.store
      → ((t : Request cache) → t.store ≡ s.store → Ends 0 0 value t (next t))
      → Ends 1 maximum value s (charge cache maximum s >>= next)
  Ends-charge maximum value s next sound h = elim (charge_cases maximum s) [
    | inr (e, dear) ↦ inr (rw e refl, dear)
    | inl e ↦ elim (h (record s { gets = s.gets + 1; bytes = s.bytes + maximum }) refl) [
      | inl (u, e2, p) ↦ inl (
        u,
        rw e e2,
        record {
          few_gets = omega (arith, p.few_gets);
          few_bytes = omega (arith, p.few_bytes);
          sound = p.sound;
        },
      )
      | inr (e2, inl dear) ↦ inr (rw e e2, inl (omega arith))
      | inr (e2, inr dear) ↦ inr (rw e e2, inr (omega arith))
    ]
  ]
