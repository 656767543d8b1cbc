-- ===== src/Worker/Reader/Alike.antt =====
-- Steps of the worker's reader and of the server's reader that answer alike.
use fossil.Base.{
  Bool, Bool-cases, Error, List, Result, [], ap, bail_if, err, false, if◌then◌else◌, inl, inr, ltb,
  none, ok, refl, some, sym, true, ℕ, ◌*◌, ◌++◌, ◌+◌, ◌>>=◌, ◌>>◌, ◌||◌, ◌∙◌, ◌∷◌, ◌≡◌, ◌⊎◌,
}
use mathlib.Core.Path.{subst}
use mathlib.Core.List.{append_cancel_left}
use fossil.Bytes.{Bytes, bytes_eq}
use fossil.Bytes.Order.{eq_of_bytes_eq}
use fossil.Extern.{Sha256, Hex, Zstd}
use fossil.Tiered.Reader.{ShardCache, Request, charge}
use fossil.Worker.Reader.{Cells, memoized, get}

memoized-insert :
    (entries : List (Bytes × Bytes)) (path shard other found : Bytes)
    → memoized ((path, shard) ∷ entries) other ≡ some found
    → ((other ≡ path) × (found ≡ shard)) ⊎ (memoized entries other ≡ some found)
unfolding memoized
memoized-insert entries path shard other found h = elim (Bool-cases (bytes_eq other path)) [
  | inl same ↦
      let hit : some shard ≡ some found =
        sym (ap (λ t. if t then some shard else memoized entries other) same) ∙ h in
      inl (eq_of_bytes_eq other path same, cc hit)
  | inr differ ↦ inr (sym (ap (λ t. if t then some shard else memoized entries other) differ) ∙ h)
]

pub memoized-insert_at :
    (prefix : Bytes) (entries : List (Bytes × Bytes)) (path shard other found : Bytes)
    → memoized ((prefix ++ path, shard) ∷ entries) (prefix ++ other) ≡ some found
    → ((other ≡ path) × (found ≡ shard)) ⊎ (memoized entries (prefix ++ other) ≡ some found)
memoized-insert_at prefix entries path shard other found h =
    elim (memoized-insert entries (prefix ++ path) shard (prefix ++ other) found h) [
      | inl (same, new) ↦ inl (append_cancel_left prefix other path same, new)
      | inr old ↦ inr old
    ]

pub memoized_empty : (path : Bytes) → memoized [] path ≡ none
unfolding memoized
memoized_empty path = refl

-- The worker's map as a cache of the server's reader, whose paths have no prefix.
abbrev pub map_cache : Bytes → ShardCache
map_cache prefix = record {
  Store = List (Bytes × Bytes);
  empty = [];
  get = λ entries path. memoized entries (prefix ++ path);
  insert = λ entries path shard. (prefix ++ path, shard) ∷ entries;
  get_empty = λ path. memoized_empty (prefix ++ path);
  get_insert = memoized-insert_at prefix;
}

module _ (prefix : Bytes) where
  abbrev pub view : Cells → Request (map_cache prefix)
  view s = record { gets = s.gets; bytes = s.fetched; store = s.shards }

  -- Both fail, or both answer, with related values and the same counters and shards.
  module _ {A B : Type 0} (R : A → B → Type 0) where
    abbrev pub Alike : Result (A × Cells) → Result (B × Request (map_cache prefix)) → Type 0
    Alike (ok (a, s)) (ok (b, t)) = R a b × (view s ≡ t)
    Alike (err why) (err why') = Unit {0}
    Alike (ok (a, s)) (err why) = ⊥
    Alike (err why) (ok (b, t)) = ⊥

  abbrev pub Same :
      {A : Type 0} → Result (A × Cells) → Result (A × Request (map_cache prefix)) → Type 0
  Same {A} = Alike (λ (a b : A). a ≡ b)

  pub Same-ok : {A : Type 0} (a : A) (s : Cells) → Same (ok (a, s)) (ok (a, view s))
  Same-ok a s = (refl, refl)

  -- One step behind another.
  pub Alike-bind :
      {A B C D : Type 0} (R : A → B → Type 0) (Q : C → D → Type 0) (step : Result (A × Cells))
      (step' : Result (B × Request (map_cache prefix))) (next : A × Cells → Result (C × Cells))
      (next' : B × Request (map_cache prefix) → Result (D × Request (map_cache prefix)))
      → Alike R step step'
      → ((a : A) (b : B) (s : Cells) → R a b → Alike Q (next (a, s)) (next' (b, view s)))
      → Alike Q (step >>= next) (step' >>= next')
  Alike-bind R Q (ok (a, s)) (ok (b, t)) next next' (r, e) h =
      subst (λ u. Alike Q (next (a, s)) (next' (b, u))) e (h a b s r)
  Alike-bind R Q (err why) (err why') next next' both h = tt
  Alike-bind R Q (ok (a, s)) (err why) next next' both h = absurd both
  Alike-bind R Q (err why) (ok (b, t)) next next' both h = absurd both

  pub Same-bind :
      {A C D : Type 0} (Q : C → D → Type 0) (step : Result (A × Cells))
      (step' : Result (A × Request (map_cache prefix))) (next : A × Cells → Result (C × Cells))
      (next' : A × Request (map_cache prefix) → Result (D × Request (map_cache prefix)))
      → Same step step'
      → ((a : A) (s : Cells) → Alike Q (next (a, s)) (next' (a, view s)))
      → Alike Q (step >>= next) (step' >>= next')
  Same-bind Q step step' next next' both h =
      Alike-bind (λ a b. a ≡ b) Q step step' next next' both
        (λ a b s e. subst (λ c. Alike Q (next (a, s)) (next' (c, view s))) e (h a s))

  -- The same plain step in front.
  pub Alike-plain :
      {A C D : Type 0} (Q : C → D → Type 0) (plain : Result A) (next : A → Result (C × Cells))
      (next' : A → Result (D × Request (map_cache prefix)))
      → ((a : A) → plain ≡ ok a → Alike Q (next a) (next' a))
      → Alike Q (plain >>= next) (plain >>= next')
  Alike-plain Q (ok a) next next' h = h a refl
  Alike-plain Q (err why) next next' h = tt

  pub Alike-guard :
      {C D : Type 0} (Q : C → D → Type 0) (test : Bool) (why why' : Error)
      (next : Result (C × Cells)) (next' : Result (D × Request (map_cache prefix)))
      → (test ≡ false → Alike Q next next')
      → Alike Q (bail_if test why >> next) (bail_if test why' >> next')
  Alike-guard Q true why why' next next' h = tt
  Alike-guard Q false why why' next next' h = h refl

  pub Alike-if :
      {C D : Type 0} (Q : C → D → Type 0) (test : Bool) (a b : Result (C × Cells))
      (a' b' : Result (D × Request (map_cache prefix)))
      → Alike Q a a'
      → Alike Q b b'
      → Alike Q (if test then a else b) (if test then a' else b')
  Alike-if Q true a b a' b' h k = h
  Alike-if Q false a b a' b' h k = k

  module _ (sha : Sha256) (hex : Hex) (zstd : Zstd) (store : Bytes → ℕ → Result Bytes) where
    abbrev pub paid : ℕ → Cells → Cells
    paid maximum s = record s { gets = s.gets + 1; fetched = s.fetched + maximum }

    fetched_as :
        {C D : Type 0} (Q : C → D → Type 0) (maximum : ℕ) (s : Cells) (answer : Result Bytes)
        (next : Bytes × Cells → Result (C × Cells)) (rest : Result (D × Request (map_cache prefix)))
        → ((why : Error) → answer ≡ err why → Alike Q (err why) rest)
        → ((bytes : Bytes) → answer ≡ ok bytes → Alike Q (next (bytes, paid maximum s)) rest)
        → Alike Q (answer >>= (λ bytes. ok (bytes, paid maximum s)) >>= next) rest
    fetched_as Q maximum s (ok bytes) next rest h k = k bytes refl
    fetched_as Q maximum s (err why) next rest h k = h why refl

    -- A GET of the worker, and a charge of the server with its GET behind it.
    pub Alike-get :
        {C D : Type 0} (Q : C → D → Type 0) (key : Bytes) (maximum : ℕ) (s : Cells)
        (next : Bytes × Cells → Result (C × Cells))
        (rest : Request (map_cache prefix) → Result (D × Request (map_cache prefix)))
        → ((why : Error)
            → store key maximum ≡ err why
            → Alike Q (err why) (rest (view (paid maximum s))))
        → ((bytes : Bytes)
            → store key maximum ≡ ok bytes
            → Alike Q (next (bytes, paid maximum s)) (rest (view (paid maximum s))))
        → Alike Q
            (get sha hex zstd store prefix key maximum s >>= next)
            (charge (map_cache prefix) maximum (view s) >>= rest)
    unfolding get charge
    Alike-get Q key maximum s next rest h k =
        elim (Bool-cases (ltb 192 (s.gets + 1) || ltb (128 * 1024 * 1024) (s.fetched + maximum))) [
          | inl over ↦ rw over tt
          | inr within ↦
              rw within
                (fetched_as Q maximum s (store key maximum) next (rest (view (paid maximum s))) h k)
        ]
