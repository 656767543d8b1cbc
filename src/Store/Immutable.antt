-- ===== src/Store/Immutable.antt =====
-- What the writers of immutable objects rely on in a store of src/store.rs: after a put the key
-- answers with the bytes, and no put changes what another key answers.
use fossil.Base.{Result, ok, ◌≡◌}
use fossil.Bytes.{Bytes}

pub record ImmutableStore : Type 1 where
  pub State : Type 0
  pub get : Bytes → State → Result Bytes
  pub put : Bytes → Bytes → State → Result State
  pub get_put :
      (key bytes : Bytes) (s after : State) → put key bytes s ≡ ok after → get key after ≡ ok bytes
  pub keeps :
      (key bytes other found : Bytes) (s after : State)
      → put key bytes s ≡ ok after
      → get other s ≡ ok found
      → get other after ≡ ok found
