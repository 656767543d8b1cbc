-- ===== src/Bytes/Order.antt =====
-- Equality and order of byte strings and of versions: a strict total order.
use fossil.Base.{[], arith, false, refl, true, ◌∷◌, ◌≡◌}
use fossil.Bytes.{Bytes, Version, bytes_eq, bytes_lt, version_lt, version_le}

pub bytes_eq_refl : (a : Bytes) → bytes_eq a a ≡ true
unfolding bytes_eq
bytes_eq_refl [] = refl
bytes_eq_refl (x ∷ xs) = ground (arith, bytes_eq_refl xs)

pub eq_of_bytes_eq : (a b : Bytes) → bytes_eq a b ≡ true → a ≡ b
unfolding bytes_eq
eq_of_bytes_eq [] [] h = refl
eq_of_bytes_eq [] (y ∷ ys) h = cc
eq_of_bytes_eq (x ∷ xs) [] h = cc
eq_of_bytes_eq (x ∷ xs) (y ∷ ys) h = ground (arith, eq_of_bytes_eq xs ys)

pub bytes_eq_comm : (a b : Bytes) → bytes_eq a b ≡ bytes_eq b a
unfolding bytes_eq
bytes_eq_comm [] [] = refl
bytes_eq_comm [] (y ∷ ys) = refl
bytes_eq_comm (x ∷ xs) [] = refl
bytes_eq_comm (x ∷ xs) (y ∷ ys) = ground (arith, bytes_eq_comm xs ys)

pub bytes_lt_irrefl : (a : Bytes) → bytes_lt a a ≡ false
unfolding bytes_lt
bytes_lt_irrefl [] = refl
bytes_lt_irrefl (x ∷ xs) = ground (arith, bytes_lt_irrefl xs)

pub bytes_lt_trans :
    (a b c : Bytes) → bytes_lt a b ≡ true → bytes_lt b c ≡ true → bytes_lt a c ≡ true
unfolding bytes_lt
bytes_lt_trans [] [] c h k = cc
bytes_lt_trans [] (y ∷ ys) [] h k = cc
bytes_lt_trans [] (y ∷ ys) (z ∷ zs) h k = refl
bytes_lt_trans (x ∷ xs) [] c h k = cc
bytes_lt_trans (x ∷ xs) (y ∷ ys) [] h k = cc
bytes_lt_trans (x ∷ xs) (y ∷ ys) (z ∷ zs) h k = ground (arith, bytes_lt_trans xs ys zs)

pub bytes_lt_total : (a b : Bytes) → bytes_lt a b ≡ false → bytes_lt b a ≡ false → a ≡ b
unfolding bytes_lt
bytes_lt_total [] [] h k = refl
bytes_lt_total [] (y ∷ ys) h k = cc
bytes_lt_total (x ∷ xs) [] h k = cc
bytes_lt_total (x ∷ xs) (y ∷ ys) h k = ground (arith, bytes_lt_total xs ys)

pub version_lt_irrefl : (v : Version) → version_lt v v ≡ false
unfolding version_lt
version_lt_irrefl v = ground (arith, bytes_lt_irrefl v.key)

pub version_lt_trans :
    (u v w : Version) → version_lt u v ≡ true → version_lt v w ≡ true → version_lt u w ≡ true
unfolding version_lt
version_lt_trans u v w h k = ground (
  arith,
  bytes_lt_trans u.key v.key w.key,
  eq_of_bytes_eq u.key v.key,
  eq_of_bytes_eq v.key w.key,
  bytes_eq_refl u.key,
)

pub version_lt_total : (v w : Version) → version_lt v w ≡ false → version_lt w v ≡ false → v ≡ w
unfolding version_lt
version_lt_total v w h k = ground (arith, bytes_lt_total v.key w.key, bytes_eq_refl v.key)

pub version_lt_asym : (v w : Version) → version_lt v w ≡ true → version_lt w v ≡ false
version_lt_asym v w h = ground (arith, version_lt_trans v w v, version_lt_irrefl v)

pub version_le_lt_trans :
    (u v w : Version) → version_le u v ≡ true → version_lt v w ≡ true → version_lt u w ≡ true
unfolding version_le
version_le_lt_trans u v w h k = ground (arith, version_lt_trans u v w, version_lt_total u v)

pub version_lt_le_trans :
    (u v w : Version) → version_lt u v ≡ true → version_le v w ≡ true → version_lt u w ≡ true
unfolding version_le
version_lt_le_trans u v w h k = ground (arith, version_lt_trans u v w, version_lt_total v w)

pub version_le_trans :
    (u v w : Version) → version_le u v ≡ true → version_le v w ≡ true → version_le u w ≡ true
unfolding version_le
version_le_trans u v w h k = ground (arith, version_lt_trans w u v, version_lt_total u v)

pub lt→version_le : (v w : Version) → version_lt v w ≡ true → version_le v w ≡ true
unfolding version_le
lt→version_le v w h = ground (arith, version_lt_asym v w)
