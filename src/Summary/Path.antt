-- ===== src/Summary/Path.antt =====
-- The texts under which objects and summary shards are stored: `shard_path` of
-- codec/src/summary.rs and `object_key` of codec/src/hash.rs.
use fossil.Base.{[], ap, arith, length, ok, refl, sym, take, ℕ, ◌*◌, ◌++◌, ◌<◌, ◌^◌, ◌∙◌, ◌∷◌, ◌≡◌}
use fossil.Bytes.{Bytes, AreBytes, be_bytes}
use fossil.Bytes.Words.{length-be_bytes, be_bytes-AreBytes, from_be-be_u32}
use fossil.Extern.{Hex}
use fossil.Summary.{ShardKind, address_shard, spill_shard}

-- "summaries/" and "objects/sha256/"
abbrev pub summaries_text : Bytes
summaries_text = b's' ∷ b'u' ∷ b'm' ∷ b'm' ∷ b'a' ∷ b'r' ∷ b'i' ∷ b'e' ∷ b's' ∷ b'/' ∷ []

abbrev pub objects_text : Bytes
objects_text =
    b'o' ∷ b'b' ∷ b'j' ∷ b'e' ∷ b'c' ∷ b't' ∷ b's' ∷ b'/' ∷ b's' ∷ b'h' ∷ b'a' ∷ b'2' ∷ b'5' ∷ b'6'
    ∷ b'/' ∷ []

abbrev pub tag : ShardKind → ℕ
tag address_shard = b'a'
tag spill_shard = b's'

-- What the crate hex documents of a text's length.
abbrev pub DoublesLength : Hex → Type 0
DoublesLength hex = (bytes : Bytes) → length (hex.encode bytes) ≡ 2 * length bytes

module _ (hex : Hex) where
  -- `{n:08x}` of a `u32` is the hex text of its four bytes.
  unfoldable pub shard_path : Bytes → ℕ → ShardKind → ℕ → Bytes
  shard_path run shards kind index =
      summaries_text
      ++ (hex.encode run
          ++ (b'/'
              ∷ (hex.encode (be_bytes 4 shards)
                  ++ (b'/' ∷ tag kind ∷ hex.encode (be_bytes 4 index)))))

  unfoldable pub object_key : Bytes → Bytes
  object_key digest = objects_text ++ (take 2 (hex.encode digest) ++ (b'/' ∷ hex.encode digest))

-- Parts of one length agree where the wholes do.
append_injective :
    (xs ys us vs : Bytes) → length xs ≡ length ys → xs ++ us ≡ ys ++ vs → (xs ≡ ys) × (us ≡ vs)
append_injective [] [] us vs h e = (refl, e)
append_injective [] (y ∷ ys) us vs h e = absurd (omega arith)
append_injective (x ∷ xs) [] us vs h e = absurd (omega arith)
append_injective (x ∷ xs) (y ∷ ys) us vs h e =
    let (p, q) = append_injective xs ys us vs (omega arith) (cc e) in
    let first : x ≡ y = cc e in ((λ i. first i ∷ p i), q)

tag_injective : (k l : ShardKind) → tag k ≡ tag l → k ≡ l
tag_injective address_shard address_shard e = refl
tag_injective address_shard spill_shard e = absurd (omega arith)
tag_injective spill_shard address_shard e = absurd (omega arith)
tag_injective spill_shard spill_shard e = refl

module _ (hex : Hex) (doubles : DoublesLength hex) where
  encode_injective : (a b : Bytes) → AreBytes a → AreBytes b → hex.encode a ≡ hex.encode b → a ≡ b
  encode_injective a b h k e =
      let back : ok a ≡ ok b =
        sym (hex.decode_encode a h) ∙ (ap hex.decode e ∙ hex.decode_encode b k) in
      cc back

  hex_word :
      (m n : ℕ)
      → m < 2 ^ 32
      → n < 2 ^ 32
      → hex.encode (be_bytes 4 m) ≡ hex.encode (be_bytes 4 n)
      → m ≡ n
  hex_word m n h k e =
      let same =
        encode_injective (be_bytes 4 m) (be_bytes 4 n) (be_bytes-AreBytes 4 m)
          (be_bytes-AreBytes 4 n) e in
      sym (from_be-be_u32 m h) ∙ (ap fossil.Bytes.from_be same ∙ from_be-be_u32 n k)

  same_size : (a b : Bytes) → length a ≡ length b → length (hex.encode a) ≡ length (hex.encode b)
  same_size a b h = doubles a ∙ (ap (λ n. 2 * n) h ∙ sym (doubles b))

  -- Shards of different runs, counts, kinds or indexes are stored under different paths: digests of
  -- 32 bytes and two `u32` can be read back from the path.
  pub shard_path_injective :
      (run run' : Bytes) (shards shards' : ℕ) (kind kind' : ShardKind) (index index' : ℕ)
      → (length run ≡ 32) × AreBytes run
      → (length run' ≡ 32) × AreBytes run'
      → (shards < 2 ^ 32) × (index < 2 ^ 32)
      → (shards' < 2 ^ 32) × (index' < 2 ^ 32)
      → shard_path hex run shards kind index ≡ shard_path hex run' shards' kind' index'
      → (run ≡ run') × (shards ≡ shards') × (kind ≡ kind') × (index ≡ index')
  unfolding shard_path
  shard_path_injective run run' shards shards' kind kind' index index' (l, r) (l', r') (s, i)
        (s', i') e =
      let (p0, e0) = append_injective summaries_text summaries_text _ _ refl e in
      let (p1, e1) =
        append_injective (hex.encode run) (hex.encode run') _ _ (same_size run run' (l ∙ sym l'))
          e0 in
      let e2 : hex.encode (be_bytes 4 shards) ++ (b'/' ∷ tag kind ∷ hex.encode (be_bytes 4 index))
          ≡ hex.encode (be_bytes 4 shards') ++ (b'/' ∷ tag kind' ∷ hex.encode (be_bytes 4 index')) =
        cc e1 in
      let (p3, e3) =
        append_injective (hex.encode (be_bytes 4 shards)) (hex.encode (be_bytes 4 shards')) _ _
          (same_size (be_bytes 4 shards) (be_bytes 4 shards')
            (length-be_bytes 4 shards ∙ sym (length-be_bytes 4 shards')))
          e2 in
      (
        encode_injective run run' r r' p1,
        hex_word shards shards' s s' p3,
        tag_injective kind kind' (cc e3),
        hex_word index index' i i' (cc e3),
      )
