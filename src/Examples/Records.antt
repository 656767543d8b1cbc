-- ===== src/Examples/Records.antt =====
-- The packages and the roots of the examples.
use fossil.Base.{All, List, [], length, ok, refl, replicate, ℕ, ◌∷◌, ◌≡◌}
use fossil.Bytes.{Bytes}
use fossil.Examples.Setup.{toy_sha}
use fossil.Codec.{ObjectRef, Record}
use fossil.Codec.Root.{AreSlots, decode_root, decode_root-AreSlots}
use fossil.Package.{Segment}
use fossil.Tiered.Records.{package_records}
use fossil.Tiered.Records.Staged.{Inside, IsSorted, package_records-IsSorted}

abbrev one_byte : ℕ → Bytes
one_byte x = x ∷ []

-- Two writes of one slot, the later one first.
abbrev two_writes : Segment
two_writes = record {
  schema = [];
  chain_id = 1;
  genesis_hash = [];
  start_block = 4;
  end_block = 6;
  blocks = [];
  accounts = [];
  storage =
      record {
        block = 6;
        address = one_byte 1;
        incarnation = 0;
        slot = one_byte 2;
        value = one_byte 9;
      }
      ∷ record {
        block = 4;
        address = one_byte 1;
        incarnation = 0;
        slot = one_byte 2;
        value = one_byte 8;
      }
      ∷ [];
  code = [];
}

abbrev slot_key : Bytes
slot_key = 2 ∷ 1 ∷ 0 ∷ 0 ∷ 0 ∷ 0 ∷ 0 ∷ 0 ∷ 0 ∷ 0 ∷ 2 ∷ []

abbrev two_records : List Record
two_records =
    record { key = slot_key; block = 4; value = one_byte 8 }
    ∷ record { key = slot_key; block = 6; value = one_byte 9 }
    ∷ []

abbrev toy_keccak : Bytes → Bytes
toy_keccak bytes = one_byte (length bytes)

two_made : package_records toy_keccak two_writes 4 6 ≡ ok two_records
unfolding package_records fossil.Tiered.Records.add_accounts fossil.Tiered.Records.add_storage
    fossil.Tiered.Records.add_record fossil.Head.Keys.storage_key fossil.Bytes.be_bytes
    fossil.Tiered.Records.add_code fossil.Tiered.Records.sort_records
    fossil.Tiered.Records.insert_record fossil.Bytes.version_le fossil.Bytes.version_lt
    fossil.Bytes.bytes_lt fossil.Bytes.bytes_eq
two_made = refl

package_records-IsSorted_example : IsSorted two_records × All (Inside 4 6) two_records
package_records-IsSorted_example =
    package_records-IsSorted 4 6 toy_keccak two_writes two_records two_made

abbrev empty_root : Bytes
empty_root = b'F' ∷ b'T' ∷ b'R' ∷ b'T' ∷ 1 ∷ replicate 576 0

abbrev root_reference : ObjectRef
root_reference = record { digest = replicate 32 69; size = 581 }

abbrev empty_slots : List ObjectRef
empty_slots = replicate 16 (record { digest = replicate 32 0; size = 0 })

empty_root_decodes : decode_root toy_sha root_reference empty_root ≡ ok empty_slots
unfolding decode_root fossil.Codec.verify_object fossil.Bytes.bytes_eq fossil.Codec.Root.bad_root
    fossil.Codec.Root.read_slots fossil.Codec.Root.bad_slot fossil.Codec.read_ref
    fossil.Bytes.read_bytes fossil.Codec.ref_eq fossil.Codec.no_object fossil.Codec.bad_ref
    fossil.Bytes.from_be fossil.Head.Account.zero32
empty_root_decodes = refl

decode_root-AreSlots_example : (length empty_slots ≡ 16) × AreSlots empty_root 0 empty_slots
decode_root-AreSlots_example =
    decode_root-AreSlots toy_sha root_reference empty_root empty_slots empty_root_decodes
