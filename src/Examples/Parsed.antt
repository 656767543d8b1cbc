-- ===== src/Examples/Parsed.antt =====
-- An export of one block that parses, and quantities.
use fossil.Base.{List, [], arith, none, ok, refl, replicate, some, ℕ, ◌∷◌, ◌≡◌}
use fossil.Bytes.{Bytes}
use fossil.Examples.Setup.{toy_hex, block_at}
use fossil.Package.{Package, delta}
use fossil.Package.Quantity.{parse_quantity, quantity}
use fossil.Package.Quantity.RoundTrip.{parse_quantity-quantity}
use fossil.Package.Parser.{
  Record, header_record, block_record, block_end, trailer_record, export_schema, segment_schema,
  delta_text,
}
use fossil.Package.Parser.Seal.{parse_package}
use fossil.Package.Parser.Parsed.{IsParsed, parse_package-IsParsed}

parse_quantity-quantity_example : parse_quantity (quantity 300) ≡ ok 300
parse_quantity-quantity_example = parse_quantity-quantity 300 (omega arith)

abbrev text_0 : Bytes
text_0 = b'0' ∷ b'x' ∷ b'0' ∷ []

abbrev text_1 : Bytes
text_1 = b'0' ∷ b'x' ∷ b'1' ∷ []

abbrev hash_of : ℕ → Bytes
hash_of n = replicate 32 n

-- A delta of block 1 on the genesis.
abbrev export : List Record
export =
    header_record export_schema text_1 (hash_of 1) delta_text none none (some text_0)
      (some (hash_of 1))
    ∷ block_record text_1 (hash_of 2) (hash_of 1) (hash_of 9) text_1
    ∷ block_end text_1 text_0
    ∷ trailer_record text_1 (hash_of 2) text_1
    ∷ []

abbrev parsed_package : Package
parsed_package = record {
  mode = delta;
  preceding_number = some 0;
  preceding_hash = some (hash_of 1);
  input_sha256 = hash_of 6;
  segment = record {
    schema = segment_schema;
    chain_id = 1;
    genesis_hash = hash_of 1;
    start_block = 1;
    end_block = 1;
    blocks = block_at 1 2 1 ∷ [];
    accounts = [];
    storage = [];
    code = [];
  };
}

abbrev same_bytes : Bytes → Bytes
same_bytes bytes = bytes

export_parses : parse_package toy_hex same_bytes export (hash_of 6) ≡ ok parsed_package
unfolding parse_package fossil.Bytes.bytes_eq fossil.Bytes.bytes_lt fossil.Head.Account.zero32
    parse_quantity fossil.Package.Parser.Seal.parse_rest fossil.Package.Parser.parse_header
    fossil.Package.Parser.parse_mode fossil.Package.Parser.optional_quantity
    fossil.Package.Parser.incomplete fossil.Package.Parser.Events.account_fields
    fossil.Package.Parser.Events.breaks_chain fossil.Package.Parser.Events.checked_current
    fossil.Package.Parser.Events.close_block fossil.Package.Parser.Events.close_package
    fossil.Package.Parser.Events.current_number fossil.Package.Parser.Events.is_delta
    fossil.Package.Parser.Events.not_above fossil.Package.Parser.Events.not_above_storage
    fossil.Package.Parser.Events.not_current fossil.Package.Parser.Events.open_block
    fossil.Package.Parser.Events.push_account fossil.Package.Parser.Events.push_storage
    fossil.Package.Parser.Events.required fossil.Package.Parser.Events.unwrap_hash
    fossil.Package.Parser.Seal.bad_begin fossil.Package.Parser.Seal.bad_end
    fossil.Package.Parser.Seal.bad_genesis fossil.Package.Parser.Seal.is_hash_of
    fossil.Package.Parser.Seal.is_next fossil.Package.Parser.Seal.is_number_of
    fossil.Package.Parser.Seal.not_next fossil.Package.Parser.Seal.present
    fossil.Package.Parser.Seal.push_code fossil.Package.Parser.Seal.seal
    fossil.Package.Parser.Seal.take_record fossil.Package.Parser.Seal.take_records
    fossil.Package.Parser.is_some fossil.Package.Parser.start_state
    fossil.Package.Quantity.checked_quantity fossil.Package.Quantity.strip_prefix
    fossil.Package.Quantity.padded_number fossil.Package.Quantity.any_upper
    fossil.Package.Quantity.is_upper fossil.Package.Quantity.from_str_radix
    fossil.Package.Quantity.read_digits fossil.Package.Quantity.push_digit
    fossil.Package.Quantity.to_digit
export_parses = refl

parse_package-IsParsed_example : IsParsed parsed_package
parse_package-IsParsed_example =
    parse_package-IsParsed toy_hex same_bytes export (hash_of 6) parsed_package export_parses
