-- ===== src/Package.antt =====
-- src/format.rs and src/normalized.rs: the normalized package that is published. Texts are held by
-- their bytes, and an address is its 20 bytes.
pub mod Quantity
pub mod Parser
use fossil.Base.{Bool, List, Option, ℕ}
use fossil.Bytes.{Bytes}

pub record BlockMeta : Type 0 where
  pub number : ℕ
  pub hash : Bytes
  pub parent_hash : Bytes
  pub state_root : Bytes
  pub timestamp : ℕ

pub record AccountEvent : Type 0 where
  pub block : ℕ
  pub address : Bytes
  pub exists : Bool
  pub incarnation : ℕ
  pub nonce : ℕ
  pub balance : Bytes
  pub code_hash : Bytes

pub record StorageEvent : Type 0 where
  pub block : ℕ
  pub address : Bytes
  pub incarnation : ℕ
  pub slot : Bytes
  pub value : Bytes

pub record CodeBlob : Type 0 where
  pub first_seen_block : ℕ
  pub code_hash : Bytes
  pub bytes : Bytes

pub record Segment : Type 0 where
  pub schema : Bytes
  pub chain_id : ℕ
  pub genesis_hash : Bytes
  pub start_block : ℕ
  pub end_block : ℕ
  pub blocks : List BlockMeta
  pub accounts : List AccountEvent
  pub storage : List StorageEvent
  pub code : List CodeBlob

pub data Mode : Type 0 where
  anchor delta : Mode

pub record Package : Type 0 where
  pub mode : Mode
  pub preceding_number : Option ℕ
  pub preceding_hash : Option Bytes
  pub input_sha256 : Bytes
  pub segment : Segment
