-- ===== src/Vocab.antt =====
-- src/bp_internal.h `bpv_header`, `bpv_added` and `struct bp_vocab`: the vocabulary in memory.
-- An array in the mapped file is the list of its elements.
pub mod Pairs
use bytepair.Base.{ℕ, ◌+◌, ◌-◌, ◌%◌, ◌^◌, List, get_or, take, drop, Bool}

pub record BpvSection : Type 0 where
  pub off : ℕ
  pub size : ℕ

pub record BpvHeader : Type 0 where
  pub magic : ℕ
  pub format_version : ℕ
  pub flags : ℕ
  pub profile_id : ℕ
  pub vocab_count : ℕ
  pub added_count : ℕ
  pub pair_slots_log2 : ℕ
  pub reserved : ℕ
  pub token_offsets : BpvSection
  pub token_blob : BpvSection
  pub pair_table : BpvSection
  pub byte_to_id : BpvSection
  pub added : BpvSection
  pub meta : BpvSection
  pub source_hash : ℕ

pub record BpvAdded : Type 0 where
  pub id : ℕ
  pub offset : ℕ
  pub len : ℕ
  pub flags : ℕ

abbrev pub no_added : BpvAdded
no_added = record { id = 0; offset = 0; len = 0; flags = 0 }

pub record BpVocab : Type 0 where
  pub hdr : BpvHeader
  pub tok_off : List ℕ
  pub blob : List ℕ
  pub pairs : List ℕ
  pub pair_mask : ℕ
  pub byte_id : List ℕ
  pub added : List BpvAdded
  pub meta_name : List ℕ
  pub added_order : List ℕ
  pub added_first : ℕ
  pub added_single_first : Bool
  pub added_first_map : List ℕ
  pub use_avx2 : Bool

-- `BPV_PAIR_EMPTY`
abbrev pub pair_empty : ℕ
pair_empty = 0xFFFF_FFFF_FFFF_FFFF

-- `tok_off[id + 1] - tok_off[id]`, in 32 bits.
unfoldable pub token_len : BpVocab → ℕ → ℕ
token_len v id = (get_or v.tok_off (id + 1) 0 + 2 ^ 32 - get_or v.tok_off id 0) % 2 ^ 32

-- The bytes `blob[tok_off[id] .. tok_off[id + 1])`.
unfoldable pub token_bytes : BpVocab → ℕ → List ℕ
token_bytes v id = take (token_len v id) (drop (get_or v.tok_off id 0) v.blob)
