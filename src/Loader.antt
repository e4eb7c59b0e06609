-- ===== src/Loader.antt =====
-- src/bp_vocab.c `section_ok` and the checks on the header: where the sections of the mapped file lie.
-- The file is the list of its bytes, `map + off` is what `drop off` leaves of it, and a word is read
-- as a little-endian processor reads it.
pub mod Content
pub mod Matcher
pub mod Open
pub mod Table
pub mod Tokens
pub mod Opened
pub mod Longest
pub mod FirstBytes
pub mod Added
pub mod Session
use bytepair.Base.{ℕ, zero, suc, ◌+◌, ◌-◌, ◌*◌, ◌%◌, ◌^◌, ltb, leb, ◌==◌, if◌then◌else◌, bit_and}
use bytepair.Base.{Bool, true, false, ◌&&◌, ◌||◌, not, List, [], ◌∷◌, take, drop}
use bytepair.Context.{le_word}
use bytepair.Vocab.{BpvSection, BpvHeader, BpvAdded}

-- A `uint32_t`, and a `uint64_t`, at an offset.
unfoldable pub word32 : List ℕ → ℕ → ℕ
word32 file off = le_word (take 4 (drop off file))

unfoldable pub word64 : List ℕ → ℕ → ℕ
word64 file off = le_word (take 8 (drop off file))

unfoldable pub section_at : List ℕ → ℕ → BpvSection
section_at file off = record { off = word64 file off; size = word64 file (off + 8) }

-- `memcpy(&h, map, BPV_HDR_BYTES)`
unfoldable pub read_header : List ℕ → BpvHeader
read_header file = record {
  magic = word32 file 0;
  format_version = word32 file 4;
  flags = word32 file 8;
  profile_id = word32 file 12;
  vocab_count = word32 file 16;
  added_count = word32 file 20;
  pair_slots_log2 = word32 file 24;
  reserved = word32 file 28;
  token_offsets = section_at file 32;
  token_blob = section_at file 48;
  pair_table = section_at file 64;
  byte_to_id = section_at file 80;
  added = section_at file 96;
  meta = section_at file 112;
  source_hash = word64 file 128;
}

-- `BPV_MAGIC`, `BPV_PROFILE_GPT4`, `BPV_FIRST_SECTION`
abbrev pub bpv_magic : ℕ
bpv_magic = 0x31565042

abbrev pub profile_gpt4 : ℕ
profile_gpt4 = 1

abbrev pub first_section : ℕ
first_section = 192

unfoldable pub section_ok : BpvSection → ℕ → ℕ → Bool
section_ok s file_size elem =
    if ltb s.off first_section || not (bit_and s.off 63 == 0)
    then false
    else if ltb file_size s.off || ltb (file_size - s.off) s.size
    then false
    else if not (elem == 0) && not (s.size % elem == 0)
    then false
    else true

-- The fixed part of the header.
unfoldable pub fields_ok : BpvHeader → Bool
fields_ok h =
    if not (h.magic == bpv_magic) || not (h.format_version == 1)
    then false
    else if not (h.profile_id == profile_gpt4)
    then false
    else if h.vocab_count == 0 || ltb (2 ^ 21) h.vocab_count
    then false
    else if ltb 64 h.added_count
    then false
    else if ltb 32 h.pair_slots_log2
    then false
    else true

abbrev pub slots_of : BpvHeader → ℕ
slots_of h = 2 ^ h.pair_slots_log2

-- The sections, each in the file and of the size that the counts ask for.
unfoldable pub sections_ok : BpvHeader → ℕ → Bool
sections_ok h size =
    section_ok h.token_offsets size 4
    && (h.token_offsets.size == 4 * (h.vocab_count + 1)
        && (section_ok h.token_blob size 0
            && (section_ok h.pair_table size 16
                && (h.pair_table.size == 16 * slots_of h
                    && (section_ok h.byte_to_id size 4
                        && (h.byte_to_id.size == 1024
                            && (section_ok h.added size 16
                                && (h.added.size == 16 * h.added_count
                                    && section_ok h.meta size 0))))))))

-- No sum wraps, since the sections lie in the file.
unfoldable pub overlap : BpvSection → BpvSection → Bool
overlap a b = ltb a.off (b.off + b.size) && ltb b.off (a.off + a.size)

unfoldable pub apart_from : BpvSection → List BpvSection → Bool
apart_from s [] = true
apart_from s (x ∷ ss) = not (overlap s x) && apart_from s ss

-- The two `for` loops over `ss`.
unfoldable pub all_apart : List BpvSection → Bool
all_apart [] = true
all_apart (s ∷ ss) = apart_from s ss && all_apart ss

unfoldable pub header_ok : BpvHeader → ℕ → Bool
header_ok h size =
    fields_ok h
    && (sections_ok h size
        && all_apart
            (h.token_offsets ∷ h.token_blob ∷ h.pair_table ∷ h.byte_to_id ∷ h.added ∷ h.meta ∷ []))
