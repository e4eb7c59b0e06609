-- ===== src/Loader/Open.antt =====
-- src/bp_vocab.c `bp_vocab_open` and `bp_ctx_new`. What the operating system, the C library and the
-- processor answer is a record; closing and freeing only give memory back.
use bytepair.Base.{ℕ, zero, suc, ◌+◌, ◌-◌, ◌*◌, ◌/◌, ◌^◌, ltb, leb, ◌==◌, if◌then◌else◌, bit_and}
use bytepair.Base.{Bool, true, false, ◌&&◌, not, Option, none, some}
use bytepair.Base.{List, [], ◌∷◌, ◌++◌, length, get_or, take, drop, zeros}
use bytepair.Vocab.{BpvHeader, BpvAdded, BpVocab, no_added}
use bytepair.Context.{CacheEnt, BpCtx}
use bytepair.Encode.{Error, io, format, nomem, arg}
use bytepair.Loader.{word32, read_header, header_ok, slots_of, first_section}
use bytepair.Loader.Content.{words, added_records, offsets_ok, table_ok, bytes_ok, added_ok}
use bytepair.Loader.Matcher.{longest_first, first_byte, mark_all, all_start_with}

-- What `cpuid` leaves in the four registers.
pub record Registers : Type 0 where
  pub a : ℕ
  pub b : ℕ
  pub c : ℕ
  pub d : ℕ

pub record Host : Type 0 where
  -- the bytes of the file at the path, if `open` and `fstat` succeed
  pub file : Option (List ℕ)
  pub maps : Bool
  -- whether a request for so many bytes is granted
  pub grants : ℕ → Bool
  pub cpuid : ℕ → Registers
  -- the low half of XCR0
  pub xgetbv : ℕ
  -- `BYTEPAIR_FORCE_SCALAR`
  pub env : Option (List ℕ)

-- `(x >> k) & 1`, as a condition
abbrev bit : ℕ → ℕ → Bool
bit x k = bit_and (x / 2 ^ k) 1 == 1

unfoldable pub cpu_has_avx2_bmi2 : Host → Bool
cpu_has_avx2_bmi2 os =
    if ltb (os.cpuid 0).a 7
    then false
    else if not (bit (os.cpuid 1).c 27)
    then false
    else if not (bit_and os.xgetbv 6 == 6)
    then false
    else bit (os.cpuid 7).b 5 && bit (os.cpuid 7).b 8

pub data Opened : Type 0 where
  opened : BpVocab → Opened
  failed : Error → Opened

-- The pointers into the map, behind the checks on the header.
pub record Sections : Type 0 where
  pub tok_off : List ℕ
  pub blob : List ℕ
  pub pairs : List ℕ
  pub byte_id : List ℕ
  pub added : List BpvAdded
  pub meta : List ℕ

unfoldable pub sections_of : BpvHeader → List ℕ → Sections
sections_of h file = record {
  tok_off = words 4 (h.vocab_count + 1) (drop h.token_offsets.off file);
  blob = drop h.token_blob.off file;
  pairs = words 8 (slots_of h * 2) (drop h.pair_table.off file);
  byte_id = words 4 256 (drop h.byte_to_id.off file);
  added = added_records h.added_count (drop h.added.off file);
  meta = drop h.meta.off file;
}

unfoldable pub content_ok : BpvHeader → Sections → Bool
content_ok h s =
    offsets_ok h s.tok_off
    && (table_ok h s.pairs
        && (bytes_ok h s.tok_off s.blob 0 s.byte_id
            && (added_ok h s.tok_off none s.added && leb 4 h.meta.size)))

-- `sizeof(struct bp_vocab)`, `sizeof(struct bp_ctx)`, `sizeof(bp_cache_ent)`
abbrev pub vocab_bytes : ℕ
vocab_bytes = 384

abbrev pub ctx_bytes : ℕ
ctx_bytes = 72

abbrev pub cache_ent_bytes : ℕ
cache_ent_bytes = 112

-- From `calloc` on, once the name is there.
unfoldable pub vocab_of : Host → BpvHeader → Sections → BpVocab
vocab_of os h s = record {
  hdr = h;
  tok_off = s.tok_off;
  blob = s.blob;
  pairs = s.pairs;
  pair_mask = slots_of h - 1;
  byte_id = s.byte_id;
  added = s.added;
  meta_name = take (word32 s.meta 0) (drop 4 s.meta);
  added_order =
      if h.added_count == 0 then zeros 64 else longest_first s.added ++ zeros (64 - h.added_count);
  added_first = if h.added_count == 0 then 0 else first_byte s.blob (get_or s.added 0 no_added);
  added_single_first =
      if h.added_count == 0
      then false
      else all_start_with s.blob (first_byte s.blob (get_or s.added 0 no_added)) s.added;
  added_first_map = if h.added_count == 0 then zeros 32 else mark_all s.blob s.added (zeros 32);
  use_avx2 = cpu_has_avx2_bmi2 os;
}

-- The two allocations, with the check on the name between them.
unfoldable pub build : Host → BpvHeader → Sections → Opened
build os h s =
    let name_len = word32 s.meta 0 in
    if not (os.grants vocab_bytes)
    then failed nomem
    else if ltb (h.meta.size - 4) name_len
    then failed format
    else if not (os.grants (name_len + 1))
    then failed nomem
    else opened (vocab_of os h s)

unfoldable pub open_mapped : Host → List ℕ → Opened
open_mapped os file =
    let h = read_header file in
    let s = sections_of h file in
    if not (header_ok h (length file))
    then failed format
    else if not (content_ok h s)
    then failed format
    else build os h s

-- From the size on; `none` is an `open` or an `fstat` that failed.
unfoldable pub open_found : Host → Option (List ℕ) → Opened
open_found os none = failed io
open_found os (some file) =
    if ltb (length file) first_section
    then failed io
    else if not os.maps
    then failed io
    else open_mapped os file

-- The flag says whether `path` is a null pointer.
unfoldable pub bp_vocab_open : Host → Bool → Opened
bp_vocab_open os true = failed arg
bp_vocab_open os false = open_found os os.file

-- An `int`: `pos n`, or -1 - n.
pub data ℤ : Type 0 where
  pos negsuc : ℕ → ℤ

-- `none` is a null pointer, or a refused `cache_log2`; -1 asks for the default.
unfoldable pub log2_of : ℤ → Option ℕ
log2_of (pos n) = if ltb 24 n then none else some n
log2_of (negsuc zero) = some 15
log2_of (negsuc (suc n)) = none

abbrev pub empty_ent : CacheEnt
empty_ent = record { hash = 0; len = 0; nids = 0; bytes = zeros 38; ids = zeros 16 }

unfoldable pub empty_ents : ℕ → List CacheEnt
empty_ents zero = []
empty_ents (suc n) = empty_ent ∷ empty_ents n

-- `e && e[0] == '1' && e[1] == 0`
unfoldable pub forces_scalar : Option (List ℕ) → Bool
forces_scalar none = false
forces_scalar (some e) = get_or e 0 0 == b'1' && get_or e 1 0 == 0

unfoldable pub new_ctx : Host → BpVocab → ℕ → BpCtx
new_ctx os v lg = record {
  v = v;
  norm_cap = 0;
  work_cap = 0;
  ids_cap = 0;
  cache = if lg == 0 then none else some (empty_ents (2 ^ lg));
  cache_mask = if lg == 0 then 0 else 2 ^ lg - 1;
  env_force_scalar = forces_scalar os.env;
}

unfoldable pub bp_ctx_new : Host → Option BpVocab → ℤ → Option BpCtx
bp_ctx_new os none cache_log2 = none
bp_ctx_new os (some v) cache_log2 = elim (log2_of cache_log2) [
  | none ↦ none
  | some lg ↦
      if not (os.grants ctx_bytes)
      then none
      else if not (lg == 0) && not (os.grants (2 ^ lg * cache_ent_bytes))
      then none
      else some (new_ctx os v lg)
]

unfoldable pub bp_vocab_size : Option BpVocab → ℕ
bp_vocab_size none = 0
bp_vocab_size (some v) = v.hdr.vocab_count

unfoldable pub bp_vocab_name : Option BpVocab → Option (List ℕ)
bp_vocab_name none = none
bp_vocab_name (some v) = some v.meta_name
