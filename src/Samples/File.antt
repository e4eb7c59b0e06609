-- ===== src/Samples/File.antt =====
-- A vocabulary file, and a machine that opens it.
use bytepair.Base.{ℕ, zero, suc, ◌/◌, ◌%◌, ltb, Bool, true, false, ◌&&◌, none, some}
use bytepair.Base.{List, [], ◌∷◌, ◌++◌, length, drop, take, zeros, All, both, ltb→lt}
use bytepair.Base.{◌≡◌, refl, ap, ◌∙◌}
use mathlib.Core.Path.{subst}
use bytepair.Utf8.Laws.{IsByte}
use bytepair.Vocab.{BpvSection, BpvHeader, BpvAdded}
use bytepair.Context.{BpCtx, le_word}
use bytepair.Samples.{hey}
use bytepair.Encode.Match.{AddedProper}
use bytepair.Loader.Opened.{bp_vocab_open-IsOpened}
use bytepair.Loader.{
  word32, word64, section_at, read_header, section_ok, fields_ok, sections_ok, overlap, apart_from,
  all_apart, header_ok,
}
use bytepair.Loader.Content.{
  words, added_records, ascending, offsets_ok, count_slots, load_ok, table_ok, width_of, bytes_ok,
  added_ok,
}
use bytepair.Loader.Matcher.{insert_place, sort_loop, longest_first, mark, mark_all, all_start_with}
use bytepair.Loader.Open.{
  Host, cpu_has_avx2_bmi2, opened, Sections, sections_of, content_ok, vocab_of, build, open_mapped,
  open_found, bp_vocab_open, pos, log2_of, new_ctx, bp_ctx_new,
}

abbrev bytes_of : ℕ → ℕ → List ℕ
bytes_of zero n = []
bytes_of (suc k) n = n % 256 ∷ bytes_of k (n / 256)

abbrev words_of : ℕ → List ℕ → List ℕ
words_of k [] = []
words_of k (n ∷ ns) = bytes_of k n ++ words_of k ns

abbrev sections_bytes : List BpvSection → List ℕ
sections_bytes [] = []
sections_bytes (s ∷ ss) = bytes_of 8 s.off ++ (bytes_of 8 s.size ++ sections_bytes ss)

abbrev added_bytes : List BpvAdded → List ℕ
added_bytes [] = []
added_bytes (a ∷ added) = words_of 4 (a.id ∷ a.offset ∷ a.len ∷ a.flags ∷ []) ++ added_bytes added

abbrev header_bytes : List ℕ
header_bytes =
    let h = hey.hdr in
    words_of 4 (
      h.magic ∷ h.format_version ∷ h.flags ∷ h.profile_id ∷ h.vocab_count ∷ h.added_count
      ∷ h.pair_slots_log2 ∷ h.reserved ∷ [])
    ++ (sections_bytes
          (h.token_offsets ∷ h.token_blob ∷ h.pair_table ∷ h.byte_to_id ∷ h.added ∷ h.meta ∷ [])
        ++ zeros 48)

-- The sections, each at a multiple of 64.
abbrev pub hey_file : List ℕ
hey_file =
    header_bytes
    ++ (zeros 16
        ++ (words_of 4 hey.tok_off
            ++ (zeros 44
                ++ (words_of 8 hey.pairs
                    ++ (words_of 4 hey.byte_id
                        ++ (added_bytes hey.added
                            ++ (zeros 48
                                ++ (bytes_of 4 3
                                    ++ (hey.meta_name ++ (zeros 57 ++ hey.blob))))))))))

abbrev pub hey_host : Host
hey_host = record {
  file = some hey_file;
  maps = true;
  grants = λ n. true;
  cpuid = λ leaf. record { a = 7; b = 0x120; c = 0x8000000; d = 0 };
  xgetbv = 7;
  env = none;
}

file_len : length hey_file ≡ 2762
file_len = refl

header_same : read_header hey_file ≡ hey.hdr
unfolding read_header word32 word64 section_at le_word
header_same = refl

header_right : header_ok hey.hdr (length hey_file) ≡ true
unfolding header_ok fields_ok sections_ok section_ok overlap apart_from all_apart
header_right = refl

tok_off_same : words 4 261 (drop 192 hey_file) ≡ hey.tok_off
unfolding words le_word
tok_off_same = refl

byte_id_same : words 4 256 (drop 1344 hey_file) ≡ hey.byte_id
unfolding words le_word
byte_id_same = refl

pairs_same : words 8 8 (drop 1280 hey_file) ≡ hey.pairs
unfolding words le_word
pairs_same = refl

added_same : added_records 1 (drop 2368 hey_file) ≡ hey.added
unfolding added_records word32 le_word
added_same = refl

order_same : longest_first hey.added ++ zeros 63 ≡ hey.added_order
unfolding longest_first sort_loop insert_place
order_same = refl

map_same : mark_all hey.blob hey.added (zeros 32) ≡ hey.added_first_map
unfolding mark_all mark
map_same = refl

cpu_same : cpu_has_avx2_bmi2 hey_host ≡ true
unfolding cpu_has_avx2_bmi2
cpu_same = refl

first_same : all_start_with hey.blob 60 hey.added ≡ true
unfolding all_start_with
first_same = refl

blob_same : drop 2496 hey_file ≡ hey.blob
blob_same = refl

abbrev hey_sections : Sections
hey_sections = record {
  tok_off = hey.tok_off;
  blob = hey.blob;
  pairs = hey.pairs;
  byte_id = hey.byte_id;
  added = hey.added;
  meta = drop 2432 hey_file;
}

sections_same : sections_of hey.hdr hey_file ≡ hey_sections
unfolding sections_of
sections_same = λ i. record {
  tok_off = tok_off_same i;
  blob = blob_same i;
  pairs = pairs_same i;
  byte_id = byte_id_same i;
  added = added_same i;
  meta = drop 2432 hey_file;
}

name_same : take (word32 (drop 2432 hey_file) 0) (drop 4 (drop 2432 hey_file)) ≡ hey.meta_name
unfolding word32 le_word
name_same = refl

vocab_same : vocab_of hey_host hey.hdr hey_sections ≡ hey
unfolding vocab_of
vocab_same = λ i. record hey {
  meta_name = name_same i;
  added_order = order_same i;
  added_single_first = first_same i;
  added_first_map = map_same i;
  use_avx2 = cpu_same i;
}

content_right : content_ok hey.hdr hey_sections ≡ true
unfolding content_ok offsets_ok ascending table_ok load_ok count_slots bytes_ok width_of added_ok
content_right = refl

build_right : build hey_host hey.hdr hey_sections ≡ opened hey
unfolding build word32 le_word
build_right = ap opened vocab_same

mapped :
    (os : Host) (file : List ℕ) (h : BpvHeader) (s : Sections)
    → read_header file ≡ h
    → sections_of h file ≡ s
    → header_ok h (length file) ≡ true
    → content_ok h s ≡ true
    → open_mapped os file ≡ build os h s
unfolding open_mapped
mapped os file h s e f head content = rw (e, f, head, content) refl

pub hey_opened : bp_vocab_open hey_host false ≡ opened hey
unfolding bp_vocab_open open_found
hey_opened =
    mapped hey_host hey_file hey.hdr hey_sections header_same sections_same header_right
      content_right
    ∙ build_right

all_bytes : List ℕ → Bool
all_bytes [] = true
all_bytes (x ∷ xs) = ltb x 256 && all_bytes xs

all_bytes-All : (xs : List ℕ) → all_bytes xs ≡ true → All IsByte xs
unfolding all_bytes
all_bytes-All [] e = tt
all_bytes-All (x ∷ xs) e = let (one, rest) = both _ _ e in (ltb→lt x 256 one, all_bytes-All xs rest)

pub hey_file-bytes : (file : List ℕ) → hey_host.file ≡ some file → All IsByte file
hey_file-bytes file e =
    let same : hey_file ≡ file = cc in
    subst (All IsByte) same (all_bytes-All hey_file (unfold all_bytes in refl))

abbrev pub fresh : BpCtx
fresh = new_ctx hey_host hey 4

pub fresh_made : bp_ctx_new hey_host (some hey) (pos 4) ≡ some fresh
unfolding bp_ctx_new log2_of
fresh_made = refl

pub hey-AddedProper : AddedProper hey
hey-AddedProper = (bp_vocab_open-IsOpened hey_host false hey hey_file-bytes hey_opened).added
