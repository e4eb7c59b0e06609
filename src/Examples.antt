-- ===== src/Examples.antt =====
-- Runs on small inputs, and the properties at them.
mod Bench
mod Codec
mod Heap
mod Loading
mod Searching
use mathlib.Core.Path.{subst}
use bytepair.Base.{ℕ, zero, suc, ◌<◌, ◌≤◌, ◌+◌, ◌-◌, ◌^◌, Bool, true, false, Option, none, some}
use bytepair.Base.{List, [], ◌∷◌, ◌++◌, length, take, drop, concat, All, arith, ◌≡◌, ◌≢◌}
use bytepair.Base.{refl, inl, inr}
use bytepair.Utf8.{bp_utf8_next, encode_cp, malformed}
use bytepair.Utf8.Laws.{IsByte}
use bytepair.Utf8.Decode.{next-encode_cp, next-Accepts, adv_bounds, Accepts}
use bytepair.Sink.{bp_sink_put}
use bytepair.Sink.Laws.{Buffer, Holds, start-Holds, bp_sink_put-Holds}
use bytepair.Vocab.{pair_empty, token_len}
use bytepair.Vocab.Pairs.{
  bp_pair_lookup, probe_pair, pair_key, bp_fmix64, probe, first_slot, answer,
}
use bytepair.Vocab.Pairs.Ends.{probe_pair_ends}
use bytepair.Vocab.Pairs.Sound.{bp_pair_lookup_found}
use bytepair.Tables.{ascii_class, bp_char_class, two_level}
use bytepair.Nfc.{is_kept, all_ascii, all_ascii_words}
use bytepair.Context.{le_word, bp_buf_reserve, bp_ids_reserve, grow}
use bytepair.Context.Reserve.{bp_buf_reserve_enough, bp_ids_reserve_enough}
use bytepair.Bpe.{merge_short, merge_loop, find_best, scan_best, better, merge_at}
use bytepair.Bpe.Spec.{Encodes}
use bytepair.Bpe.Short.{merge_short-Encodes, merge_short_unique}
use bytepair.Bpe.Bytes.{expand, Encodes-expand}
use bytepair.Bpe.Pretoken.{bp_bpe_pretoken}
use bytepair.Bpe.Pretoken.Cache.{Puts}
use bytepair.Bpe.Pretoken.Encodes.{bp_bpe_pretoken-Puts}
use bytepair.Scan.{span_end, word_end, peek, run_letters, is_letter}
use bytepair.Scan.Run.{extend}
use bytepair.Scan.Kernel.{letter_run_avx2, symbol_run_avx2, letter_byte, symbol_byte, first_failing}
use bytepair.Scan.Kernel.Laws.{letter_run_avx2-count, symbol_run_avx2-count}
use bytepair.Scan.Spaces.{Within}
use bytepair.Scan.Bounds.{span_end_bounds}
use bytepair.Scan.Text.{pretokens, spans_from}
use bytepair.Scan.Text.Laws.{pretokens-partition, pretokens-simd}
use bytepair.Encode.{Code, count, error, range}
use bytepair.Decode.{bp_decode, is_skipped}
use bytepair.Decode.Special.{Ascends}
use bytepair.Decode.Laws.{IsLegal, IsIllegal, shown, bp_decode-shown, bp_decode-range}
use bytepair.Sink.Laws.{filled}
use bytepair.Samples.{
  hey, hey_ctx, hey-IsCached, hey-IsVocab, hey-RanksProper, hey-IsCoherent, hey-MergesInRange,
  hey-HasSpace,
}
use bytepair.Samples.Classes.{sample_tables, sample-ClassesProper}

-- "hey he"
abbrev hey_text : List ℕ
hey_text = 104 ∷ 101 ∷ 121 ∷ 32 ∷ 104 ∷ 101 ∷ []

abbrev word : List ℕ
word = 104 ∷ 101 ∷ 121 ∷ []

abbrev six : List ℕ
six = 0 ∷ 0 ∷ 0 ∷ 0 ∷ 0 ∷ 0 ∷ []

abbrev plenty : ℕ → Bool
plenty n = true

hey_text-bytes : All IsByte hey_text
hey_text-bytes =
    (omega arith, (omega arith, (omega arith, (omega arith, (omega arith, (omega arith, tt))))))

hey_text-pretokens : pretokens sample_tables false hey_text ≡ word ∷ (32 ∷ 104 ∷ 101 ∷ []) ∷ []
unfolding pretokens spans_from span_end word_end peek bp_char_class two_level ascii_class
    run_letters extend is_letter
hey_text-pretokens = refl

-- "hey" is one token.
hey-merges : merge_short hey word ≡ 257 ∷ []
unfolding merge_short merge_loop find_best scan_best better merge_at bp_pair_lookup probe_pair
    pair_key bp_fmix64 probe first_slot answer
hey-merges = refl

he_found : bp_pair_lookup hey 104 101 ≢ pair_empty
unfolding bp_pair_lookup probe_pair pair_key bp_fmix64 probe first_slot answer
he_found e = absurd (omega arith)

merge_short-Encodes_example : Encodes hey word (merge_short hey word)
merge_short-Encodes_example = merge_short-Encodes hey word

hey-Encodes : Encodes hey word (257 ∷ [])
hey-Encodes = subst (Encodes hey word) hey-merges (merge_short-Encodes hey word)

merge_short_unique_example : 257 ∷ [] ≡ merge_short hey word
merge_short_unique_example = merge_short_unique hey word (257 ∷ []) hey-Encodes

six-Holds : Holds (record { cells = six; room = 6 }) [] (record { out = six; cap = 6; total = 0 })
six-Holds = start-Holds six 6 (omega arith)

hey_ids-IsLegal : All (IsLegal hey 4) (257 ∷ 258 ∷ [])
unfolding token_len is_skipped
hey_ids-IsLegal = (
  record { below = omega arith; written = inr (λ e. absurd (omega arith)) },
  (record { below = omega arith; written = inr (λ e. absurd (omega arith)) }, tt),
)

hey-Ascends : Ascends hey.added
hey-Ascends = (tt, tt)

bp_decode-shown_example :
    bp_decode (some hey_ctx) (some (257 ∷ 258 ∷ 9 ∷ [])) 2 (some six) 2 4 ≡ record {
      code = count (length (shown hey 4 (257 ∷ 258 ∷ [])));
      ctx = some hey_ctx;
      out = some (filled (record { cells = six; room = 2 }) (shown hey 4 (257 ∷ 258 ∷ [])));
    }
bp_decode-shown_example =
    bp_decode-shown hey_ctx (257 ∷ 258 ∷ 9 ∷ []) 2 six 2 4 hey-Ascends refl hey_ids-IsLegal
      (omega arith)

bp_decode-range_example :
    (bp_decode (some hey_ctx) (some (257 ∷ 258 ∷ 260 ∷ [])) 3 (some six) 6 4).code ≡ error range
bp_decode-range_example =
    bp_decode-range hey_ctx (257 ∷ 258 ∷ []) 260 [] six 6 4 hey_ids-IsLegal
      (record { failing = inl (omega arith) })

pretokens-partition_example :
    (concat (pretokens sample_tables true hey_text) ≡ hey_text)
    × All (λ p. 0 < length p) (pretokens sample_tables true hey_text)
pretokens-partition_example =
    pretokens-partition sample_tables sample-ClassesProper true hey_text hey_text-bytes

pretokens-simd_example :
    pretokens sample_tables true hey_text ≡ pretokens sample_tables false hey_text
pretokens-simd_example = pretokens-simd sample_tables sample-ClassesProper hey_text hey_text-bytes

span_end_bounds_example : Within hey_text 3 (span_end sample_tables true hey_text 3)
span_end_bounds_example =
    span_end_bounds sample_tables sample-ClassesProper true hey_text hey_text-bytes 3 (omega arith)

bp_sink_put-Holds_example :
    Holds
      (record { cells = six; room = 6 })
      (7 ∷ 8 ∷ [])
      (bp_sink_put (record { out = six; cap = 6; total = 0 }) (7 ∷ 8 ∷ []))
bp_sink_put-Holds_example = bp_sink_put-Holds six-Holds (7 ∷ 8 ∷ [])

bp_pair_lookup_found_example :
    bytepair.Vocab.Pairs.Sound.Holds hey.pairs 4 (pair_key 104 101) (bp_pair_lookup hey 104 101)
bp_pair_lookup_found_example = bp_pair_lookup_found hey 104 101 hey-HasSpace he_found

probe_pair_ends_example : probe_pair hey 7 8 ≡ some (bp_pair_lookup hey 7 8)
probe_pair_ends_example = probe_pair_ends hey 7 8 hey-HasSpace
