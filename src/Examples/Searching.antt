-- ===== src/Examples/Searching.antt =====
-- Runs of the census, and the properties at them.
use bytepair.Base.{inl, ℕ, Bool, true, false, List, [], ◌∷◌, get_or, All, arith}
use bytepair.Base.{◌≡◌, ◌≢◌, ◌↔◌, refl}
use bytepair.Utf8.Laws.{IsByte}
use bytepair.Vocab.{token_bytes, token_len}
use bytepair.Vocab.Pairs.{
  bp_pair_lookup, probe_pair, pair_key, bp_fmix64, probe, first_slot, answer,
}
use bytepair.Bpe.{merge_short, merge_loop, find_best, scan_best, better, merge_at}
use bytepair.Bpe.Boundary.{Part, Encodes-Part}
use bytepair.Bpe.Short.{merge_short-Encodes}
use bytepair.Bpe.Pretoken.{byte_ids, bp_bpe_pretoken, put_two}
use bytepair.Sink.{bp_sink_put, bp_sink_put1}
use bytepair.Bpe.Pretoken.Cache.{encode_bytes}
use bytepair.Encode.Laws.{text_ids}
use bytepair.Census.{merge_order}
use bytepair.Census.Search.{utf8_valid, pure_is_single, is_single}
use bytepair.Census.Token.{is_added, after_single, census_token}
use bytepair.Census.Laws.{Justified, census_token-Justified}
use bytepair.Census.Valid.{IsUtf8, utf8_valid-IsUtf8}
use bytepair.Census.Emission.{IsAbsent, encode_bytes-alone, text_ids-IsAbsent}
use bytepair.Encode.Rounds.{piece_ids, split}
use bytepair.Samples.File.{hey-AddedProper}
use bytepair.Census.Refusal.{merge_order_sound}
use bytepair.Samples.{
  hey, hey_ctx, hey-IsCached, hey-IsVocab, hey-BytesProper, hey-IsCoherent, hey-MergesInRange,
}
use bytepair.Samples.Classes.{sample_tables, sample-ClassesProper}

abbrev plenty : ℕ → Bool
plenty n = true

-- "hey"
abbrev greeting : List ℕ
greeting = 104 ∷ 101 ∷ 121 ∷ []

greeting-bytes : All IsByte greeting
greeting-bytes = (omega arith, (omega arith, (omega arith, tt)))

greeting-ids : encode_bytes hey greeting ≡ 257 ∷ []
unfolding encode_bytes byte_ids merge_short merge_loop find_best scan_best better merge_at
    bp_pair_lookup probe_pair pair_key bp_fmix64 probe first_slot answer
greeting-ids = refl

census_token-Justified_example :
    Justified plenty sample_tables 257
      (token_bytes hey 257)
      hey_ctx
      hey
      (census_token plenty sample_tables hey hey_ctx 257 false)
census_token-Justified_example = census_token-Justified plenty sample_tables hey hey_ctx 257 false

utf8_valid-IsUtf8_example : (utf8_valid greeting ≡ true) ↔ IsUtf8 greeting
utf8_valid-IsUtf8_example = utf8_valid-IsUtf8 greeting greeting-bytes

greeting-merged : merge_short hey greeting ≡ 257 ∷ []
unfolding merge_short merge_loop find_best scan_best better merge_at bp_pair_lookup probe_pair
    pair_key bp_fmix64 probe first_slot answer
greeting-merged = refl

ey-bytes : token_bytes hey 259 ≡ 101 ∷ 121 ∷ []
unfolding token_bytes token_len
ey-bytes = refl

Encodes-Part_example : Part hey greeting (get_or (merge_short hey greeting) 0 0)
Encodes-Part_example =
    Encodes-Part hey 0 (merge_short-Encodes hey greeting) (rw greeting-merged (omega arith))

encode_bytes-alone_example :
    encode_bytes hey (token_bytes hey (get_or (encode_bytes hey greeting) 0 0))
    ≡ get_or (encode_bytes hey greeting) 0 0 ∷ []
encode_bytes-alone_example =
    encode_bytes-alone hey hey-BytesProper hey-IsCoherent hey-MergesInRange greeting 0
      greeting-bytes (rw greeting-ids (omega arith))

ey-other : encode_bytes hey (token_bytes hey 259) ≢ 259 ∷ []
unfolding encode_bytes byte_ids merge_short merge_loop find_best scan_best better merge_at
    bp_pair_lookup probe_pair pair_key bp_fmix64 probe first_slot answer token_bytes token_len
ey-other e = absurd (cc)

text_ids-IsAbsent_example : IsAbsent 259 (text_ids sample_tables hey greeting)
text_ids-IsAbsent_example =
    text_ids-IsAbsent hey hey-BytesProper hey-IsCoherent hey-MergesInRange 259 ey-other
      sample_tables greeting sample-ClassesProper greeting-bytes

ey-refused : (census_token plenty sample_tables hey hey_ctx 259 false).res.reason ≡ merge_order
unfolding census_token is_added after_single pure_is_single is_single bp_bpe_pretoken put_two
    bp_pair_lookup probe_pair pair_key bp_fmix64 probe first_slot answer token_bytes token_len
    bp_sink_put bp_sink_put1
ey-refused = refl

merge_order_sound_example : IsAbsent 259 (piece_ids sample_tables hey (split hey 0 greeting))
merge_order_sound_example =
    merge_order_sound plenty sample_tables hey hey_ctx 259 false greeting 0 sample-ClassesProper
      hey-IsVocab hey-IsCached refl (inl (rw ey-bytes (omega arith))) ey-refused hey-AddedProper
      greeting-bytes
