-- ===== src/Examples/Bench.antt =====
-- Runs of the bench, of the self-test, of the normaliser and of the program, and the properties at them.
use mathlib.Core.Logic.{◌↔◌}
use bytepair.Base.{
  ℕ, zero, suc, ◌<◌, true, false, none, some, List, [], ◌∷◌, length, ◌≤◌, ◌*◌, All, arith,
}
use bytepair.Base.{◌≡◌, refl}
use bytepair.Encode.Rounds.{IsPieceServed, split}
use bytepair.Encode.Split.{text, pieces}
use bytepair.Encode.{match_added, match_in, matches}
use bytepair.Bpe.Pretoken.{same_bytes}
use bytepair.Loader.Open.{pos}
use bytepair.Tables.SelfTest.{self_test}
use bytepair.Tables.SelfTest.Exact.{Agrees, self_test-Agrees}
use bytepair.Cli.{parse_flags}
use bytepair.Cli.Documents.{document_offsets, document_loop}
use bytepair.Cli.Bench.{cmd_bench}
use bytepair.Cli.Bench.Stride.{sum_from}
use bytepair.Cli.Bench.Total.{document, ids_in, jobs, cmd_bench-tokens}
use bytepair.Cli.Main.{World, main}
use bytepair.Cli.Main.Refused.{IsRefused, main-IsRefused}
use bytepair.Tables.{bp_ccc, two_level}
use bytepair.Tables.Lookup.{bp_decomp, bp_compose, find_key}
use bytepair.Nfc.{all_ascii, all_ascii_words, bp_nfc, normalize_full}
use bytepair.Nfc.{decompose_all}
use bytepair.Nfc.Room.{composed, normalize_full_fit}
use bytepair.Nfc.Ascii.Fixed.{AsciiPlain, normalize_full-ascii}
use bytepair.Samples.{hey, hey_ctx, hey-RanksProper}
use bytepair.Samples.Classes.{sample_tables, sample-ClassesProper}
use bytepair.Samples.File.{hey_host, hey-AddedProper}
use bytepair.Examples.Loading.{
  plenty, hey_word, pretokens_same, words-kept, word-served, plain_ctx, plain_made,
}

self_test-Agrees_example : (self_test sample_tables ≡ 0) ↔ Agrees sample_tables
self_test-Agrees_example = self_test-Agrees sample_tables

one_document : (jobs hey hey_word 0).ndocs ≡ 1
unfolding document_offsets document_loop
one_document = refl

first_document : document (jobs hey hey_word 0) 0 ≡ hey_word
unfolding document_offsets document_loop
first_document = refl

word-split : split hey 0 hey_word ≡ text hey_word ∷ []
unfolding split pieces match_added match_in matches same_bytes
word-split = refl

documents-served :
    (d : ℕ)
    → d < (jobs hey hey_word 0).ndocs
    → All (IsPieceServed plenty sample_tables hey) (split hey 0 (document (jobs hey hey_word 0) d))
documents-served zero inside =
    rw (first_document, word-split)
      (word-served hey_word words-kept.0 pretokens_same.0 (omega arith), tt)
documents-served (suc d) inside = absurd (omega (arith, one_document))

cmd_bench-tokens_example :
    cmd_bench hey_host plenty sample_tables hey hey_word 3 0 plenty (λ round. 5) ≡ record {
      printed =
          sum_from (ids_in sample_tables (jobs hey hey_word 0)) 0 (jobs hey hey_word 0).ndocs ∷ [];
      exit = 0;
    }
cmd_bench-tokens_example =
    cmd_bench-tokens hey_host plenty sample_tables sample-ClassesProper hey hey_word 0
      hey-RanksProper hey-AddedProper (omega arith, (omega arith, (omega arith, tt)))
      documents-served plain_ctx plain_made 3 plenty (λ round. 5) (omega arith) (omega arith)
      (λ round. refl) (omega arith) refl

-- A system without the file
abbrev lost : World
lost = record {
  host = λ path. record hey_host { file = none };
  files = λ path. none;
  stdin = record { bytes = hey_word; fails = false };
  opens = λ path. true;
  strtoull = λ s. record { val = 0; used = 0 };
  strtoul = λ s. 0;
  atoi = λ s. pos 1;
  starts = plenty;
  speed = λ round. 5;
}

-- `count x`
abbrev count_x : List (List ℕ)
count_x = (b'c' ∷ b'o' ∷ b'u' ∷ b'n' ∷ b't' ∷ []) ∷ (b'x' ∷ []) ∷ []

main-IsRefused_example :
    (main lost plenty sample_tables count_x ≡ 3) ↔ IsRefused lost (parse_flags count_x).args
main-IsRefused_example = main-IsRefused lost plenty sample_tables count_x

sample-AsciiPlain : AsciiPlain sample_tables
unfolding bp_ccc two_level bp_decomp find_key bp_compose
sample-AsciiPlain = record {
  no_class = λ b low. ground arith;
  no_decomp = λ b low. refl;
  no_composite = λ a b low lowb. refl;
}

normalize_full-ascii_example :
    ((normalize_full plenty sample_tables hey_ctx hey_word).text ≡ some hey_word)
    × ((bp_nfc plenty sample_tables hey_ctx hey_word).text ≡ some hey_word)
unfolding all_ascii all_ascii_words
normalize_full-ascii_example =
    normalize_full-ascii plenty sample_tables hey_ctx hey_word sample-AsciiPlain (λ n. refl)
      (omega arith, (omega arith, (omega arith, tt))) refl

sample-short : (cp : ℕ) → length (bp_decomp sample_tables cp) ≤ 4
unfolding bp_decomp find_key
sample-short cp = omega arith

hey_full : (normalize_full plenty sample_tables hey_ctx hey_word).text ≡ some hey_word
unfolding all_ascii all_ascii_words
hey_full =
    (normalize_full-ascii plenty sample_tables hey_ctx hey_word sample-AsciiPlain (λ n. refl)
      (omega arith, (omega arith, (omega arith, tt))) refl).0

normalize_full_fit_example :
    (length (decompose_all sample_tables 3 hey_word) * 8
      ≤ (normalize_full plenty sample_tables hey_ctx hey_word).ctx.work_cap)
    × (length (composed sample_tables hey_word) ≤ length (decompose_all sample_tables 3 hey_word))
    × (length hey_word ≤ (normalize_full plenty sample_tables hey_ctx hey_word).ctx.norm_cap)
normalize_full_fit_example =
    normalize_full_fit sample_tables sample-short plenty hey_ctx hey_word hey_word (omega arith)
      hey_full
