-- ===== src/Examples/Loading.antt =====
-- Runs of the loader and of a session, and the properties at them.
use bytepair.Cli.{text_command}
use bytepair.Cli.Command.{text_command-ids}
use bytepair.Cli.Documents.{Rises, document_offsets, offsets_cap, document_offsets_fit}
use bytepair.Base.{
  inl, length, drop, get_or, ℕ, ◌≤◌, Bool, true, false, none, some, List, [], ◌∷◌, All, arith,
}
use bytepair.Base.{◌≡◌, refl, zeros}
use bytepair.Utf8.Laws.{IsByte}
use bytepair.Tables.{bp_char_class, two_level, ascii_class}
use bytepair.Context.{BpCtx, le_word}
use bytepair.Nfc.{is_kept, all_ascii, all_ascii_words}
use bytepair.Scan.{span_end, word_end, peek, run_letters, is_letter}
use bytepair.Scan.Run.{extend}
use bytepair.Scan.Text.{pretokens, spans_from}
use bytepair.Vocab.{BpvAdded}
use bytepair.Encode.Split.{Piece}
use bytepair.Encode.Rounds.{piece_ids}
use bytepair.Bpe.Pretoken.{same_bytes}
use bytepair.Encode.{bp_count, count, bp_encode, matches, match_in, match_added}
use bytepair.Encode.Match.{IsAdded, match_added_longest}
use bytepair.Encode.Split.{text, token, pieces}
use bytepair.Encode.Rounds.{IsPieceServed, split}
use bytepair.Encode.Laws.{Replies}
use bytepair.Encode.RoundTrip.{decode_answer, IsDecoded}
use bytepair.Encode.Answer.{bp_encode_pieces, bp_count-encode_pieces}
use bytepair.Encode.Whole.{decode-encode_added, bp_encode_pieces_fit}
use bytepair.Loader.Open.{negsuc, new_ctx, log2_of, bp_ctx_new, pos}
use bytepair.Loader.Opened.{IsOpened, bp_vocab_open-IsOpened}
use bytepair.Nfc.Form.{normal_form-keeps}
use bytepair.Encode.Laws.{IsTextServed}
use bytepair.Encode.Restored.{normalized, IsPieceKept}
use bytepair.Loader.Session.{IsNew, bp_ctx_new-IsNew, session}
use bytepair.Samples.{hey, hey_ctx, hey-IsCached, hey-IsVocab, hey-RanksProper, hey-IsCoherent}
use bytepair.Samples.Classes.{sample_tables, sample-ClassesProper}
use bytepair.Samples.File.{hey_host, hey_opened, hey_file-bytes, hey-AddedProper, fresh, fresh_made}

abbrev pub plenty : ℕ → Bool
plenty n = true

bp_vocab_open-IsOpened_example : IsOpened hey
bp_vocab_open-IsOpened_example = bp_vocab_open-IsOpened hey_host false hey hey_file-bytes hey_opened

bp_ctx_new-IsNew_example : IsNew hey (pos 4) fresh
bp_ctx_new-IsNew_example = bp_ctx_new-IsNew hey_host hey (pos 4) fresh fresh_made

abbrev pub hey_word : List ℕ
hey_word = 104 ∷ 101 ∷ 121 ∷ []

abbrev he_word : List ℕ
he_word = 104 ∷ 101 ∷ []

abbrev start_token : BpvAdded
start_token = record { id = 258; offset = 261; len = 3; flags = 1 }

abbrev marked_pieces : List Piece
marked_pieces = text hey_word ∷ token start_token ∷ text he_word ∷ []

-- "hey<s>he"
abbrev marked : List ℕ
marked = 104 ∷ 101 ∷ 121 ∷ 60 ∷ 115 ∷ 62 ∷ 104 ∷ 101 ∷ []

marked-split : split hey 0 marked ≡ marked_pieces
unfolding split pieces match_added match_in matches same_bytes
marked-split = refl

pub pretokens_same :
    (pretokens sample_tables false hey_word ≡ hey_word ∷ [])
    × (pretokens sample_tables false he_word ≡ he_word ∷ [])
unfolding pretokens spans_from span_end word_end peek bp_char_class two_level ascii_class
    run_letters extend is_letter
pretokens_same = (refl, refl)

pub words-kept :
    (is_kept sample_tables hey hey_word ≡ true) × (is_kept sample_tables hey he_word ≡ true)
unfolding is_kept all_ascii all_ascii_words le_word
words-kept = (refl, refl)

pub word-served :
    (w : List ℕ)
    → is_kept sample_tables hey w ≡ true
    → pretokens sample_tables false w ≡ w ∷ []
    → length w ≤ 64
    → IsTextServed plenty sample_tables hey w
word-served w kept one short =
    (inl kept, rw (normal_form-keeps sample_tables hey w kept, one) ((inl short, tt)))

marked-served : All (IsPieceServed plenty sample_tables hey) (split hey 0 marked)
marked-served = rw marked-split (
  word-served hey_word words-kept.0 pretokens_same.0 (omega arith),
  (tt, (word-served he_word words-kept.1 pretokens_same.1 (omega arith), tt)),
)

marked-kept : All (IsPieceKept sample_tables hey) (split hey 0 marked)
marked-kept = rw marked-split (words-kept.0, (tt, (words-kept.1, tt)))

marked-bytes : All IsByte marked
marked-bytes = (
  omega arith,
  (
    omega arith,
    (omega arith, (omega arith, (omega arith, (omega arith, (omega arith, (omega arith, tt)))))),
  ),
)

start-found : match_added hey (60 ∷ 115 ∷ 62 ∷ []) ≡ some start_token
unfolding match_added match_in matches same_bytes
start-found = refl

he-missed : match_added hey he_word ≡ none
unfolding match_added match_in matches same_bytes
he-missed = refl

match_added_longest_example :
    IsAdded hey start_token
    × (matches hey (60 ∷ 115 ∷ 62 ∷ []) start_token ≡ true)
    × All (λ b. matches hey (60 ∷ 115 ∷ 62 ∷ []) b ≡ true → b.len ≤ 3) hey.added
match_added_longest_example =
    match_added_longest hey (60 ∷ 115 ∷ 62 ∷ []) hey-AddedProper start_token start-found

abbrev eight : List ℕ
eight = zeros 8

bp_encode_pieces_example :
    Replies hey eight 2
      (piece_ids sample_tables hey (split hey 0 marked))
      (bp_encode plenty sample_tables (some hey_ctx) (some marked) 8 (some eight) 2 0)
bp_encode_pieces_example =
    bp_encode_pieces plenty sample_tables sample-ClassesProper hey_ctx marked eight 2 0 marked-bytes
      hey-IsCached hey-RanksProper hey-AddedProper marked-served (omega arith)

decode-encode_added_example : IsDecoded eight marked (
    decode_answer
      (bp_encode plenty sample_tables (some hey_ctx) (some marked) 8 (some eight) 8 0)
      eight)
decode-encode_added_example =
    decode-encode_added plenty sample_tables hey_ctx marked eight eight 0 sample-ClassesProper
      marked-bytes hey-IsVocab hey-AddedProper hey-IsCached marked-served marked-kept (omega arith)

session_example : IsDecoded eight marked (
    decode_answer
      (bp_encode plenty sample_tables (some fresh) (some marked) 8 (some eight) 8 0)
      eight)
session_example =
    session hey_host false hey (pos 4) fresh plenty sample_tables marked eight eight 0
      hey_file-bytes hey_opened fresh_made hey-RanksProper hey-IsCoherent sample-ClassesProper
      marked-bytes marked-served marked-kept (omega arith)

bp_count-encode_pieces_example :
    (bp_count plenty sample_tables (some hey_ctx) (some marked) 8 0).code
    ≡ (bp_encode plenty sample_tables (some hey_ctx) (some marked) 8 (some eight) 2 0).code
bp_count-encode_pieces_example =
    bp_count-encode_pieces plenty sample_tables sample-ClassesProper hey_ctx marked eight 2 0
      marked-bytes hey-IsCached hey-RanksProper hey-AddedProper marked-served (omega arith)

bp_encode_pieces_fit_example :
    (n : ℕ) × ((bp_encode plenty sample_tables (some hey_ctx) (some marked) 8 (some eight) 2 0).code
      ≡ count n)
    × (n ≤ length (normalized sample_tables hey 0 marked))
bp_encode_pieces_fit_example =
    bp_encode_pieces_fit plenty sample_tables hey_ctx marked eight 2 0 sample-ClassesProper
      marked-bytes hey-IsVocab hey-AddedProper hey-IsCached marked-served (omega arith)

abbrev pub plain_ctx : BpCtx
plain_ctx = new_ctx hey_host hey 15

pub plain_made : bp_ctx_new hey_host (some hey) (negsuc 0) ≡ some plain_ctx
unfolding bp_ctx_new log2_of
plain_made = refl

text_command-ids_example :
    (text_command hey_host plenty sample_tables hey false marked 0
      ≡ record { printed = piece_ids sample_tables hey (split hey 0 marked); exit = 0 })
    × (text_command hey_host plenty sample_tables hey true marked 0 ≡ record {
      printed = length (piece_ids sample_tables hey (split hey 0 marked)) ∷ [];
      exit = 0;
    })
text_command-ids_example =
    text_command-ids hey_host plenty sample_tables sample-ClassesProper hey marked 0 marked-bytes
      hey-RanksProper hey-AddedProper marked-served plain_ctx plain_made refl

abbrev lines : List ℕ
lines = 97 ∷ 10 ∷ 98 ∷ []

document_offsets_fit_example :
    (get_or (document_offsets lines) 0 1 ≡ 0)
    × Rises 0 (drop 1 (document_offsets lines)) 3
    × (length (document_offsets lines) ≤ offsets_cap 3)
document_offsets_fit_example = document_offsets_fit lines
