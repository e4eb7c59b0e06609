-- ===== src/Loader/Opened.antt =====
-- src/bp_vocab.c `bp_vocab_open`: what a vocabulary that was opened is like.
use bytepair.Base.{ℕ, zero, suc, ◌+◌, ◌-◌, ◌*◌, ◌^◌, ◌≤◌}
use bytepair.Base.{Bool, true, false, Option, none, some, both, leb→le}
use bytepair.Base.{List, length, get_or, drop, length-drop, Bool-cases, All, All-drop}
use bytepair.Base.{arith, ◌≡◌, refl, sym, ap, inl, inr}
use mathlib.Core.Path.{subst}
use bytepair.Utf8.Laws.{IsByte}
use bytepair.Vocab.{BpvSection, BpvHeader, BpVocab}
use bytepair.Vocab.Pairs.Ends.{HasSpace}
use bytepair.Bpe.Bytes.{MergesInRange}
use bytepair.Encode.Spelling.{BytesProper}
use bytepair.Loader.{read_header, section_ok, fields_ok, sections_ok, header_ok, slots_of}
use bytepair.Loader.Content.{words, offsets_ok, table_ok, bytes_ok, added_ok}
use bytepair.Loader.Open.{
  Host, opened, Sections, sections_of, content_ok, vocab_of, build, open_mapped, open_found,
  bp_vocab_open,
}
use bytepair.Loader.Table.{TableProper, table_ok-TableProper, table-HasSpace, table-MergesInRange}
use bytepair.Decode.Special.{Ascends}
use bytepair.Loader.Added.{
  added_ok-Ascends, added_ok-All, length-added_records, vocab_of-AddedProper,
}
use bytepair.Encode.Match.{IsAdded, AddedProper}
use bytepair.Loader.Tokens.{ByteAt, OffsetsProper, bytes_ok-ByteAt, bytes-BytesProper}

pub length-words : (width n : ℕ) (p : List ℕ) → length (words width n p) ≡ n
unfolding words
length-words width zero p = refl
length-words width (suc n) p = ap suc (length-words width n (drop width p))

-- What a file must pass for `v` to be what the loader makes of it.
pub record Passed (os : Host) (file : List ℕ) (v : BpVocab) : Type 0 where
  pub header : header_ok (read_header file) (length file) ≡ true
  pub content : content_ok (read_header file) (sections_of (read_header file) file) ≡ true
  pub made : v ≡ vocab_of os (read_header file) (sections_of (read_header file) file)

build-made :
    (os : Host) (h : BpvHeader) (s : Sections) (v : BpVocab)
    → build os h s ≡ opened v
    → vocab_of os h s ≡ v
unfolding build
build-made os h s v e = ground arith

open_mapped-Passed :
    (os : Host) (file : List ℕ) (v : BpVocab) → open_mapped os file ≡ opened v → Passed os file v
unfolding open_mapped
open_mapped-Passed os file v e = elim (Bool-cases (header_ok (read_header file) (length file))) [
  | inr bad ↦ absurd (cc (rw bad at e))
  | inl good ↦
      elim (Bool-cases (content_ok (read_header file) (sections_of (read_header file) file))) [
        | inr bad ↦ absurd (cc (rw (good, bad) at e))
        | inl right ↦ record {
          header = good;
          content = right;
          made = sym (
              build-made os (read_header file) (sections_of (read_header file) file) v
                (rw (good, right) at e));
        }
      ]
]

mapped_file :
    (os : Host) (file : List ℕ) (v : BpVocab)
    → open_found os (some file) ≡ opened v
    → open_mapped os file ≡ opened v
unfolding open_found
mapped_file os file v e = ground arith

found-Passed :
    (os : Host) (found : Option (List ℕ)) (v : BpVocab)
    → open_found os found ≡ opened v
    → (file : List ℕ) × (found ≡ some file) × Passed os file v
unfolding open_found
found-Passed os none v e = absurd (cc)
found-Passed os (some file) v e =
    (file, refl, open_mapped-Passed os file v (mapped_file os file v e))

few_ids : (h : BpvHeader) → fields_ok h ≡ true → h.vocab_count ≤ 2 ^ 21
unfolding fields_ok
few_ids h ok = ground arith

section_inside :
    (s : BpvSection) (file_size elem : ℕ)
    → section_ok s file_size elem ≡ true
    → (s.off ≤ file_size) × (s.size ≤ file_size - s.off)
unfolding section_ok
section_inside s file_size elem ok = ground arith

blob_inside :
    (h : BpvHeader) (size : ℕ)
    → sections_ok h size ≡ true
    → h.token_blob.size ≤ size - h.token_blob.off
unfolding sections_ok
blob_inside h size ok =
    let (_, ok₁) = both _ _ ok in
    let (_, ok₂) = both _ _ ok₁ in
    let (inside, _) = both _ _ ok₂ in (section_inside h.token_blob size 0 inside).1

module _ (os : Host) (h : BpvHeader) (file : List ℕ) (header : header_ok h (length file) ≡ true)
    (content : content_ok h (sections_of h file) ≡ true) where
  abbrev v : BpVocab
  v = vocab_of os h (sections_of h file)

  header_parts : (fields_ok h ≡ true) × (sections_ok h (length file) ≡ true)
  unfolding header_ok
  header_parts = let (fields, rest) = both _ _ header in (fields, (both _ _ rest).0)

  content_parts :
      (offsets_ok h (sections_of h file).tok_off ≡ true)
      × (table_ok h (sections_of h file).pairs ≡ true)
      × (bytes_ok h
            (sections_of h file).tok_off
            (sections_of h file).blob
            0
            (sections_of h file).byte_id
          ≡ true)
      × (added_ok h (sections_of h file).tok_off none (sections_of h file).added ≡ true)
  unfolding content_ok
  content_parts =
      let (offsets, ok₁) = both _ _ content in
      let (table, ok₂) = both _ _ ok₁ in
      let (bytes, ok₃) = both _ _ ok₂ in
      let (added, _) = both _ _ ok₃ in (offsets, table, bytes, added)

  opened_table : TableProper h (sections_of h file).pairs
  unfolding sections_of
  opened_table =
      table_ok-TableProper h (sections_of h file).pairs
        (length-words 8 (slots_of h * 2) (drop h.pair_table.off file)) content_parts.1

  opened-OffsetsProper : OffsetsProper v
  unfolding vocab_of sections_of offsets_ok
  opened-OffsetsProper =
      let (ascends, ends) = both _ _ content_parts.0 in
      record {
        counted = length-words 4 (h.vocab_count + 1) (drop h.token_offsets.off file);
        ascends = ascends;
        inside = omega (
          arith,
          leb→le _ _ ends,
          blob_inside h (length file) header_parts.1,
          length-drop h.token_blob.off file,
        );
      }

  opened-HasSpace : HasSpace v
  unfolding vocab_of
  opened-HasSpace = table-HasSpace v opened_table refl (few_ids h header_parts.0)

  opened-MergesInRange : MergesInRange v
  unfolding vocab_of
  opened-MergesInRange = table-MergesInRange v opened_table refl (few_ids h header_parts.0)

  opened-BytesProper : BytesProper v
  unfolding vocab_of sections_of
  opened-BytesProper = bytes-BytesProper v opened-OffsetsProper (λ b lt.
      subst (λ k. ByteAt h v.tok_off v.blob k (get_or v.byte_id b 0)) (omega arith)
        (bytes_ok-ByteAt h v.tok_off v.blob 0 v.byte_id b content_parts.2
          (omega (arith, length-words 4 256 (drop h.byte_to_id.off file)))))

  opened-checked : All (IsAdded v) (sections_of h file).added
  unfolding vocab_of
  opened-checked =
      added_ok-All v none (sections_of h file).added opened-OffsetsProper content_parts.3

  opened-Ascends : Ascends v.added
  unfolding vocab_of
  opened-Ascends = added_ok-Ascends v (sections_of h file).added content_parts.3

  opened-AddedProper : All IsByte file → AddedProper v
  unfolding sections_of
  opened-AddedProper bytes =
      vocab_of-AddedProper os h (sections_of h file)
        (length-added_records h.added_count (drop h.added.off file))
        (All-drop IsByte h.token_blob.off file bytes) opened-checked

-- What every vocabulary that was opened is like.
pub record IsOpened (v : BpVocab) : Type 0 where
  pub space : HasSpace v
  pub in_range : MergesInRange v
  pub bytes : BytesProper v
  pub added : AddedProper v
  pub ascending : Ascends v.added

-- Of a file of bytes, whatever `bp_vocab_open` opens has an empty slot in its pair table, merges
-- that make ids of the vocabulary, byte ids that stand for their bytes, and added records with
-- rising ids that are the table's own tokens, ordered longest first, with first bytes that the
-- prefilter knows.
pub bp_vocab_open-IsOpened :
    (os : Host) (null : Bool) (v : BpVocab)
    → ((file : List ℕ) → os.file ≡ some file → All IsByte file)
    → bp_vocab_open os null ≡ opened v
    → IsOpened v
unfolding bp_vocab_open
bp_vocab_open-IsOpened os true v bytes e = absurd (cc)
bp_vocab_open-IsOpened os false v bytes e =
    let (file, found, passed) = found-Passed os os.file v e in
    let h = read_header file in
    subst IsOpened (sym passed.made) (record {
      space = opened-HasSpace os h file passed.header passed.content;
      in_range = opened-MergesInRange os h file passed.header passed.content;
      bytes = opened-BytesProper os h file passed.header passed.content;
      added = opened-AddedProper os h file passed.header passed.content (bytes file found);
      ascending = opened-Ascends os h file passed.header passed.content;
    })
