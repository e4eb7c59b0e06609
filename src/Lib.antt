-- ===== src/Lib.antt =====
-- bytepair is a byte pair encoder: a text is normalised, cut into pretokens, and every pretoken's
-- bytes are merged into the ids of a vocabulary. This library models its C sources and proves what
-- the parts promise each other.
--
-- The parts, in the order in which a text meets them:
--   Encode        src/bp_encode.c: `bp_encode`, `bp_count`. Segments between added tokens go to
--                 `encode_segment`, which normalises them and hands them to the scanner.
--                 Encode.Split cuts a text at its added tokens by a search at every position;
--                 Encode.Restored says which bytes the ids of the pieces stand for.
--   Nfc           src/bp_nfc.c: `bp_nfc`, which keeps a segment or rewrites it in normal form C;
--                 Nfc.Form is that text without the buffers; Nfc.Ascii is the first
--                 of its shortcuts, Nfc.Room the room of its buffers.
--   Tables        src/tables/bp_uctables.{h,c}: the lookups. The generated arrays are the fields of
--                 the record `UcTables`; `ClassesProper` says what the scanner relies on: a class is
--                 0, L, N, S or S with NL, and the ASCII rows are those of the vector kernels.
--                 Tables.SelfTest is src/tables/bp_uctables_selftest.c with its cases.
--   Utf8          src/bp_util.c `bp_utf8_next`, and the writer of src/bp_nfc.c.
--   Scan          src/bp_scan.c `bp_scan_gpt4`: `span_end` is one turn of its loop, `scan_loop` the
--                 loop. Scan.Kernel is src/bp_scan_avx2.c, 32 lanes at a time.
--   Bpe           src/bp_bpe.c: `merge_short`; Bpe.Heap and Bpe.Long are the heap and the linked
--                 nodes of `merge_long`, whose list is followed by the positions of its nodes;
--                 Bpe.Pretoken is `bp_bpe_pretoken` with the cache. Bpe.Spec says what byte pair
--                 encoding is, without the loops.
--   Vocab         src/bp_internal.h: the vocabulary in memory; Vocab.Pairs is the pair table with its
--                 hash and its linear probe.
--   Context       src/bp_internal.h `struct bp_ctx` and the growth of its buffers (src/bp_util.c).
--   Sink          src/bp_internal.h `bp_sink`: counts every id and writes what fits.
--   Decode        src/bp_encode.c `bp_decode`.
--   Loader        src/bp_vocab.c: `header_ok` and `content_ok` are the checks of `bp_vocab_open`,
--                 Loader.Matcher the index of the added tokens, `vocab_of` the handle and
--                 `bp_ctx_new` the context. What the system and the processor answer is the record
--                 `Host`.
--   Census        src/bp_census.c: Census.Units and Census.Prover are the proofs of impossibility,
--                 Census.Search, Glue and Fragment the searches for a witness, Census.Token the verdict
--                 on a token and Census.Report the sums of a run. The loops over affixes are lists of
--                 attempts, tried in the order of the code.
--   Cli           cli/main.c: Cli.Main is `main`, with its dispatch and its exit codes, Cli and Cli.Others
--                 the commands once their input is read, Cli.Input the reading of
--                 that input, Cli.Documents and Cli.Bench the documents and the threads of the bench. What the system answers is the record `World`.
--   Base          shared names, Boolean tests, and lemmas on lists, bits and writes to memory.
--   Samples, Examples   a small vocabulary and class table, and runs on them.
--
-- State is passed along: `bp_bpe_pretoken` and all that call it take a `BpCtx` and a `Sink` and return
-- an `Outcome` with both. An array is the list of its elements, a pointer into the text is the rest
-- of it, a null pointer is `none`, and an error code is a constructor of `Error`. Machine words are
-- natural numbers with their wrap-around written out.
--
-- Loops run on fuel, and the fuel is enough: `merge_short` has one round per id, each of which
-- shortens the list; `scan_loop` has one round per byte, since a span is never empty; a probe has one
-- round per slot; a buffer has 64 doublings; the binary searches have one round per element; the
-- heap path has a round per entry that was ever pushed, of which there are fewer than three per byte
-- (each merge takes an entry and a node away and pushes at most two entries).
-- A thread of the bench has a round per document.
-- In the loop over added tokens, the alignments and the checks of UTF-8 a round takes a byte at least.
-- `realloc` is a parameter `alloc` that says which sizes are granted.
--
-- What the vocabulary must be is said by records. `HasSpace`: the pair table has an empty slot.
-- `RanksProper`: no merge has rank 0xFFFFFFFF. `MergesInRange`: a merge makes an id of the vocabulary.
-- `IsCoherent`: a merge joins the bytes of its parts. `BytesProper`: the id of a byte stands for it.
-- `AddedProper`: the added records are tokens, and their index is in order. The loader refuses files
-- that break these, but for the ranks and for what a merge joins, which it does not read.
--
-- Not modelled: the clock of cli/main.c, which is a parameter, the usage text, the messages and the
-- reports of the census, the generated arrays of src/tables/bp_uctables.c, which the theorems take as
-- they come, and the calls that only give memory back. Without buffers `bp_bpe_pretoken` and `bp_nfc`
-- fail with `BP_E_NOMEM`, so the theorems on texts ask that every buffer is granted, or that none is
-- needed: the array path and a text that normalisation keeps need none. A text that is rewritten comes
-- back rewritten, so the round trips ask that the normaliser keeps it.
-- The links of the nodes are `int32_t`: the cast is `link`, and it keeps positions below 2^31, hence
-- the bound on a pretoken.
pub mod Base
pub mod Utf8
pub mod Sink
pub mod Vocab
pub mod Context
pub mod Tables
pub mod Nfc
pub mod Scan
pub mod Encode
pub mod Decode
pub mod Loader
pub mod Census
pub mod Cli
pub mod Samples
mod Examples
pub mod Bpe
