-- ===== src/Cli/Command.antt =====
-- cli/main.c: what the commands `encode` and `count` print.
use bytepair.Base.{ℕ, zero, suc, ◌*◌, ==_refl, Bool, true, false, some, zeros}
use bytepair.Base.{
  List, [], ◌∷◌, length, take, take_all, take-append_left, ◌++◌, All, arith, ◌≡◌, refl, ap, ◌∙◌,
}
use mathlib.Core.Path.{subst}
use bytepair.Utf8.Laws.{IsByte}
use bytepair.Tables.{UcTables, ClassesProper}
use bytepair.Context.{BpCtx}
use bytepair.Vocab.{BpVocab}
use bytepair.Bpe.Pretoken.Cache.{IsCached}
use bytepair.Bpe.Spec.{RanksProper}
use bytepair.Encode.{Reply, bp_count, bp_encode}
use bytepair.Encode.Match.{AddedProper}
use bytepair.Encode.Rounds.{IsPieceServed, split, piece_ids}
use bytepair.Encode.Laws.{Replies}
use bytepair.Encode.Answer.{Counts, bp_count_pieces, bp_encode_pieces}
use bytepair.Loader.Open.{Host, negsuc, bp_ctx_new}
use bytepair.Loader.Session.{bp_ctx_new-IsNew}
use bytepair.Cli.{print_ids, after_count, text_command}

front : (ids rest : List ℕ) → take (length ids) (take (length ids) ids ++ rest) ≡ ids
front ids rest =
    rw (take_all (length ids) ids (omega arith)) (
      take-append_left (length ids) ids rest (omega arith)
      ∙ take_all (length ids) ids (omega arith))

length-zeros : (n : ℕ) → length (zeros n) ≡ n
length-zeros zero = refl
length-zeros (suc n) = ap suc (length-zeros n)

print_ids-Replies :
    (v : BpVocab) (ids : List ℕ) (r : Reply)
    → Replies v (zeros (length ids)) (length ids) ids r
    → print_ids (length ids) r ≡ record { printed = ids; exit = 0 }
unfolding print_ids
print_ids-Replies v ids r rep =
    rw (rep.counted, rep.stored, ==_refl (length ids))
      (ap (λ l. record { printed = l; exit = 0 }) (front ids _))

module _ (os : Host) (alloc : ℕ → Bool) (u : UcTables) (classes : ClassesProper u) (v : BpVocab)
    (t : List ℕ) (flags : ℕ) (bytes : All IsByte t) (ranks : RanksProper v) (proper : AddedProper v)
    (direct : All (IsPieceServed alloc u v) (split v flags t)) where
  abbrev ids : List ℕ
  ids = piece_ids u v (split v flags t)

  encode-ids :
      (c : BpCtx)
      → c.v ≡ v
      → IsCached c
      → print_ids (length ids) (
          bp_encode alloc u
            (some c)
            (some t)
            (length t)
            (some (zeros (length ids)))
            (length ids)
            flags)
        ≡ record { printed = ids; exit = 0 }
  encode-ids c same cached = print_ids-Replies v ids _ (
      subst
        (λ w.
          RanksProper w
          → AddedProper w
          → All (IsPieceServed alloc u w) (split w flags t)
          → Replies w (zeros (length ids)) (length ids) (piece_ids u w (split w flags t)) (
              bp_encode alloc u (some c) (some t) (length t) (some (zeros (length ids)))
                (length ids) flags))
        same
        (λ r p d.
          bp_encode_pieces alloc u classes c t (zeros (length ids)) (length ids) flags bytes cached
            r p d (omega (arith, length-zeros (length ids))))
        ranks proper direct)

  count-ids :
      (c : BpCtx)
      → c.v ≡ v
      → IsCached c
      → Counts v (length ids) (bp_count alloc u (some c) (some t) (length t) flags)
  count-ids c same cached =
      subst
        (λ w.
          RanksProper w
          → AddedProper w
          → All (IsPieceServed alloc u w) (split w flags t)
          → Counts w (length (piece_ids u w (split w flags t)))
              (bp_count alloc u (some c) (some t) (length t) flags))
        same (λ r p d. bp_count_pieces alloc u classes c t flags bytes cached r p d) ranks proper
        direct

  after_encode :
      (r : Reply)
      → os.grants (length ids * 4) ≡ true
      → Counts v (length ids) r
      → after_count os alloc u false t flags r ≡ record { printed = ids; exit = 0 }
  unfolding after_count
  after_encode r granted k =
      rw (k.counted, k.next_ctx, granted) (encode-ids k.next k.same_vocab k.still_cached)

  after_counting :
      (r : Reply)
      → Counts v (length ids) r
      → after_count os alloc u true t flags r ≡ record { printed = length ids ∷ []; exit = 0 }
  unfolding after_count
  after_counting r k = rw k.counted refl

  -- For proper class tables, a vocabulary without merges of rank 0xFFFFFFFF and with proper
  -- added records, a text of bytes with served pieces between its added tokens (kept by
  -- normalisation and with pretokens of at most 64 bytes or, where every buffer is granted, any
  -- with pretokens of fewer than 2^31 bytes), a system that makes the context and grants the
  -- array of ids: the command `encode` prints the ids of the pieces in order, `count` prints
  -- their number, and both exit with 0.
  pub text_command-ids :
      (c : BpCtx)
      → bp_ctx_new os (some v) (negsuc 0) ≡ some c
      → os.grants (length ids * 4) ≡ true
      → (text_command os alloc u v false t flags ≡ record { printed = ids; exit = 0 })
        × (text_command os alloc u v true t flags ≡ record { printed = length ids ∷ []; exit = 0 })
  unfolding text_command
  text_command-ids c made granted =
      let n = bp_ctx_new-IsNew os v (negsuc 0) c made in
      let k = count-ids c n.same_vocab n.cached in
      (
        rw (made, text_command) (after_encode _ granted k),
        rw (made, text_command) (after_counting _ k),
      )
