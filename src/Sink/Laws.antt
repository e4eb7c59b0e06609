-- ===== src/Sink/Laws.antt =====
-- What the caller finds in its buffer after any sequence of puts.
use bytepair.Base.{ℕ, ◌+◌, ◌-◌, ◌<◌, ◌≤◌, min, ltb, Bool-cases, if◌then◌else◌}
use bytepair.Base.{ltb→lt, ltb→le, lt→ltb}
use bytepair.Base.{List, [], ◌∷◌, ◌++◌, length, take, drop, write_at, arith}
use bytepair.Base.{
  length-append, length-take, take-append_right, take-append_left, take_all, drop-drop,
}
use bytepair.Base.{length-write_at, take-write_at, drop-write_at}
use mathlib.Core.Path.{subst}
use mathlib.Core.Path.{ap₂}
use bytepair.Base.{take-append-drop, take-nil, ◌≡◌, refl, sym, ap, ◌∙◌, inl, inr}
use bytepair.Sink.{Sink, bp_sink_put, bp_sink_put1}

-- The caller's buffer as it was handed over.
pub record Buffer : Type 0 where
  pub cells : List ℕ
  pub room : ℕ

-- `ids` is all that was put.
pub record Holds (orig : Buffer) (ids : List ℕ) (s : Sink) : Type 0 where
  pub same_cap : s.cap ≡ orig.room
  pub counted : s.total ≡ length ids
  pub fits : s.cap ≤ length s.out
  pub same_size : length s.out ≡ length orig.cells
  pub written : take (min s.cap s.total) s.out ≡ take s.cap ids
  pub untouched : drop (min s.cap s.total) s.out ≡ drop (min s.cap s.total) orig.cells

-- The cells that the caller finds: the first `room` of the ids, and its own ones behind.
abbrev pub filled : Buffer → List ℕ → List ℕ
filled orig ids = take orig.room ids ++ drop (min orig.room (length ids)) orig.cells

-- An empty sink over a block that is large enough.
pub start-Holds :
    (orig : List ℕ) (cap : ℕ)
    → cap ≤ length orig
    → Holds (record { cells = orig; room = cap }) [] (record { out = orig; cap = cap; total = 0 })
start-Holds orig cap h = record {
  same_cap = refl;
  counted = refl;
  fits = h;
  same_size = refl;
  written = rw none_written (sym (take-nil cap));
  untouched = refl;
}
  where
    none_written : min cap 0 ≡ 0
    none_written = omega arith

take_kept :
    (room : ℕ) (ids : List ℕ)
    → take (if ltb (length ids) room then length ids else room) ids ≡ take room ids
take_kept room ids = elim (Bool-cases (ltb (length ids) room)) [
  | inl e ↦
      rw e (take_all _ ids (omega arith) ∙ sym (take_all room ids (omega (arith, ltb→lt _ _ e))))
  | inr e ↦ rw e
]

module _ {orig : Buffer} {xs : List ℕ} {s : Sink} (h : Holds orig xs s) (ids : List ℕ) where
  open h use {same_cap, counted, fits, same_size, written, untouched}

  abbrev kept : List ℕ
  kept = take (s.cap - s.total) ids

  abbrev after : Sink
  after = record s { out = write_at s.out s.total kept; total = s.total + length ids }

  put_inside : s.total < s.cap → bp_sink_put s ids ≡ after
  unfolding bp_sink_put
  put_inside lt = rw (lt→ltb _ _ lt, take_kept (s.cap - s.total) ids)

  covered : s.total ≤ s.cap → s.total + length kept ≡ min s.cap (s.total + length ids)
  covered le = omega (arith, length-take (s.cap - s.total) ids)

  within : s.total ≤ s.cap → s.total + length kept ≤ length s.out
  within le = omega (arith, length-take (s.cap - s.total) ids)

  before : s.total ≤ s.cap → take s.total s.out ≡ xs
  before le = rw short at written ∙ take_all s.cap xs (omega arith)
    where
      short : min s.cap s.total ≡ s.total
      short = omega arith

  after_written :
      s.total ≤ s.cap → take (min s.cap (s.total + length ids)) after.out ≡ take s.cap (xs ++ ids)
  after_written le = rw (← covered le) (
      take-write_at s.out s.total kept (within le)
      ∙ rw (before le) (sym (take-append_right s.cap xs ids (omega arith) ∙ rw (← counted))))

  after_untouched :
      s.total ≤ s.cap
      → drop (min s.cap (s.total + length ids)) after.out
        ≡ drop (min s.cap (s.total + length ids)) orig.cells
  after_untouched le = rw (← covered le) (
      drop-write_at s.out s.total kept (within le)
      ∙ sym (drop-drop (length kept) s.total s.out)
      ∙ ap (drop (length kept)) (rw short at untouched)
      ∙ drop-drop (length kept) s.total orig.cells)
    where
      short : min s.cap s.total ≡ s.total
      short = omega arith

  after-Holds : s.total ≤ s.cap → Holds orig (xs ++ ids) after
  after-Holds le = record {
    same_cap = same_cap;
    counted = omega (arith, length-append xs ids);
    fits = omega (arith, length-write_at s.out s.total kept);
    same_size = length-write_at s.out s.total kept ∙ same_size;
    written = after_written le;
    untouched = after_untouched le;
  }

  full-Holds : s.cap ≤ s.total → Holds orig (xs ++ ids) (record s { total = s.total + length ids })
  full-Holds le = record {
    same_cap = same_cap;
    counted = omega (arith, length-append xs ids);
    fits = fits;
    same_size = same_size;
    written = rw later (rw now at written ∙ sym (take-append_left s.cap xs ids (omega arith)));
    untouched = rw later (rw now at untouched);
  }
    where
      now : min s.cap s.total ≡ s.cap
      now = omega arith

      later : min s.cap (s.total + length ids) ≡ s.cap
      later = omega arith

  -- A put appends to what the sink holds: every id is counted, and the block keeps the first
  -- `cap` of all of them, with the cells behind untouched.
  pub bp_sink_put-Holds : Holds orig (xs ++ ids) (bp_sink_put s ids)
  unfolding bp_sink_put
  bp_sink_put-Holds = elim (Bool-cases (ltb s.total s.cap)) [
    | inl e ↦
        let lt = ltb→lt _ _ e in
        subst (Holds orig (xs ++ ids)) (sym (put_inside lt)) (after-Holds (omega arith))
    | inr e ↦ rw e (full-Holds (ltb→le _ _ e))
  ]

-- The block is the first `room` ids, and the caller's own cells behind them.
pub Holds-filled :
    {orig : Buffer} {ids : List ℕ} {s : Sink} → Holds orig ids s → s.out ≡ filled orig ids
Holds-filled {orig} {ids} {s} h =
    sym (take-append-drop (min s.cap s.total) s.out)
    ∙ ap₂ (λ xs ys. xs ++ ys) h.written h.untouched
    ∙ rw (h.same_cap, h.counted)

-- Putting one id is putting the list of it.
pub bp_sink_put1-put : (s : Sink) (id : ℕ) → bp_sink_put1 s id ≡ bp_sink_put s (id ∷ [])
unfolding bp_sink_put1 bp_sink_put write_at
bp_sink_put1-put s id = elim (Bool-cases (ltb s.total s.cap)) [
  | inl e ↦ rw (
    e,
    take_kept (s.cap - s.total) (id ∷ []),
    take_all (s.cap - s.total) (id ∷ []) (omega (arith, ltb→lt _ _ e)),
  )
  | inr e ↦ rw e
]
