-- ===== src/Sink.antt =====
-- src/bp_internal.h `bp_sink`, `bp_sink_put`, `bp_sink_put1`: the output sink counts every id and
-- writes what fits. `out` is the caller's block of memory; `n` is the length of the list put.
pub mod Laws
use bytepair.Base.{ℕ, ◌+◌, ◌-◌, ltb, if◌then◌else◌, List, length, set, take, write_at}

pub record Sink : Type 0 where
  pub out : List ℕ
  pub cap : ℕ
  pub total : ℕ

unfoldable pub bp_sink_put : Sink → List ℕ → Sink
unfolding write_at
bp_sink_put s ids =
    if ltb s.total s.cap
    then (let room = s.cap - s.total in
        let kept = (if ltb (length ids) room then length ids else room) in
        record s { out = write_at s.out s.total (take kept ids); total = s.total + length ids })
    else record s { total = s.total + length ids }

unfoldable pub bp_sink_put1 : Sink → ℕ → Sink
bp_sink_put1 s id = record s {
  out = if ltb s.total s.cap then set s.out s.total id else s.out;
  total = s.total + 1;
}
