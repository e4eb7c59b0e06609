-- ===== src/Bpe/Pretoken/Served.antt =====
-- src/bp_bpe.c: when the engine finds the buffers that a pretoken needs.
use bytepair.Base.{ℕ, ◌^◌, ◌⊎◌, ◌<◌, ◌≤◌, Bool, List, length}
use bytepair.Context.Reserve.{IsGranting}

-- A pretoken for the array path, or one for the heap path on a system that grants its buffers,
-- with positions that an `int32_t` holds.
abbrev pub IsServed : (ℕ → Bool) → List ℕ → Type 0
IsServed alloc p = (length p ≤ 64) ⊎ (IsGranting alloc × (length p < 2 ^ 31))
