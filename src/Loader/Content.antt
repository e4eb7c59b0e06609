-- ===== src/Loader/Content.antt =====
-- src/bp_vocab.c `bp_vocab_open`: the checks on what the sections hold.
use bytepair.Base.{ℕ, zero, suc, ◌+◌, ◌-◌, ◌*◌, ◌/◌, ◌%◌, ◌^◌, ltb, leb, ◌==◌, if◌then◌else◌}
use bytepair.Base.{Bool, true, false, ◌&&◌, ◌||◌, not, Option, none, some}
use bytepair.Base.{List, [], ◌∷◌, get_or, take, drop}
use bytepair.Context.{le_word}
use bytepair.Vocab.{BpvHeader, BpvAdded, pair_empty}
use bytepair.Loader.{word32, slots_of}

-- `n` words of `width` bytes each.
unfoldable pub words : ℕ → ℕ → List ℕ → List ℕ
words width zero p = []
words width (suc n) p = le_word (take width p) ∷ words width n (drop width p)

unfoldable pub added_records : ℕ → List ℕ → List BpvAdded
added_records zero p = []
added_records (suc n) p =
    record { id = word32 p 0; offset = word32 p 4; len = word32 p 8; flags = word32 p 12 }
    ∷ added_records n (drop 16 p)

-- `if (tok_off[i] > tok_off[i + 1]) goto fail`
unfoldable pub ascending : List ℕ → Bool
ascending [] = true
ascending (x ∷ []) = true
ascending (x ∷ y ∷ xs) = leb x y && ascending (y ∷ xs)

unfoldable pub offsets_ok : BpvHeader → List ℕ → Bool
offsets_ok h tok_off = ascending tok_off && leb (get_or tok_off h.vocab_count 0) h.token_blob.size

-- The loop over the slots: how many are occupied, `none` if one is out of range.
unfoldable pub count_slots : ℕ → List ℕ → ℕ → Option ℕ
count_slots vocab_count [] occupied = some occupied
count_slots vocab_count (key ∷ []) occupied = some occupied
count_slots vocab_count (key ∷ val ∷ pairs) occupied =
    let skip = count_slots vocab_count pairs occupied in
    let next = count_slots vocab_count pairs (occupied + 1) in
    if key == pair_empty
    then skip
    else if leb vocab_count (key / 2 ^ 32 % 2 ^ 32)
        || (leb vocab_count (key % 2 ^ 32) || leb vocab_count (val % 2 ^ 32))
    then none
    else next

-- `occupied > slots * 13 / 20` fails.
unfoldable pub load_ok : ℕ → Option ℕ → Bool
load_ok slots none = false
load_ok slots (some occupied) = not (ltb (slots * 13 / 20) occupied)

unfoldable pub table_ok : BpvHeader → List ℕ → Bool
table_ok h pairs = load_ok (slots_of h) (count_slots h.vocab_count pairs 0)

-- `tok_off[id + 1] - tok_off[id]`, in 32 bits.
unfoldable pub width_of : List ℕ → ℕ → ℕ
width_of tok_off id = (get_or tok_off (id + 1) 0 + 2 ^ 32 - get_or tok_off id 0) % 2 ^ 32

-- The ids of the bytes from `i` on.
unfoldable pub bytes_ok : BpvHeader → List ℕ → List ℕ → ℕ → List ℕ → Bool
bytes_ok h tok_off blob i [] = true
bytes_ok h tok_off blob i (id ∷ ids) =
    ltb id h.vocab_count
    && (width_of tok_off id == 1
        && (get_or blob (get_or tok_off id 0) 0 == i && bytes_ok h tok_off blob (suc i) ids))

-- The added records; `before` is the id of the record in front.
unfoldable pub added_ok : BpvHeader → List ℕ → Option ℕ → List BpvAdded → Bool
added_ok h tok_off before [] = true
added_ok h tok_off before (a ∷ added) =
    ltb a.id h.vocab_count
    && (not (a.len == 0 || ltb 250 a.len)
        && (a.offset == get_or tok_off a.id 0
            && (a.len == width_of tok_off a.id
                && ((elim before [ none ↦ true | some id ↦ ltb id a.id ])
                    && added_ok h tok_off (some a.id) added))))
