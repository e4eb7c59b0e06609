-- ===== src/Loader/Matcher.antt =====
-- src/bp_vocab.c `bp_vocab_open`: the index that finds added tokens, and their order.
use bytepair.Base.{ℕ, ◌/◌, ◌%◌, ◌^◌, ltb, ◌==◌, if◌then◌else◌, bit_and, bit_or}
use bytepair.Base.{Bool, true, ◌&&◌, List, [], ◌∷◌, length, get_or, set, count_from}
use mathlib.Core.List.{reverse}
use bytepair.Vocab.{BpvAdded, no_added}

abbrev pub len_at : List BpvAdded → ℕ → ℕ
len_at added k = (get_or added k no_added).len

-- `while (j && added[v->added_order[j - 1]].len < added[k].len)`: the places in front, the nearest
-- first.
unfoldable pub insert_place : List BpvAdded → ℕ → List ℕ → List ℕ
insert_place added k [] = k ∷ []
insert_place added k (x ∷ front) =
    let deeper = x ∷ insert_place added k front in
    if ltb (len_at added x) (len_at added k) then deeper else k ∷ x ∷ front

unfoldable pub sort_loop : List BpvAdded → List ℕ → List ℕ → List ℕ
sort_loop added front [] = reverse front
sort_loop added front (k ∷ order) = sort_loop added (insert_place added k front) order

-- `added_order[0..added_count)` after the insertion sort.
unfoldable pub longest_first : List BpvAdded → List ℕ
longest_first added = sort_loop added [] (count_from 0 (length added))

-- `blob[a->offset]`
abbrev pub first_byte : List ℕ → BpvAdded → ℕ
first_byte blob a = get_or blob a.offset 0

-- `added_first_map[fb >> 3] |= (uint8_t)(1u << (fb & 7))`
unfoldable pub mark : List ℕ → ℕ → List ℕ
mark map fb = set map (fb / 2 ^ 3) (bit_or (get_or map (fb / 2 ^ 3) 0) (2 ^ bit_and fb 7 % 256))

unfoldable pub mark_all : List ℕ → List BpvAdded → List ℕ → List ℕ
mark_all blob [] map = map
mark_all blob (a ∷ added) map = mark_all blob added (mark map (first_byte blob a))

unfoldable pub all_start_with : List ℕ → ℕ → List BpvAdded → Bool
all_start_with blob fb [] = true
all_start_with blob fb (a ∷ added) = first_byte blob a == fb && all_start_with blob fb added
