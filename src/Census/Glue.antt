-- ===== src/Census/Glue.antt =====
-- src/bp_census.c `try_glue`: affixes that complete the first and the last character of a token. A
-- `goto next_k` and a `continue` leave out attempts.
use bytepair.Base.{ℕ, zero, suc, ◌+◌, ◌-◌, ltb, leb, ◌==◌, if◌then◌else◌, min, count_from}
use bytepair.Base.{Bool, ◌&&◌, ◌||◌, not, List, [], ◌∷◌, ◌++◌, length, get_or, take, drop}
use bytepair.Context.{BpCtx}
use bytepair.Tables.{UcTables}
use bytepair.Census.{wmax}
use bytepair.Census.Units.{utf8_len_from_lead, all_cont}
use bytepair.Census.Search.{Affixes, Found, try_all}

abbrev pub pads : List ℕ
pads = 0x80 ∷ 0x90 ∷ 0xA0 ∷ 0xB1 ∷ 0x8F ∷ 0x9F ∷ []

abbrev pub leads : List ℕ
leads = 0xC2 ∷ 0xC3 ∷ 0xD0 ∷ 0xE0 ∷ 0xE1 ∷ 0xE4 ∷ 0xEA ∷ 0xED ∷ 0xF0 ∷ 0xF1 ∷ 0xF3 ∷ 0xF4 ∷ []

abbrev pub inner_pads : List ℕ
inner_pads = 0x80 ∷ 0x90 ∷ 0xA0 ∷ 0xB1 ∷ []

abbrev pub inner_leads : List ℕ
inner_leads = 0xE0 ∷ 0xE1 ∷ 0xE4 ∷ 0xED ∷ 0xF0 ∷ 0xF1 ∷ 0xF3 ∷ 0xF4 ∷ []

unfoldable pub repeated : ℕ → ℕ → List ℕ
repeated zero b = []
repeated (suc n) b = b ∷ repeated n b

-- A loop whose body makes a list of attempts.
unfoldable pub for_each : (ℕ → List Affixes) → List ℕ → List Affixes
for_each body [] = []
for_each body (x ∷ xs) = body x ++ for_each body xs

-- What is left behind the complete characters.
unfoldable pub tail_from : ℕ → List ℕ → List ℕ
tail_from zero p = p
tail_from (suc fuel) p =
    let need = utf8_len_from_lead (get_or p 0 0) in
    let rest = tail_from fuel (drop need p) in
    if length p == 0 || need == 0 || ltb (length p) need then p else rest

-- The lead byte and what fills up to the `k` bytes; not where the lead is too short.
unfoldable pub glue_pre : ℕ → ℕ → ℕ → List ℕ
glue_pre zero lead pad = []
glue_pre (suc k) lead pad = lead ∷ repeated (utf8_len_from_lead lead - 1 - suc k) pad

unfoldable pub glue_at : ℕ → ℕ → ℕ → ℕ → ℕ → ℕ → List Affixes
glue_at k tn tail_pad lead p1 p2 =
    let pre = glue_pre k lead p1 in
    let suf = repeated tail_pad p2 in
    if not (k == 0) && ltb (utf8_len_from_lead lead) (k + 1)
    then []
    else if ltb wmax (length pre + tn + length suf) || length pre + length suf == 0
    then []
    else record { pre = pre; suf = suf } ∷ []

-- The three loops, each of one round where its byte is not used.
unfoldable pub glue_loops : ℕ → ℕ → ℕ → List Affixes
glue_loops k tn tail_pad =
    for_each
      (λ lead.
        for_each
          (λ p1. for_each (glue_at k tn tail_pad lead p1) (if tail_pad == 0 then 0 ∷ [] else pads))
          (if k == 0 then 0 ∷ [] else pads))
      (if k == 0 then 0 ∷ [] else leads)

-- From `tail_need` on: `tail` is the last character, cut off.
unfoldable pub glue_tail : ℕ → List ℕ → List ℕ → List Affixes
glue_tail k tb tail =
    let need = utf8_len_from_lead (get_or tail 0 0) in
    let pad = need - 1 - (length tail - 1) in
    if length tail == 0
    then glue_loops k (length tb) 0
    else if need == 0 && k == length tb
    then glue_loops k (length tb) 0
    else if need == 0 || not (all_cont (drop 1 tail))
    then []
    else if ltb 3 pad
    then []
    else glue_loops k (length tb) pad

-- A round of `for (k = 0; k <= 3 && k <= tn; k++)`
unfoldable pub glue_round : List ℕ → ℕ → List Affixes
glue_round tb k =
    if not (all_cont (take k tb)) then [] else glue_tail k tb (tail_from (length tb) (drop k tb))

-- The token inside one character.
unfoldable pub inner_at : ℕ → ℕ → ℕ → ℕ → List Affixes
inner_at tn lead off pad =
    let m = utf8_len_from_lead lead in
    if ltb m (off + tn)
    then []
    else record { pre = lead ∷ repeated (off - 1) pad; suf = repeated (m - (off + tn)) pad } ∷ []

unfoldable pub inner_loops : ℕ → List Affixes
inner_loops tn =
    for_each
      (λ lead. for_each (λ off. for_each (inner_at tn lead off) inner_pads) (count_from 1 (4 - tn)))
      inner_leads

unfoldable pub glue_affixes : List ℕ → List Affixes
glue_affixes tb =
    for_each (glue_round tb) (count_from 0 (min 4 (length tb + 1)))
    ++ (if leb (length tb) 2 && all_cont tb && ltb 0 (length tb)
        then inner_loops (length tb)
        else [])

unfoldable pub try_glue : (ℕ → Bool) → UcTables → ℕ → List ℕ → BpCtx → Found
try_glue alloc u t tb c = try_all alloc u t tb (glue_affixes tb) c
