-- ===== src/Examples/Codec.antt =====
-- Runs of the UTF-8 codec, of the normaliser and of the buffers' growth, and the properties at them.
use bytepair.Base.{ℕ, ◌≤◌, Bool, true, some, List, [], ◌∷◌, ◌++◌, length, arith, ◌≡◌, ◌≢◌}
use bytepair.Base.{refl, inl}
use bytepair.Utf8.{bp_utf8_next, encode_cp, malformed, lead_of_three, is_cont, code_point_of_three}
use bytepair.Utf8.Decode.{next-encode_cp, next-Accepts, Accepts}
use bytepair.Context.{bp_buf_reserve, bp_ids_reserve, grow}
use bytepair.Context.Reserve.{bp_buf_reserve_enough}
use bytepair.Nfc.Order.{IsOrdered, Reorders, canonical_order-IsOrdered}
use bytepair.Nfc.{Cpe, canonical_order, is_hangul_s, starter_at, canonical_compose, decompose_one}
use bytepair.Nfc.Hangul.{compose-decompose_hangul}
use bytepair.Samples.Classes.{sample_tables}

abbrev plenty : ℕ → Bool
plenty n = true

-- The euro sign.
next-encode_cp_example :
    bp_utf8_next (encode_cp 0x20AC ++ (65 ∷ []))
    ≡ record { cp = 0x20AC; adv = length (encode_cp 0x20AC) }
next-encode_cp_example = next-encode_cp 0x20AC (65 ∷ []) (omega arith, inl (omega arith))

abbrev euro : List ℕ
euro = 226 ∷ 130 ∷ 172 ∷ []

abbrev cut : List ℕ
cut = 226 ∷ 130 ∷ []

euro-cp : (bp_utf8_next euro).cp ≡ 0x20AC
unfolding bp_utf8_next lead_of_three is_cont code_point_of_three
euro-cp = refl

euro-read : (bp_utf8_next euro).cp ≢ malformed
euro-read e = absurd (omega (arith, euro-cp))

next-Accepts_example : Accepts euro (bp_utf8_next euro)
next-Accepts_example =
    next-Accepts euro (omega arith, (omega arith, (omega arith, tt))) (omega arith) euro-read

buf_grows : bp_buf_reserve plenty 0 5000 ≡ some 8192
unfolding bp_buf_reserve grow
buf_grows = refl

bp_buf_reserve_enough_example : 5000 ≤ 8192
bp_buf_reserve_enough_example = bp_buf_reserve_enough plenty 0 5000 (omega arith) buf_grows

ids_grow : bp_ids_reserve plenty 0 1500 ≡ some 2048
unfolding bp_ids_reserve grow
ids_grow = refl

gag-IsHangul : is_hangul_s 0xAC01 ≡ true
unfolding is_hangul_s
gag-IsHangul = refl

compose-decompose_hangul_example :
    canonical_compose sample_tables (decompose_one sample_tables 0xAC01) ≡ starter_at 0xAC01 ∷ []
compose-decompose_hangul_example = compose-decompose_hangul sample_tables 0xAC01 gag-IsHangul

-- A letter, a dot above and a cedilla.
abbrev marks : List Cpe
marks =
    record { cp = 0x61; ccc = 0 }
    ∷ record { cp = 0x307; ccc = 230 }
    ∷ record { cp = 0x327; ccc = 202 }
    ∷ []

canonical_order-IsOrdered_example :
    IsOrdered (canonical_order marks) × Reorders marks (canonical_order marks)
canonical_order-IsOrdered_example = canonical_order-IsOrdered marks
