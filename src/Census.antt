-- ===== src/Census.antt =====
-- src/bp_census.c: which tokens some input can make the encoder emit.
pub mod Units
pub mod Prover
pub mod Search
pub mod Glue
pub mod Fragment
pub mod Token
pub mod Report
pub mod Witness
pub mod Laws
pub mod Valid
pub mod Emission
pub mod Absence
pub mod Refusal
use bytepair.Base.{ℕ}

-- `CV_ADDED` and the others
pub data Verdict : Type 0 where
  added self context impossible unresolved : Verdict

-- `CR_NONE` and the others
pub data Reason : Type 0 where
  no_reason merge_order invalid_utf8 pretoken_shape contraction nfc_excluded : Reason

-- `WMAX`, and the length of the arrays of ids
abbrev pub wmax : ℕ
wmax = 320

abbrev pub ids_max : ℕ
ids_max = 328
