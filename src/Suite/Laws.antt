-- ===== src/Suite/Laws.antt =====
-- The wire numbers of the suites (suite.rs).
use file_sec.Prelude.{ℕ, ◌≡◌, ◌↔◌, arith}
use file_sec.Errors.{Error, ok, err, unsupported_suite}
use file_sec.Suite.{SuiteId, classic, aes256, hybrid, to_u16, from_u16}

-- A number parses as a suite exactly when it is the wire number of that suite: parsing and printing
-- are inverse to one another, and no number names two suites.
pub from_u16_iff : (value : ℕ) (s : SuiteId) → (from_u16 value ≡ ok s) ↔ (value ≡ to_u16 s)
unfolding from_u16 to_u16
from_u16_iff value classic = ground arith
from_u16_iff value aes256 = ground arith
from_u16_iff value hybrid = ground arith

-- A number that no suite has is refused, with the number in the error.
pub from_u16-unsupported :
    (value : ℕ) (e : Error) → from_u16 value ≡ err e → e ≡ unsupported_suite value
unfolding from_u16
from_u16-unsupported value e h = ground arith
