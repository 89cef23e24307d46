-- ===== src/Kdf/Tests.antt =====
-- A test of the open policy of crates/filesec-core/src/kdf.rs.
use file_sec.Prelude.{◌≡◌, refl}
use file_sec.Errors.{ok}
use file_sec.Kdf.{default_params, validate_for_open}

default_params-valid : validate_for_open default_params ≡ ok tt
unfolding validate_for_open
default_params-valid = refl
