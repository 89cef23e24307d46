-- ===== src/Kdf.antt =====
-- crates/filesec-core/src/kdf.rs: the Argon2id parameters that a keystore or a backup may ask for.
-- Argon2 and BLAKE3 themselves are other crates.
pub mod Policy
mod Tests
use file_sec.Prelude.{ℕ, ◌*◌, ◌^◌, ◌==◌, ltb, if◌then◌else◌}
use file_sec.Errors.{Result, ok, err, ◌>>=◌, ◌>>◌, fail_if, kdf_params}

pub record KdfParams : Type 0 where
  pub m_cost : ℕ  -- u32
  pub t_cost : ℕ  -- u32
  pub p_cost : ℕ  -- u32

pub record KdfPolicy : Type 0 where
  pub max_m_cost : ℕ
  pub max_t_cost : ℕ
  pub max_p_cost : ℕ

abbrev pub open_policy : KdfPolicy
open_policy = record { max_m_cost = 262144; max_t_cost = 10; max_p_cost = 4 }

-- `checked_mul` on u32.
abbrev checked_mul_u32 : ℕ → ℕ → Result ℕ
checked_mul_u32 a b =
    if ltb (a * b) 4294967296 then ok (a * b) else err (kdf_params "parallelism is invalid")

unfoldable pub validate : KdfPolicy → KdfParams → Result (Unit {0})
validate policy params = do
  fail_if (params.m_cost == 0) (kdf_params "memory cost must be non-zero")
  fail_if (params.t_cost == 0) (kdf_params "iteration count must be non-zero")
  fail_if (params.p_cost == 0) (kdf_params "parallelism must be non-zero")
  fail_if (ltb policy.max_m_cost params.m_cost) (kdf_params "memory cost exceeds local policy")
  fail_if (ltb policy.max_t_cost params.t_cost) (kdf_params "iteration count exceeds local policy")
  fail_if (ltb policy.max_p_cost params.p_cost) (kdf_params "parallelism exceeds local policy")
  min_memory_for_lanes ← checked_mul_u32 params.p_cost 8
  fail_if (ltb params.m_cost min_memory_for_lanes)
      (kdf_params "memory cost is too low for parallelism")
  ok tt

abbrev pub default_params : KdfParams
default_params = record { m_cost = 65536; t_cost = 3; p_cost = 1 }

unfoldable pub validate_for_open : KdfParams → Result (Unit {0})
unfolding validate
validate_for_open params = validate open_policy params
