-- ===== src/Kdf/Policy.antt =====
-- What the open policy admits (kdf.rs).
use file_sec.Prelude.{◌*◌, ◌≤◌, ◌<◌, ◌≡◌, ◌↔◌, arith}
use file_sec.Errors.{ok}
use file_sec.Kdf.{KdfParams, KdfPolicy, validate, validate_for_open}

-- The parameters that a policy is meant to admit: none is zero, none is above its bound, and there
-- are eight KiB of memory for each lane, as Argon2 wants.
pub record IsAdmissible (policy : KdfPolicy) (params : KdfParams) : Type 0 where
  pub m_pos : 0 < params.m_cost
  pub t_pos : 0 < params.t_cost
  pub p_pos : 0 < params.p_cost
  pub m_bound : params.m_cost ≤ policy.max_m_cost
  pub t_bound : params.t_cost ≤ policy.max_t_cost
  pub p_bound : params.p_cost ≤ policy.max_p_cost
  pub lanes : params.p_cost * 8 ≤ params.m_cost

-- For a policy whose memory bound is a u32, the check admits exactly the admissible parameters.
pub validate-IsAdmissible :
    (policy : KdfPolicy) (params : KdfParams)
    → policy.max_m_cost < 4294967296
    → (validate policy params ≡ ok tt) ↔ IsAdmissible policy params
unfolding validate
validate-IsAdmissible policy params h = (λ e. ground arith, λ a. ground arith)

-- Parameters that pass the open policy ask for at most 256 MiB, ten passes and four lanes.
pub validate_for_open_bounds :
    (params : KdfParams)
    → validate_for_open params ≡ ok tt
    → (params.m_cost ≤ 262144) × (params.t_cost ≤ 10) × (params.p_cost ≤ 4)
unfolding validate_for_open
validate_for_open_bounds params h = ground arith
