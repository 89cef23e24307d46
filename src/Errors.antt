-- ===== src/Errors.antt =====
-- crates/filesec-core/src/error.rs: the errors, and results that may be one of them.
use file_sec.Prelude.{◌≡◌, refl, ◌⊎◌, inl, inr, Bool, true, false, ℕ, String, Text}

pub data Error : Type 0 where
  rng : Error
  auth : Error
  bad_passphrase : Error
  format : String → Error
  unsupported_suite : ℕ → Error
  bad_signature : Error
  not_a_recipient : Error
  bad_key : String → Error
  serialization : Error
  kdf : Error
  kdf_params : String → Error
  rollback_detected : Text → Error
  state_mismatch : Text → Error
  legacy_state : String → Error
  unsafe_path : String → Error
  extraction_conflict : Text → Error
  io : String → Error
  vault : Text → Error
  missing_pqc_key : String → Error
  peer_identity_mismatch : Error
  transfer_secret_mismatch : Error
  handshake_protocol : String → Error

pub data Result {ℓ} (A : Type ℓ) : Type ℓ where
  ok : A → Result A
  err : Error → Result A

-- The `?` operator, in the form of a `do` block: an error ends the function.
infixl 5 ◌>>=◌ ◌>>◌
abbrev pub ◌>>=◌ {ℓ κ} : {A : Type ℓ} {B : Type κ} → Result A → (A → Result B) → Result B
◌>>=◌ (err failure) next = err failure
◌>>=◌ (ok value) next = next value

abbrev pub ◌>>◌ {ℓ} : {B : Type ℓ} → Result (Unit {0}) → Result B → Result B
◌>>◌ first second = first >>= (λ done. second)

-- `if b { return Err(e) }`
abbrev pub fail_if : Bool → Error → Result (Unit {0})
fail_if stop failure = elim stop [ true ↦ err failure | false ↦ ok tt ]

pub Result-cases {ℓ} :
    {A : Type ℓ} (r : Result A) → ((a : A) × (r ≡ ok a)) ⊎ ((e : Error) × (r ≡ err e))
Result-cases (err e) = inr (e, refl)
Result-cases (ok a) = inl (a, refl)

-- What a chain of results that succeeds went through.
pub not_ok_lem {ℓ} : {A : Type ℓ} {e : Error} {a : A} → err e ≡ ok a → ⊥
not_ok_lem h = cc

pub ok_injective {ℓ} : {A : Type ℓ} {a b : A} → ok a ≡ ok b → a ≡ b
ok_injective h = cc
