-- ===== src/Keystore.antt =====
-- crates/filesec-core/src/keystore.rs: the secret bundle of an identity, and the keyslots that wrap the
-- key it is sealed under; with the parts of an identity in crates/filesec-core/src/identity.rs. Argon2,
-- BLAKE3, the public keys of secrets, signatures, the ciphers and CBOR are parameters; what the random
-- generator gives is an argument. Strings are held as their UTF-8 bytes.
pub mod Slots
pub mod File
pub mod Ops
pub mod Chain
pub mod Unlocking
pub mod Enrolling
pub mod Framing
pub mod Backup
pub mod Toy
mod Tests
use file_sec.Prelude.{
  ℕ, ℤ, pos, negsuc, ◌-◌, Bool, true, false, not, ◌&&◌, Option, none, some, List, [], ◌++◌, length,
  ◌==◌, le_bytes, text, text_eq, Text,
}
use file_sec.Errors.{Result, ok, err, ◌>>=◌, ◌>>◌, fail_if, bad_key, format, kdf}
use file_sec.State.{Bytes, lp}
use file_sec.Kdf.{KdfParams, validate_for_open}
use file_sec.Codec.{Cbor, to_vec, from_slice}
use file_sec.Contacts.{PublicIdentity}
use file_sec.Aead.{Ciphers, aead_seal, aead_open}

-- The public key and the seed of a post-quantum pair.
abbrev pub PqcPair : Type 0
PqcPair = Option (Bytes × Bytes)

pub record Identity : Type 0 where
  pub name : Text
  pub created_at : ℤ  -- i64
  pub sign_secret : Bytes  -- 32 bytes
  pub kem_secret : Bytes  -- 32 bytes
  pub mldsa : PqcPair
  pub mlkem : PqcPair

pub record SecretBundle : Type 0 where
  pub name : Text
  pub created_at : ℤ  -- i64
  pub sign_secret : Bytes  -- 32 bytes
  pub kem_secret : Bytes  -- 32 bytes
  pub mldsa_seed : Option Bytes
  pub mldsa_public : Option Bytes
  pub mlkem_seed : Option Bytes
  pub mlkem_public : Option Bytes

pub record PassphraseSlot : Type 0 where
  pub kdf : KdfParams
  pub salt : Bytes
  pub nonce : Bytes
  pub wrapped_dek : Bytes

pub record PasskeySlot : Type 0 where
  pub credential_id : Bytes
  pub rp_id : Bytes
  pub hmac_salt : Bytes
  pub label : Bytes
  pub added_at : ℤ  -- i64
  pub metadata_bound : Bool
  pub nonce : Bytes
  pub wrapped_dek : Bytes

pub record DeviceSlot : Type 0 where
  pub nonce : Bytes
  pub wrapped_dek : Bytes

pub record KeystoreV1 : Type 0 where
  pub version : ℕ  -- u16
  pub kdf : KdfParams
  pub salt : Bytes
  pub nonce : Bytes
  pub ciphertext : Bytes

pub record KeystoreV2 : Type 0 where
  pub version : ℕ  -- u16
  pub bundle_nonce : Bytes
  pub bundle_ct : Bytes
  pub passphrase : PassphraseSlot
  pub passkeys : List PasskeySlot
  pub device : Option DeviceSlot

pub record PasskeyEnrollment : Type 0 where
  pub credential_id : Bytes
  pub rp_id : Bytes
  pub hmac_salt : Bytes
  pub label : Bytes
  pub added_at : ℤ  -- i64
  pub hmac_output : Bytes

-- What the code calls of other packages and of the post-quantum modules.
pub record Kit : Type 1 where
  pub hash : Bytes → Bytes
  pub derive_key : Bytes → Bytes → Bytes  -- context, key material
  pub argon2 : Bytes → Bytes → KdfParams → Option Bytes  -- passphrase, salt
  pub ed25519_public : Bytes → Bytes
  pub x25519_public : Bytes → Bytes
  pub ed25519_is_key : Bytes → Bool
  pub ed25519_sign : Bytes → Bytes → Bytes  -- secret, message
  pub ed25519_verify : Bytes → Bytes → Bytes → Bool  -- public key, message, signature
  pub mldsa_public_from_seed : Bytes → Result Bytes
  pub mlkem_public_from_seed : Bytes → Result Bytes
  pub ciphers : Ciphers
  pub bundle_cbor : Cbor SecretBundle
  pub v1_cbor : Cbor KeystoreV1
  pub v2_cbor : Cbor KeystoreV2

abbrev pub sym_key_len : ℕ
sym_key_len = 32

abbrev pub wrap_aad_v2 : Bytes
wrap_aad_v2 = text "FileSec keystore v2 dek-wrap"

abbrev pub public_of : PqcPair → Option Bytes
public_of none = none
public_of (some (public, seed)) = some public

abbrev pub seed_of : PqcPair → Option Bytes
seed_of none = none
seed_of (some (public, seed)) = some seed

unfoldable pub build_bundle : Identity → SecretBundle
build_bundle i = record {
  name = i.name;
  created_at = i.created_at;
  sign_secret = i.sign_secret;
  kem_secret = i.kem_secret;
  mldsa_seed = seed_of i.mldsa;
  mldsa_public = public_of i.mldsa;
  mlkem_seed = seed_of i.mlkem;
  mlkem_public = public_of i.mlkem;
}

abbrev pub pair : Option Bytes → Option Bytes → Result PqcPair
pair (some public) (some seed) = ok (some (public, seed))
pair none none = ok none
pair _ _ = err (format "incomplete post-quantum key pair in identity")

abbrev pub is_present : PqcPair → Bool
is_present none = false
is_present (some p) = true

abbrev pub same_presence : Bool → Bool → Bool
same_presence true b = b
same_presence false b = not b

-- The public key must be the one that its seed derives.
abbrev pub derives : (Bytes → Result Bytes) → PqcPair → Result (Unit {0})
derives public_from_seed none = ok tt
derives public_from_seed (some (public, seed)) = public_from_seed seed >>= (λ derived.
    fail_if (not (length derived == length public && text_eq derived public))
      (format "post-quantum public key does not match its secret seed"))

-- `to_le_bytes` on i64.
abbrev pub i64_bytes : ℤ → Bytes
i64_bytes (pos n) = le_bytes 8 n
i64_bytes (negsuc n) = le_bytes 8 (18446744073709551615 - n)

-- The label and the time of a slot, if the wrap binds them.
abbrev pub metadata_fields : Bool → Bytes → ℤ → Bytes
metadata_fields true label added_at = lp label ++ lp (i64_bytes added_at)
metadata_fields false label added_at = []

module _ (k : Kit) where
  unfoldable pub public : Identity → PublicIdentity
  public i = record {
    name = i.name;
    created_at = i.created_at;
    sign_public = k.ed25519_public i.sign_secret;
    kem_public = k.x25519_public i.kem_secret;
    mldsa_public = public_of i.mldsa;
    mlkem_public = public_of i.mlkem;
  }

  unfoldable pub check_pqc_pairs : SecretBundle → Result (PqcPair × PqcPair)
  check_pqc_pairs bundle = do
    mldsa ← pair bundle.mldsa_public bundle.mldsa_seed
    mlkem ← pair bundle.mlkem_public bundle.mlkem_seed
    fail_if (not (same_presence (is_present mldsa) (is_present mlkem)))
        (format "identity carries only one of the two post-quantum keys")
    derives k.mldsa_public_from_seed mldsa
    derives k.mlkem_public_from_seed mlkem
    ok (mldsa, mlkem)

  unfoldable pub bundle_into_identity : SecretBundle → Result Identity
  unfolding check_pqc_pairs
  bundle_into_identity bundle = do
    (mldsa, mlkem) ← check_pqc_pairs bundle
    ok (record {
      name = bundle.name;
      created_at = bundle.created_at;
      sign_secret = bundle.sign_secret;
      kem_secret = bundle.kem_secret;
      mldsa = mldsa;
      mlkem = mlkem;
    })

  -- `kdf::derive_master_key`
  unfoldable pub derive_master_key : Bytes → Bytes → KdfParams → Result Bytes
  derive_master_key passphrase salt params = do
    validate_for_open params
    elim (k.argon2 passphrase salt params) [ none ↦ err kdf | some key ↦ ok key ]

  unfoldable pub passphrase_wrap_aad : Bytes → KdfParams → Bytes
  passphrase_wrap_aad salt params =
      wrap_aad_v2
      ++ k.hash (
          lp (text "passphrase")
          ++ (lp salt
              ++ (lp (le_bytes 4 params.m_cost)
                  ++ (lp (le_bytes 4 params.t_cost) ++ lp (le_bytes 4 params.p_cost)))))

  unfoldable pub passkey_wrap_aad : Bytes → Bytes → Bytes → Bytes → Bytes
  passkey_wrap_aad credential_id rp_id hmac_salt metadata =
      wrap_aad_v2
      ++ k.hash
          (lp (text "passkey") ++ (lp credential_id ++ (lp rp_id ++ (lp hmac_salt ++ metadata))))

  unfoldable pub device_wrap_aad : Bytes
  device_wrap_aad = wrap_aad_v2 ++ k.hash (lp (text "device"))

  -- The nonce is drawn first.
  unfoldable pub wrap_dek : Bytes → Bytes → Bytes → Result Bytes → Result (Bytes × Bytes)
  wrap_dek kek dek aad drawn = do
    nonce ← drawn
    ciphertext ← aead_seal k.ciphers kek nonce aad dek
    ok (nonce, ciphertext)

  unfoldable pub unwrap_dek : Bytes → Bytes → Bytes → Bytes → Result Bytes
  unwrap_dek kek nonce ciphertext aad = do
    pt ← aead_open k.ciphers kek nonce aad ciphertext
    fail_if (not (length pt == sym_key_len)) (bad_key "wrapped DEK length")
    ok pt

  unfoldable pub encrypt_bundle : Bytes → Identity → Result Bytes → Result (Bytes × Bytes)
  unfolding build_bundle
  encrypt_bundle dek identity drawn = do
    plaintext ← to_vec k.bundle_cbor (build_bundle identity)
    nonce ← drawn
    ciphertext ← aead_seal k.ciphers dek nonce (text "FileSec keystore v2 bundle") plaintext
    ok (nonce, ciphertext)

  unfoldable pub decrypt_bundle : Bytes → Bytes → Bytes → Result Identity
  unfolding bundle_into_identity
  decrypt_bundle dek nonce ciphertext = do
    plaintext ← aead_open k.ciphers dek nonce (text "FileSec keystore v2 bundle") ciphertext
    bundle ← from_slice k.bundle_cbor plaintext
    bundle_into_identity bundle
