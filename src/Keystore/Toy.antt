-- ===== src/Keystore/Toy.antt =====
-- An identity and the functions of other packages that compute, for the tests of
-- crates/filesec-core/src/keystore.rs.
use file_sec.Prelude.{
  ◌+◌, ◌%◌, pos, true, none, some, [], ◌∷◌, ◌++◌, length, replicate, from_be_bytes, text, text_eq,
}
use file_sec.Errors.{ok}
use file_sec.State.{Bytes}
use file_sec.Aead.Toy.{toy_decrypt, toy_ciphers}
use file_sec.Keystore.{Kit, Identity, build_bundle}

abbrev pub owner : Identity
owner = record {
  name = text "Ada";
  created_at = pos 5;
  sign_secret = 7 ∷ [];
  kem_secret = 8 ∷ [];
  mldsa = some (0 ∷ 9 ∷ [], 9 ∷ []);
  mlkem = some (1 ∷ 9 ∷ [], 9 ∷ []);
}

abbrev pub signature_of : Bytes → Bytes → Bytes
signature_of key m = replicate 64 ((from_be_bytes 0 key + length m) % 251)

abbrev pub kit : Kit
kit = record {
  hash = (λ m. (length m % 251) ∷ []);
  derive_key = (λ context m. context ++ m);
  argon2 = (λ passphrase salt params. some (replicate 32 (length passphrase % 251)));
  ed25519_public = (λ secret. secret);
  x25519_public = (λ secret. secret);
  ed25519_is_key = (λ key. true);
  ed25519_sign = signature_of;
  ed25519_verify = (λ key m signature. text_eq signature (signature_of key m));
  mldsa_public_from_seed = (λ seed. ok (0 ∷ seed));
  mlkem_public_from_seed = (λ seed. ok (1 ∷ seed));
  ciphers = toy_ciphers toy_decrypt;
  bundle_cbor = record {
    into_writer = (λ bundle. some bundle.name);
    from_reader = (λ bytes. some (build_bundle owner, []));
  };
  v1_cbor = record { into_writer = (λ old. none); from_reader = (λ bytes. none) };
  v2_cbor = record { into_writer = (λ body. some body.bundle_ct); from_reader = (λ bytes. none) };
}

abbrev pub passphrase : Bytes
passphrase = text "correct horse"
