-- ===== src/Transport/Channel.antt =====
-- crates/filesec-core/src/transport.rs: what both sides of the channel rely on.
use file_sec.Prelude.{
  ℕ, ◌≡◌, ◌≤◌, refl, true, length, ==_refl, ==_iff, length-be_bytes, text_eq_refl, arith,
}
use file_sec.Errors.{ok}
use file_sec.State.{Bytes}
use file_sec.Suite.{xchacha20_poly1305, nonce_len}
use file_sec.Blobs.{max_chunk_size}
use file_sec.Aead.{aead_seal, aead_open, seal_with, open_with}
use file_sec.Aead.Laws.{IsAead}
use file_sec.Transport.{Crypto, signature_len, record_nonce, Session}
use file_sec.Transport.Handshake.{Identity, ct_eq}

-- The signatures of the long-term key verify, and have the length of a signature.
pub record IsIdentity (c : Crypto) (identity : Identity) : Type 0 where
  pub is_key : c.ed25519_is_key identity.public.sign_public ≡ true
  pub verifies :
      (m : Bytes)
      → c.ed25519_verify identity.public.sign_public m (c.ed25519_sign identity.sign_secret m)
        ≡ true
  pub signature : (m : Bytes) → length (c.ed25519_sign identity.sign_secret m) ≡ signature_len

-- The key agreement of two pairs.
pub record IsAgreement (c : Crypto) (a b : Bytes) : Type 0 where
  pub commutes : c.diffie_hellman a (c.x25519_public b) ≡ c.diffie_hellman b (c.x25519_public a)
  pub contributory : c.was_contributory (c.diffie_hellman a (c.x25519_public b)) ≡ true

-- What one side sends, the other reads next.
abbrev pub IsInSync : Session → Session → Type 0
IsInSync s r =
    (s.send_key ≡ r.recv_key)
    × (s.send_dir ≡ r.recv_dir)
    × (s.send_ctr ≡ r.recv_ctr)
    × (s.th0 ≡ r.th0)

pub ct_eq_refl : (a : Bytes) → ct_eq a a ≡ true
ct_eq_refl a = rw (==_refl (length a), text_eq_refl a) refl

pub length-record_nonce :
    (direction counter : ℕ) → length (record_nonce direction counter) ≡ nonce_len xchacha20_poly1305
unfolding record_nonce nonce_len
length-record_nonce direction counter = omega (arith, length-be_bytes 8 counter)

pub aead_seal-aead_open :
    (c : Crypto) (key aad m : Bytes) (direction counter : ℕ)
    → IsAead c.ciphers xchacha20_poly1305 key
    → length m ≤ max_chunk_size
    → (ct : Bytes) × (aead_seal c.ciphers key (record_nonce direction counter) aad m ≡ ok ct)
      × (aead_open c.ciphers key (record_nonce direction counter) aad ct ≡ ok m)
unfolding aead_seal aead_open seal_with open_with
aead_seal-aead_open c key aad m direction counter aead h =
    let nonce = record_nonce direction counter in
    let s = aead nonce aad m (length-record_nonce direction counter) h in
    let fits =
      (==_iff (length nonce) (nonce_len xchacha20_poly1305)).1
        (length-record_nonce direction counter) in
    (s.ct, rw (fits, s.sealed) refl, rw (fits, s.opens) refl)
