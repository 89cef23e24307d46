-- ===== src/Transport.antt =====
-- crates/filesec-core/src/transport.rs: the messages, hashes and keys of the transfer channel, and its
-- record layer. BLAKE3, X25519, Ed25519, the ciphers and CBOR are parameters.
pub mod Handshake
pub mod Messages
pub mod Channel
pub mod Agreement
pub mod Completion
pub mod Integrity
pub mod Peers
pub mod Toy
mod Tests
pub mod Records
pub mod Replay
pub mod Gate
use file_sec.Prelude.{
  ℕ, ◌+◌, ◌≡◌, Bool, true, false, not, ◌&&◌, Option, none, some, List, [], ◌∷◌, ◌++◌, length,
  replicate, is_empty, if◌then◌else◌, ltb, ◌==◌, be_bytes, text, text_eq,
}
use file_sec.Errors.{
  Error, Result, ok, err, ◌>>=◌, ◌>>◌, fail_if, bad_key, serialization, bad_signature,
  handshake_protocol,
}
use file_sec.State.{Bytes, u64_max}
use file_sec.Codec.{Cbor}
use file_sec.Contacts.{PublicIdentity}
use file_sec.Aead.{Ciphers, aead_seal, aead_open}

abbrev pub magic : Bytes
magic = text "FSECP2P" ++ 2 ∷ []

abbrev pub proto_version : ℕ
proto_version = 2

abbrev pub suite_classic : ℕ
suite_classic = 0x0001

abbrev pub dir_i2r : ℕ
dir_i2r = 1

abbrev pub dir_r2i : ℕ
dir_r2i = 2

abbrev pub confirm_ctr : ℕ
confirm_ctr = 0

abbrev pub confirm_type : ℕ
confirm_type = 0

abbrev pub first_record_ctr : ℕ
first_record_ctr = 1

abbrev pub signature_len : ℕ
signature_len = 64

pub record HelloMsg : Type 0 where
  pub magic : Bytes  -- 8 bytes
  pub version : ℕ  -- u16
  pub suite : ℕ  -- u16
  pub i_ephemeral : Bytes  -- 32 bytes
  pub i_nonce : Bytes  -- 32 bytes
  pub i_psk_tag : Bytes  -- 32 bytes

pub record AuthMsg : Type 0 where
  pub r_ephemeral : Bytes  -- 32 bytes
  pub r_nonce : Bytes  -- 32 bytes
  pub r_identity : PublicIdentity
  pub r_sig : Bytes

pub record ConfirmMsg : Type 0 where
  pub sealed : Bytes

pub record ConfirmInner : Type 0 where
  pub i_identity : PublicIdentity
  pub i_sig : Bytes

-- What the code calls of other packages.
pub record Crypto : Type 1 where
  pub hash : Bytes → Bytes
  pub keyed_hash : Bytes → Bytes → Bytes  -- key, message
  pub derive_key : Bytes → Bytes → Bytes  -- context, key material
  pub x25519_public : Bytes → Bytes  -- secret
  pub diffie_hellman : Bytes → Bytes → Bytes  -- secret, public key
  pub was_contributory : Bytes → Bool
  pub ed25519_is_key : Bytes → Bool
  pub ed25519_sign : Bytes → Bytes → Bytes  -- secret, message
  pub ed25519_verify : Bytes → Bytes → Bytes → Bool  -- public key, message, signature
  pub ciphers : Ciphers
  pub hello_cbor : Cbor HelloMsg
  pub auth_cbor : Cbor AuthMsg
  pub confirm_cbor : Cbor ConfirmMsg
  pub inner_cbor : Cbor ConfirmInner

-- `direction || 0…0 || counter_be64`, 24 bytes.
unfoldable pub record_nonce : ℕ → ℕ → Bytes
record_nonce direction counter = direction ∷ (replicate 15 0 ++ be_bytes 8 counter)

unfoldable pub record_aad : Bytes → ℕ → ℕ → Bytes
record_aad th0 record_type counter = th0 ++ record_type ∷ be_bytes 8 counter

-- A field of a fixed length.
abbrev pub fixed : ℕ → Bytes → Result Bytes
fixed n bytes =
    if length bytes == n then ok bytes else err (handshake_protocol "wrong field length")

pub data RecordType : Type 0 where
  offer offer_decision data_chunk done : RecordType

unfoldable pub to_byte : RecordType → ℕ
to_byte offer = 1
to_byte offer_decision = 2
to_byte data_chunk = 3
to_byte done = 4

unfoldable pub from_byte : ℕ → Result RecordType
from_byte b =
    if b == 1
    then ok offer
    else if b == 2
    then ok offer_decision
    else if b == 3
    then ok data_chunk
    else if b == 4
    then ok done
    else err (handshake_protocol "unknown record type")

pub record Session : Type 0 where
  pub send_key : Bytes
  pub recv_key : Bytes
  pub send_dir : ℕ  -- u8
  pub recv_dir : ℕ  -- u8
  pub send_ctr : ℕ  -- u64
  pub recv_ctr : ℕ  -- u64
  pub th0 : Bytes  -- 32 bytes

abbrev pub for_initiator : Bytes → Bytes → Bytes → Session
for_initiator k_i2r k_r2i th0 = record {
  send_key = k_i2r;
  recv_key = k_r2i;
  send_dir = dir_i2r;
  recv_dir = dir_r2i;
  send_ctr = first_record_ctr;
  recv_ctr = first_record_ctr;
  th0 = th0;
}

abbrev pub for_responder : Bytes → Bytes → Bytes → Session
for_responder k_i2r k_r2i th0 = record {
  send_key = k_r2i;
  recv_key = k_i2r;
  send_dir = dir_r2i;
  recv_dir = dir_i2r;
  send_ctr = first_record_ctr;
  recv_ctr = first_record_ctr;
  th0 = th0;
}

-- `checked_add(1)` on a record counter.
abbrev pub next_ctr : ℕ → Result ℕ
next_ctr counter =
    if ltb counter u64_max
    then ok (counter + 1)
    else err (handshake_protocol "record counter overflow")

module _ (c : Crypto) where
  -- An error leaves the session as it was.
  unfoldable pub seal_record : Session → RecordType → Bytes → Result (Session × Bytes)
  seal_record s record_type plaintext = do
    ciphertext ←
        aead_seal c.ciphers s.send_key (record_nonce s.send_dir s.send_ctr)
          (record_aad s.th0 (to_byte record_type) s.send_ctr) plaintext
    counter ← next_ctr s.send_ctr
    ok (record s { send_ctr = counter }, to_byte record_type ∷ ciphertext)

  unfoldable pub open_record : Session → Bytes → Result (Session × (RecordType × Bytes))
  open_record s [] = err (handshake_protocol "empty record")
  open_record s (type_byte ∷ ciphertext) = do
    record_type ← from_byte type_byte
    plaintext ←
        aead_open c.ciphers s.recv_key (record_nonce s.recv_dir s.recv_ctr)
          (record_aad s.th0 (to_byte record_type) s.recv_ctr) ciphertext
    counter ← next_ctr s.recv_ctr
    ok (record s { recv_ctr = counter }, (record_type, plaintext))
