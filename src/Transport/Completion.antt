-- ===== src/Transport/Completion.antt =====
-- crates/filesec-core/src/transport.rs: the handshake, from the transfer secret to the open sessions.
use file_sec.Codec.{Travels}
use file_sec.Prelude.{◌≡◌, ◌≤◌, sym, ap, ◌∙◌, false, Option, [], ◌∷◌, length}
use file_sec.Errors.{ok}
use file_sec.State.{Bytes}
use file_sec.Suite.{xchacha20_poly1305}
use file_sec.Contacts.{fingerprint}
use file_sec.Blobs.{max_chunk_size}
use file_sec.Aead.Laws.{IsAead}
use file_sec.Transport.{Crypto}
use file_sec.Transport.Channel.{IsIdentity, IsAgreement}
use file_sec.Transport.Handshake.{
  Identity, Initiator, Responder, HelloReplayCache, admit_if_shared, is_other_peer, derive_psk,
  commit_secret, derive_session_keys, initiator_new, responder_new, hello_of,
}
use file_sec.Transport.Messages.{responder_th0, inner_of, auth_of}
use file_sec.Transport.Agreement.{IsCompleted, completed}

initiator_new_lem :
    (c : Crypto) (identity : Identity) (fpr secret a n : Bytes) (i : Initiator)
    → initiator_new c identity fpr secret (ok a) (ok n) ≡ ok i
    → (i.identity ≡ identity)
      × (i.ephemeral ≡ a)
      × (i.expected_peer_fpr ≡ fpr)
      × (i.k_psk ≡ derive_psk c secret)
      × (i.secret_commit ≡ commit_secret c (derive_psk c secret))
unfolding initiator_new
initiator_new_lem c identity fpr [] a n i h = absurd cc
initiator_new_lem c identity fpr (x ∷ xs) a n i h = (cc, cc, cc, cc, cc)

responder_new_lem :
    (c : Crypto) (identity : Identity) (secret : Bytes) (designated : Option Bytes) (b n : Bytes)
    (r : Responder)
    → responder_new c identity secret designated (ok b) (ok n) ≡ ok r
    → (r.identity ≡ identity)
      × (r.ephemeral ≡ b)
      × (r.expected_peer_fpr ≡ designated)
      × (r.k_psk ≡ derive_psk c secret)
      × (r.secret_commit ≡ commit_secret c (derive_psk c secret))
unfolding responder_new
responder_new_lem c identity [] designated b n r h = absurd cc
responder_new_lem c identity (x ∷ xs) designated b n r h = (cc, cc, cc, cc, cc)

-- An initiator and a responder that were made for the same transfer secret, the initiator expecting the
-- responder, and the responder anyone or this initiator, complete the handshake, provided that the
-- messages arrive, the secret's proof is new to the cache and the cache has room: the responder learns
-- the identity of the initiator, and each side's session reads the records that the other one sends.
pub handshake_completes :
    (c : Crypto) (id_i id_r : Identity) (secret a b n_i n_r : Bytes) (designated : Option Bytes)
    (i : Initiator) (r : Responder) (cache next : Option HelloReplayCache)
    → initiator_new c id_i (fingerprint c.hash id_r.public) secret (ok a) (ok n_i) ≡ ok i
    → responder_new c id_r secret designated (ok b) (ok n_r) ≡ ok r
    → IsIdentity c id_i
    → IsIdentity c id_r
    → IsAgreement c b a
    → Travels c.hello_cbor (hello_of c i)
    → Travels c.auth_cbor (auth_of c r (responder_th0 c r (hello_of c i)))
    → (inner : Travels c.inner_cbor (
        inner_of c i.identity
          (auth_of c r (responder_th0 c r (hello_of c i)))
          (responder_th0 c r (hello_of c i))))
    → ((sealed : Bytes) → Travels c.confirm_cbor (record { sealed = sealed }))
    → length inner.bytes ≤ max_chunk_size
    → IsAead c.ciphers xchacha20_poly1305
        (derive_session_keys c
          (c.diffie_hellman r.ephemeral (c.x25519_public i.ephemeral))
          (responder_th0 c r (hello_of c i))).k_i2r
    → admit_if_shared cache (hello_of c i).i_psk_tag ≡ ok next
    → is_other_peer designated (fingerprint c.hash id_i.public) ≡ false
    → IsCompleted c i r cache next
handshake_completes c id_i id_r secret a b n_i n_r designated i r cache next made_i made_r keys_i
      keys_r agreement hello auth inner confirm fits aead admitted peer =
    let (ident_i, eph_i, expected, psk_i, commit_i) =
      initiator_new_lem c id_i (fingerprint c.hash id_r.public) secret a n_i i made_i in
    let (ident_r, eph_r, other, psk_r, commit_r) =
      responder_new_lem c id_r secret designated b n_r r made_r in
    completed c i r (psk_i ∙ sym psk_r) (commit_i ∙ sym commit_r)
      (expected ∙ ap (λ k. fingerprint c.hash k.public) (sym ident_r)) (rw (eph_i, eph_r) agreement)
      (rw (ident_i) keys_i) (rw (ident_r) keys_r) hello auth inner confirm fits aead cache next
      admitted (rw (other, ident_i) peer)
