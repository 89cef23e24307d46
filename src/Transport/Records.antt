-- ===== src/Transport/Records.antt =====
-- crates/filesec-core/src/transport.rs: records that are sent over an open session and read from it.
use file_sec.Prelude.{ℕ, ◌+◌, ◌≡◌, ◌≤◌, ◌<◌, refl, ap, List, [], ◌∷◌, length, All, arith}
use file_sec.Errors.{Result, ok, ◌>>=◌}
use file_sec.State.{Bytes, u64_max}
use file_sec.Suite.{xchacha20_poly1305}
use file_sec.Blobs.{max_chunk_size}
use file_sec.Aead.Laws.{IsAead}
use file_sec.Transport.{
  Crypto, RecordType, offer, offer_decision, data_chunk, done, to_byte, from_byte, Session,
  next_ctr, record_aad, seal_record, open_record,
}
use file_sec.Transport.Channel.{IsInSync, aead_seal-aead_open}

pub from_byte-to_byte : (t : RecordType) → from_byte (to_byte t) ≡ ok t
unfolding from_byte to_byte
from_byte-to_byte offer = refl
from_byte-to_byte offer_decision = refl
from_byte-to_byte data_chunk = refl
from_byte-to_byte done = refl

module _ (c : Crypto) where
  -- The records of a sender, in their order.
  unfoldable pub send_all : Session → List (RecordType × Bytes) → Result (Session × List Bytes)
  unfolding seal_record
  send_all s [] = ok (s, [])
  send_all s (m ∷ ms) = do
    first ← seal_record c s m.0 m.1
    others ← send_all first.0 ms
    ok (others.0, first.1 ∷ others.1)

  unfoldable pub receive_all : Session → List Bytes → Result (Session × List (RecordType × Bytes))
  unfolding open_record
  receive_all r [] = ok (r, [])
  receive_all r (frame ∷ frames) = do
    first ← open_record c r frame
    others ← receive_all first.0 frames
    ok (others.0, first.1 ∷ others.1)

  record Exchanged (s r : Session) (t : RecordType) (m : Bytes) : Type 0 where
    s2 : Session
    r2 : Session
    frame : Bytes
    sent : seal_record c s t m ≡ ok (s2, frame)
    received : open_record c r frame ≡ ok (r2, (t, m))
    in_sync : IsInSync s2 r2
    key : s2.send_key ≡ s.send_key
    counter : s2.send_ctr ≡ s.send_ctr + 1

  next_ctr_lem : (n : ℕ) → n < u64_max → next_ctr n ≡ ok (n + 1)
  next_ctr_lem n h = ground arith

  exchange :
      (s r : Session) (t : RecordType) (m : Bytes)
      → IsInSync s r
      → s.send_ctr < u64_max
      → length m ≤ max_chunk_size
      → IsAead c.ciphers xchacha20_poly1305 s.send_key
      → Exchanged s r t m
  unfolding seal_record open_record
  exchange s r t m (key, dir, ctr, th0) room fits aead =
      let (ct, sealed, opened) =
        aead_seal-aead_open c s.send_key (record_aad s.th0 (to_byte t) s.send_ctr) m s.send_dir
          s.send_ctr aead fits in
      record {
        s2 = record s { send_ctr = s.send_ctr + 1 };
        r2 = record r { recv_ctr = r.recv_ctr + 1 };
        frame = to_byte t ∷ ct;
        sent = rw (seal_record, sealed, next_ctr_lem s.send_ctr room) refl;
        received =
            rw
              (
                open_record,
                from_byte-to_byte t,
                ← key,
                ← dir,
                ← ctr,
                ← th0,
                opened,
                next_ctr_lem s.send_ctr room,
              )
              refl;
        in_sync = (key, dir, ap (λ n. n + 1) ctr, th0);
        key = refl;
        counter = refl;
      }

  -- Two sessions in step: what one seals, in any number up to the end of its counter, is opened by the
  -- other one in the same order, with the types and the texts that were sent, and they are in step again.
  pub receive_all-send_all :
      (s r : Session) (ms : List (RecordType × Bytes))
      → IsInSync s r
      → s.send_ctr + length ms ≤ u64_max
      → All (λ m. length m.1 ≤ max_chunk_size) ms
      → IsAead c.ciphers xchacha20_poly1305 s.send_key
      → (s2 r2 : Session) × (frames : List Bytes) × (send_all s ms ≡ ok (s2, frames))
        × (receive_all r frames ≡ ok (r2, ms))
        × IsInSync s2 r2
  unfolding send_all receive_all
  receive_all-send_all s r [] sync room fits aead = (s, r, [], refl, refl, sync)
  receive_all-send_all s r (m ∷ ms) sync room fits aead =
      let x = exchange s r m.0 m.1 sync (omega arith) fits.0 aead in
      let (s2, r2, frames, sent, received, in_sync) =
        receive_all-send_all x.s2 x.r2 ms x.in_sync (omega (arith, x.counter)) fits.1
          (rw (x.key) aead) in
      (s2, r2, x.frame ∷ frames, rw (x.sent, sent) refl, rw (x.received, received) refl, in_sync)
