-- ===== src/Transport/Integrity.antt =====
-- crates/filesec-core/src/transport.rs: what a receiver can be made to take for a record.
use mathlib.Core.List.{append_assoc}
use file_sec.Prelude.{
  get_elem?-bound, get_elem?-append, subst, ℕ, suc, ◌+◌, ◌≡◌, ◌≤◌, ◌<◌, refl, sym, ap, ◌∙◌, ◌⊎◌,
  inl, inr, Bool-cases, some, List, [], ◌∷◌, ◌++◌, length, replicate, get_elem?, append-cancel,
  length-append, be_bytes, be_bytes-injective, ltb, arith,
}
use file_sec.Errors.{Error, handshake_protocol, Result, ok, err, Result-cases}
use file_sec.State.{Bytes, u64_max}
use file_sec.Suite.{xchacha20_poly1305}
use file_sec.Aead.{Ciphers, aead_open, open_with}
use file_sec.Transport.{
  Crypto, RecordType, to_byte, from_byte, Session, confirm_ctr, first_record_ctr, record_nonce,
  record_aad, open_record,
}
use file_sec.Transport.Records.{from_byte-to_byte}

abbrev pub Record : Type 0
Record = RecordType × Bytes

abbrev pub after : Session → Result (Session × Record) → Session
after r (err failure) = r
after r (ok (r2, m)) = r2

abbrev pub taken : Result (Session × Record) → List Record
taken (err failure) = []
taken (ok (r2, m)) = m ∷ []

ok_injective {ℓ} : {A : Type ℓ} {a b : A} → ok a ≡ ok b → a ≡ b
ok_injective h = cc

heads_lem : (x y : ℕ) (xs ys : Bytes) → x ∷ xs ≡ y ∷ ys → x ≡ y
heads_lem x y xs ys h = cc

failed_lem :
    (e : Error) (r2 : Session) (m : Record)
    → ◌≡◌ {A = Result (Session × Record)} (err e) (ok (r2, m))
    → ⊥
failed_lem e r2 m h = cc

aead_open_lem :
    (c : Ciphers) (key nonce aad ct pt : Bytes)
    → aead_open c key nonce aad ct ≡ ok pt
    → c.decrypt xchacha20_poly1305 key nonce aad ct ≡ some pt
unfolding aead_open open_with
aead_open_lem c key nonce aad ct pt h = ground arith

module _ (c : Crypto) where
  unfoldable pub receive_any : Session → List Bytes → List Record
  receive_any r [] = []
  receive_any r (frame ∷ frames) =
      taken (open_record c r frame) ++ receive_any (after r (open_record c r frame)) frames

  -- Under this key a decryption succeeds only for what the other side sealed: the proof of the handshake,
  -- under the first counter, or the record `k`, under its counter and its type.
  abbrev pub IsAuthenticChannel : Session → List Record → Type 0
  IsAuthenticChannel r sent =
      (nonce aad ct m : Bytes)
      → c.ciphers.decrypt xchacha20_poly1305 r.recv_key nonce aad ct ≡ some m
      → (nonce ≡ record_nonce r.recv_dir confirm_ctr)
        ⊎ ((k : ℕ) × (t : RecordType) × (nonce ≡ record_nonce r.recv_dir (first_record_ctr + k))
            × (aad ≡ record_aad r.th0 (to_byte t) (first_record_ctr + k))
            × (get_elem? sent k ≡ some (t, m)))

  record Opened (r : Session) (frame : Bytes) (r2 : Session) (m : Record) : Type 0 where
    ct : Bytes
    decrypted :
        c.ciphers.decrypt xchacha20_poly1305 r.recv_key
          (record_nonce r.recv_dir r.recv_ctr)
          (record_aad r.th0 (to_byte m.0) r.recv_ctr)
          ct
        ≡ some m.1
    room : r.recv_ctr < u64_max
    next : r2 ≡ record r { recv_ctr = r.recv_ctr + 1 }

  open_record-Opened :
      (r r2 : Session) (frame : Bytes) (m : Record)
      → open_record c r frame ≡ ok (r2, m)
      → Opened r frame r2 m
  unfolding open_record aead_open open_with
  open_record-Opened r r2 [] m h = absurd cc
  open_record-Opened r r2 (type_byte ∷ ct) m h = elim (Result-cases (from_byte type_byte)) [
    | inr (e, f) ↦ absurd (ground arith)
    | inl (t, f) ↦
        let nonce = record_nonce r.recv_dir r.recv_ctr in
        let aad = record_aad r.th0 (to_byte t) r.recv_ctr in
        elim (Result-cases (aead_open c.ciphers r.recv_key nonce aad ct)) [
          | inr (e, o) ↦ absurd (failed_lem e r2 m (rw (open_record, f, o) at h))
          | inl (pt, o) ↦ elim (Bool-cases (ltb r.recv_ctr u64_max)) [
            | inr full ↦ absurd (
                failed_lem (handshake_protocol "record counter overflow") r2 m
                  (rw (open_record, f, o, full) at h))
            | inl room ↦
                let same : (record r { recv_ctr = r.recv_ctr + 1 }, (t, pt)) ≡ (r2, m) =
                  ok_injective (rw (open_record, f, o, room) at h) in
                subst (λ x. Opened r (type_byte ∷ ct) x.0 x.1) same
                  (record {
                    ct = ct;
                    decrypted = aead_open_lem c.ciphers r.recv_key nonce aad ct pt o;
                    room = ground arith;
                    next = refl;
                  })
          ]
        ]
  ]

  record_nonce-injective :
      (dir i j : ℕ) → i ≤ u64_max → j ≤ u64_max → record_nonce dir i ≡ record_nonce dir j → i ≡ j
  unfolding record_nonce
  record_nonce-injective dir i j h k e =
      be_bytes-injective 8 i j (omega arith) (omega arith)
        (append-cancel (dir ∷ replicate 15 0) (dir ∷ replicate 15 0) (be_bytes 8 i) (be_bytes 8 j)
          refl e).1

  record_aad-injective :
      (th0 : Bytes) (s t : RecordType) (i j : ℕ)
      → record_aad th0 (to_byte s) i ≡ record_aad th0 (to_byte t) j
      → s ≡ t
  unfolding record_aad
  record_aad-injective th0 s t i j e =
      let (front, tails) =
        append-cancel th0 th0 (to_byte s ∷ be_bytes 8 i) (to_byte t ∷ be_bytes 8 j) refl e in
      let bytes : to_byte s ≡ to_byte t =
        heads_lem (to_byte s) (to_byte t) (be_bytes 8 i) (be_bytes 8 j) tails in
      ok_injective (sym (from_byte-to_byte s) ∙ ap from_byte bytes ∙ from_byte-to_byte t)

  next_lem :
      (sent : List Record)
      → length sent < u64_max
      → (r : Session) (before rest : List Record) (r2 : Session) (frame : Bytes) (m : Record)
      → before ++ rest ≡ sent
      → r.recv_ctr ≡ first_record_ctr + length before
      → IsAuthenticChannel r sent
      → Opened r frame r2 m
      → (tail : List Record) × (rest ≡ m ∷ tail)
  next_lem sent few r before rest r2 frame m whole ctr authentic o =
      let room = o.room in
      elim (authentic (record_nonce r.recv_dir r.recv_ctr)
        (record_aad r.th0 (to_byte m.0) r.recv_ctr) o.ct m.1 o.decrypted) [
          | inl n ↦
              let zeroth =
                record_nonce-injective r.recv_dir r.recv_ctr confirm_ctr (omega arith) (omega arith)
                  n in
              absurd (omega arith)
          | inr (k, t, n, a, g) ↦
              let bound = get_elem?-bound sent k (t, m.1) g in
              let same =
                record_nonce-injective r.recv_dir r.recv_ctr (first_record_ctr + k) (omega arith)
                  (omega arith) n in
              let kind = record_aad-injective r.th0 m.0 t r.recv_ctr (first_record_ctr + k) a in
              let place : k ≡ length before = omega arith in
              let here : get_elem? (before ++ rest) (length before) ≡ some m =
                rw (whole, ← place, kind) g in
              get_elem?-append before rest m here
        ]

  receive_any-prefix :
      (sent : List Record)
      → length sent < u64_max
      → (r : Session) (before rest : List Record) (frames : List Bytes) → before ++ rest ≡ sent
      → r.recv_ctr ≡ first_record_ctr + length before
      → IsAuthenticChannel r sent
      → (tail : List Record) × (rest ≡ receive_any r frames ++ tail)
  unfolding receive_any
  receive_any-prefix sent few r before rest [] whole ctr authentic = (rest, refl)
  receive_any-prefix sent few r before rest (frame ∷ frames) whole ctr authentic =
      elim (Result-cases (open_record c r frame)) [
        | inr (e, f) ↦ rw (f) (receive_any-prefix sent few r before rest frames whole ctr authentic)
        | inl (found, f) ↦
            let m = found.1 in
            let o = open_record-Opened r found.0 frame m f in
            let (others, here) =
              next_lem sent few r before rest found.0 frame m whole ctr authentic o in
            let shifted : length (before ++ m ∷ []) ≡ suc (length before) =
              omega (arith, length-append before (m ∷ [])) in
            let (tail, t) =
              receive_any-prefix sent few (record r { recv_ctr = r.recv_ctr + 1 })
                (before ++ m ∷ []) others frames
                (append_assoc before (m ∷ []) others ∙ rw (← here) whole) (omega arith) authentic in
            (tail, rw (f, o.next) (here ∙ ap (λ x. m ∷ x) t))
      ]

  -- Whatever frames arrive, in any order and any number of times, a receiver takes for records only a
  -- first part of what the other side sent, in its order: the channel does not reorder, repeat, skip or
  -- alter, if a decryption under the key of this direction succeeds only for what was sealed there.
  pub receive_any_in_order :
      (r : Session) (sent : List Record) (frames : List Bytes)
      → length sent < u64_max
      → r.recv_ctr ≡ first_record_ctr
      → IsAuthenticChannel r sent
      → (tail : List Record) × (sent ≡ receive_any r frames ++ tail)
  receive_any_in_order r sent frames few start authentic =
      receive_any-prefix sent few r [] sent frames refl (omega arith) authentic
