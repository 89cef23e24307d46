-- ===== src/Batch/Sealing.antt =====
-- The states that commits write one after another (crates/filesec-core/src/format_v2.rs), and the
-- rollback protection of crates/filesec-core/src/state.rs.
use file_sec.Prelude.{
  if-reaches, [], ◌++◌, if◌then◌else◌, ◌≡◌, ◌⊎◌, refl, ap, ◌∙◌, subst, Bool, true, false, some, inl,
  inr, Text, arith,
}
use file_sec.Errors.{Result, Result-cases, ok, err}
use file_sec.Suite.{to_u16}
use file_sec.State.{
  Bytes, StateMetadata, vault_manifest, from_metadata, next, verify_payload, check_candidate,
}
use file_sec.State.Anchoring.{next-accepted}
use file_sec.Blobs.{ManifestV2, Blobs}
use file_sec.Batch.{VaultBatch, new_batch}
use file_sec.Batch.Puts.{Work}
use file_sec.Batch.Commit.{
  remove_files, VaultReaderV2, Disk, view_of, reclaim, anchor_of, seal_and_write, adopt, conclude,
  commit_with, commit_batch, max_batch_ops,
}

module _ (blake3 : Bytes → Bytes) (to_vec : ManifestV2 → Result Bytes)
    (object_id_of : Bytes → Result Text) (gone : Text → Bool) where
  -- A batch that changed something has been written: the manifest on disk and in the open vault is the one
  -- of the batch, with a state that succeeds the old one and binds its bytes. If the write is known to be
  -- durable, what the batch superseded is removed, as far as that succeeds; otherwise it is kept on disk
  -- and in the queue.
  pub record IsCommitted (old : StateMetadata) (outcome : Result Bool) (b : VaultBatch)
      (blobs : Blobs) (r r' : VaultReaderV2) (disk' : Disk) : Type 0 where
    pub changed : b.changed ≡ true
    pub state : StateMetadata
    pub payload : Bytes
    pub durable : Bool
    pub wrote : outcome ≡ ok durable
    pub written : disk'.manifest_file ≡ some (b.manifest, state)
    pub edited : r'.manifest ≡ b.manifest
    pub adopted : r'.state ≡ some state
    pub viewed : r'.view ≡ view_of b.manifest
    pub encoded : to_vec b.manifest ≡ ok payload
    pub verifies : verify_payload blake3 state payload ≡ ok tt
    pub succeeds : check_candidate (from_metadata old) state ≡ ok true
    pub pending : r'.pending_reclaim ≡ (if durable then [] else r.pending_reclaim ++ b.superseded)
    pub kept :
        disk'.blobs
        ≡ (if durable then remove_files gone (r.pending_reclaim ++ b.superseded) blobs else blobs)

  -- A batch that changed nothing: the open vault is as it was, and the manifest on disk too.
  abbrev pub IsUntouched : VaultBatch → Blobs → VaultReaderV2 → Disk → VaultReaderV2 → Disk → Type 0
  IsUntouched b blobs r disk r' disk' =
      (b.changed ≡ false) × (r' ≡ r) × (disk' ≡ record disk { blobs = blobs })

  record Sealed (r : VaultReaderV2) (m : ManifestV2) (outcome : Result Bool) (before : Disk)
      (s : StateMetadata) (durable : Bool) (d : Disk) : Type 0 where
    payload : Bytes
    object_id : Text
    encoded : to_vec m ≡ ok payload
    made :
        next blake3 r.owner_fingerprint vault_manifest object_id
          (to_u16 r.suite)
          (anchor_of blake3 to_vec object_id_of gone r.state)
          payload
        ≡ ok s
    wrote : outcome ≡ ok durable
    file : d.manifest_file ≡ some (m, s)
    same_blobs : d.blobs ≡ before.blobs

  seal_and_write-Sealed :
      (r : VaultReaderV2) (m : ManifestV2) (written : Result Bool) (d : Disk) (s : StateMetadata)
      (durable : Bool)
      → (seal_and_write blake3 to_vec object_id_of gone r m written d).0 ≡ ok (s, durable)
      → Sealed r m written d s durable
          (seal_and_write blake3 to_vec object_id_of gone r m written d).1
  unfolding seal_and_write
  seal_and_write-Sealed r m written d s durable h = elim (Result-cases (to_vec m)) [
    | inr (e, x) ↦ absurd (ground arith)
    | inl (pt, x) ↦ elim (Result-cases (object_id_of r.header_bytes)) [
      | inr (e, y) ↦ absurd (ground arith)
      | inl (id, y) ↦
          elim (Result-cases (
            next blake3 r.owner_fingerprint vault_manifest id (to_u16 r.suite)
              (anchor_of blake3 to_vec object_id_of gone r.state) pt)) [
                | inr (e, z) ↦ absurd (ground arith)
                | inl (t, z) ↦ elim (Result-cases written) [
                  | inr (e, w) ↦ absurd (ground arith)
                  | inl (dur, w) ↦
                      let same : t ≡ s = ground arith in
                      record {
                        payload = pt;
                        object_id = id;
                        encoded = x;
                        made = z ∙ ap (λ u. ok u) same;
                        wrote = w ∙ ap (λ u. ok u) (ground arith);
                        same_blobs = rw (x, y, z, w, seal_and_write) refl;
                        file = rw (x, y, z, w, seal_and_write) (ap (λ u. some (m, u)) same);
                      }
                ]
              ]
    ]
  ]

  module _ (old : StateMetadata) (r : VaultReaderV2) (anchored : r.state ≡ some old) where
    Sealed-accepted :
        (m : ManifestV2) (outcome : Result Bool) (before : Disk) (s : StateMetadata)
        (durable : Bool) (d : Disk) (sealed : Sealed r m outcome before s durable d)
        → (verify_payload blake3 s sealed.payload ≡ ok tt)
          × (check_candidate (from_metadata old) s ≡ ok true)
    Sealed-accepted m outcome before s durable d sealed =
        let (verifies, succeeds, current) =
          next-accepted blake3 r.owner_fingerprint vault_manifest sealed.object_id (to_u16 r.suite)
            (from_metadata old) sealed.payload s
            (subst
              (λ o.
                next blake3 r.owner_fingerprint vault_manifest sealed.object_id (to_u16 r.suite)
                  (anchor_of blake3 to_vec object_id_of gone o) sealed.payload
                ≡ ok s)
              anchored sealed.made) in
        (verifies, succeeds)

    adopt-IsCommitted :
        (outcome : Result Bool) (b : VaultBatch) (before : Disk)
        (y : Result (StateMetadata × Bool) × Disk)
        → b.changed ≡ true
        → ((s : StateMetadata) (durable : Bool)
            → y.0 ≡ ok (s, durable)
            → Sealed r b.manifest outcome before s durable y.1)
        → (adopt blake3 to_vec object_id_of gone r b y).0 ≡ ok tt
        → IsCommitted old outcome b before.blobs r
            (adopt blake3 to_vec object_id_of gone r b y).1.0
            (adopt blake3 to_vec object_id_of gone r b y).1.1
    unfolding reclaim
    adopt-IsCommitted outcome b before (err e, d) changed h done = absurd (cc)
    adopt-IsCommitted outcome b before (ok (s, true), d) changed h done =
        let sealed = h s true refl in
        let (verifies, succeeds) = Sealed-accepted b.manifest outcome before s true d sealed in
        record {
          changed = changed;
          state = s;
          payload = sealed.payload;
          durable = true;
          wrote = sealed.wrote;
          written = sealed.file;
          edited = refl;
          adopted = refl;
          viewed = refl;
          encoded = sealed.encoded;
          verifies = verifies;
          succeeds = succeeds;
          pending = refl;
          kept = ap (remove_files gone (r.pending_reclaim ++ b.superseded)) sealed.same_blobs;
        }
    adopt-IsCommitted outcome b before (ok (s, false), d) changed h done =
        let sealed = h s false refl in
        let (verifies, succeeds) = Sealed-accepted b.manifest outcome before s false d sealed in
        record {
          changed = changed;
          state = s;
          payload = sealed.payload;
          durable = false;
          wrote = sealed.wrote;
          written = sealed.file;
          edited = refl;
          adopted = refl;
          viewed = refl;
          encoded = sealed.encoded;
          verifies = verifies;
          succeeds = succeeds;
          pending = refl;
          kept = sealed.same_blobs;
        }

    conclude-IsCommitted :
        (disk : Disk) (written : Result Bool) (x : Result (Unit {0}) × Work)
        → (conclude blake3 to_vec object_id_of gone r disk written x).0 ≡ ok tt
        → (x.0 ≡ ok tt)
          × (IsUntouched x.1.0 x.1.1 r disk
                (conclude blake3 to_vec object_id_of gone r disk written x).1.0
                (conclude blake3 to_vec object_id_of gone r disk written x).1.1
              ⊎ IsCommitted old written x.1.0 x.1.1 r
                  (conclude blake3 to_vec object_id_of gone r disk written x).1.0
                  (conclude blake3 to_vec object_id_of gone r disk written x).1.1)
    conclude-IsCommitted disk written (err e, w) done = absurd (cc)
    conclude-IsCommitted disk written (ok passed, (b, blobs)) done = (
      refl,
      let before = record disk { blobs = blobs } in
          let sealing =
            seal_and_write blake3 to_vec object_id_of gone r b.manifest written before in
          if-reaches
            (λ z.
              z.0 ≡ ok tt
              → IsUntouched b blobs r disk z.1.0 z.1.1
                ⊎ IsCommitted old written b blobs r z.1.0 z.1.1)
            b.changed (adopt blake3 to_vec object_id_of gone r b sealing) (ok tt, (r, before))
            (λ changed fine. inr (
              adopt-IsCommitted written b before sealing changed
                (seal_and_write-Sealed r b.manifest written before) fine))
            (λ same fine. inl (same, refl, refl)) done,
    )

    -- A commit that succeeds has edits that succeeded. If they changed nothing, neither the open vault nor its
    -- manifest on disk has changed. If they changed something, the manifest on disk and in the open vault is
    -- the edited one, with a state that binds its bytes and that the anchor of the old state accepts as the
    -- next one; and the superseded blobs, with those of earlier commits, are removed if the write is known to be
    -- durable, as far as the removals succeed, and otherwise stay in the queue, with every blob on disk.
    pub commit_batch-IsCommitted :
        (disk : Disk) (edits : Work → Result (Unit {0}) × Work) (written : Result Bool)
        → (commit_batch blake3 to_vec object_id_of gone edits written r disk).0 ≡ ok tt
        → ((edits (new_batch r.manifest (some max_batch_ops), disk.blobs)).0 ≡ ok tt)
          × (IsUntouched
                (edits (new_batch r.manifest (some max_batch_ops), disk.blobs)).1.0
                (edits (new_batch r.manifest (some max_batch_ops), disk.blobs)).1.1
                r
                disk
                (commit_batch blake3 to_vec object_id_of gone edits written r disk).1.0
                (commit_batch blake3 to_vec object_id_of gone edits written r disk).1.1
              ⊎ IsCommitted old written
                  (edits (new_batch r.manifest (some max_batch_ops), disk.blobs)).1.0
                  (edits (new_batch r.manifest (some max_batch_ops), disk.blobs)).1.1
                  r
                  (commit_batch blake3 to_vec object_id_of gone edits written r disk).1.0
                  (commit_batch blake3 to_vec object_id_of gone edits written r disk).1.1)
    unfolding commit_batch commit_with
    commit_batch-IsCommitted disk edits written done =
        conclude-IsCommitted disk written
          (edits (new_batch r.manifest (some max_batch_ops), disk.blobs)) done
