-- ===== src/Lib.antt =====
-- FileSec keeps files in encrypted vaults and sends them as signed containers. The core is
-- crates/filesec-core: identities and contacts, a vault in memory and as a directory of encrypted
-- blobs, the `.fsec` container, rollback protection of everything that is stored locally, and the
-- transfer protocol. crates/filesec-gui is the desktop program around it. This library models the
-- parts of the core that decide: which paths, manifests, parameters and states are accepted, and
-- what each operation leaves behind.
--
-- Prelude (with Prelude/Tests, Lists, Texts, Bytes, Ints) has what the modules share. Numbers are
-- the native natural numbers, with the bounds of the source's widths written out; a text is its
-- list of code points, and bytes are numbers below 256. Errors is crates/filesec-core/src/error.rs:
-- the `?` operator is a `do` block over `Result`.
--
-- State (crates/filesec-core/src/state.rs) has the metadata of a stored state, the anchor that is
-- remembered of it, and the checks between them: State/Encoding on what the authenticated bytes and
-- the hash bind, State/Anchoring on which candidate an anchor accepts, State/History on chains of
-- accepted states. Suite (crates/filesec-core/src/suite.rs, and the cipher names of
-- crates/filesec-core/src/aead.rs) and Kdf (crates/filesec-core/src/kdf.rs) are the choices that a
-- header may make. The fast policies of tests are not modelled.
--
-- Paths is the normalization of a path in crates/filesec-core/src/vault.rs, the one for stored
-- names and the strict one for new names. Paths/Split, Normal and Idempotent are about what a
-- normalized path is. Tree is the walk over the ancestors of a path, over an interface that the
-- vault in memory and the batch of a vault directory both fill: Tree/Parents, Visit, Ensure, Add
-- and Keeping have the lemmas on the walk. Vault is the rest of crates/filesec-core/src/vault.rs,
-- the vault in memory: Vault/Adding and Removing on its operations, Vault/Shape on
-- `check_tree_shape`. Manifest is crates/filesec-core/src/manifest.rs with the manifest of a
-- container in crates/filesec-core/src/format.rs; Manifest/Layout is the check of an untrusted one.
--
-- Blobs and Batch are crates/filesec-core/src/format_v2.rs, the vault directory. Blobs has its
-- manifest entries and the checks of a manifest and of a blob. Batch has `VaultBatch` with its
-- index, Batch/Ops the edits, Batch/Puts the writing of a blob, Batch/Sources the file it is read
-- from, Batch/Commit the reader, the commit of a set of edits, the reclaiming of blobs and the
-- collection of garbage. An edit returns its result beside the batch and the files on disk, so what
-- a failed edit leaves is visible. Batch/Stable is about the edits that add no file; Batch/Staging
-- and Rollback follow the blobs that a batch stages, Batch/Counting, Keeping, Backing and Staying
-- the ids that the manifest names, Batch/Sound puts them together; Batch/Sealing ties commits to
-- State; Batch/Garbage is about the collection; Batch/Renaming, MovedTree and Moves are about
-- renaming.
--
-- Contacts is crates/filesec-core/src/contacts.rs with the public half of an identity in
-- crates/filesec-core/src/identity.rs: Contacts/Names on sanitizing, Contacts/Book on the changes
-- of the book, Contacts/Cards the texts of a public key, with Contacts/Cards/Pasting on reading
-- them and Comparing on safety numbers. Armor is the base64 between two lines of dashes that keys
-- and backups share; Armor/Reading is about taking it out again, Armor/Standard is a base64 that
-- computes.
--
-- Aead is crates/filesec-core/src/aead.rs: `seal_with` and `open_with` for one nonce, the two loops
-- over a stream, whose reader and writer are the bytes read and the bytes written, and the
-- decryption of one chunk by its index. Aead/Laws has the laws of a cipher and of the STREAM
-- construction, Aead/Steps, Loops and Roundtrip follow both loops, Aead/Integrity is about a
-- changed stream, Aead/Totality about ending, Aead/Toy is a cipher that computes. Aead/Reader is
-- the reader that decrypts while it is read, Aead/Wrapping what becomes of its errors;
-- Aead/Refilling, Reading and Draining compare it to the loop. Codec is
-- crates/filesec-core/src/codec.rs.
--
-- Readers has the readers of crates/filesec-core/src/format.rs that feed an export, and
-- `read_chunk` of crates/filesec-core/src/aead.rs that reads from them. `Read` is an interface
-- there: Readers/Contract says what a reader promises and what a chunk is then, which is why Aead
-- may take a reader for its bytes; Readers/Content, Chain and Selecting fill the interface.
--
-- Transport is crates/filesec-core/src/transport.rs: the messages, the record types and `Session`;
-- Transport/Handshake has the two sides, the replay cache and the derived keys, Transport/Messages
-- the handshake itself, one function per message with the whole state of a side before and after.
-- Transport/Channel, Agreement and Completion lead to a completed handshake, Transport/Gate is
-- about the answer to a stranger, Transport/Peers about who is at the other end, Transport/Replay
-- about the cache, Transport/Records and Integrity about records.
--
-- Keystore is crates/filesec-core/src/keystore.rs with `Identity` of
-- crates/filesec-core/src/identity.rs: the bundle of secrets and the wrapping of the data key.
-- Keystore/Slots has versions 1 and 2, Keystore/File version 3 and `KeystoreFile` with its bytes
-- and the recovery of older files, Keystore/Ops the operations of the file; one that changes the
-- file returns its result beside the file that is left. Keystore/Chain ties the changes to State,
-- Keystore/Unlocking is about a new file, Keystore/Enrolling about a new passkey, Keystore/Framing
-- about the bytes of a file. Keystore/Backup is the export and import of an identity as text,
-- Keystore/Backup/Restoring is about the way back; Keystore/Toy holds keys that compute.
--
-- Net is crates/filesec-gui/src/net: Net/Wire is wire.rs, the framing of a socket, with
-- Net/Wire/Framing on what is read and Net/Wire/Ending on the deadline; Net/Permits is the
-- semaphore of concurrency.rs with the workers that race for it, Net/Limiter its backoff, with
-- Net/Limiter/Bound on the size of the table, Net/Limiter/Ages on its order by age,
-- Net/Limiter/Evicting and Forgetting on the peers that are forgotten, Net/Limiter/Lookups on what
-- is in it and Net/Limiter/Backoff on the times. A socket, a clock and a scheduler are lists of
-- what they do in turn. Net/Code is the code of a transfer in mod.rs: Net/Code/Symbols on its
-- alphabet, Net/Code/Buffer and Groups on the two buffers of 32 bits, Net/Code/Canonical on the way
-- back to the symbols, Net/Code/Exchange on both together.
--
-- The modules whose names end in `Tests`, other than Prelude/Tests with its Boolean tests, hold
-- runs of the definitions on small inputs.
--
-- Parameters stand for code of other crates: BLAKE3, which may have collisions,
-- `char::to_uppercase`, CBOR, base32, base64 and hexadecimal text, the two ciphers and STREAM over
-- them, X25519, Ed25519 and Argon2, and the post-quantum keys of a seed. The ids, keys and nonces
-- that are drawn are arguments, with the hypothesis that ids are unused where it matters; so is the
-- outcome of writing the manifest file, with the report on its durability. Which removals of blobs
-- succeed is a parameter of a commit and of the collection, since the source ignores those that
-- fail; only the blob that `write_blob` has written in vain is taken to be removed. A hash map is
-- an association list in which the latest insertion counts.
--
-- Loops are structural recursion on the input. The climb of `check_tree_shape` and the printing of
-- a number run on fuel: the climb gets one more than the length of the path, and each step shortens
-- it, which the equivalence proof uses; a 64-bit number has at most 20 digits. The loops over a
-- stream run on fuel as well, one more than the length of the input, since each round but the last
-- reads a chunk that is not empty; so does a read of the reader that decrypts, and its fuel is read
-- off its state. `read_chunk` and the discarding of a segment run on fuel for the bytes that are
-- missing, of which each round takes one. The inner loop of a code runs on the bits of the buffer,
-- of which each round takes five, and the lines of an armored text on its length. The loop on a
-- socket recurs on the turns of the socket, and `waiting` says that they are used up.
--
-- Not modelled: containers beyond their manifest and these readers, opening, creating and migrating
-- a vault directory, envelopes, file system hardening, and the desktop program but for the modules
-- below its network threads.
pub mod Prelude
pub mod Errors
pub mod Suite
pub mod Kdf
pub mod State
pub mod Paths
pub mod Tree
pub mod Vault
pub mod Manifest
pub mod Blobs
pub mod Aead
pub mod Batch
pub mod Contacts
pub mod Codec
pub mod Armor
pub mod Keystore
pub mod Transport
pub mod Readers
pub mod Net
