-- ===== src/State/Encoding.antt =====
-- The canonical encoding of the metadata (state.rs): what it binds.
use file_sec.Prelude.{
  ℕ, ◌<◌, ◌^◌, ◌≡◌, refl, sym, ap, ◌∙◌, ◌⊎◌, inl, inr, ◌≢◌, [], ◌++◌, length, text, text_eq,
  text_eq_iff, text_eq-ne, le_bytes, le_bytes-injective, length-le_bytes, append-cancel, arith,
  Bool-cases,
}
use mathlib.Core.List.{append_assoc}
use file_sec.Errors.{ok}
use file_sec.State.{
  Bytes, StateObjectType, keystore, contacts, registry, vault_manifest, tag, StateMetadata, lp,
  authenticated_data, hash_input, expected_hash, verify_payload,
}

-- The ranges that Rust's types give the fields.
pub record IsSized (s : StateMetadata) : Type 0 where
  pub fingerprint : length s.identity_fingerprint < 256 ^ 8
  pub object_id : length s.object_id < 256 ^ 8
  pub suite_id : s.suite_id < 256 ^ 2
  pub epoch : s.epoch < 256 ^ 8
  pub previous : length s.previous_state_hash < 256 ^ 8
  pub current : length s.current_state_hash < 256 ^ 8

-- A length-prefixed field is read back, whatever follows it.
lp-cancel :
    (f g r s : Bytes)
    → length f < 256 ^ 8
    → length g < 256 ^ 8
    → lp f ++ r ≡ lp g ++ s
    → (f ≡ g) × (r ≡ s)
unfolding lp
lp-cancel f g r s hf hg e =
    let e' : le_bytes 8 (length f) ++ (f ++ r) ≡ le_bytes 8 (length g) ++ (g ++ s) =
      sym (append_assoc (le_bytes 8 (length f)) f r)
      ∙ e
      ∙ append_assoc (le_bytes 8 (length g)) g s in
    let (lengths, rest) =
      append-cancel (le_bytes 8 (length f)) (le_bytes 8 (length g)) (f ++ r) (g ++ s)
        (length-le_bytes 8 (length f) ∙ sym (length-le_bytes 8 (length g))) e' in
    append-cancel f g r s (le_bytes-injective 8 (length f) (length g) hf hg lengths) rest

lp-injective : (f g : Bytes) → length f < 256 ^ 8 → length g < 256 ^ 8 → lp f ≡ lp g → f ≡ g
lp-injective f g hf hg e = (lp-cancel f g [] [] hf hg (ap (λ t. t ++ []) e)).0

tag-injective : (a b : StateObjectType) → tag a ≡ tag b → a ≡ b
unfolding tag text
tag-injective keystore keystore e = refl
tag-injective contacts contacts e = refl
tag-injective registry registry e = refl
tag-injective vault_manifest vault_manifest e = refl
tag-injective _ _ e = ground arith

length-tag : (a : StateObjectType) → length (tag a) < 256 ^ 8
unfolding tag text
length-tag keystore = omega arith
length-tag _ = omega arith

word-sized : (w n : ℕ) → w < 256 ^ 8 → length (le_bytes w n) < 256 ^ 8
word-sized w n h = rw (length-le_bytes w n) h

-- The five fields that both encodings begin with, and what follows them.
abbrev binding : StateMetadata → Bytes → Bytes
binding s rest =
    lp s.identity_fingerprint
    ++ (lp (tag s.object_type)
        ++ (lp s.object_id ++ (lp (le_bytes 2 s.suite_id) ++ (lp (le_bytes 8 s.epoch) ++ rest))))

pub record SameBinding (s t : StateMetadata) : Type 0 where
  pub fingerprint : s.identity_fingerprint ≡ t.identity_fingerprint
  pub object_type : s.object_type ≡ t.object_type
  pub object_id : s.object_id ≡ t.object_id
  pub suite_id : s.suite_id ≡ t.suite_id
  pub epoch : s.epoch ≡ t.epoch

binding-injective :
    (s t : StateMetadata) (q r : Bytes)
    → IsSized s
    → IsSized t
    → binding s q ≡ binding t r
    → SameBinding s t × (q ≡ r)
binding-injective s t q r hs ht e =
    let (fingerprint, e₁) = lp-cancel _ _ _ _ hs.fingerprint ht.fingerprint e in
    let (kind, e₂) = lp-cancel _ _ _ _ (length-tag s.object_type) (length-tag t.object_type) e₁ in
    let (object_id, e₃) = lp-cancel _ _ _ _ hs.object_id ht.object_id e₂ in
    let (suite, e₄) =
      lp-cancel _ _ _ _ (word-sized 2 s.suite_id (omega arith))
        (word-sized 2 t.suite_id (omega arith)) e₃ in
    let (epoch, e₅) =
      lp-cancel _ _ _ _ (word-sized 8 s.epoch (omega arith)) (word-sized 8 t.epoch (omega arith))
        e₄ in
    (
      record {
        fingerprint = fingerprint;
        object_type = tag-injective s.object_type t.object_type kind;
        object_id = object_id;
        suite_id = le_bytes-injective 2 s.suite_id t.suite_id hs.suite_id ht.suite_id suite;
        epoch = le_bytes-injective 8 s.epoch t.epoch hs.epoch ht.epoch epoch;
      },
      e₅,
    )

-- Two metadata records with the same authenticated data are the same record: every field is bound
-- by what is authenticated, and no two records can be taken for one another.
pub authenticated_data-injective :
    (s t : StateMetadata)
    → IsSized s
    → IsSized t
    → authenticated_data s ≡ authenticated_data t
    → s ≡ t
unfolding authenticated_data
authenticated_data-injective s t hs ht e =
    let (same, hashes) = binding-injective s t _ _ hs ht (append-cancel _ _ _ _ refl e).1 in
    let (previous, last) = lp-cancel _ _ _ _ hs.previous ht.previous hashes in
    let current = lp-injective _ _ hs.current ht.current last in
    λ i. record {
      identity_fingerprint = same.fingerprint i;
      object_type = same.object_type i;
      object_id = same.object_id i;
      suite_id = same.suite_id i;
      epoch = same.epoch i;
      previous_state_hash = previous i;
      current_state_hash = current i;
    }

-- The bytes that are hashed determine the payload and the binding.
hash_input-injective :
    (s t : StateMetadata) (p q : Bytes)
    → IsSized s
    → IsSized t
    → length p < 256 ^ 8
    → length q < 256 ^ 8
    → hash_input s p ≡ hash_input t q
    → SameBinding s t × (s.previous_state_hash ≡ t.previous_state_hash) × (p ≡ q)
unfolding hash_input
hash_input-injective s t p q hs ht hp hq e =
    let (same, rest) = binding-injective s t _ _ hs ht (append-cancel _ _ _ _ refl e).1 in
    let (previous, last) = lp-cancel _ _ _ _ hs.previous ht.previous rest in
    (same, previous, lp-injective p q hp hq last)

module _ (blake3 : Bytes → Bytes) where
  -- A state hash commits to its state: if two records with the same current hash verify, one for each of two
  -- payloads, then the payloads are the same and the records agree in the owner's fingerprint, the type and
  -- id of the object, the suite, the epoch and the hash of the state before, or the two exhibit a collision
  -- of the hash function.
  pub verify_payload-binding :
      (s t : StateMetadata) (p q : Bytes)
      → IsSized s
      → IsSized t
      → length p < 256 ^ 8
      → length q < 256 ^ 8
      → s.current_state_hash ≡ t.current_state_hash
      → verify_payload blake3 s p ≡ ok tt
      → verify_payload blake3 t q ≡ ok tt
      → (SameBinding s t × (s.previous_state_hash ≡ t.previous_state_hash) × (p ≡ q))
        ⊎ ((x : Bytes) × (y : Bytes) × (x ≢ y) × (blake3 x ≡ blake3 y))
  unfolding verify_payload expected_hash
  verify_payload-binding s t p q hs ht hp hq same vp vq =
      elim (Bool-cases (text_eq (hash_input s p) (hash_input t q))) [
        | inl e ↦ inl (
            hash_input-injective s t p q hs ht hp hq
              ((text_eq_iff (hash_input s p) (hash_input t q)).0 e))
        | inr differ ↦ inr (
          hash_input s p,
          hash_input t q,
          text_eq-ne (hash_input s p) (hash_input t q) differ,
          ground (
            arith,
            same,
            text_eq_iff s.current_state_hash (blake3 (hash_input s p)),
            text_eq_iff t.current_state_hash (blake3 (hash_input t q)),
          ),
        )
      ]
