-- ===== src/Contacts/Book.antt =====
-- The contact book (crates/filesec-core/src/contacts.rs): what a change does to the contact that is found
-- under each fingerprint.
use file_sec.Prelude.{
  ℤ, ◌≡◌, refl, ap, none, some, List, [], ◌∷◌, ◌++◌, if◌then◌else◌, Bool-cases, Option-cases, inl,
  inr, text_eq, text_eq_iff, arith,
}
use file_sec.State.{Bytes}
use file_sec.Contacts.{
  PublicIdentity, Contact, Trust, unverified, fingerprint_input, fingerprint, find, update, named,
  upsert, verified_time, set_trust, without, remove,
}

module _ (blake3 : Bytes → Bytes) where
  -- The display name is not part of the fingerprint.
  fingerprint-named :
      (i : PublicIdentity) → fingerprint blake3 (named blake3 i) ≡ fingerprint blake3 i
  unfolding fingerprint fingerprint_input
  fingerprint-named i = refl

  -- A change that keeps the fingerprint changes the contact that is found there, and no other.
  find-update :
      (fpr : Bytes) (change : Contact → Contact) (q : Bytes) (cs : List Contact)
      → ((c : Contact)
          → fingerprint blake3 c.identity ≡ fpr
          → fingerprint blake3 (change c).identity ≡ fpr)
      → find blake3 q (update blake3 fpr change cs) ≡ (elim (find blake3 q cs) [
        | none ↦ none
        | some c ↦ some (if text_eq q fpr then change c else c)
      ])
  unfolding find update
  find-update fpr change q [] keeps = refl
  find-update fpr change q (c ∷ cs) keeps =
      elim (Bool-cases (text_eq (fingerprint blake3 c.identity) fpr)) [
        | inl same ↦
            let at : fingerprint blake3 c.identity ≡ fpr =
              (text_eq_iff (fingerprint blake3 c.identity) fpr).0 same in
            let kept : fingerprint blake3 (change c).identity ≡ fpr = keeps c at in
            elim (Option-cases (find blake3 q cs)) [
              | inl missing ↦
                  ground (arith, at, kept, missing, text_eq_iff fpr q, text_eq_iff q fpr)
              | inr (d, found) ↦
                  ground (arith, at, kept, found, text_eq_iff fpr q, text_eq_iff q fpr)
            ]
        | inr other ↦ ground (
          arith,
          find-update fpr change q cs keeps,
          text_eq_iff (fingerprint blake3 c.identity) q,
          text_eq_iff q fpr,
          text_eq_iff (fingerprint blake3 c.identity) fpr,
        )
      ]

  find-push :
      (q : Bytes) (cs : List Contact) (c : Contact)
      → find blake3 q (cs ++ c ∷ []) ≡ (elim (find blake3 q cs) [
        | some x ↦ some x
        | none ↦ if text_eq (fingerprint blake3 c.identity) q then some c else none
      ])
  unfolding find
  find-push q [] c = refl
  find-push q (x ∷ cs) c = ground (arith, find-push q cs c)

  find-without :
      (fpr q : Bytes) (cs : List Contact)
      → find blake3 q (without blake3 fpr cs) ≡ (if text_eq q fpr then none else find blake3 q cs)
  unfolding find without
  find-without fpr q [] = ground arith
  find-without fpr q (c ∷ cs) = ground (
    arith,
    find-without fpr q cs,
    text_eq_iff (fingerprint blake3 c.identity) fpr,
    text_eq_iff (fingerprint blake3 c.identity) q,
    text_eq_iff q fpr,
  )

  abbrev new_contact : PublicIdentity → ℤ → Contact
  new_contact raw now = record {
    identity = named blake3 raw;
    trust = unverified;
    added_at = now;
    verified_at = none;
  }

  upsert-none :
      (raw : PublicIdentity) (now : ℤ) (cs : List Contact)
      → find blake3 (fingerprint blake3 (named blake3 raw)) cs ≡ none
      → (upsert blake3 raw now cs).1 ≡ cs ++ new_contact raw now ∷ []
  unfolding upsert
  upsert-none raw now cs h = rw (h, upsert)

  upsert-some :
      (raw : PublicIdentity) (now : ℤ) (cs : List Contact) (d : Contact)
      → find blake3 (fingerprint blake3 (named blake3 raw)) cs ≡ some d
      → (upsert blake3 raw now cs).1
        ≡ update blake3
            (fingerprint blake3 (named blake3 raw))
            (λ c. record c { identity = named blake3 raw })
            cs
  unfolding upsert
  upsert-some raw now cs d h = rw (h, upsert)

  -- After an import, the contact under the fingerprint of the imported keys has the imported identity
  -- with its name sanitized; its trust, the time it was added and the time it was verified are those that
  -- it had, or it is new and unverified. Every other contact is as it was.
  find-upsert :
      (raw : PublicIdentity) (now : ℤ) (cs : List Contact) (q : Bytes)
      → find blake3 q (upsert blake3 raw now cs).1 ≡ (
          if text_eq q (fingerprint blake3 raw)
          then some (elim (find blake3 (fingerprint blake3 raw) cs) [
            | some c ↦ record c { identity = named blake3 raw }
            | none ↦ record {
              identity = named blake3 raw;
              trust = unverified;
              added_at = now;
              verified_at = none;
            }
          ])
          else find blake3 q cs)
  find-upsert raw now cs q = elim (Option-cases (find blake3 (fingerprint blake3 raw) cs)) [
    | inl missing ↦
        let there : find blake3 (fingerprint blake3 (named blake3 raw)) cs ≡ none =
          rw (fingerprint-named raw) missing in
        ground (
          arith,
          missing,
          ap (find blake3 q) (upsert-none raw now cs there),
          fingerprint-named raw,
          find-push q cs (new_contact raw now),
          text_eq_iff q (fingerprint blake3 raw),
          text_eq_iff (fingerprint blake3 raw) q,
        )
    | inr (d, found) ↦
        let there : find blake3 (fingerprint blake3 (named blake3 raw)) cs ≡ some d =
          rw (fingerprint-named raw) found in
        ground (
          arith,
          found,
          ap (find blake3 q) (upsert-some raw now cs d there),
          fingerprint-named raw,
          find-update (fingerprint blake3 (named blake3 raw))
              (λ c. record c { identity = named blake3 raw }) q cs (λ c h. refl),
          text_eq_iff q (fingerprint blake3 raw),
        )
  ]

  -- After a trust level is set, the contact under that fingerprint has it, with the time of the
  -- verification or none; its identity and the other contacts are as they were.
  pub find-set_trust :
      (fpr : Bytes) (trust : Trust) (now : ℤ) (cs : List Contact) (q : Bytes)
      → find blake3 q (set_trust blake3 fpr trust now cs).1 ≡ (elim (find blake3 q cs) [
        | none ↦ none
        | some c ↦ some (
            if text_eq q fpr
            then record c { trust = trust; verified_at = verified_time blake3 trust now }
            else c)
      ])
  unfolding set_trust
  find-set_trust fpr trust now cs q = elim (Option-cases (find blake3 fpr cs)) [
    | inl missing ↦ elim (Option-cases (find blake3 q cs)) [
      | inl none_there ↦ rw (missing, set_trust, none_there)
      | inr (c, there) ↦ elim (Bool-cases (text_eq q fpr)) [
        | inl same ↦
            absurd (cc (there, missing, ap (λ x. find blake3 x cs) ((text_eq_iff q fpr).0 same)))
        | inr other ↦ rw (missing, set_trust, there, other)
      ]
    ]
    | inr (d, found) ↦
        rw (found, set_trust)
          (find-update fpr
            (λ c. record c { trust = trust; verified_at = verified_time blake3 trust now }) q cs
            (λ c h. h))
  ]

  -- A contact that is removed is found no more, whatever duplicates the book had; the others are as they
  -- were.
  pub find-remove :
      (fpr q : Bytes) (cs : List Contact)
      → find blake3 q (remove blake3 fpr cs).1 ≡ (if text_eq q fpr then none else find blake3 q cs)
  unfolding remove
  find-remove fpr q cs = find-without fpr q cs
