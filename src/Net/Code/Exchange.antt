-- ===== src/Net/Code/Exchange.antt =====
-- crates/filesec-gui/src/net/mod.rs: the code that is shown is the code that is read.
use file_sec.Prelude.{
  List, ◌==◌, sym, ◌%◌, none, ◌↔◌, Bool-cases, Option-cases, inl, inr, Text, ℕ, ◌%◌, ◌≡◌, ◌<◌, refl,
  ap, ◌∙◌, some, [], ◌∷◌, ◌++◌, All, length, ++-assoc, ==_iff, arith,
}
use file_sec.State.{Bytes}
use file_sec.Net.Code.{
  decoded, values, symbols, transfer_secret_len, secret_symbols, encode_transfer_secret,
  display_transfer_code, decode_symbols, decode_loop, decode_transfer_code,
}
use file_sec.Net.Code.Symbols.{
  IsFiveBits, decode_symbols-grouped, decode_symbols-symbols, values-IsFiveBits,
}
use file_sec.Net.Code.Canonical.{some_injective, decode_symbols-IsFiveBits, octet_lem, last_two_lem}
use file_sec.Net.Code.Groups.{IsByte, at_group, group_lem, end_lem}

not_some_lem : {A : Type 0} {a : A} → none ≡ some a → ⊥
not_some_lem h = cc

one_left :
    (bytes : Bytes) → length bytes ≡ 1 → All IsByte bytes → (a : ℕ) × (bytes ≡ a ∷ []) × (a < 256)
one_left [] h bounds = absurd (omega arith)
one_left (a ∷ []) h bounds = (a, refl, bounds.0)
one_left (a ∷ b ∷ bytes) h bounds = absurd (omega arith)

-- What the loop over the symbols of a secret ends with.
record IsDecoded (bytes : Bytes) : Type 0 where
  left : ℕ
  padding : left % 4 ≡ 0
  count : length (values bytes 0 0) ≡ secret_symbols
  ends :
      decode_loop (values bytes 0 0) (at_group 0 [] 0)
      ≡ record { idx = transfer_secret_len; out = bytes; buffer = left; bits = 2 }

bytes-IsDecoded :
    (bytes : Bytes) → length bytes ≡ transfer_secret_len → All IsByte bytes → IsDecoded bytes
bytes-IsDecoded bytes size bounds =
    let g1 = group_lem 0 0 0 [] bytes (omega arith) (omega arith) bounds in
    let l1 = g1.left in
    let g2 =
      group_lem 5 g1.full_after g1.coded_after g1.group g1.rest (omega arith) (omega arith)
        g1.rest_bytes in
    let l2 = g2.left in
    let g3 =
      group_lem 10 g2.full_after g2.coded_after (g1.group ++ g2.group) g2.rest (omega arith)
        (omega arith) g2.rest_bytes in
    let l3 = g3.left in
    let (a, last, ha) = one_left g3.rest (omega arith) g3.rest_bytes in
    let front = (g1.group ++ g2.group) ++ g3.group in
    let (two, (r, ends, padding)) =
      end_lem 15 g3.full_after g3.coded_after a front (omega arith) ha in
    let all_of : front ++ a ∷ [] ≡ bytes =
      rw
        (
          ++-assoc (g1.group ++ g2.group) g3.group (a ∷ []),
          ← last,
          g3.whole,
          ++-assoc g1.group g2.group g2.rest,
          g2.whole,
        )
        g1.whole in
    record {
      left = r;
      padding = padding;
      count = omega (
        arith,
        g1.symbols_before,
        g2.symbols_before,
        g3.symbols_before,
        ap (λ x. length (values x g3.full_after 0)) last,
        two,
      );
      ends =
          g1.decodes
          ∙ g2.decodes
          ∙ g3.decodes
          ∙ ap (λ x. decode_loop (values x g3.full_after 0) (at_group 15 front g3.coded_after)) last
          ∙ ends
          ∙ ap (λ x. record { idx = transfer_secret_len; out = x; buffer = r; bits = 2 }) all_of;
    }

-- What is decoded has the symbols that it was decoded from.
canonical_lem :
    (vs : List ℕ) (bytes : Bytes)
    → length vs ≡ secret_symbols
    → All IsFiveBits vs
    → decoded (decode_loop vs (at_group 0 [] 0)) ≡ some bytes
    → vs ≡ values bytes 0 0
canonical_lem vs bytes count bits h =
    let o1 = octet_lem 0 0 [] vs (omega arith) (omega arith) bits in
    let l1 = o1.left in
    let o2 = octet_lem 5 o1.coded_after o1.group o1.rest (omega arith) (omega arith) o1.rest_bits in
    let l2 = o2.left in
    let o3 =
      octet_lem 10 o2.coded_after (o1.group ++ o2.group) o2.rest (omega arith) (omega arith)
        o2.rest_bits in
    let l3 = o3.left in
    let front = (o1.group ++ o2.group) ++ o3.group in
    let e = last_two_lem 15 o3.coded_after front o3.rest (omega arith) (omega arith) o3.rest_bits in
    let ends = o1.decodes ∙ o2.decodes ∙ o3.decodes ∙ e.decodes in
    elim (Bool-cases (e.rest % 4 == 0)) [
      | inr odd ↦ absurd (not_some_lem (rw (ends, odd) at h))
      | inl even ↦
          let b2 = o1.full_after 0 in
          let b3 = o2.full_after b2 in
          let last = e.again (o3.full_after b3) ((==_iff (e.rest % 4) 0).0 even) in
          let all_of =
            o1.again (o2.group ++ (o3.group ++ e.byte ∷ [])) 0
              (o2.again (o3.group ++ e.byte ∷ []) b2 (o3.again (e.byte ∷ []) b3 last)) in
          let same : front ++ e.byte ∷ [] ≡ bytes = some_injective (rw (ends, even) at h) in
          all_of
          ∙ ap (λ x. values x 0 0)
              (sym (++-assoc o1.group o2.group (o3.group ++ e.byte ∷ []))
                ∙ sym (++-assoc (o1.group ++ o2.group) o3.group (e.byte ∷ []))
                ∙ same)
    ]

decode_transfer_code_complete :
    (s : Text) (bytes : Bytes)
    → decode_transfer_code s ≡ some bytes
    → decode_symbols s ≡ some (values bytes 0 0)
unfolding decode_transfer_code
decode_transfer_code_complete s bytes h = elim (Option-cases (decode_symbols s)) [
  | inl e ↦ absurd (not_some_lem (rw (decode_transfer_code, e) at h))
  | inr (vs, e) ↦ elim (Bool-cases (length vs == secret_symbols)) [
    | inr other ↦ absurd (not_some_lem (rw (decode_transfer_code, e, other) at h))
    | inl size ↦
        let same =
          canonical_lem vs bytes ((==_iff (length vs) secret_symbols).0 size)
            (decode_symbols-IsFiveBits s vs e) (rw (decode_transfer_code, e, size) at h) in
        e ∙ ap (λ x. some x) same
  ]
]

decode_transfer_code_sound :
    (s : Text) (bytes : Bytes)
    → length bytes ≡ transfer_secret_len
    → All IsByte bytes
    → decode_symbols s ≡ some (values bytes 0 0)
    → decode_transfer_code s ≡ some bytes
unfolding decode_transfer_code
decode_transfer_code_sound s bytes size bounds read =
    let d = bytes-IsDecoded bytes size bounds in
    rw
      (
        decode_transfer_code,
        read,
        (==_iff (length (values bytes 0 0)) secret_symbols).1 d.count,
        d.ends,
        (==_iff (d.left % 4) 0).1 d.padding,
      )
      refl

-- The code that is displayed for a secret of sixteen bytes is read as this secret, and it is its only spelling:
-- a text is read as the secret if and only if it has the symbols of that code, separators, letter case and
-- look-alikes aside.
pub decode_transfer_code-display_transfer_code :
    (bytes : Bytes) (s : Text)
    → length bytes ≡ transfer_secret_len
    → All IsByte bytes
    → (decode_transfer_code (display_transfer_code bytes) ≡ some bytes)
      × ((decode_transfer_code s ≡ some bytes)
          ↔ (decode_symbols s ≡ decode_symbols (display_transfer_code bytes)))
unfolding display_transfer_code encode_transfer_secret
decode_transfer_code-display_transfer_code bytes s size bounds =
    let vs = values bytes 0 0 in
    let shown : decode_symbols (display_transfer_code bytes) ≡ some vs =
      decode_symbols-grouped 0 (symbols vs)
      ∙ decode_symbols-symbols vs (values-IsFiveBits bytes 0 0) in
    (
      decode_transfer_code_sound (display_transfer_code bytes) bytes size bounds shown,
      (
        (λ h. decode_transfer_code_complete s bytes h ∙ sym shown),
        (λ h. decode_transfer_code_sound s bytes size bounds (h ∙ shown)),
      ),
    )
