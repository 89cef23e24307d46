-- ===== src/Net/Code/Canonical.antt =====
-- crates/filesec-gui/src/net/mod.rs: a secret has one spelling as symbols.
use file_sec.Prelude.{
  subst, ℕ, suc, ◌+◌, ◌*◌, ◌/◌, ◌%◌, ◌≡◌, ◌≤◌, ◌<◌, refl, sym, ◌∙◌, Option, none, some, List, [],
  ◌∷◌, ◌++◌, All, length, inl, inr, Bool-cases, Option-cases, text, Text, arith,
}
use file_sec.State.{Bytes}
use file_sec.Contacts.Cards.{to_ascii_uppercase}
use file_sec.Net.Code.{
  shifted, values, crockford, look_alike, position, decode_symbol, decode_symbols, is_separator,
  and_then_symbol, decode_loop,
}
use file_sec.Net.Code.Symbols.{IsFiveBits}
use file_sec.Net.Code.Buffer.{
  full, coded_four, values_five, decode_eight, pushed, two_symbols, one_byte,
}
use file_sec.Net.Code.Groups.{at_group}

position-bound : (c : ℕ) (s : Text) (p : ℕ) → position c s ≡ some p → p < length s
unfolding position
position-bound c [] p h = absurd (cc)
position-bound c (a ∷ s) p h = elim (Option-cases (position c s)) [
  | inl e ↦ ground (arith, e)
  | inr (q, e) ↦ let below = position-bound c s q e in ground (arith, e, below)
]

decode_symbol-IsFiveBits : (c v : ℕ) → decode_symbol c ≡ some v → v < 32
unfolding decode_symbol text
decode_symbol-IsFiveBits c v h = position-bound (look_alike (to_ascii_uppercase c)) crockford v h

pub some_injective {ℓ} : {A : Type ℓ} {a b : A} → some a ≡ some b → a ≡ b
some_injective h = cc

and_then_lem :
    (found : Option ℕ) (behind : Option (List ℕ)) (vs : List ℕ)
    → ((v : ℕ) → found ≡ some v → v < 32)
    → ((ws : List ℕ) → behind ≡ some ws → All IsFiveBits ws)
    → and_then_symbol found behind ≡ some vs
    → All IsFiveBits vs
and_then_lem none behind vs f b h = absurd (cc)
and_then_lem (some v) none vs f b h = absurd (cc)
and_then_lem (some v) (some ws) vs f b h =
    subst (All IsFiveBits) (some_injective h) (f v refl, b ws refl)

pub decode_symbols-IsFiveBits :
    (s : Text) (vs : List ℕ) → decode_symbols s ≡ some vs → All IsFiveBits vs
unfolding decode_symbols
decode_symbols-IsFiveBits [] vs h = subst (All IsFiveBits) (some_injective h) tt
decode_symbols-IsFiveBits (c ∷ s) vs h = elim (Bool-cases (is_separator c)) [
  | inl separates ↦ decode_symbols-IsFiveBits s vs (rw separates at h)
  | inr counts ↦
      and_then_lem (decode_symbol c) (decode_symbols s) vs (decode_symbol-IsFiveBits c)
        (decode_symbols-IsFiveBits s) (rw counts at h)
]

-- The next eight symbols, which are those of the bytes that they give.
pub record IsOctet (i : ℕ) (out : Bytes) (vs : List ℕ) (coded : ℕ) : Type 0 where
  pub group : Bytes
  pub rest : List ℕ
  pub left : 8 + length rest ≡ length vs
  pub rest_bits : All IsFiveBits rest
  pub coded_after : ℕ
  pub decodes :
      decode_loop vs (at_group i out coded)
      ≡ decode_loop rest (at_group (suc (suc (suc (suc (suc i))))) (out ++ group) coded_after)
  pub full_after : ℕ → ℕ
  pub again :
      (bytes : Bytes) (buffer : ℕ)
      → rest ≡ values bytes (full_after buffer) 0
      → vs ≡ values (group ++ bytes) buffer 0

pub octet_lem :
    (i coded : ℕ) (out : Bytes) (vs : List ℕ)
    → i + 5 ≤ 16
    → 8 ≤ length vs
    → All IsFiveBits vs
    → IsOctet i out vs coded
octet_lem i coded out [] room h bits = absurd (omega arith)
octet_lem i coded out (a ∷ []) room h bits = absurd (omega arith)
octet_lem i coded out (a ∷ b ∷ []) room h bits = absurd (omega arith)
octet_lem i coded out (a ∷ b ∷ c ∷ []) room h bits = absurd (omega arith)
octet_lem i coded out (a ∷ b ∷ c ∷ d ∷ []) room h bits = absurd (omega arith)
octet_lem i coded out (a ∷ b ∷ c ∷ d ∷ e ∷ []) room h bits = absurd (omega arith)
octet_lem i coded out (a ∷ b ∷ c ∷ d ∷ e ∷ f ∷ []) room h bits = absurd (omega arith)
octet_lem i coded out (a ∷ b ∷ c ∷ d ∷ e ∷ f ∷ g ∷ []) room h bits = absurd (omega arith)
octet_lem i coded out (s0 ∷ s1 ∷ s2 ∷ s3 ∷ s4 ∷ s5 ∷ s6 ∷ s7 ∷ rest) room h
      (h0, (h1, (h2, (h3, (h4, (h5, (h6, (h7, hs)))))))) =
    let a = s0 * 8 + s1 / 4 in
    let b = s1 % 4 * 64 + s2 * 2 + s3 / 16 in
    let c = s3 % 16 * 16 + s4 / 2 in
    let d = s4 % 2 * 128 + s5 * 4 + s6 / 8 in
    let e = s6 % 8 * 32 + s7 in
    let x0 : a / 8 ≡ s0 = omega arith in
    let x1 : a % 8 * 4 + b / 64 ≡ s1 = omega arith in
    let x2 : b / 2 % 32 ≡ s2 = omega arith in
    let x3 : b % 2 * 16 + c / 16 ≡ s3 = omega arith in
    let x4 : c % 16 * 2 + d / 128 ≡ s4 = omega arith in
    let x5 : d / 4 % 32 ≡ s5 = omega arith in
    let x6 : d % 4 * 8 + e / 32 ≡ s6 = omega arith in
    let x7 : e % 32 ≡ s7 = omega arith in
    record {
      group = a ∷ b ∷ c ∷ d ∷ e ∷ [];
      rest = rest;
      left = omega arith;
      rest_bits = hs;
      coded_after = coded_four (coded_four coded s0 s1 s2 s3) s4 s5 s6 s7;
      decodes = decode_eight i coded s0 s1 s2 s3 s4 s5 s6 s7 out rest room h0 h1 h2 h3 h4 h5 h6 h7;
      full_after = λ buffer. full buffer a b c d e;
      again = λ bytes buffer same. sym (
          values_five buffer a b c d e bytes (omega arith) (omega arith) (omega arith) (omega arith)
            (omega arith)
          ∙ rw (x0, x1, x2, x3, x4, x5, x6, x7, ← same) refl);
    }

-- The last two symbols: the byte that they give has them again if the padding is zero.
pub record IsEnd (i : ℕ) (out : Bytes) (vs : List ℕ) (coded : ℕ) : Type 0 where
  pub byte : ℕ
  is_byte : byte < 256
  pub rest : ℕ
  pub decodes :
      decode_loop vs (at_group i out coded)
      ≡ record { idx = suc i; out = out ++ byte ∷ []; buffer = rest; bits = 2 }
  pub again : (buffer : ℕ) → rest % 4 ≡ 0 → vs ≡ values (byte ∷ []) buffer 0

pub last_two_lem :
    (i coded : ℕ) (out : Bytes) (vs : List ℕ)
    → i < 16
    → length vs ≡ 2
    → All IsFiveBits vs
    → IsEnd i out vs coded
unfolding values decode_loop
last_two_lem i coded out [] room h bits = absurd (omega arith)
last_two_lem i coded out (s ∷ []) room h bits = absurd (omega arith)
last_two_lem i coded out (s ∷ t ∷ u ∷ vs) room h bits = absurd (omega arith)
last_two_lem i coded out (s ∷ t ∷ []) room h (hs, (ht, done)) =
    let a = s * 8 + t / 4 in
    let ha : a < 256 = omega arith in
    let c1 = shifted 5 (shifted 5 coded s) t in
    let two = two_symbols coded s t t hs ht ht in
    let x : c1 / 4 % 256 ≡ a = omega (arith, two) in
    record {
      byte = a;
      is_byte = ha;
      rest = c1;
      decodes = pushed i (shifted 5 coded s) 5 t a out room refl x;
      again = λ buffer padding.
          let b1 = shifted 8 buffer a in
          let low = one_byte buffer a a ha ha in
          let v0 : b1 / 8 % 32 ≡ s = omega (arith, low) in
          let v1 : b1 * 4 % 4294967296 % 32 ≡ t = omega (arith, low, two, padding) in
          rw (v0, v1) refl;
    }
