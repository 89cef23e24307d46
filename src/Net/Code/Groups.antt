-- ===== src/Net/Code/Groups.antt =====
-- crates/filesec-gui/src/net/mod.rs: five bytes of a secret through both buffers, and the byte behind them.
use file_sec.Prelude.{
  ℕ, All, length, suc, ◌+◌, ◌*◌, ◌/◌, ◌%◌, ◌≡◌, ◌≤◌, ◌<◌, refl, [], ◌∷◌, ◌++◌, arith,
}
use file_sec.State.{Bytes}
use file_sec.Net.Code.{Decoding, shifted, values, decode_loop}
use file_sec.Net.Code.Buffer.{
  full, one_byte, values_five, two_symbols, coded_four, pushed, decode_eight,
}

abbrev pub IsByte : ℕ → Type 0
IsByte b = b < 256

-- The state of the decoding at the start of a group.
abbrev pub at_group : ℕ → Bytes → ℕ → Decoding
at_group i out buffer = record { idx = i; out = out; buffer = buffer; bits = 0 }

-- The next five bytes, which go through both buffers.
pub record IsGroup (i : ℕ) (out bytes : Bytes) (buffer coded : ℕ) : Type 0 where
  pub group : Bytes
  pub rest : Bytes
  pub whole : group ++ rest ≡ bytes
  pub left : 5 + length rest ≡ length bytes
  pub rest_bytes : All IsByte rest
  pub full_after : ℕ
  pub coded_after : ℕ
  pub decodes :
      decode_loop (values bytes buffer 0) (at_group i out coded)
      ≡ decode_loop
          (values rest full_after 0)
          (at_group (suc (suc (suc (suc (suc i))))) (out ++ group) coded_after)
  pub symbols_before : length (values bytes buffer 0) ≡ 8 + length (values rest full_after 0)

pub group_lem :
    (i buffer coded : ℕ) (out bytes : Bytes)
    → i + 5 ≤ 16
    → 5 ≤ length bytes
    → All IsByte bytes
    → IsGroup i out bytes buffer coded
group_lem i buffer coded out [] room h bounds = absurd (omega arith)
group_lem i buffer coded out (a ∷ []) room h bounds = absurd (omega arith)
group_lem i buffer coded out (a ∷ b ∷ []) room h bounds = absurd (omega arith)
group_lem i buffer coded out (a ∷ b ∷ c ∷ []) room h bounds = absurd (omega arith)
group_lem i buffer coded out (a ∷ b ∷ c ∷ d ∷ []) room h bounds = absurd (omega arith)
group_lem i buffer coded out (a ∷ b ∷ c ∷ d ∷ e ∷ rest) room h (ha, (hb, (hc, (hd, (he, hs))))) =
    let v = values_five buffer a b c d e rest ha hb hc hd he in
    let x0 : a / 8 * 8 + (a % 8 * 4 + b / 64) / 4 ≡ a = omega arith in
    let x1 : (a % 8 * 4 + b / 64) % 4 * 64 + b / 2 % 32 * 2 + (b % 2 * 16 + c / 16) / 16 ≡ b =
      omega arith in
    let x2 : (b % 2 * 16 + c / 16) % 16 * 16 + (c % 16 * 2 + d / 128) / 2 ≡ c = omega arith in
    let x3 : (c % 16 * 2 + d / 128) % 2 * 128 + d / 4 % 32 * 4 + (d % 4 * 8 + e / 32) / 8 ≡ d =
      omega arith in
    let x4 : (d % 4 * 8 + e / 32) % 8 * 32 + e % 32 ≡ e = omega arith in
    let after = values rest (full buffer a b c d e) 0 in
    let eight =
      decode_eight i coded (a / 8) (a % 8 * 4 + b / 64) (b / 2 % 32) (b % 2 * 16 + c / 16)
        (c % 16 * 2 + d / 128) (d / 4 % 32) (d % 4 * 8 + e / 32) (e % 32) out after room
        (omega arith) (omega arith) (omega arith) (omega arith) (omega arith) (omega arith)
        (omega arith) (omega arith) in
    record {
      group = a ∷ b ∷ c ∷ d ∷ e ∷ [];
      rest = rest;
      whole = refl;
      left = omega arith;
      rest_bytes = hs;
      full_after = full buffer a b c d e;
      coded_after =
          coded_four
            (coded_four coded (a / 8) (a % 8 * 4 + b / 64) (b / 2 % 32) (b % 2 * 16 + c / 16))
            (c % 16 * 2 + d / 128) (d / 4 % 32) (d % 4 * 8 + e / 32) (e % 32);
      decodes = rw v (rw (x0, x1, x2, x3, x4) at eight);
      symbols_before = rw v (omega arith);
    }

-- The byte behind the groups, and the padding.
pub end_lem :
    (i buffer coded a : ℕ) (out : Bytes)
    → i < 16
    → a < 256
    → (length (values (a ∷ []) buffer 0) ≡ 2)
      × ((r : ℕ) × (decode_loop (values (a ∷ []) buffer 0) (at_group i out coded)
            ≡ record { idx = suc i; out = out ++ a ∷ []; buffer = r; bits = 2 })
          × (r % 4 ≡ 0))
unfolding values decode_loop
end_lem i buffer coded a out room ha =
    let b1 = shifted 8 buffer a in
    let t = one_byte buffer a a ha ha in
    let v0 : b1 / 8 % 32 ≡ a / 8 = omega (arith, t) in
    let v1 : b1 * 4 % 4294967296 % 32 ≡ a % 8 * 4 = omega (arith, t) in
    let c1 = shifted 5 (shifted 5 coded (a / 8)) (a % 8 * 4) in
    let s = two_symbols coded (a / 8) (a % 8 * 4) 0 (omega arith) (omega arith) (omega arith) in
    let x : c1 / 4 % 256 ≡ a = omega (arith, s) in
    (
      refl,
      (
        c1,
        rw (v0, v1) (pushed i (shifted 5 coded (a / 8)) 5 (a % 8 * 4) a out room refl x),
        omega (arith, s),
      ),
    )
