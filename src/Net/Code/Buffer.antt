-- ===== src/Net/Code/Buffer.antt =====
-- crates/filesec-gui/src/net/mod.rs: the two buffers of the code of a transfer, five bytes and eight symbols
-- at a time.
use file_sec.Prelude.{
  ℕ, suc, ap, ◌∙◌, leb, ◌^◌, ◌-◌, ltb, ◌+◌, ◌*◌, ◌/◌, ◌%◌, ◌≡◌, ◌≤◌, ◌<◌, refl, true, List, [], ◌∷◌,
  ◌++◌, ltb, arith,
}
use file_sec.State.{Bytes}
use file_sec.Net.Code.{after_symbol, shifted, values, decode_loop, transfer_secret_len}

-- The buffer behind five bytes, and behind eight symbols.
abbrev pub full : ℕ → ℕ → ℕ → ℕ → ℕ → ℕ → ℕ
full buffer a b c d e = shifted 8 (shifted 8 (shifted 8 (shifted 8 (shifted 8 buffer a) b) c) d) e

module _ (buffer a b : ℕ) (ha : a < 256) (hb : b < 256) where
  -- The last byte, and the last two.
  pub one_byte : shifted 8 buffer a % 256 ≡ a
  one_byte = omega arith

  two_bytes : shifted 8 (shifted 8 buffer a) b % 65536 ≡ a * 256 + b
  two_bytes = omega arith

pub values_five :
    (buffer a b c d e : ℕ) (rest : Bytes)
    → a < 256
    → b < 256
    → c < 256
    → d < 256
    → e < 256
    → values (a ∷ b ∷ c ∷ d ∷ e ∷ rest) buffer 0
      ≡ a / 8
        ∷ (a % 8 * 4 + b / 64)
        ∷ b / 2 % 32
        ∷ (b % 2 * 16 + c / 16)
        ∷ (c % 16 * 2 + d / 128)
        ∷ d / 4 % 32
        ∷ (d % 4 * 8 + e / 32)
        ∷ e % 32
        ∷ values rest (full buffer a b c d e) 0
unfolding values
values_five buffer a b c d e rest ha hb hc hd he =
    let b1 = shifted 8 buffer a in
    let b2 = shifted 8 b1 b in
    let b3 = shifted 8 b2 c in
    let b4 = shifted 8 b3 d in
    let b5 = shifted 8 b4 e in
    let t1 = one_byte buffer a b ha hb in
    let t2 = two_bytes buffer a b ha hb in
    let t3 = two_bytes b1 b c hb hc in
    let t4 = two_bytes b2 c d hc hd in
    let t5 = two_bytes b3 d e hd he in
    let v0 : b1 / 8 % 32 ≡ a / 8 = omega (arith, t1) in
    let v1 : b2 / 64 % 32 ≡ a % 8 * 4 + b / 64 = omega (arith, t2) in
    let v2 : b2 / 2 % 32 ≡ b / 2 % 32 = omega (arith, t2) in
    let v3 : b3 / 16 % 32 ≡ b % 2 * 16 + c / 16 = omega (arith, t3) in
    let v4 : b4 / 128 % 32 ≡ c % 16 * 2 + d / 128 = omega (arith, t4) in
    let v5 : b4 / 4 % 32 ≡ d / 4 % 32 = omega (arith, t4) in
    let v6 : b5 / 32 % 32 ≡ d % 4 * 8 + e / 32 = omega (arith, t5) in
    let v7 : b5 / 1 % 32 ≡ e % 32 = omega (arith, t5) in rw (v0, v1, v2, v3, v4, v5, v6, v7) refl

module _ (buffer v w x : ℕ) (hv : v < 32) (hw : w < 32) (hx : x < 32) where
  -- The last two symbols, and the last three.
  pub two_symbols : shifted 5 (shifted 5 buffer v) w % 1024 ≡ v * 32 + w
  two_symbols = omega arith

  three_symbols : shifted 5 (shifted 5 (shifted 5 buffer v) w) x % 32768 ≡ (v * 32 + w) * 32 + x
  three_symbols = omega arith

-- The buffer behind eight symbols.
abbrev pub coded_four : ℕ → ℕ → ℕ → ℕ → ℕ → ℕ
coded_four buffer s t u v = shifted 5 (shifted 5 (shifted 5 (shifted 5 buffer s) t) u) v

-- A symbol that completes a byte.
pub pushed :
    (i buffer bits sym byte : ℕ) (out : Bytes)
    → i < 16
    → leb 8 (bits + 5) ≡ true
    → shifted 5 buffer sym / 2 ^ (bits + 5 - 8) % 256 ≡ byte
    → after_symbol (record { idx = i; out = out; buffer = buffer; bits = bits }) sym ≡ record {
      idx = suc i;
      out = out ++ byte ∷ [];
      buffer = shifted 5 buffer sym;
      bits = bits + 5 - 8;
    }
pushed i buffer bits sym byte out room due same =
    let fits : ltb i transfer_secret_len ≡ true = ground arith in rw (due, fits, same) refl

five_more :
    (out : Bytes) (a b c d e : ℕ)
    → ((((out ++ a ∷ []) ++ b ∷ []) ++ c ∷ []) ++ d ∷ []) ++ e ∷ [] ≡ out ++ a ∷ b ∷ c ∷ d ∷ e ∷ []
five_more [] a b c d e = refl
five_more (x ∷ out) a b c d e = ap (λ r. x ∷ r) (five_more out a b c d e)

pub decode_eight :
    (i buffer s0 s1 s2 s3 s4 s5 s6 s7 : ℕ) (out : Bytes) (rest : List ℕ)
    → i + 5 ≤ 16
    → s0 < 32
    → s1 < 32
    → s2 < 32
    → s3 < 32
    → s4 < 32
    → s5 < 32
    → s6 < 32
    → s7 < 32
    → decode_loop
        (s0 ∷ s1 ∷ s2 ∷ s3 ∷ s4 ∷ s5 ∷ s6 ∷ s7 ∷ rest)
        (record { idx = i; out = out; buffer = buffer; bits = 0 })
      ≡ decode_loop rest (record {
        idx = suc (suc (suc (suc (suc i))));
        out =
            out
            ++ (s0 * 8 + s1 / 4)
              ∷ (s1 % 4 * 64 + s2 * 2 + s3 / 16)
              ∷ (s3 % 16 * 16 + s4 / 2)
              ∷ (s4 % 2 * 128 + s5 * 4 + s6 / 8)
              ∷ (s6 % 8 * 32 + s7)
              ∷ [];
        buffer = coded_four (coded_four buffer s0 s1 s2 s3) s4 s5 s6 s7;
        bits = 0;
      })
unfolding decode_loop
decode_eight i buffer s0 s1 s2 s3 s4 s5 s6 s7 out rest room h0 h1 h2 h3 h4 h5 h6 h7 =
    let c0 = shifted 5 buffer s0 in
    let c1 = shifted 5 c0 s1 in
    let c2 = shifted 5 c1 s2 in
    let c3 = shifted 5 c2 s3 in
    let c4 = shifted 5 c3 s4 in
    let c5 = shifted 5 c4 s5 in
    let c6 = shifted 5 c5 s6 in
    let c7 = shifted 5 c6 s7 in
    let t1 = two_symbols buffer s0 s1 s1 h0 h1 h1 in
    let t3 = three_symbols c0 s1 s2 s3 h1 h2 h3 in
    let t4 = two_symbols c2 s3 s4 s4 h3 h4 h4 in
    let t6 = three_symbols c3 s4 s5 s6 h4 h5 h6 in
    let t7 = two_symbols c5 s6 s7 s7 h6 h7 h7 in
    let x0 : c1 / 4 % 256 ≡ s0 * 8 + s1 / 4 = omega (arith, t1) in
    let x1 : c3 / 16 % 256 ≡ s1 % 4 * 64 + s2 * 2 + s3 / 16 = omega (arith, t3) in
    let x2 : c4 / 2 % 256 ≡ s3 % 16 * 16 + s4 / 2 = omega (arith, t4) in
    let x3 : c6 / 8 % 256 ≡ s4 % 2 * 128 + s5 * 4 + s6 / 8 = omega (arith, t6) in
    let x4 : c7 / 1 % 256 ≡ s6 % 8 * 32 + s7 = omega (arith, t7) in
    let out1 = out ++ (s0 * 8 + s1 / 4) ∷ [] in
    let out2 = out1 ++ (s1 % 4 * 64 + s2 * 2 + s3 / 16) ∷ [] in
    let out3 = out2 ++ (s3 % 16 * 16 + s4 / 2) ∷ [] in
    let out4 = out3 ++ (s4 % 2 * 128 + s5 * 4 + s6 / 8) ∷ [] in
    let last = s6 % 8 * 32 + s7 in
    ap (decode_loop (s2 ∷ s3 ∷ s4 ∷ s5 ∷ s6 ∷ s7 ∷ rest))
      (pushed i c0 5 s1 (s0 * 8 + s1 / 4) out (omega arith) refl x0)
    ∙ ap (decode_loop (s4 ∷ s5 ∷ s6 ∷ s7 ∷ rest))
        (pushed (suc i) c2 7 s3 (s1 % 4 * 64 + s2 * 2 + s3 / 16) out1 (omega arith) refl x1)
    ∙ ap (decode_loop (s5 ∷ s6 ∷ s7 ∷ rest))
        (pushed (suc (suc i)) c3 4 s4 (s3 % 16 * 16 + s4 / 2) out2 (omega arith) refl x2)
    ∙ ap (decode_loop (s7 ∷ rest)) (
        pushed (suc (suc (suc i))) c5 6 s6 (s4 % 2 * 128 + s5 * 4 + s6 / 8) out3 (omega arith) refl
          x3)
    ∙ ap (decode_loop rest)
        (pushed (suc (suc (suc (suc i)))) c6 3 s7 last out4 (omega arith) refl x4)
    ∙ ap
        (λ r.
          decode_loop rest
            (record { idx = suc (suc (suc (suc (suc i)))); out = r; buffer = c7; bits = 0 }))
        (five_more out (s0 * 8 + s1 / 4) (s1 % 4 * 64 + s2 * 2 + s3 / 16) (s3 % 16 * 16 + s4 / 2)
          (s4 % 2 * 128 + s5 * 4 + s6 / 8) last)
