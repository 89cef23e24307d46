-- ===== src/Net/Code/Symbols.antt =====
-- crates/filesec-gui/src/net/mod.rs: the symbols of the code of a transfer.
use file_sec.Prelude.{
  ℕ, leb, ◌-◌, zero, suc, ◌+◌, ◌%◌, ◌≡◌, ◌<◌, refl, ap, Bool, true, false, not, ◌&&◌, Option, none,
  some, List, [], ◌∷◌, All, All-append, ltb, ◌==◌, ==_iff, inl, inr, Bool-cases, text, Text, arith,
}
use file_sec.State.{Bytes}
use file_sec.Contacts.{is_whitespace}
use file_sec.Contacts.Cards.{grouped}
use file_sec.Net.Code.{
  drained, last_value, shifted, left, at, symbol, symbols, values, decode_symbol, is_separator,
  decode_symbols,
}

-- Every symbol is read as its value, and none is a separator.
abbrev is_read : ℕ → Bool
is_read v = elim (decode_symbol (symbol v)) [
  | none ↦ false
  | some w ↦ w == v && not (is_separator (symbol v))
]

all_below : ℕ → Bool
all_below zero = true
all_below (suc n) = is_read n && all_below n

all_below_lem : (n v : ℕ) → all_below n ≡ true → v < n → is_read v ≡ true
unfolding all_below
all_below_lem zero v h lt = absurd (omega arith)
all_below_lem (suc n) v h lt = elim (Bool-cases (v == n)) [
  | inl same ↦ rw ((==_iff v n).0 same) (ground arith)
  | inr other ↦ all_below_lem n v (ground arith) (ground arith)
]

table : all_below 32 ≡ true
unfolding all_below decode_symbol text at is_whitespace
table = refl

read_lem :
    (found : Option ℕ) (v : ℕ) (separates : Bool)
    → elim found [ none ↦ false | some w ↦ w == v && not separates ] ≡ true
    → (found ≡ some v) × (separates ≡ false)
read_lem none v separates h = absurd (ground arith)
read_lem (some w) v separates h = (ap (λ x. some x) (ground arith), ground arith)

symbol_lem :
    (v : ℕ) → v < 32 → (decode_symbol (symbol v) ≡ some v) × (is_separator (symbol v) ≡ false)
symbol_lem v h =
    read_lem (decode_symbol (symbol v)) v (is_separator (symbol v)) (all_below_lem 32 v table h)

-- The grouping is ignored.
pub decode_symbols-grouped : (i : ℕ) (s : Text) → decode_symbols (grouped i s) ≡ decode_symbols s
unfolding decode_symbols grouped
decode_symbols-grouped i [] = refl
decode_symbols-grouped i (c ∷ s) =
    let same = decode_symbols-grouped (suc i) s in
    elim (Bool-cases (ltb 0 i && i % 4 == 0)) [
      | inl due ↦ rw (due, same) refl
      | inr not_due ↦ rw (not_due, same) refl
    ]

abbrev pub IsFiveBits : ℕ → Type 0
IsFiveBits v = v < 32

pub decode_symbols-symbols :
    (vs : List ℕ) → All IsFiveBits vs → decode_symbols (symbols vs) ≡ some vs
unfolding decode_symbols symbols
decode_symbols-symbols [] h = refl
decode_symbols-symbols (v ∷ vs) h =
    let (read, not_separator) = symbol_lem v h.0 in
    rw (not_separator, read, decode_symbols-symbols vs h.1) refl

drained-IsFiveBits : (n buffer bits : ℕ) → All IsFiveBits (drained n buffer bits)
drained-IsFiveBits zero buffer bits = tt
drained-IsFiveBits (suc n) buffer bits = elim (Bool-cases (leb 5 bits)) [
  | inl due ↦ rw due (omega arith, drained-IsFiveBits n buffer (bits - 5))
  | inr not_due ↦ rw not_due tt
]

last_value-IsFiveBits : (buffer bits : ℕ) → All IsFiveBits (last_value buffer bits)
last_value-IsFiveBits buffer bits = elim (Bool-cases (ltb 0 bits)) [
  | inl due ↦ rw due (omega arith, tt)
  | inr not_due ↦ rw not_due tt
]

pub values-IsFiveBits :
    (bytes : Bytes) (buffer bits : ℕ) → All IsFiveBits (values bytes buffer bits)
unfolding values
values-IsFiveBits [] buffer bits = last_value-IsFiveBits buffer bits
values-IsFiveBits (b ∷ bytes) buffer bits =
    let more = shifted 8 buffer b in
    All-append IsFiveBits (drained (bits + 8) more (bits + 8))
      (values bytes more (left (bits + 8) (bits + 8)))
      (drained-IsFiveBits (bits + 8) more (bits + 8))
      (values-IsFiveBits bytes more (left (bits + 8) (bits + 8)))
