-- ===== src/Net/Code.antt =====
-- crates/filesec-gui/src/net/mod.rs: the code that two people exchange for a transfer, and the suite of a
-- transfer. A buffer of 32 bits is a number below 2 ^ 32; since the bits that a shift has freed are zero, `|`
-- adds.
pub mod Symbols
pub mod Buffer
pub mod Groups
pub mod Canonical
pub mod Exchange
mod Tests
use file_sec.Prelude.{
  ℕ, zero, suc, ◌+◌, ◌-◌, ◌*◌, ◌/◌, ◌%◌, ◌^◌, Bool, true, false, not, ◌&&◌, ◌||◌, Option, none,
  some, List, [], ◌∷◌, ◌++◌, length, if◌then◌else◌, leb, ltb, ◌==◌, text, Text,
}
use file_sec.State.{Bytes}
use file_sec.Suite.{SuiteId, classic, hybrid, is_hybrid}
use file_sec.Contacts.{PublicIdentity, is_hybrid_capable, is_whitespace}
use file_sec.Contacts.Cards.{grouped, to_ascii_uppercase}

-- `transfer_suite`, by the public half of the sender.
unfoldable transfer_suite : PublicIdentity → PublicIdentity → SuiteId
unfolding is_hybrid_capable
transfer_suite sender recipient =
    if is_hybrid_capable sender && is_hybrid_capable recipient then hybrid else classic

unfoldable transfer_downgrades_protection : PublicIdentity → PublicIdentity → Bool
unfolding is_hybrid_capable transfer_suite is_hybrid
transfer_downgrades_protection sender recipient =
    is_hybrid_capable sender && not (is_hybrid (transfer_suite sender recipient))

abbrev pub transfer_secret_len : ℕ
transfer_secret_len = 16

abbrev pub secret_symbols : ℕ
secret_symbols = 26

abbrev crockford : Text
crockford = text "0123456789ABCDEFGHJKMNPQRSTVWXYZ"

-- An index that is below the length of the alphabet.
unfoldable pub at : Text → ℕ → ℕ
at [] i = 0
at (c ∷ s) zero = c
at (c ∷ s) (suc i) = at s i

abbrev pub symbol : ℕ → ℕ
symbol v = at crockford v

-- The values that the inner loop takes off the buffer, and the bits that are left; `bits` is fuel enough.
abbrev pub drained : ℕ → ℕ → ℕ → List ℕ
drained zero buffer bits = []
drained (suc n) buffer bits =
    let behind = drained n buffer (bits - 5) in
    if leb 5 bits then (buffer / 2 ^ (bits - 5) % 32) ∷ behind else []

abbrev pub left : ℕ → ℕ → ℕ
left zero bits = bits
left (suc n) bits = let behind = left n (bits - 5) in if leb 5 bits then behind else bits

-- `(buffer << width) | value` on u32.
abbrev pub shifted : ℕ → ℕ → ℕ → ℕ
shifted width buffer value = buffer * 2 ^ width % 4294967296 + value

abbrev pub last_value : ℕ → ℕ → List ℕ
last_value buffer bits = if ltb 0 bits then (buffer * 2 ^ (5 - bits) % 4294967296 % 32) ∷ [] else []

-- The values of the symbols, by the loop over the bytes.
unfoldable pub values : Bytes → ℕ → ℕ → List ℕ
values [] buffer bits = last_value buffer bits
values (b ∷ bytes) buffer bits =
    let full = shifted 8 buffer b in
    drained (bits + 8) full (bits + 8) ++ values bytes full (left (bits + 8) (bits + 8))

unfoldable pub symbols : List ℕ → Text
unfolding at
symbols [] = []
symbols (v ∷ vs) = symbol v ∷ symbols vs

unfoldable pub encode_transfer_secret : Bytes → Text
unfolding values symbols
encode_transfer_secret bytes = symbols (values bytes 0 0)

unfoldable pub display_transfer_code : Bytes → Text
unfolding encode_transfer_secret grouped
display_transfer_code bytes = grouped 0 (encode_transfer_secret bytes)

-- `position`
unfoldable pub position : ℕ → Text → Option ℕ
position c [] = none
position c (a ∷ s) =
    let behind = position c s in
    if a == c then some 0 else elim behind [ none ↦ none | some p ↦ some (suc p) ]

abbrev look_alike : ℕ → ℕ
look_alike c = if c == b'O' then b'0' else if c == b'I' || c == b'L' then b'1' else c

unfoldable pub decode_symbol : ℕ → Option ℕ
unfolding position
decode_symbol c = position (look_alike (to_ascii_uppercase c)) crockford

-- The symbols of the input without its separators, if all are symbols.
abbrev pub is_separator : ℕ → Bool
is_separator c = c == b'-' || is_whitespace c

abbrev and_then_symbol : Option ℕ → Option (List ℕ) → Option (List ℕ)
and_then_symbol (some v) (some vs) = some (v ∷ vs)
and_then_symbol _ _ = none

unfoldable pub decode_symbols : Text → Option (List ℕ)
unfolding decode_symbol is_whitespace
decode_symbols [] = some []
decode_symbols (c ∷ s) =
    let behind = decode_symbols s in
    if is_separator c then behind else and_then_symbol (decode_symbol c) behind

-- The loop over the symbols: `out` has the bytes up to `idx`.
pub record Decoding : Type 0 where
  pub idx : ℕ
  pub out : Bytes
  pub buffer : ℕ
  pub bits : ℕ

abbrev pub after_symbol : Decoding → ℕ → Decoding
after_symbol d sym =
    let buffer = shifted 5 d.buffer sym in
    if leb 8 (d.bits + 5)
    then (if ltb d.idx transfer_secret_len
        then record {
          idx = suc d.idx;
          out = d.out ++ (buffer / 2 ^ (d.bits + 5 - 8) % 256) ∷ [];
          buffer = buffer;
          bits = d.bits + 5 - 8;
        }
        else record d { buffer = buffer; bits = d.bits + 5 - 8 })
    else record d { buffer = buffer; bits = d.bits + 5 }

unfoldable pub decode_loop : List ℕ → Decoding → Decoding
decode_loop [] d = d
decode_loop (sym ∷ syms) d = decode_loop syms (after_symbol d sym)

-- The padding is what is left in the buffer.
abbrev pub decoded : Decoding → Option Bytes
decoded d = if d.idx == transfer_secret_len && d.buffer % 2 ^ d.bits == 0 then some d.out else none

unfoldable pub decode_transfer_code : Text → Option Bytes
unfolding decode_symbols decode_loop
decode_transfer_code input = elim (decode_symbols input) [
  | none ↦ none
  | some syms ↦
      if length syms == secret_symbols
      then decoded (decode_loop syms (record { idx = 0; out = []; buffer = 0; bits = 0 }))
      else none
]
