-- ===== src/Net/Code/Tests.antt =====
-- Concrete codes of crates/filesec-gui/src/net/mod.rs.
use file_sec.Prelude.{◌↔◌, ◌≡◌, refl, none, some, [], ◌∷◌, text, arith}
use file_sec.State.{Bytes}
use file_sec.Net.Code.{decode_symbols, display_transfer_code, decode_transfer_code}
use file_sec.Net.Code.Exchange.{decode_transfer_code-display_transfer_code}

abbrev secret : Bytes
secret = 0 ∷ 1 ∷ 35 ∷ 69 ∷ 103 ∷ 137 ∷ 171 ∷ 205 ∷ 239 ∷ 255 ∷ 254 ∷ 16 ∷ 32 ∷ 48 ∷ 64 ∷ 80 ∷ []

shows : display_transfer_code secret ≡ text "000J-6HB7-H6NW-VVZZ-ZR82-0C20-A0"
unfolding text display_transfer_code
shows = refl

decode_transfer_code-display_transfer_code_example :
    (decode_transfer_code (display_transfer_code secret) ≡ some secret)
    × ((decode_transfer_code (text "oooj 6HB7") ≡ some secret)
        ↔ (decode_symbols (text "oooj 6HB7") ≡ decode_symbols (display_transfer_code secret)))
decode_transfer_code-display_transfer_code_example =
    decode_transfer_code-display_transfer_code secret (text "oooj 6HB7") refl (omega arith)

-- Lower case, spaces and look-alikes are read; padding that is not zero and other characters are refused.
reads_loosely : decode_transfer_code (text "oooj 6hb7 h6nw vvzz zr82 oc2o ao") ≡ some secret
unfolding decode_transfer_code text
reads_loosely = refl

refuses_padding : decode_transfer_code (text "000J-6HB7-H6NW-VVZZ-ZR82-0C20-A1") ≡ none
unfolding decode_transfer_code text
refuses_padding = refl

refuses_other : decode_transfer_code (text "000J-6HB7-H6NW-VVZZ-ZR82-0C20-A!") ≡ none
unfolding decode_transfer_code text
refuses_other = refl
