-- ===== src/Prelude/Bytes.antt =====
-- Machine words as bytes: `to_le_bytes` and `to_be_bytes` of the standard library.
use Prim.Native.Nat.{ℕ, zero, suc, ◌+◌, ◌*◌, ◌/◌, ◌%◌, ◌^◌, ◌<◌}
use mathlib.Core.Path.{◌≡◌, refl, ap, sym, ◌∙◌}
use native.Mathlib.Nat.{pow-suc}
use mathlib.Core.List.{List, [], ◌∷◌, ◌++◌}
use native.Mathlib.Omega.{arith}
use file_sec.Prelude.Lists.{length, length-append}

-- `w` bytes, least significant first.
unfoldable pub le_bytes : ℕ → ℕ → List ℕ
le_bytes zero n = []
le_bytes (suc w) n = (n % 256) ∷ le_bytes w (n / 256)

-- `w` bytes, most significant first.
unfoldable pub be_bytes : ℕ → ℕ → List ℕ
be_bytes zero n = []
be_bytes (suc w) n = be_bytes w (n / 256) ++ (n % 256) ∷ []

pub length-le_bytes : (w n : ℕ) → length (le_bytes w n) ≡ w
unfolding le_bytes
length-le_bytes zero n = refl
length-le_bytes (suc w) n = ap suc (length-le_bytes w (n / 256))

-- The numbers that the bytes stand for, `from_le_bytes` and `from_be_bytes`.
unfoldable pub from_le_bytes : List ℕ → ℕ
from_le_bytes [] = 0
from_le_bytes (b ∷ bs) = b + 256 * from_le_bytes bs

unfoldable pub from_be_bytes : ℕ → List ℕ → ℕ
from_be_bytes acc [] = acc
from_be_bytes acc (b ∷ bs) = from_be_bytes (acc * 256 + b) bs

below-div : (w n : ℕ) → n < 256 ^ suc w → n / 256 < 256 ^ w
below-div w n h = let k : n < 256 ^ w * 256 = rw (← pow-suc 256 w) h in omega (arith, k)

pub from_le_bytes-le_bytes : (w n : ℕ) → n < 256 ^ w → from_le_bytes (le_bytes w n) ≡ n
unfolding le_bytes from_le_bytes
from_le_bytes-le_bytes zero n h = omega arith
from_le_bytes-le_bytes (suc w) n h =
    omega (arith, from_le_bytes-le_bytes w (n / 256) (below-div w n h))

-- Two words of the same width and the same bytes are equal.
pub le_bytes-injective :
    (w m n : ℕ) → m < 256 ^ w → n < 256 ^ w → le_bytes w m ≡ le_bytes w n → m ≡ n
le_bytes-injective w m n hm hn e =
    sym (from_le_bytes-le_bytes w m hm) ∙ ap from_le_bytes e ∙ from_le_bytes-le_bytes w n hn

from_be_bytes-append :
    (acc : ℕ) (bs cs : List ℕ)
    → from_be_bytes acc (bs ++ cs) ≡ from_be_bytes (from_be_bytes acc bs) cs
unfolding from_be_bytes
from_be_bytes-append acc [] cs = refl
from_be_bytes-append acc (b ∷ bs) cs = from_be_bytes-append (acc * 256 + b) bs cs

pub from_be_bytes-be_bytes : (w n : ℕ) → n < 256 ^ w → from_be_bytes 0 (be_bytes w n) ≡ n
unfolding be_bytes from_be_bytes
from_be_bytes-be_bytes zero n h = omega arith
from_be_bytes-be_bytes (suc w) n h =
    rw (from_be_bytes-append 0 (be_bytes w (n / 256)) ((n % 256) ∷ []))
      (omega (arith, from_be_bytes-be_bytes w (n / 256) (below-div w n h)))

pub be_bytes-injective :
    (w m n : ℕ) → m < 256 ^ w → n < 256 ^ w → be_bytes w m ≡ be_bytes w n → m ≡ n
be_bytes-injective w m n hm hn e =
    sym (from_be_bytes-be_bytes w m hm) ∙ ap (from_be_bytes 0) e ∙ from_be_bytes-be_bytes w n hn

pub length-be_bytes : (w n : ℕ) → length (be_bytes w n) ≡ w
unfolding be_bytes
length-be_bytes zero n = refl
length-be_bytes (suc w) n =
    omega
      (arith, length-append (be_bytes w (n / 256)) ((n % 256) ∷ []), length-be_bytes w (n / 256))
