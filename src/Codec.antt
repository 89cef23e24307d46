-- ===== src/Codec.antt =====
-- crates/filesec-core/src/codec.rs: values as CBOR. The CBOR package is a parameter.
use file_sec.Prelude.{◌≡◌, refl, Option, none, some, [], is_empty, if◌then◌else◌}
use file_sec.Errors.{Result, ok, err, serialization}
use file_sec.State.{Bytes}

-- `ciborium` at one type: a value's bytes, and the value at the front of some bytes with the rest.
pub record Cbor (A : Type 0) : Type 0 where
  pub into_writer : A → Option Bytes
  pub from_reader : Bytes → Option (A × Bytes)

unfoldable pub to_vec : {A : Type 0} → Cbor A → A → Result Bytes
to_vec cbor value = elim (cbor.into_writer value) [
  | none ↦ err serialization
  | some bytes ↦ ok bytes
]

unfoldable pub from_slice : {A : Type 0} → Cbor A → Bytes → Result A
from_slice cbor bytes = elim (cbor.from_reader bytes) [
  | none ↦ err serialization
  | some (value, remaining) ↦ if is_empty remaining then ok value else err serialization
]

-- The value is written, and read again from these bytes alone.
pub record Travels {A : Type 0} (cbor : Cbor A) (value : A) : Type 0 where
  pub bytes : Bytes
  pub written : cbor.into_writer value ≡ some bytes
  pub read : cbor.from_reader bytes ≡ some (value, [])

pub to_vec-Travels :
    {A : Type 0} (cbor : Cbor A) (value : A) (t : Travels cbor value)
    → (to_vec cbor value ≡ ok t.bytes) × (from_slice cbor t.bytes ≡ ok value)
unfolding to_vec from_slice
to_vec-Travels cbor value t = (rw (to_vec, t.written) refl, rw (from_slice, t.read) refl)
