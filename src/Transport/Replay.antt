-- ===== src/Transport/Replay.antt =====
-- crates/filesec-core/src/transport.rs: the memory of the proofs that a listener answered.
use file_sec.Prelude.{
  ℕ, ◌≡◌, ◌≤◌, refl, true, false, List, [], ◌∷◌, length, any, inl, inr, leb, text_eq, text_eq_refl,
  arith,
}
use file_sec.Errors.{Result, ok, err, handshake_protocol, Result-cases}
use file_sec.State.{Bytes}
use file_sec.Transport.Handshake.{HelloReplayCache, new_cache, admit}

-- No proof twice.
abbrev pub AllDistinct : List Bytes → Type 0
AllDistinct [] = Unit
AllDistinct (x ∷ xs) = (any (text_eq x) xs ≡ false) × AllDistinct xs

pub record IsValid (cache : HelloReplayCache) : Type 0 where
  pub bounded : length cache.seen ≤ cache.capacity
  pub distinct : AllDistinct cache.seen

-- A listener that goes through proofs: an error leaves the cache, and the second part are the proofs that
-- were admitted, the last one first.
abbrev pub admitted_by : Result HelloReplayCache → HelloReplayCache → HelloReplayCache
admitted_by (err failure) cache = cache
admitted_by (ok next) cache = next

unfoldable pub listen : HelloReplayCache → List Bytes → HelloReplayCache
listen cache [] = cache
listen cache (proof ∷ proofs) = listen (admitted_by (admit cache proof) cache) proofs

admit_lem :
    (cache next : HelloReplayCache) (proof : Bytes)
    → admit cache proof ≡ ok next
    → (any (text_eq proof) cache.seen ≡ false)
      × (leb cache.capacity (length cache.seen) ≡ false)
      × (next.seen ≡ proof ∷ cache.seen)
      × (next.capacity ≡ cache.capacity)
unfolding admit
admit_lem cache next proof h = ground arith

admit-IsValid :
    (cache next : HelloReplayCache) (proof : Bytes)
    → IsValid cache
    → admit cache proof ≡ ok next
    → IsValid next
admit-IsValid cache next proof v h =
    let (fresh, room, seen, capacity) = admit_lem cache next proof h in
    record {
      bounded = rw (seen, capacity) (ground arith);
      distinct = rw (seen) (fresh, v.distinct);
    }

-- What the cache knows stays known.
admit_monotone :
    (cache : HelloReplayCache) (proof other : Bytes)
    → any (text_eq other) cache.seen ≡ true
    → any (text_eq other) (admitted_by (admit cache proof) cache).seen ≡ true
admit_monotone cache proof other h = elim (Result-cases (admit cache proof)) [
  | inr (e, f) ↦ rw (f) h
  | inl (next, f) ↦
      let (fresh, room, seen, capacity) = admit_lem cache next proof f in
      rw (f, seen) (ground arith)
]

known_refused :
    (cache : HelloReplayCache) (proof : Bytes)
    → any (text_eq proof) cache.seen ≡ true
    → admit cache proof ≡ err (handshake_protocol "replayed handshake")
unfolding admit
known_refused cache proof h = rw (admit, h) refl

listen_refuses :
    (cache : HelloReplayCache) (proof : Bytes) (proofs : List Bytes)
    → any (text_eq proof) cache.seen ≡ true
    → admit (listen cache proofs) proof ≡ err (handshake_protocol "replayed handshake")
unfolding listen
listen_refuses cache proof [] h = known_refused cache proof h
listen_refuses cache proof (p ∷ ps) h =
    listen_refuses (admitted_by (admit cache p) cache) proof ps (admit_monotone cache p proof h)

listen-IsValid :
    (cache : HelloReplayCache) (proofs : List Bytes) → IsValid cache → IsValid (listen cache proofs)
unfolding listen
listen-IsValid cache [] v = v
listen-IsValid cache (p ∷ ps) v = elim (Result-cases (admit cache p)) [
  | inr (e, f) ↦ rw (f) (listen-IsValid cache ps v)
  | inl (next, f) ↦ rw (f) (listen-IsValid next ps (admit-IsValid cache next p v f))
]

-- From an empty cache, whatever proofs are presented, in any order and any number of times: the cache
-- holds at most as many as its capacity and none twice, and once a proof was admitted it is refused at
-- every later time as a replay, also when the cache is full.
pub admit-replayed :
    (capacity : ℕ) (before after : List Bytes) (proof : Bytes) (next : HelloReplayCache)
    → admit (listen (new_cache capacity) before) proof ≡ ok next
    → IsValid (listen next after)
      × (admit (listen next after) proof ≡ err (handshake_protocol "replayed handshake"))
admit-replayed capacity before after proof next h =
    let cache = listen (new_cache capacity) before in
    let start : IsValid (new_cache capacity) = record { bounded = omega arith; distinct = tt } in
    let v = listen-IsValid (new_cache capacity) before start in
    let (fresh, room, seen, bound) = admit_lem cache next proof h in
    (
      listen-IsValid next after (admit-IsValid cache next proof v h),
      listen_refuses next proof after (rw (seen, text_eq_refl proof) refl),
    )
