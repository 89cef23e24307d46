-- ===== src/Net/Limiter/Bound.antt =====
-- crates/filesec-gui/src/net/concurrency.rs: the table of peers is bounded.
use file_sec.Prelude.{
  ℕ, suc, ◌≤◌, ◌<◌, ◌-◌, ◌≡◌, refl, ap, ◌∙◌, true, List, [], ◌∷◌, All, All-map, length, take, ltb,
  leb, text_eq_refl, Bool-cases, ltb→lt, inl, inr, arith,
}
use file_sec.Net.Limiter.{
  max_tracked_peers, forget_after, IpAddr, PeerKey, v4_key, v6_prefix64, key_eq, Record,
  RateLimiter, lookup, place, remove_key, prune, insert_by_age, by_age, remove_keys, make_room,
  is_tracked, failed_once, or_new, peer_key, record_failure, roomy, record_success,
}

pub key_eq_refl : (key : PeerKey) → key_eq key key ≡ true
key_eq_refl (v4_key a) = text_eq_refl a
key_eq_refl (v6_prefix64 a) = text_eq_refl a

length-place_known :
    (key : PeerKey) (r : Record) (peers : RateLimiter)
    → is_tracked (lookup key peers) ≡ true
    → length (place key r peers) ≡ length peers
length-place_known key r [] h = absurd cc
length-place_known key r ((k, old) ∷ peers) h = elim (Bool-cases (key_eq key k)) [
  | inl e ↦ rw (e) refl
  | inr e ↦ rw (e) (ap suc (length-place_known key r peers (rw (e) at h)))
]

length-place :
    (key : PeerKey) (r : Record) (peers : RateLimiter)
    → length (place key r peers) ≤ suc (length peers)
length-place key r [] = omega arith
length-place key r ((k, old) ∷ peers) = elim (Bool-cases (key_eq key k)) [
  | inl e ↦ rw (e) (omega arith)
  | inr e ↦ rw (e) (omega (arith, length-place key r peers))
]

length-remove_key :
    (key : PeerKey) (peers : RateLimiter) → length (remove_key key peers) ≤ length peers
length-remove_key key [] = omega arith
length-remove_key key ((k, r) ∷ peers) = elim (Bool-cases (key_eq key k)) [
  | inl e ↦ rw (e) (omega (arith, length-remove_key key peers))
  | inr e ↦ rw (e) (omega (arith, length-remove_key key peers))
]

length-remove_key_known :
    (key : PeerKey) (peers : RateLimiter)
    → is_tracked (lookup key peers) ≡ true
    → length (remove_key key peers) < length peers
length-remove_key_known key [] h = absurd cc
length-remove_key_known key ((k, r) ∷ peers) h = elim (Bool-cases (key_eq key k)) [
  | inl e ↦ rw (e) (omega (arith, length-remove_key key peers))
  | inr e ↦ rw (e) (omega (arith, length-remove_key_known key peers (rw (e) at h)))
]

length-remove_keys :
    (keys : List (ℕ × PeerKey)) (peers : RateLimiter)
    → length (remove_keys keys peers) ≤ length peers
length-remove_keys [] peers = omega arith
length-remove_keys ((seen, key) ∷ keys) peers =
    omega (arith, length-remove_key key peers, length-remove_keys keys (remove_key key peers))

length-prune : (now : ℕ) (peers : RateLimiter) → length (prune now peers) ≤ length peers
unfolding prune
length-prune now [] = omega arith
length-prune now ((k, r) ∷ peers) = elim (Bool-cases (ltb (now - r.last_seen) forget_after)) [
  | inl e ↦ rw (prune, e) (omega (arith, length-prune now peers))
  | inr e ↦ rw (prune, e) (omega (arith, length-prune now peers))
]

-- Every key in a list is tracked.
abbrev AreTracked : RateLimiter → List (ℕ × PeerKey) → Type 0
AreTracked peers = All (λ x. is_tracked (lookup x.1 peers) ≡ true)

insert_by_age-AreTracked :
    (peers : RateLimiter) (x : ℕ × PeerKey) (xs : List (ℕ × PeerKey))
    → is_tracked (lookup x.1 peers) ≡ true
    → AreTracked peers xs
    → AreTracked peers (insert_by_age x xs)
insert_by_age-AreTracked peers x [] h hs = (h, tt)
insert_by_age-AreTracked peers x (y ∷ ys) h hs = elim (Bool-cases (leb x.0 y.0)) [
  | inl e ↦ rw (e) (h, hs)
  | inr e ↦ rw (e) (hs.0, insert_by_age-AreTracked peers x ys h hs.1)
]

length-insert_by_age :
    (x : ℕ × PeerKey) (xs : List (ℕ × PeerKey)) → length (insert_by_age x xs) ≡ suc (length xs)
length-insert_by_age x [] = refl
length-insert_by_age x (y ∷ ys) = elim (Bool-cases (leb x.0 y.0)) [
  | inl e ↦ rw (e) refl
  | inr e ↦ rw (e) (ap suc (length-insert_by_age x ys))
]

tracked_behind :
    (k : PeerKey) (r : Record) (peers : RateLimiter) (key : PeerKey)
    → is_tracked (lookup key peers) ≡ true
    → is_tracked (lookup key ((k, r) ∷ peers)) ≡ true
tracked_behind k r peers key h = elim (Bool-cases (key_eq key k)) [
  | inl e ↦ rw (e) refl
  | inr e ↦ rw (e) h
]

by_age-AreTracked : (peers : RateLimiter) → AreTracked peers (by_age peers)
by_age-AreTracked [] = tt
by_age-AreTracked ((k, r) ∷ peers) =
    insert_by_age-AreTracked ((k, r) ∷ peers) (r.last_seen, k) (by_age peers)
      (rw (key_eq_refl k) refl)
      (All-map (λ x. is_tracked (lookup x.1 peers) ≡ true)
        (λ x. is_tracked (lookup x.1 ((k, r) ∷ peers)) ≡ true)
        (λ x h. tracked_behind k r peers x.1 h) (by_age peers) (by_age-AreTracked peers))

length-by_age : (peers : RateLimiter) → length (by_age peers) ≡ length peers
length-by_age [] = refl
length-by_age ((k, r) ∷ peers) =
    length-insert_by_age (r.last_seen, k) (by_age peers) ∙ ap suc (length-by_age peers)

evicts :
    (n : ℕ) (keys : List (ℕ × PeerKey)) (peers : RateLimiter)
    → AreTracked peers keys
    → 0 < length keys
    → length (remove_keys (take (suc n) keys) peers) < length peers
evicts n [] peers h size = absurd (omega arith)
evicts n ((seen, key) ∷ keys) peers h size = omega (
  arith,
  length-remove_key_known key peers h.0,
  length-remove_keys (take n keys) (remove_key key peers),
)

make_room_lem :
    (now : ℕ) (peers : RateLimiter)
    → length peers ≤ max_tracked_peers
    → length (make_room now peers) < max_tracked_peers
unfolding make_room
make_room_lem now peers h =
    let kept = prune now peers in
    elim (Bool-cases (ltb (length kept) max_tracked_peers)) [
      | inl e ↦ rw (make_room, e) (ltb→lt (length kept) max_tracked_peers e)
      | inr e ↦
          let full : length kept ≡ max_tracked_peers = ground (arith, length-prune now peers) in
          rw (make_room, e)
            (omega (
              arith,
              full,
              evicts 511 (by_age kept) kept (by_age-AreTracked kept)
                  (omega (arith, full, length-by_age kept)),
            ))
    ]

length-placed :
    (key : PeerKey) (now : ℕ) (r : Record) (peers : RateLimiter)
    → length peers ≤ max_tracked_peers
    → length (place key r (roomy key now peers)) ≤ max_tracked_peers
unfolding roomy
length-placed key now r peers h = elim (Bool-cases (is_tracked (lookup key peers))) [
  | inl known ↦ rw (roomy, known) (omega (arith, length-place_known key r peers known))
  | inr new ↦ elim (Bool-cases (leb max_tracked_peers (length peers))) [
    | inl full ↦
        rw (roomy, new, full)
          (omega (arith, length-place key r (make_room now peers), make_room_lem now peers h))
    | inr space ↦
        let below : length peers < max_tracked_peers = ground arith in
        rw (roomy, new, space) (omega (arith, below, length-place key r peers))
  ]
]

record_failure_lem :
    (peers : RateLimiter) (ip : IpAddr) (now : ℕ)
    → length peers ≤ max_tracked_peers
    → length (record_failure peers ip now) ≤ max_tracked_peers
unfolding record_failure
record_failure_lem peers ip now h =
    let key = peer_key ip in
    length-placed key now (failed_once now (or_new now (lookup key (roomy key now peers)))) peers h

-- What the listener does with the table.
pub data Event : Type 0 where
  failure : IpAddr → ℕ → Event
  success : IpAddr → Event
  pruning : ℕ → Event

abbrev pub after_event : RateLimiter → Event → RateLimiter
after_event peers (failure ip now) = record_failure peers ip now
after_event peers (success ip) = record_success peers ip
after_event peers (pruning now) = prune now peers

abbrev pub after_events : RateLimiter → List Event → RateLimiter
after_events peers [] = peers
after_events peers (e ∷ es) = after_events (after_event peers e) es

after_event_lem :
    (peers : RateLimiter) (e : Event)
    → length peers ≤ max_tracked_peers
    → length (after_event peers e) ≤ max_tracked_peers
unfolding record_success
after_event_lem peers (failure ip now) h = record_failure_lem peers ip now h
after_event_lem peers (success ip) h = omega (arith, length-remove_key (peer_key ip) peers)
after_event_lem peers (pruning now) h = omega (arith, length-prune now peers)

-- Whatever addresses fail or succeed, in whatever order and at whatever times, a table that has at most
-- 4096 records keeps this bound.
pub after_events_lem :
    (peers : RateLimiter) (es : List Event)
    → length peers ≤ max_tracked_peers
    → length (after_events peers es) ≤ max_tracked_peers
after_events_lem peers [] h = h
after_events_lem peers (e ∷ es) h =
    after_events_lem (after_event peers e) es (after_event_lem peers e h)
