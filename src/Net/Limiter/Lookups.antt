-- ===== src/Net/Limiter/Lookups.antt =====
-- crates/filesec-gui/src/net/concurrency.rs: what the changes of the table leave for a peer.
use file_sec.Prelude.{
  ℕ, ◌-◌, ◌≡◌, refl, ap, ◌∙◌, false, none, some, List, [], ◌∷◌, length, take, ltb, leb, Bool-cases,
  Option-cases, inl, inr,
}
use file_sec.Net.Limiter.{
  max_tracked_peers, forget_after, IpAddr, PeerKey, key_eq, Record, RateLimiter, lookup, place,
  remove_key, prune, remove_keys, make_room, by_age, failed_once, or_new, peer_key, roomy,
  record_failure,
}
use file_sec.Net.Limiter.Bound.{key_eq_refl}

lookup-place :
    (key : PeerKey) (r : Record) (peers : RateLimiter) → lookup key (place key r peers) ≡ some r
lookup-place key r [] = rw (key_eq_refl key) refl
lookup-place key r ((k, old) ∷ peers) = elim (Bool-cases (key_eq key k)) [
  | inl e ↦ rw (e, key_eq_refl key) refl
  | inr e ↦ rw (e, e) (lookup-place key r peers)
]

some_not_none : (r : Record) → some r ≡ none → ⊥
some_not_none r h = cc

lookup-none_behind :
    (key k : PeerKey) (r : Record) (peers : RateLimiter)
    → lookup key ((k, r) ∷ peers) ≡ none
    → (key_eq key k ≡ false) × (lookup key peers ≡ none)
lookup-none_behind key k r peers h = elim (Bool-cases (key_eq key k)) [
  | inl e ↦ absurd (some_not_none r (rw (e) at h))
  | inr e ↦ (e, rw (e) at h)
]

lookup-prune :
    (key : PeerKey) (now : ℕ) (peers : RateLimiter)
    → lookup key peers ≡ none
    → lookup key (prune now peers) ≡ none
unfolding prune
lookup-prune key now [] h = refl
lookup-prune key now ((k, r) ∷ peers) h =
    let (other, rest) = lookup-none_behind key k r peers h in
    elim (Bool-cases (ltb (now - r.last_seen) forget_after)) [
      | inl e ↦ rw (prune, e, other) (lookup-prune key now peers rest)
      | inr e ↦ rw (prune, e) (lookup-prune key now peers rest)
    ]

lookup-remove_key :
    (key gone : PeerKey) (peers : RateLimiter)
    → lookup key peers ≡ none
    → lookup key (remove_key gone peers) ≡ none
lookup-remove_key key gone [] h = refl
lookup-remove_key key gone ((k, r) ∷ peers) h =
    let (other, rest) = lookup-none_behind key k r peers h in
    elim (Bool-cases (key_eq gone k)) [
      | inl e ↦ rw (e) (lookup-remove_key key gone peers rest)
      | inr e ↦ rw (e, other) (lookup-remove_key key gone peers rest)
    ]

lookup-remove_keys :
    (key : PeerKey) (keys : List (ℕ × PeerKey)) (peers : RateLimiter)
    → lookup key peers ≡ none
    → lookup key (remove_keys keys peers) ≡ none
lookup-remove_keys key [] peers h = h
lookup-remove_keys key ((seen, gone) ∷ keys) peers h =
    lookup-remove_keys key keys (remove_key gone peers) (lookup-remove_key key gone peers h)

lookup-make_room :
    (key : PeerKey) (now : ℕ) (peers : RateLimiter)
    → lookup key peers ≡ none
    → lookup key (make_room now peers) ≡ none
unfolding make_room
lookup-make_room key now peers h =
    let kept = prune now peers in
    elim (Bool-cases (ltb (length kept) max_tracked_peers)) [
      | inl e ↦ rw (make_room, e) (lookup-prune key now peers h)
      | inr e ↦
          rw (make_room, e)
            (lookup-remove_keys key (take 512 (by_age kept)) kept (lookup-prune key now peers h))
    ]

lookup-roomy :
    (key : PeerKey) (now : ℕ) (peers : RateLimiter)
    → lookup key (roomy key now peers) ≡ lookup key peers
unfolding roomy
lookup-roomy key now peers = elim (Option-cases (lookup key peers)) [
  | inr (r, known) ↦ rw (roomy, known, known) refl
  | inl new ↦ elim (Bool-cases (leb max_tracked_peers (length peers))) [
    | inl full ↦ rw (roomy, new, full) (lookup-make_room key now peers new)
    | inr space ↦ rw (roomy, new, space) new
  ]
]

-- The record of the peer that failed, whether room had to be made or not.
pub lookup-record_failure :
    (peers : RateLimiter) (ip : IpAddr) (now : ℕ)
    → lookup (peer_key ip) (record_failure peers ip now)
      ≡ some (failed_once now (or_new now (lookup (peer_key ip) peers)))
unfolding record_failure
lookup-record_failure peers ip now =
    let key = peer_key ip in
    lookup-place key (failed_once now (or_new now (lookup key (roomy key now peers))))
      (roomy key now peers)
    ∙ ap (λ o. some (failed_once now (or_new now o))) (lookup-roomy key now peers)

-- How long a peer is refused, by the failures beyond the threshold: a second, doubled by each, and a
-- minute at most.
