-- ===== src/Net/Limiter/Forgetting.antt =====
-- crates/filesec-gui/src/net/concurrency.rs: the size of the table of peers, and what a failure forgets.
use file_sec.Prelude.{
  if-reaches, ℕ, ◌≤◌, ◌≡◌, refl, ap, sym, ◌∙◌, true, false, ◌⊎◌, List, [], ◌∷◌, All, All-map,
  length, leb, Bool-cases, inl, inr, not, ◌&&◌,
}
use file_sec.Net.Limiter.{
  max_tracked_peers, IpAddr, PeerKey, key_eq, Record, RateLimiter, lookup, place, make_room,
  is_tracked, failed_once, or_new, peer_key, roomy, record_failure,
}
use file_sec.Net.Limiter.Bound.{key_eq_refl, Event, after_events, after_events_lem}
use file_sec.Net.Limiter.Ages.{key_eq_sound, HasOlder}
use file_sec.Net.Limiter.Evicting.{AreYounger, make_room-AreYounger}

place-All :
    (P : PeerKey × Record → Type 0) (key : PeerKey) (r : Record) (peers : RateLimiter)
    → P (key, r)
    → All P peers
    → All P (place key r peers)
place-All P key r [] h hs = (h, tt)
place-All P key r ((k, old) ∷ peers) h hs = elim (Bool-cases (key_eq key k)) [
  | inl e ↦ rw (e) (h, hs.1)
  | inr e ↦ rw (e) (hs.0, place-All P key r peers h hs.1)
]

place-tracked :
    (key k : PeerKey) (r : Record) (peers : RateLimiter)
    → is_tracked (lookup key peers) ≡ true
    → is_tracked (lookup key (place k r peers)) ≡ true
place-tracked key k r [] h = absurd cc
place-tracked key k r ((j, old) ∷ peers) h = elim (Bool-cases (key_eq k j)) [
  | inl e ↦ elim (Bool-cases (key_eq key k)) [
    | inl same ↦ rw (e, same) refl
    | inr other ↦
        let behind : key_eq key j ≡ false = ap (key_eq key) (sym (key_eq_sound k j e)) ∙ other in
        rw (e, other) (rw behind at h)
  ]
  | inr e ↦ elim (Bool-cases (key_eq key j)) [
    | inl same ↦ rw (e, same) refl
    | inr other ↦ rw (e, other) (place-tracked key k r peers (rw other at h))
  ]
]

-- The table stays as it is, or room is made in it.
roomy-cases :
    (P : RateLimiter → Type 0) (key : PeerKey) (now : ℕ) (peers : RateLimiter)
    → P peers
    → P (make_room now peers)
    → P (roomy key now peers)
unfolding roomy
roomy-cases P key now peers same made =
    if-reaches P (not (is_tracked (lookup key peers)) && leb max_tracked_peers (length peers))
      (make_room now peers) peers (λ e. made) (λ e. same)

-- A key is not in the table, stays in it, or is forgotten as one of the oldest.
abbrev pub IsFair : PeerKey → RateLimiter → RateLimiter → Type 0
IsFair key before after =
    (is_tracked (lookup key before) ≡ false)
    ⊎ ((is_tracked (lookup key after) ≡ true) ⊎ AreYounger key before after)

roomy-IsFair :
    (key gone : PeerKey) (now : ℕ) (peers : RateLimiter) → IsFair gone peers (roomy key now peers)
roomy-IsFair key gone now peers = elim (Bool-cases (is_tracked (lookup gone peers))) [
  | inr absent ↦ inl absent
  | inl there ↦
      roomy-cases (IsFair gone peers) key now peers (inr (inl there))
        (elim (Bool-cases (is_tracked (lookup gone (make_room now peers)))) [
          | inl stays ↦ inr (inl stays)
          | inr forgotten ↦ inr (inr (make_room-AreYounger now gone peers there forgotten))
        ])
]

-- A table that has at most 4096 records keeps this bound, whatever addresses fail or succeed, in whatever
-- order and at whatever times. And whatever address fails next: a key that is in the table stays in it, or
-- each record that is in it then, but for the one of that address, was last seen no earlier than some
-- record of the key that is forgotten.
pub after_events-bounded :
    (peers : RateLimiter) (es : List Event) (ip : IpAddr) (now : ℕ) (key : PeerKey)
    → length peers ≤ max_tracked_peers
    → (length (after_events peers es) ≤ max_tracked_peers)
      × ((is_tracked (lookup key (after_events peers es)) ≡ false)
          ⊎ ((is_tracked (lookup key (record_failure (after_events peers es) ip now)) ≡ true)
              ⊎ All
                  (λ y.
                    (key_eq (peer_key ip) y.0 ≡ true)
                    ⊎ HasOlder key y.1.last_seen (after_events peers es))
                  (record_failure (after_events peers es) ip now)))
unfolding record_failure
after_events-bounded peers es ip now key h = (
  after_events_lem peers es h,
  let table = after_events peers es in
      let failing = peer_key ip in
      let room = roomy failing now table in
      let r = failed_once now (or_new now (lookup failing room)) in
      elim (roomy-IsFair failing key now table) [
        | inl absent ↦ inl absent
        | inr (inl stays) ↦ inr (inl (place-tracked key failing r room stays))
        | inr (inr younger) ↦ inr (
            inr (
              place-All (λ y. (key_eq failing y.0 ≡ true) ⊎ HasOlder key y.1.last_seen table)
                failing r room (inl (key_eq_refl failing))
                (All-map _ _ (λ y g. inr g) room younger)))
      ],
)
