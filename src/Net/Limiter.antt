-- ===== src/Net/Limiter.antt =====
-- crates/filesec-gui/src/net/concurrency.rs: the backoff of peers that keep failing the handshake. Time is
-- in milliseconds. The hash map is an association list; a new key is put in front.
pub mod Bound
pub mod Ages
pub mod Evicting
pub mod Forgetting
pub mod Lookups
pub mod Backoff
use file_sec.Prelude.{
  ℕ, zero, suc, ◌+◌, ◌-◌, ◌*◌, ◌/◌, ◌%◌, ◌^◌, min, Bool, true, false, not, ◌&&◌, ◌||◌, Option, none,
  some, List, [], ◌∷◌, length, take, replicate, ◌++◌, drop, if◌then◌else◌, ltb, leb, text_eq,
}
use file_sec.State.{Bytes}

abbrev pub failure_threshold : ℕ
failure_threshold = 5

abbrev pub base_backoff : ℕ
base_backoff = 1000

abbrev pub max_backoff : ℕ
max_backoff = 60000

abbrev pub forget_after : ℕ
forget_after = 300000

abbrev pub max_tracked_peers : ℕ
max_tracked_peers = 4096

-- The octets of an address.
pub data IpAddr : Type 0 where
  v4 : Bytes → IpAddr
  v6 : Bytes → IpAddr

pub data PeerKey : Type 0 where
  v4_key : Bytes → PeerKey
  v6_prefix64 : Bytes → PeerKey

abbrev pub is_ipv4_mapped : Bytes → Bool
is_ipv4_mapped octets = text_eq (take 12 octets) (replicate 10 0 ++ 255 ∷ 255 ∷ [])

-- `PeerKey::of`
unfoldable pub peer_key : IpAddr → PeerKey
peer_key (v4 octets) = v4_key octets
peer_key (v6 octets) =
    if is_ipv4_mapped octets then v4_key (drop 12 octets) else v6_prefix64 (take 8 octets)

abbrev pub key_eq : PeerKey → PeerKey → Bool
key_eq (v4_key a) (v4_key b) = text_eq a b
key_eq (v6_prefix64 a) (v6_prefix64 b) = text_eq a b
key_eq _ _ = false

pub record Record : Type 0 where
  pub failures : ℕ  -- u32
  pub blocked_until : Option ℕ
  pub last_seen : ℕ

abbrev pub RateLimiter : Type 0
RateLimiter = List (PeerKey × Record)

abbrev pub lookup : PeerKey → RateLimiter → Option Record
lookup key [] = none
lookup key ((k, r) ∷ peers) = if key_eq key k then some r else lookup key peers

abbrev pub place : PeerKey → Record → RateLimiter → RateLimiter
place key r [] = (key, r) ∷ []
place key r ((k, old) ∷ peers) =
    let rest = place key r peers in if key_eq key k then (key, r) ∷ peers else (k, old) ∷ rest

abbrev pub remove_key : PeerKey → RateLimiter → RateLimiter
remove_key key [] = []
remove_key key ((k, r) ∷ peers) =
    let rest = remove_key key peers in if key_eq key k then rest else (k, r) ∷ rest

abbrev pub is_unblocked : ℕ → Option ℕ → Bool
is_unblocked now none = true
is_unblocked now (some until) = leb until now

unfoldable pub allow : RateLimiter → IpAddr → ℕ → Bool
unfolding peer_key
allow peers ip now = elim (lookup (peer_key ip) peers) [
  | none ↦ true
  | some r ↦ is_unblocked now r.blocked_until
]

unfoldable pub prune : ℕ → RateLimiter → RateLimiter
prune now [] = []
prune now ((k, r) ∷ peers) =
    let rest = prune now peers in
    if ltb (now - r.last_seen) forget_after then (k, r) ∷ rest else rest

-- `sort_unstable_by_key`; which of two equally old records comes first is left open by the source.
abbrev pub insert_by_age : ℕ × PeerKey → List (ℕ × PeerKey) → List (ℕ × PeerKey)
insert_by_age x [] = x ∷ []
insert_by_age x (y ∷ ys) =
    let rest = insert_by_age x ys in if leb x.0 y.0 then x ∷ y ∷ ys else y ∷ rest

abbrev pub by_age : RateLimiter → List (ℕ × PeerKey)
by_age [] = []
by_age ((k, r) ∷ peers) = insert_by_age (r.last_seen, k) (by_age peers)

abbrev pub remove_keys : List (ℕ × PeerKey) → RateLimiter → RateLimiter
remove_keys [] peers = peers
remove_keys ((seen, key) ∷ keys) peers = remove_keys keys (remove_key key peers)

unfoldable pub make_room : ℕ → RateLimiter → RateLimiter
unfolding prune
make_room now peers =
    let kept = prune now peers in
    if ltb (length kept) max_tracked_peers
    then kept
    else remove_keys (take (max_tracked_peers / 8) (by_age kept)) kept

-- `1u32.checked_shl(over.min(16))`, and `checked_mul` on a duration of whole seconds.
unfoldable pub backoff_after : ℕ → ℕ
backoff_after over =
    let factor = if ltb (min over 16) 32 then 2 ^ min over 16 % 4294967296 else 4294967295 in
    if ltb (base_backoff / 1000 * factor) 18446744073709551616
    then min (base_backoff * factor) max_backoff
    else max_backoff

unfoldable pub failed_once : ℕ → Record → Record
unfolding backoff_after
failed_once now r =
    let failures = min (r.failures + 1) 4294967295 in
    record {
      failures = failures;
      blocked_until =
          if leb failure_threshold failures
          then some (now + backoff_after (failures - failure_threshold))
          else r.blocked_until;
      last_seen = now;
    }

abbrev pub or_new : ℕ → Option Record → Record
or_new now none = record { failures = 0; blocked_until = none; last_seen = now }
or_new now (some r) = r

abbrev pub is_tracked : Option Record → Bool
is_tracked none = false
is_tracked (some r) = true

-- The table, with space for a key that is new.
unfoldable pub roomy : PeerKey → ℕ → RateLimiter → RateLimiter
unfolding make_room
roomy key now peers =
    if not (is_tracked (lookup key peers)) && leb max_tracked_peers (length peers)
    then make_room now peers
    else peers

unfoldable pub record_failure : RateLimiter → IpAddr → ℕ → RateLimiter
unfolding peer_key roomy failed_once
record_failure peers ip now =
    let key = peer_key ip in
    place key (failed_once now (or_new now (lookup key (roomy key now peers))))
      (roomy key now peers)

unfoldable pub record_success : RateLimiter → IpAddr → RateLimiter
unfolding peer_key
record_success peers ip = remove_key (peer_key ip) peers
