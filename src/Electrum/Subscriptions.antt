-- ===== src/Electrum/Subscriptions.antt =====
-- internal/electrum/subscriptions.go: who has subscribed to what. A connection is a number, which
-- stands for the pointer. Every method holds the lock while it reads or writes the maps.
pub mod History
pub mod Notify
use electrum_go.Base.{
  ℕ, Bool, true, false, ◌&&◌, ◌≡◌, Option, none, some, List, [], ◌∷◌, length, map, ltb,
  if◌then◌else◌,
}
use electrum_go.Base.Int.{ℤ}
use electrum_go.Base.Bytes.{Bytes}
use electrum_go.Base.Map.{Eq, nat_eq, bytes_key, Map, get, set, delete, has}
use electrum_go.Base.Sets.{or_empty, is_empty, keys, add_member, drop_member, drop_each}

pub record SubscriptionManager : Type 0 where
  pub scripthash_subs : Map Bytes (Map ℕ Bool)
  pub conn_scripthash : Map ℕ (Map Bytes Bool)
  pub header_subs : Map ℕ Bool

unfoldable pub new : SubscriptionManager
new = record { scripthash_subs = []; conn_scripthash = []; header_subs = [] }

unfoldable pub subscribe_scripthash : SubscriptionManager → ℕ → Bytes → SubscriptionManager
subscribe_scripthash sm w sh = record sm {
  scripthash_subs = add_member sm.scripthash_subs sh w;
  conn_scripthash = add_member sm.conn_scripthash w sh;
}

unfoldable pub unsubscribe_scripthash : SubscriptionManager → ℕ → Bytes → SubscriptionManager
unsubscribe_scripthash sm w sh = record sm {
  scripthash_subs = drop_member sm.scripthash_subs sh w;
  conn_scripthash = drop_member sm.conn_scripthash w sh;
}

unfoldable pub subscribe_headers : SubscriptionManager → ℕ → SubscriptionManager
subscribe_headers sm w = record sm { header_subs = set sm.header_subs w true }

unfoldable pub unsubscribe_headers : SubscriptionManager → ℕ → SubscriptionManager
unsubscribe_headers sm w = record sm { header_subs = delete sm.header_subs w }

-- Where the connection has no entry the loop has nothing to do and `delete` changes nothing.
unfoldable pub unsubscribe : SubscriptionManager → ℕ → SubscriptionManager
unsubscribe sm w = record {
  scripthash_subs = drop_each sm.scripthash_subs (keys (or_empty (get sm.conn_scripthash w))) w;
  conn_scripthash = delete sm.conn_scripthash w;
  header_subs = delete sm.header_subs w;
}

-- A message with the connection that it is offered to by `TrySend`.
pub record Notification : Type 0 where
  pub conn : ℕ
  pub scripthash : Bytes
  pub status : Option Bytes

-- The empty status is sent as null.
abbrev pub status_value : Bytes → Option Bytes
status_value [] = none
status_value (c ∷ cs) = some (c ∷ cs)

unfoldable pub notify_scripthash : SubscriptionManager → Bytes → Bytes → List Notification
notify_scripthash sm sh status =
    map (λ w. record { conn = w; scripthash = sh; status = status_value status })
      (keys (or_empty (get sm.scripthash_subs sh)))

pub record HeaderNotification : Type 0 where
  pub conn : ℕ
  pub height : ℤ
  pub hex : Bytes

unfoldable pub notify_new_block : SubscriptionManager → ℤ → Bytes → List HeaderNotification
notify_new_block sm height hex =
    map (λ w. record { conn = w; height = height; hex = hex }) (keys sm.header_subs)

unfoldable pub get_scripthash_subscriber_count : SubscriptionManager → Bytes → ℕ
get_scripthash_subscriber_count sm sh = length (or_empty (get sm.scripthash_subs sh))

unfoldable pub get_header_subscriber_count : SubscriptionManager → ℕ
get_header_subscriber_count sm = length sm.header_subs

unfoldable pub get_total_subscriptions : SubscriptionManager → ℕ × ℕ × ℕ
get_total_subscriptions sm =
    (length sm.scripthash_subs, length sm.header_subs, length sm.conn_scripthash)

unfoldable pub get_subscribed_scripthashes : SubscriptionManager → List Bytes
get_subscribed_scripthashes sm = keys sm.scripthash_subs

unfoldable pub is_scripthash_subscribed : SubscriptionManager → Bytes → Bool
is_scripthash_subscribed sm sh =
    has sm.scripthash_subs sh && ltb 0 (length (or_empty (get sm.scripthash_subs sh)))
