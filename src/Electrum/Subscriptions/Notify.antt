-- ===== src/Electrum/Subscriptions/Notify.antt =====
-- The messages that NotifyScripthash and NotifyNewBlock offer to connections.
use electrum_go.Base.{
  ℕ, ◌≡◌, refl, ap, ◌∙◌, Bool, false, ◌||◌, Option, List, [], ◌∷◌, map, All, ◌==◌,
}
use electrum_go.Base.Int.{ℤ}
use electrum_go.Base.Bytes.{Bytes}
use electrum_go.Base.Map.{nat_eq, bytes_key}
use electrum_go.Electrum.Subscriptions.{
  Notification, HeaderNotification, status_value, notify_scripthash, notify_new_block,
}
use electrum_go.Base.Sets.{among, among-keys, among-members}
use electrum_go.Electrum.Subscriptions.History.{
  Call, run, wanted, headers_wanted, in_subs-run, headers-run,
}

-- Whether a message is offered to the connection.
abbrev pub is_addressed : ℕ → List Notification → Bool
is_addressed w [] = false
is_addressed w (n ∷ ns) = n.conn == w || is_addressed w ns

abbrev pub is_header_addressed : ℕ → List HeaderNotification → Bool
is_header_addressed w [] = false
is_header_addressed w (n ∷ ns) = n.conn == w || is_header_addressed w ns

addressed-map :
    (w : ℕ) (ks : List ℕ) (sh : Bytes) (status : Option Bytes)
    → is_addressed w (map (λ k. record { conn = k; scripthash = sh; status = status }) ks)
      ≡ among w ks
unfolding among
addressed-map w [] sh status = refl
addressed-map w (k ∷ ks) sh status = ap (λ t. k == w || t) (addressed-map w ks sh status)

same_message :
    (ks : List ℕ) (sh : Bytes) (status : Option Bytes)
    → All
        (λ n. (n.scripthash ≡ sh) × (n.status ≡ status))
        (map {A = ℕ} {B = Notification}
          (λ k. record { conn = k; scripthash = sh; status = status })
          ks)
same_message [] sh status = tt
same_message (k ∷ ks) sh status = ((refl, refl), same_message ks sh status)

header_addressed-map :
    (w : ℕ) (ks : List ℕ) (height : ℤ) (hex : Bytes)
    → is_header_addressed w (map (λ k. record { conn = k; height = height; hex = hex }) ks)
      ≡ among w ks
unfolding among
header_addressed-map w [] height hex = refl
header_addressed-map w (k ∷ ks) height hex =
    ap (λ t. k == w || t) (header_addressed-map w ks height hex)

same_header :
    (ks : List ℕ) (height : ℤ) (hex : Bytes)
    → All
        (λ n. (n.height ≡ height) × (n.hex ≡ hex))
        (map {A = ℕ} {B = HeaderNotification}
          (λ k. record { conn = k; height = height; hex = hex })
          ks)
same_header [] height hex = tt
same_header (k ∷ ks) height hex = ((refl, refl), same_header ks height hex)

-- After any calls NotifyScripthash offers a message to a connection exactly when the latest call
-- that concerns the connection and the scripthash was a subscription; every message names the
-- scripthash and carries the status, null for the empty one.
pub notify_scripthash-run :
    (calls : List Call) (sh status : Bytes) (w : ℕ)
    → (is_addressed w (notify_scripthash (run calls) sh status) ≡ wanted w sh calls)
      × All
          (λ n. (n.scripthash ≡ sh) × (n.status ≡ status_value status))
          (notify_scripthash (run calls) sh status)
unfolding notify_scripthash
notify_scripthash-run calls sh status w = (
  addressed-map w _ sh _ ∙ among-members (run calls).scripthash_subs sh w ∙ in_subs-run calls w sh,
  same_message _ sh (status_value status),
)

-- After any calls NotifyNewBlock offers a message to a connection exactly when the latest call that
-- concerns the connection and block headers was a subscription; every message carries the height
-- and the header.
pub notify_new_block-run :
    (calls : List Call) (height : ℤ) (hex : Bytes) (w : ℕ)
    → (is_header_addressed w (notify_new_block (run calls) height hex) ≡ headers_wanted w calls)
      × All (λ n. (n.height ≡ height) × (n.hex ≡ hex)) (notify_new_block (run calls) height hex)
unfolding notify_new_block
notify_new_block-run calls height hex w = (
  header_addressed-map w _ height hex ∙ among-keys (run calls).header_subs w ∙ headers-run calls w,
  same_header _ height hex,
)
