-- ===== src/Electrum/Subscriptions/History.antt =====
-- The subscriptions against the calls that were made: the two maps say the same, and what they say
-- is what the latest call about a connection asked for.
use electrum_go.Base.{
  lt→ltb, ==_iff, ℕ, ◌≡◌, ◌↔◌, refl, sym, ◌∙◌, Bool, true, false, not, ◌&&◌, ◌||◌, Option, none,
  some, List, [], ◌∷◌, arith,
}
use electrum_go.Base.Bytes.{Bytes}
use electrum_go.Base.Map.{nat_eq, bytes_key, ◌==◌, Map, get, has, get-set, get-delete, get-empty}
use electrum_go.Electrum.Subscriptions.{
  SubscriptionManager, new, subscribe_scripthash, unsubscribe_scripthash, subscribe_headers,
  unsubscribe_headers, unsubscribe, is_scripthash_subscribed,
}
use electrum_go.Base.Sets.{
  member, among-members, member-delete, delete-NoneEmpty, member-add_member, member-drop_member,
  member-drop_each, NoneEmpty, add_member-NoneEmpty, drop_member-NoneEmpty, drop_each-NoneEmpty,
  or_empty, keys,
}

pub data Call : Type 0 where
  subscribe leave : ℕ → Bytes → Call
  subscribe_to_headers leave_headers : ℕ → Call
  disconnect : ℕ → Call

unfoldable pub perform : SubscriptionManager → Call → SubscriptionManager
perform sm (subscribe w sh) = subscribe_scripthash sm w sh
perform sm (leave w sh) = unsubscribe_scripthash sm w sh
perform sm (subscribe_to_headers w) = subscribe_headers sm w
perform sm (leave_headers w) = unsubscribe_headers sm w
perform sm (disconnect w) = unsubscribe sm w

-- The calls, the latest first.
unfoldable pub run : List Call → SubscriptionManager
run [] = new
run (c ∷ earlier) = perform (run earlier) c

-- Whether the latest call that concerns the connection and the scripthash was a subscription.
unfoldable pub wanted : ℕ → Bytes → List Call → Bool
wanted w sh [] = false
wanted w sh (subscribe v x ∷ earlier) = (v == w && x == sh) || wanted w sh earlier
wanted w sh (leave v x ∷ earlier) = not (v == w && x == sh) && wanted w sh earlier
wanted w sh (disconnect v ∷ earlier) = not (v == w) && wanted w sh earlier
wanted w sh (c ∷ earlier) = wanted w sh earlier

unfoldable pub headers_wanted : ℕ → List Call → Bool
headers_wanted w [] = false
headers_wanted w (subscribe_to_headers v ∷ earlier) = v == w || headers_wanted w earlier
headers_wanted w (leave_headers v ∷ earlier) = not (v == w) && headers_wanted w earlier
headers_wanted w (disconnect v ∷ earlier) = not (v == w) && headers_wanted w earlier
headers_wanted w (c ∷ earlier) = headers_wanted w earlier

abbrev pub in_conn : SubscriptionManager → ℕ → Bytes → Bool
in_conn sm w sh = member sm.conn_scripthash w sh

abbrev pub in_subs : SubscriptionManager → ℕ → Bytes → Bool
in_subs sm w sh = member sm.scripthash_subs sh w

in_conn-run :
    (calls : List Call) (w : ℕ) (sh : Bytes) → in_conn (run calls) w sh ≡ wanted w sh calls
unfolding run perform wanted subscribe_scripthash unsubscribe_scripthash subscribe_headers
    unsubscribe_headers unsubscribe
in_conn-run [] w sh = unfold new member get in refl
in_conn-run (subscribe v x ∷ earlier) w sh =
    ground
      (arith, member-add_member (run earlier).conn_scripthash v w x sh, in_conn-run earlier w sh)
in_conn-run (leave v x ∷ earlier) w sh =
    ground
      (arith, member-drop_member (run earlier).conn_scripthash v w x sh, in_conn-run earlier w sh)
in_conn-run (subscribe_to_headers v ∷ earlier) w sh = in_conn-run earlier w sh
in_conn-run (leave_headers v ∷ earlier) w sh = in_conn-run earlier w sh
in_conn-run (disconnect v ∷ earlier) w sh =
    ground (arith, member-delete (run earlier).conn_scripthash v w sh, in_conn-run earlier w sh)

pub in_subs-run :
    (calls : List Call) (w : ℕ) (sh : Bytes) → in_subs (run calls) w sh ≡ wanted w sh calls
unfolding run perform wanted subscribe_scripthash unsubscribe_scripthash subscribe_headers
    unsubscribe_headers unsubscribe
in_subs-run [] w sh = unfold new member get in refl
in_subs-run (subscribe v x ∷ earlier) w sh =
    ground
      (arith, member-add_member (run earlier).scripthash_subs x sh v w, in_subs-run earlier w sh)
in_subs-run (leave v x ∷ earlier) w sh =
    ground
      (arith, member-drop_member (run earlier).scripthash_subs x sh v w, in_subs-run earlier w sh)
in_subs-run (subscribe_to_headers v ∷ earlier) w sh = in_subs-run earlier w sh
in_subs-run (leave_headers v ∷ earlier) w sh = in_subs-run earlier w sh
in_subs-run (disconnect v ∷ earlier) w sh = ground (
  arith,
  member-drop_each (run earlier).scripthash_subs
      (keys (or_empty (get (run earlier).conn_scripthash v))) sh v w,
  among-members (run earlier).conn_scripthash v sh,
  in_conn-run earlier v sh,
  in_subs-run earlier w sh,
)

pub headers-run :
    (calls : List Call) (w : ℕ) → has (run calls).header_subs w ≡ headers_wanted w calls
unfolding run perform headers_wanted subscribe_scripthash unsubscribe_scripthash subscribe_headers
    unsubscribe_headers unsubscribe
headers-run [] w = unfold new get in refl
headers-run (subscribe v x ∷ earlier) w = headers-run earlier w
headers-run (leave v x ∷ earlier) w = headers-run earlier w
headers-run (subscribe_to_headers v ∷ earlier) w =
    ground (arith, get-set (run earlier).header_subs v w true, headers-run earlier w)
headers-run (leave_headers v ∷ earlier) w =
    ground (arith, get-delete (run earlier).header_subs v w, headers-run earlier w)
headers-run (disconnect v ∷ earlier) w =
    ground (arith, get-delete (run earlier).header_subs v w, headers-run earlier w)

-- After any sequence of calls on a new manager a connection is in the set of a scripthash, and the
-- scripthash in the set of the connection, exactly when the latest call that concerns the two was a
-- subscription; likewise for block headers.
pub membership-run :
    (calls : List Call) (w : ℕ) (sh : Bytes)
    → (in_subs (run calls) w sh ≡ wanted w sh calls)
      × (in_conn (run calls) w sh ≡ wanted w sh calls)
      × (has (run calls).header_subs w ≡ headers_wanted w calls)
membership-run calls w sh = (in_subs-run calls w sh, in_conn-run calls w sh, headers-run calls w)

subs-NoneEmpty : (calls : List Call) → NoneEmpty (run calls).scripthash_subs
unfolding run perform subscribe_scripthash unsubscribe_scripthash subscribe_headers
    unsubscribe_headers unsubscribe
subs-NoneEmpty [] = λ k e. unfold new get in cc e
subs-NoneEmpty (subscribe w sh ∷ earlier) = add_member-NoneEmpty _ sh w (subs-NoneEmpty earlier)
subs-NoneEmpty (leave w sh ∷ earlier) = drop_member-NoneEmpty _ sh w (subs-NoneEmpty earlier)
subs-NoneEmpty (subscribe_to_headers w ∷ earlier) = subs-NoneEmpty earlier
subs-NoneEmpty (leave_headers w ∷ earlier) = subs-NoneEmpty earlier
subs-NoneEmpty (disconnect w ∷ earlier) = drop_each-NoneEmpty _ _ w (subs-NoneEmpty earlier)

conn-NoneEmpty : (calls : List Call) → NoneEmpty (run calls).conn_scripthash
unfolding run perform subscribe_scripthash unsubscribe_scripthash subscribe_headers
    unsubscribe_headers unsubscribe
conn-NoneEmpty [] = λ k e. unfold new get in cc e
conn-NoneEmpty (subscribe w sh ∷ earlier) = add_member-NoneEmpty _ w sh (conn-NoneEmpty earlier)
conn-NoneEmpty (leave w sh ∷ earlier) = drop_member-NoneEmpty _ w sh (conn-NoneEmpty earlier)
conn-NoneEmpty (subscribe_to_headers w ∷ earlier) = conn-NoneEmpty earlier
conn-NoneEmpty (leave_headers w ∷ earlier) = conn-NoneEmpty earlier
conn-NoneEmpty (disconnect w ∷ earlier) = delete-NoneEmpty _ w (conn-NoneEmpty earlier)

subscribed_of_some :
    (sm : SubscriptionManager) (sh : Bytes) (w : ℕ)
    → in_subs sm w sh ≡ true
    → is_scripthash_subscribed sm sh ≡ true
unfolding member is_scripthash_subscribed
subscribed_of_some sm sh w h = split (get sm.scripthash_subs sh) refl
  where
    split :
        (o : Option (Map ℕ Bool))
        → get sm.scripthash_subs sh ≡ o
        → is_scripthash_subscribed sm sh ≡ true
    split none e = cc (get-empty {V = Bool} w)
    split (some []) e = cc (get-empty {V = Bool} w)
    split (some (x ∷ m)) e = rw (e, is_scripthash_subscribed) (lt→ltb 0 _ (omega arith))

some_of_subscribed :
    (sm : SubscriptionManager) (sh : Bytes)
    → is_scripthash_subscribed sm sh ≡ true
    → (w : ℕ) × (in_subs sm w sh ≡ true)
unfolding member is_scripthash_subscribed
some_of_subscribed sm sh h = split (get sm.scripthash_subs sh) refl
  where
    split :
        (o : Option (Map ℕ Bool))
        → get sm.scripthash_subs sh ≡ o
        → (w : ℕ) × (in_subs sm w sh ≡ true)
    split none e = absurd (cc)
    split (some []) e = absurd (ground arith)
    split (some ((w, v) ∷ m)) e = (w, rw e (unfold get in ground (arith, ==_iff w w)))

-- After any calls IsScripthashSubscribed says whether some connection's latest call about the
-- scripthash was a subscription, and neither map holds an empty set.
pub is_scripthash_subscribed-run :
    (calls : List Call) (sh : Bytes)
    → ((is_scripthash_subscribed (run calls) sh ≡ true) ↔ ((w : ℕ) × (wanted w sh calls ≡ true)))
      × NoneEmpty (run calls).scripthash_subs
      × NoneEmpty (run calls).conn_scripthash
is_scripthash_subscribed-run calls sh = (
  (
    λ h. let (w, p) = some_of_subscribed (run calls) sh h in (w, sym (in_subs-run calls w sh) ∙ p),
    λ (w, p). subscribed_of_some (run calls) sh w (in_subs-run calls w sh ∙ p),
  ),
  subs-NoneEmpty calls,
  conn-NoneEmpty calls,
)
