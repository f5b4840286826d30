-- ===== src/Indexer/Mempool/Listing.antt =====
-- The sets of transactions by scripthash under the methods of the overlay.
use electrum_go.Base.{
  ◌≡◌, refl, ap, Bool, not, ◌&&◌, ◌||◌, Option, none, some, List, [], ◌∷◌, map, arith,
}
use electrum_go.Base.Bytes.{Bytes, bytes_eq}
use electrum_go.Base.Hex.{hex_encode}
use electrum_go.Base.Map.{bytes_key, Map, set, delete, bytes_eq_iff}
use electrum_go.Base.Sets.{
  keys, add_member, drop_member, among, member, member-add_member, member-drop_member,
}
use electrum_go.Indexer.Mempool.{
  MempoolInput, MempoolOutput, add_own, affected_by_inputs, affected_by_outputs, add_to_each,
  remove_from_each,
}

pub member-add_to_each :
    (m : Map Bytes (Map Bytes Bool)) (ks : List Bytes) (id sh t : Bytes)
    → member (add_to_each m ks id) sh t ≡ ((among sh ks && bytes_eq id t) || member m sh t)
unfolding add_to_each among
member-add_to_each m [] id sh t = refl
member-add_to_each m (k ∷ ks) id sh t =
    ground (arith, member-add_to_each (add_member m k id) ks id sh t, member-add_member m k sh id t)

pub member-remove_from_each :
    (m : Map Bytes (Map Bytes Bool)) (shs : List Bytes) (id sh t : Bytes)
    → member (remove_from_each m shs id) sh t
      ≡ (not (among sh (map hex_encode shs) && bytes_eq id t) && member m sh t)
unfolding remove_from_each among
member-remove_from_each m [] id sh t = refl
member-remove_from_each m (x ∷ xs) id sh t = ground (
  arith,
  member-remove_from_each (drop_member m (hex_encode x) id) xs id sh t,
  member-drop_member m (hex_encode x) sh id t,
)

-- Every scripthash stands under its own text.
abbrev pub IsByText : Map Bytes Bytes → Type 0
IsByText affected = keys affected ≡ map hex_encode (map (λ e. e.1) affected)

delete-IsByText : (a : Map Bytes Bytes) (k : Bytes) → IsByText a → IsByText (delete a k)
unfolding delete
delete-IsByText [] k h = refl
delete-IsByText ((j, v) ∷ a) k h = ground (arith, delete-IsByText a k, bytes_eq_iff j k)

set-IsByText : (a : Map Bytes Bytes) (sh : Bytes) → IsByText a → IsByText (set a (hex_encode sh) sh)
unfolding set
set-IsByText a sh h = ap (◌∷◌ (hex_encode sh)) (delete-IsByText a (hex_encode sh) h)

add_own-IsByText : (o : Option Bytes) (a : Map Bytes Bytes) → IsByText a → IsByText (add_own o a)
add_own-IsByText none a h = h
add_own-IsByText (some sh) a h = set-IsByText a sh h

pub affected_by_inputs-IsByText :
    (is' : List MempoolInput) (a : Map Bytes Bytes)
    → IsByText a
    → IsByText (affected_by_inputs is' a)
unfolding affected_by_inputs
affected_by_inputs-IsByText [] a h = h
affected_by_inputs-IsByText (i ∷ is') a h =
    affected_by_inputs-IsByText is' (add_own i.scripthash a) (add_own-IsByText i.scripthash a h)

pub affected_by_outputs-IsByText :
    (os : List MempoolOutput) (a : Map Bytes Bytes)
    → IsByText a
    → IsByText (affected_by_outputs os a)
unfolding affected_by_outputs
affected_by_outputs-IsByText [] a h = h
affected_by_outputs-IsByText (o ∷ os) a h =
    affected_by_outputs-IsByText os (set a (hex_encode o.scripthash) o.scripthash)
      (set-IsByText a o.scripthash h)
