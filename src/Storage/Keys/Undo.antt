-- ===== src/Storage/Keys/Undo.antt =====
-- Keys of the undo records: a height and a block hash.
use electrum_go.Base.{◌≡◌, refl, sym, ap, ◌∙◌, ◌↔◌, false, [], ◌∷◌, ◌++◌, length, take, drop, arith}
use electrum_go.Base.Lists.{length-drop}
use electrum_go.Base.Int.{ℤ, pos, negsuc, IsI32, is_negative}
use electrum_go.Base.Result.{ok}
use electrum_go.Base.Bytes.{Bytes, IsBytes}
use electrum_go.Storage.Keys.{prefix_undo, height_bytes, make_undo_key, parse_undo_key}
use electrum_go.Storage.Keys.Layout.{
  checked, checked_inv, split_at, take_eq_self, height_bytes-field, read_height-height_bytes,
  ok_pair_inv,
}

abbrev undo_bytes : ℤ → Bytes → Bytes
undo_bytes h hash = prefix_undo ∷ height_bytes h ++ hash

make_inv :
    (h : ℤ) (hash key : Bytes)
    → make_undo_key h hash ≡ ok key
    → (is_negative h ≡ false) × (length hash ≡ 32) × (undo_bytes h hash ≡ key)
unfolding make_undo_key
make_inv (pos n) hash key e = ground arith
make_inv (negsuc n) hash key e = ground arith

make_step :
    (h : ℤ) (hash : Bytes)
    → is_negative h ≡ false
    → length hash ≡ 32
    → make_undo_key h hash ≡ ok (undo_bytes h hash)
unfolding make_undo_key
make_step (pos n) hash e l = ground arith
make_step (negsuc n) hash e l = cc

parse_step :
    (h : ℤ) (hash : Bytes)
    → IsI32 h
    → length hash ≡ 32
    → parse_undo_key (undo_bytes h hash) ≡ ok (h, hash)
unfolding parse_undo_key
parse_step h hash r n =
    checked 37 prefix_undo (undo_bytes h hash) _ (omega arith) refl
    ∙ cc (read_height-height_bytes h r, take_eq_self 32 hash n)

parse_inv :
    (key hash : Bytes) (h : ℤ)
    → IsBytes key
    → parse_undo_key key ≡ ok (h, hash)
    → is_negative h ≡ false
    → make_undo_key h hash ≡ ok key
unfolding parse_undo_key
parse_inv [] hash h b e s = cc
parse_inv (q ∷ r) hash h b e s =
    let (n, k, f) = checked_inv 37 prefix_undo (q ∷ r) _ e in
    let (eh, eb) = ok_pair_inv _ h _ hash f in
    let t : take 32 (drop 4 r) ≡ drop 4 r =
      take_eq_self 32 (drop 4 r) (omega (arith, length-drop 4 r)) in
    make_step h hash s (omega (arith, ap length eb, ap length t, length-drop 4 r))
    ∙ cc (k, eh, eb, t, height_bytes-field 0 r (omega arith) b.1, split_at 4 r)

pub parse_undo_key_of_make :
    (h : ℤ) (hash key : Bytes)
    → IsI32 h
    → make_undo_key h hash ≡ ok key
    → parse_undo_key key ≡ ok (h, hash)
parse_undo_key_of_make h hash key r e =
    let (s, n, k) = make_inv h hash key e in ap parse_undo_key (sym k) ∙ parse_step h hash r n

-- MakeUndoKey returns a key exactly when ParseUndoKey reads it back as the same int32 height and block
-- hash and the height is not negative.
pub make_undo_key-iff-parse_undo_key :
    (h : ℤ) (hash key : Bytes)
    → IsBytes key
    → IsI32 h
    → (make_undo_key h hash ≡ ok key)
      ↔ ((parse_undo_key key ≡ ok (h, hash)) × (is_negative h ≡ false))
make_undo_key-iff-parse_undo_key h hash key b r = (
  λ e. (parse_undo_key_of_make h hash key r e, (make_inv h hash key e).0),
  λ (e, s). parse_inv key hash h b e s,
)
