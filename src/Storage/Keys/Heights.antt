-- ===== src/Storage/Keys/Heights.antt =====
-- Keys of a height alone: block headers and the txids of a block.
use electrum_go.Base.{ℕ, ◌≡◌, refl, sym, ap, ◌∙◌, ◌↔◌, false, [], ◌∷◌, arith}
use electrum_go.Base.Int.{ℤ, pos, negsuc, IsI32, is_negative}
use electrum_go.Base.Result.{ok}
use electrum_go.Base.Bytes.{Bytes, IsBytes}
use electrum_go.Storage.Keys.{
  height_bytes, height_key, parse_height_key, make_header_key, parse_header_key,
  make_block_txids_key, parse_block_txids_key,
}
use electrum_go.Storage.Keys.Layout.{
  checked, checked_inv, take_eq_self, height_bytes-field, read_height-height_bytes,
}

ok_inv : (x y : ℤ) → ok x ≡ ok y → x ≡ y
ok_inv x y h = cc

module _ (p : ℕ) where
  make_inv :
      (h : ℤ) (key : Bytes)
      → height_key p h ≡ ok key
      → (is_negative h ≡ false) × (p ∷ height_bytes h ≡ key)
  make_inv (pos n) key e = (refl, cc)
  make_inv (negsuc n) key e = cc

  make_step : (h : ℤ) → is_negative h ≡ false → height_key p h ≡ ok (p ∷ height_bytes h)
  make_step (pos n) e = refl
  make_step (negsuc n) e = cc

  parse_step : (h : ℤ) → IsI32 h → parse_height_key p (p ∷ height_bytes h) ≡ ok h
  parse_step h r =
      checked 5 p (p ∷ height_bytes h) _ (omega arith) refl ∙ ap ok (read_height-height_bytes h r)

  parse_inv :
      (key : Bytes) (h : ℤ)
      → IsBytes key
      → parse_height_key p key ≡ ok h
      → is_negative h ≡ false
      → height_key p h ≡ ok key
  parse_inv [] h b e s = cc
  parse_inv (q ∷ r) h b e s =
      let (n, k, f) = checked_inv 5 p (q ∷ r) _ e in
      make_step h s
      ∙ cc (
        k,
        ok_inv _ h f,
        height_bytes-field 0 r (omega arith) b.1,
        take_eq_self 4 r (omega arith),
      )

  pub parse_height_key_of_make :
      (h : ℤ) (key : Bytes) → IsI32 h → height_key p h ≡ ok key → parse_height_key p key ≡ ok h
  parse_height_key_of_make h key r e =
      ap (parse_height_key p) (sym (make_inv h key e).1) ∙ parse_step h r

  height_key_iff :
      (h : ℤ) (key : Bytes)
      → IsBytes key
      → IsI32 h
      → (height_key p h ≡ ok key) ↔ ((parse_height_key p key ≡ ok h) × (is_negative h ≡ false))
  height_key_iff h key b r = (
    λ e. (parse_height_key_of_make h key r e, (make_inv h key e).0),
    λ (e, s). parse_inv key h b e s,
  )

-- MakeHeaderKey returns a key exactly when ParseHeaderKey reads it back as the same int32 height and
-- that height is not negative.
pub make_header_key-iff-parse_header_key :
    (h : ℤ) (key : Bytes)
    → IsBytes key
    → IsI32 h
    → (make_header_key h ≡ ok key) ↔ ((parse_header_key key ≡ ok h) × (is_negative h ≡ false))
unfolding make_header_key parse_header_key
make_header_key-iff-parse_header_key = height_key_iff _

-- MakeBlockTxidsKey returns a key exactly when ParseBlockTxidsKey reads it back as the same int32
-- height and that height is not negative.
pub make_block_txids_key-iff-parse_block_txids_key :
    (h : ℤ) (key : Bytes)
    → IsBytes key
    → IsI32 h
    → (make_block_txids_key h ≡ ok key)
      ↔ ((parse_block_txids_key key ≡ ok h) × (is_negative h ≡ false))
unfolding make_block_txids_key parse_block_txids_key
make_block_txids_key-iff-parse_block_txids_key = height_key_iff _
