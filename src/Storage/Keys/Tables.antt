-- ===== src/Storage/Keys/Tables.antt =====
-- All keys of the database together: the tables never share a key.
use electrum_go.Base.{
  ℕ, ◌<◌, ◌^◌, ◌≡◌, refl, ap, Option, none, some, drop, arith, ◌==◌, if◌then◌else◌,
}
use electrum_go.Base.Int.{ℤ, pos, negsuc, IsI32}
use electrum_go.Base.Result.{Result, ok, err}
use electrum_go.Base.Bytes.{Bytes}
use electrum_go.Storage.Keys.Outpoint.{parse_utxo_key_of_make, parse_mempool_key_of_make}
use electrum_go.Storage.Keys.History.{parse_history_key_of_make, parse_tx_index_key_of_make}
use electrum_go.Storage.Keys.Heights.{parse_height_key_of_make}
use electrum_go.Storage.Keys.Undo.{parse_undo_key_of_make}
use electrum_go.Storage.Keys.{
  first, parse_utxo_key, parse_mempool_key, parse_history_key, parse_tx_index_key, parse_height_key,
  parse_undo_key, prefix_utxo, prefix_history, prefix_tx_index, prefix_undo, prefix_header,
  prefix_mempool, prefix_block_tx, prefix_tx_pos, prefix_tx_blob, prefix_tx_offs, key_checkpoint,
  make_utxo_key, make_history_key, make_tx_index_key, make_tx_pos_key, make_tx_blob_key,
  make_tx_offsets_key, make_undo_key, make_header_key, make_mempool_key, make_block_txids_key,
}

-- What a key stands for.
pub data Key : Type 0 where
  utxo mempool : Bytes → Bytes → ℕ → Key
  history : Bytes → ℤ → ℕ → ℕ → Key
  tx_index : Bytes → ℕ → Key
  tx_pos : Bytes → Key
  tx_blob tx_offsets header block_txids : ℤ → Key
  undo : ℤ → Bytes → Key
  checkpoint : Key

unfoldable pub encode : Key → Result Bytes
encode (utxo sh txid vout) = make_utxo_key sh txid vout
encode (mempool sh txid vout) = make_mempool_key sh txid vout
encode (history sh h i j) = make_history_key sh h i j
encode (tx_index txid vout) = make_tx_index_key txid vout
encode (tx_pos txid) = make_tx_pos_key txid
encode (tx_blob h) = make_tx_blob_key h
encode (tx_offsets h) = make_tx_offsets_key h
encode (header h) = make_header_key h
encode (block_txids h) = make_block_txids_key h
encode (undo h hash) = make_undo_key h hash
encode checkpoint = ok key_checkpoint

-- The numbers in it fit Go's int32 and uint32.
abbrev pub Fits : Key → Type 0
Fits (utxo sh txid vout) = vout < 2 ^ 32
Fits (mempool sh txid vout) = vout < 2 ^ 32
Fits (history sh h i j) = IsI32 h × (i < 2 ^ 32) × (j < 2 ^ 32)
Fits (tx_index txid vout) = vout < 2 ^ 32
Fits (tx_blob h) = IsI32 h
Fits (tx_offsets h) = IsI32 h
Fits (header h) = IsI32 h
Fits (block_txids h) = IsI32 h
Fits (undo h hash) = IsI32 h
Fits _ = Unit

-- The byte that tells the tables apart.
tag : Key → ℕ
tag (utxo sh txid vout) = prefix_utxo
tag (mempool sh txid vout) = prefix_mempool
tag (history sh h i j) = prefix_history
tag (tx_index txid vout) = prefix_tx_index
tag (tx_pos txid) = prefix_tx_pos
tag (tx_blob h) = prefix_tx_blob
tag (tx_offsets h) = prefix_tx_offs
tag (header h) = prefix_header
tag (block_txids h) = prefix_block_tx
tag (undo h hash) = prefix_undo
tag checkpoint = b'c'

abbrev present {ℓ} : {A : Type ℓ} → (A → Key) → Result A → Option Key
present f (ok a) = some (f a)
present f (err e) = none

-- A left inverse of `encode`: the first byte chooses the parser.
decode_tagged : ℕ → Bytes → Option Key
decode_tagged t b =
    if t == prefix_utxo
    then present (λ (s, x, v). utxo s x v) (parse_utxo_key b)
    else if t == prefix_mempool
    then present (λ (s, x, v). mempool s x v) (parse_mempool_key b)
    else if t == prefix_history
    then present (λ (s, h, i, j). history s h i j) (parse_history_key b)
    else if t == prefix_tx_index
    then present (λ (x, v). tx_index x v) (parse_tx_index_key b)
    else if t == prefix_tx_pos
    then some (tx_pos (drop 1 b))
    else if t == prefix_tx_blob
    then present tx_blob (parse_height_key prefix_tx_blob b)
    else if t == prefix_tx_offs
    then present tx_offsets (parse_height_key prefix_tx_offs b)
    else if t == prefix_header
    then present header (parse_height_key prefix_header b)
    else if t == prefix_block_tx
    then present block_txids (parse_height_key prefix_block_tx b)
    else if t == prefix_undo
    then present (λ (h, x). undo h x) (parse_undo_key b)
    else some checkpoint

-- A key begins with the byte of its table.
first-encode : (k : Key) (b : Bytes) → encode k ≡ ok b → first b ≡ tag k
unfolding encode tag make_utxo_key make_mempool_key make_history_key make_tx_index_key
    make_tx_pos_key make_tx_blob_key make_tx_offsets_key make_header_key make_block_txids_key
    make_undo_key
first-encode (utxo sh txid vout) b e = ground arith
first-encode (tx_blob (pos n)) b e = ground arith
first-encode (tx_blob (negsuc n)) b e = cc
first-encode (tx_offsets (pos n)) b e = ground arith
first-encode (tx_offsets (negsuc n)) b e = cc
first-encode (header (pos n)) b e = ground arith
first-encode (header (negsuc n)) b e = cc
first-encode (block_txids (pos n)) b e = ground arith
first-encode (block_txids (negsuc n)) b e = cc
first-encode (undo (pos n) hash) b e = ground arith
first-encode (undo (negsuc n) hash) b e = ground arith
first-encode _ b e = ground arith

tx_pos_inv : (txid b : Bytes) → make_tx_pos_key txid ≡ ok b → drop 1 b ≡ txid
unfolding make_tx_pos_key
tx_pos_inv txid b e = ground arith

decode-encode : (k : Key) (b : Bytes) → Fits k → encode k ≡ ok b → decode_tagged (tag k) b ≡ some k
unfolding decode_tagged tag encode make_tx_blob_key make_tx_offsets_key make_header_key
    make_block_txids_key
decode-encode (utxo sh txid vout) b f e = rw (parse_utxo_key_of_make sh txid b vout f e) refl
decode-encode (mempool sh txid vout) b f e = rw (parse_mempool_key_of_make sh txid b vout f e) refl
decode-encode (history sh h i j) b (fh, fi, fj) e =
    rw (parse_history_key_of_make sh b h i j fh fi fj e) refl
decode-encode (tx_index txid vout) b f e = rw (parse_tx_index_key_of_make txid b vout f e) refl
decode-encode (tx_pos txid) b f e = ap (λ t. some (tx_pos t)) (tx_pos_inv txid b e)
decode-encode (tx_blob h) b f e = ap (present tx_blob) (parse_height_key_of_make _ h b f e)
decode-encode (tx_offsets h) b f e = ap (present tx_offsets) (parse_height_key_of_make _ h b f e)
decode-encode (header h) b f e = ap (present header) (parse_height_key_of_make _ h b f e)
decode-encode (block_txids h) b f e = ap (present block_txids) (parse_height_key_of_make _ h b f e)
decode-encode (undo h hash) b f e = rw (parse_undo_key_of_make h hash b f e) refl
decode-encode checkpoint b f e = refl

-- Two keys of the database whose numbers fit their Go types and that have the same bytes are the same
-- key: of one table, with the same fields.
pub encode_injective :
    (k l : Key) (b : Bytes) → Fits k → Fits l → encode k ≡ ok b → encode l ≡ ok b → k ≡ l
encode_injective k l b fk fl ek el =
    cc (decode-encode k b fk ek, decode-encode l b fl el, first-encode k b ek, first-encode l b el)
