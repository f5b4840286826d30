-- ===== src/Indexer/Types/RoundTrip.antt =====
-- Hashes shown as text are read back.
use electrum_go.Base.{
  ℕ, ◌≡◌, refl, ap, [], ◌∷◌, ◌++◌, length, All-append, reverse, arith, length-append, ◌==◌,
  if◌then◌else◌,
}
use mathlib.Core.List.{reverse-append, reverse-reverse}
use electrum_go.Base.Bytes.{Bytes, IsByte, IsBytes}
use electrum_go.Base.Hex.{hex_encode, hex_decode-hex_encode, length-hex_encode}
use electrum_go.Base.Result.{ok}
use electrum_go.Storage.Values.{UtxoValue}
use electrum_go.Indexer.Types.{
  txid_to_hex, txid_from_hex, block_hash_to_hex, block_hash_from_hex, utxo_block_hash_hex,
  set_block_hash_from_hex,
}

reverse-cons : (b : ℕ) (xs : Bytes) → reverse (b ∷ xs) ≡ reverse xs ++ (b ∷ [])
reverse-cons b xs = reverse-append (b ∷ []) xs

length-reverse : (xs : Bytes) → length (reverse xs) ≡ length xs
length-reverse [] = refl
length-reverse (b ∷ xs) =
    omega
      (arith, ap length (reverse-cons b xs), length-append (reverse xs) (b ∷ []), length-reverse xs)

reverse-IsBytes : (xs : Bytes) → IsBytes xs → IsBytes (reverse xs)
reverse-IsBytes [] h = tt
reverse-IsBytes (b ∷ xs) (hb, hs) =
    rw (reverse-cons b xs)
      (All-append IsByte (reverse xs) (b ∷ []) (reverse-IsBytes xs hs) (hb, tt))

-- A hash of 32 bytes shown by TxidToHex or by BlockHashToHex is read back by its FromHex, and the
-- text has 64 digits.
pub hash_hex_round_trip :
    (hash : Bytes)
    → IsBytes hash
    → length hash ≡ 32
    → (txid_from_hex (txid_to_hex hash) ≡ ok hash)
      × (block_hash_from_hex (block_hash_to_hex hash) ≡ ok hash)
      × (length (txid_to_hex hash) ≡ 64)
unfolding txid_to_hex txid_from_hex block_hash_to_hex block_hash_from_hex
hash_hex_round_trip hash b n = (read_back, read_back, size)
  where
    read_back :
        txid_from_hex (if length hash == 32 then hex_encode (reverse hash) else []) ≡ ok hash
    read_back =
        rw
          (n, hex_decode-hex_encode (reverse hash) (reverse-IsBytes hash b), length-reverse hash, n)
          (ap ok (reverse-reverse hash))

    size : length (if length hash == 32 then hex_encode (reverse hash) else []) ≡ 64
    size = rw n (omega (arith, length-hex_encode (reverse hash), length-reverse hash, n))

-- SetBlockHashFromHex takes the text that BlockHashHex made of a hash of 32 bytes, and sets that hash
-- and nothing else.
pub set_block_hash-block_hash_hex :
    (u v : UtxoValue)
    → IsBytes v.block_hash
    → length v.block_hash ≡ 32
    → set_block_hash_from_hex u (utxo_block_hash_hex v)
      ≡ ok (record u { block_hash = v.block_hash })
unfolding set_block_hash_from_hex utxo_block_hash_hex
set_block_hash-block_hash_hex u v b n =
    let size : length (hex_encode (reverse v.block_hash)) ≡ 64 =
      omega (arith, length-hex_encode (reverse v.block_hash), length-reverse v.block_hash, n) in
    rw (n, size, hex_decode-hex_encode (reverse v.block_hash) (reverse-IsBytes v.block_hash b))
      (ap (λ (h : Bytes). ok (record u { block_hash = h })) (reverse-reverse v.block_hash))
