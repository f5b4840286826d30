-- ===== src/Storage/Pebble/Plain.antt =====
-- Codecs that keep what they are given: a checkpoint as its fields behind one another.
use electrum_go.Base.{ℕ, zero, suc, ◌≡◌, refl, sym, ◌∷◌}
use electrum_go.Base.Int.{ℤ, pos, negsuc}
use electrum_go.Base.Bytes.{Bytes}
use electrum_go.Base.Result.{Result, ok, err, bad_data}
use electrum_go.Storage.Pebble.{Checkpoint, Codecs}

abbrev write_int : ℤ → Bytes → Bytes
write_int (pos n) r = 0 ∷ n ∷ r
write_int (negsuc n) r = 1 ∷ n ∷ r

abbrev read_signed : ℕ → ℕ → ℤ
read_signed zero n = pos n
read_signed (suc s) n = negsuc n

abbrev unmarshal : Bytes → Result Checkpoint
unmarshal (s ∷ n ∷ t ∷ m ∷ hash) =
    ok (record { height = read_signed s n; block_hash = hash; start_height = read_signed t m })
unmarshal _ = err bad_data

abbrev marshal : Checkpoint → Bytes
marshal c = write_int c.height (write_int c.start_height c.block_hash)

pub unmarshal-write_int :
    (h t : ℤ) (b : Bytes)
    → unmarshal (write_int h (write_int t b))
      ≡ ok (record { height = h; block_hash = b; start_height = t })
unmarshal-write_int (pos n) (pos m) b = refl
unmarshal-write_int (pos n) (negsuc m) b = refl
unmarshal-write_int (negsuc n) (pos m) b = refl
unmarshal-write_int (negsuc n) (negsuc m) b = refl

abbrev pub plain_codecs : Codecs
plain_codecs = record {
  marshal = marshal;
  unmarshal = unmarshal;
  unmarshal-marshal = λ c h. unmarshal-write_int c.height c.start_height c.block_hash;
  compress = λ b. ok b;
  decompress = λ z. ok z;
  decompress-compress = λ b z h. sym h;
}
