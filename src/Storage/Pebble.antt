-- ===== src/Storage/Pebble.antt =====
-- What internal/storage uses of github.com/cockroachdb/pebble, encoding/json and zstd, none of which
-- is of this repository: operations with the behaviour that their documentation states.
pub mod Table
pub mod Plain
use electrum_go.Base.{All, ◌<◌}
use electrum_go.Base.{
  ◌≡◌, ◌&&◌, Bool, true, false, not, Option, none, some, List, [], ◌∷◌, if◌then◌else◌,
}
use electrum_go.Base.Bytes.{Bytes, bytes_eq, bytes_lt}
use electrum_go.Base.Int.{ℤ, IsI32}
use electrum_go.Base.Map.{bytes_key, get}
use electrum_go.Base.Result.{Error, Result, ok}
use electrum_go.Storage.Keys.Bound.{in_range}

-- An entry of a batch.
pub data Op : Type 0 where
  put : Bytes → Bytes → Op
  del : Bytes → Op

abbrev pub op_key : Op → Bytes
op_key (put k v) = k
op_key (del k) = k

abbrev pub written : Op → Option Bytes
written (put k v) = some v
written (del k) = none

-- What a batch leaves at a key, over what stands there: its last entry for the key counts.
unfoldable pub overlay : List Op → (Bytes → Option Bytes) → Bytes → Option Bytes
overlay [] before k = before k
overlay (o ∷ ops) before k =
    overlay ops (λ j. if bytes_eq (op_key o) j then written o else before j) k

-- The keys rise from each entry to the next.
abbrev pub ascending : List (Bytes × Bytes) → Bool
ascending [] = true
ascending ((k, v) ∷ []) = true
ascending ((k, v) ∷ (l, w) ∷ r) = bytes_lt k l && ascending ((l, w) ∷ r)

-- What an iterator visits before it ends, and iter.Error(): what broke it off, if something did.
pub record Scanned : Type 0 where
  pub entries : List (Bytes × Bytes)
  pub failure : Option Error

abbrev pub complete : List (Bytes × Bytes) → Scanned
complete l = record { entries = l; failure = none }

-- A key-value store: `get` is Get, with none for ErrNotFound, `commit` writes a batch atomically, and
-- `scan` is an iterator over the keys from a lower bound to below an upper one, which fails when it is opened or breaks off later. Each may fail; a failed commit has no
-- effect.
pub record Pebble : Type 1 where
  pub Db : Type 0
  pub contents : Db → Bytes → Option Bytes
  pub read : Db → Bytes → Result (Option Bytes)
  pub commit : Db → List Op → Result Db
  pub scan : Db → Bytes → Option Bytes → Result Scanned
  pub read_contents : (d : Db) (k : Bytes) (r : Option Bytes) → read d k ≡ ok r → r ≡ contents d k
  pub contents_commit :
      (d d' : Db) (ops : List Op)
      → commit d ops ≡ ok d'
      → (k : Bytes) → contents d' k ≡ overlay ops (contents d) k
  pub scan_contents :
      (d : Db) (lower : Bytes) (upper : Option Bytes) (l : List (Bytes × Bytes))
      → scan d lower upper ≡ ok (complete l)
      → (k : Bytes) → get l k ≡ (if in_range lower upper k then contents d k else none)
  pub scan_ascending :
      (d : Db) (lower : Bytes) (upper : Option Bytes) (l : List (Bytes × Bytes))
      → scan d lower upper ≡ ok (complete l)
      → ascending l ≡ true

-- Go's zero value has height 0 and an empty hash.
pub record Checkpoint : Type 0 where
  pub height : ℤ
  pub block_hash : Bytes
  pub start_height : ℤ

-- The heights are int32 and the hash is of ASCII characters.
abbrev pub FitsJson : Checkpoint → Type 0
FitsJson c = IsI32 c.height × IsI32 c.start_height × All (λ b. b < 128) c.block_hash

-- json.Marshal and json.Unmarshal of a checkpoint, and zstd's EncodeAll and DecodeAll.
pub record Codecs : Type 0 where
  pub marshal : Checkpoint → Bytes
  pub unmarshal : Bytes → Result Checkpoint
  pub unmarshal-marshal : (c : Checkpoint) → FitsJson c → unmarshal (marshal c) ≡ ok c
  pub compress : Bytes → Result Bytes
  pub decompress : Bytes → Result Bytes
  pub decompress-compress : (b z : Bytes) → compress b ≡ ok z → decompress z ≡ ok b
