-- ===== src/Electrum/StatusCache.antt =====
-- internal/electrum/status_cache.go: statuses by scripthash, with a flag for those out of date. Every
-- method holds the lock for its whole body, so a method is a step.
pub mod History
use electrum_go.Base.{Bool, true, false, Option, none, some, List, [], ◌∷◌, if◌then◌else◌}
use electrum_go.Base.Bytes.{Bytes}
use electrum_go.Base.Map.{bytes_key, Map, get, set, delete}

pub record StatusCache : Type 0 where
  pub status : Map Bytes Bytes
  pub dirty : Map Bytes Bool

unfoldable pub new : StatusCache
new = record { status = []; dirty = [] }

-- `m[k]` of a map to bool: false where the key is missing.
abbrev pub flag : Option Bool → Bool
flag none = false
flag (some b) = b

-- The status and whether there is one: the empty text and false where there is none.
abbrev pub found : Option Bytes → Bytes × Bool
found none = ([], false)
found (some s) = (s, true)

unfoldable pub get_if_clean : StatusCache → Bytes → Bytes × Bool
get_if_clean c sh = if flag (get c.dirty sh) then ([], false) else found (get c.status sh)

unfoldable pub set_clean : StatusCache → Bytes → Bytes → StatusCache
set_clean c sh status = record c { status = set c.status sh status; dirty = delete c.dirty sh }

unfoldable pub mark_dirty : StatusCache → Bytes → StatusCache
mark_dirty c sh = record c { dirty = set c.dirty sh true }

unfoldable pub mark_dirty_many : StatusCache → List Bytes → StatusCache
mark_dirty_many c [] = c
mark_dirty_many c (sh ∷ shs) = mark_dirty_many (record c { dirty = set c.dirty sh true }) shs
