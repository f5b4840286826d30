-- ===== src/Electrum/StatusCache/History.antt =====
-- The cache against what was done to it: only the last step that concerns a scripthash counts.
use electrum_go.Base.{
  ◌≡◌, refl, Bool, true, false, Option, none, some, List, [], ◌∷◌, arith, ◌||◌, if◌then◌else◌,
}
use electrum_go.Base.Bytes.{Bytes, bytes_eq}
use electrum_go.Base.Map.{bytes_key, get, get-set, get-delete}
use electrum_go.Electrum.StatusCache.{
  StatusCache, new, get_if_clean, set_clean, mark_dirty, mark_dirty_many, found,
}

pub data Step : Type 0 where
  clean : Bytes → Bytes → Step
  stale : Bytes → Step
  stale_many : List Bytes → Step

unfoldable pub perform : StatusCache → Step → StatusCache
perform c (clean sh status) = set_clean c sh status
perform c (stale sh) = mark_dirty c sh
perform c (stale_many shs) = mark_dirty_many c shs

-- The steps, the latest first.
unfoldable pub run : List Step → StatusCache
run [] = new
run (s ∷ earlier) = perform (run earlier) s

abbrev pub among : Bytes → List Bytes → Bool
among sh [] = false
among sh (x ∷ xs) = bytes_eq x sh || among sh xs

-- What the latest step that concerns `sh` left: a status, or none if it marked it or there is none.
unfoldable pub latest : Bytes → List Step → Option Bytes
latest sh [] = none
latest sh (clean x status ∷ earlier) = if bytes_eq x sh then some status else latest sh earlier
latest sh (stale x ∷ earlier) = if bytes_eq x sh then none else latest sh earlier
latest sh (stale_many xs ∷ earlier) = if among sh xs then none else latest sh earlier

get_if_clean-set_clean :
    (c : StatusCache) (x status sh : Bytes)
    → get_if_clean (set_clean c x status) sh
      ≡ (if bytes_eq x sh then (status, true) else get_if_clean c sh)
unfolding get_if_clean set_clean
get_if_clean-set_clean c x status sh =
    ground (arith, get-set c.status x sh status, get-delete c.dirty x sh)

get_if_clean-mark_dirty :
    (c : StatusCache) (x sh : Bytes)
    → get_if_clean (mark_dirty c x) sh ≡ (if bytes_eq x sh then ([], false) else get_if_clean c sh)
unfolding get_if_clean mark_dirty
get_if_clean-mark_dirty c x sh = ground (arith, get-set c.dirty x sh true)

get_if_clean-mark_dirty_many :
    (c : StatusCache) (xs : List Bytes) (sh : Bytes)
    → get_if_clean (mark_dirty_many c xs) sh
      ≡ (if among sh xs then ([], false) else get_if_clean c sh)
unfolding mark_dirty_many mark_dirty
get_if_clean-mark_dirty_many c [] sh = refl
get_if_clean-mark_dirty_many c (x ∷ xs) sh =
    ground
      (arith, get_if_clean-mark_dirty_many (mark_dirty c x) xs sh, get_if_clean-mark_dirty c x sh)

-- After any sequence of SetClean, MarkDirty and MarkDirtyMany on a new cache, GetIfClean returns the
-- status that the latest SetClean of the scripthash stored, unless a later step marked it; else
-- nothing.
pub get_if_clean-run :
    (steps : List Step) (sh : Bytes) → get_if_clean (run steps) sh ≡ found (latest sh steps)
unfolding run perform latest
get_if_clean-run [] sh = unfold get_if_clean new get in refl
get_if_clean-run (clean x status ∷ earlier) sh =
    ground (arith, get_if_clean-set_clean (run earlier) x status sh, get_if_clean-run earlier sh)
get_if_clean-run (stale x ∷ earlier) sh =
    ground (arith, get_if_clean-mark_dirty (run earlier) x sh, get_if_clean-run earlier sh)
get_if_clean-run (stale_many xs ∷ earlier) sh =
    ground (arith, get_if_clean-mark_dirty_many (run earlier) xs sh, get_if_clean-run earlier sh)
