-- ===== src/Electrum/Merkle/Branch.antt =====
-- internal/electrum/merkle.go: the levels, their lengths and the level that is left at the end.
use electrum_go.Base.{
  take-append_exact, replicate, ℕ, zero, suc, ◌+◌, ◌/◌, ◌≡◌, refl, Bool, true, ◌&&◌, List, [], ◌∷◌,
  length, All, map, arith, ltb, if◌then◌else◌,
}
use electrum_go.Base.Bytes.{Bytes}
use electrum_go.Electrum.Merkle.{sibling, node, next_level, to_array32}

pub length-next_level :
    (double_hash : Bytes → Bytes) (level : List Bytes)
    → length (next_level double_hash level) ≡ (length level + 1) / 2
unfolding next_level
length-next_level d [] = omega arith
length-next_level d (x ∷ []) = omega arith
length-next_level d (x ∷ y ∷ r) = omega (arith, length-next_level d r)

-- On every level on the way of a place to the root there is a neighbour.
unfoldable pub has_siblings : ℕ → ℕ → ℕ → Bool
has_siblings zero n pos = true
has_siblings (suc fuel) n pos =
    let rest = has_siblings fuel ((n + 1) / 2) (pos / 2) in
    if ltb 1 n then ltb (sibling pos) n && rest else true

-- Txids of 32 bytes are copied as they are.
pub arrays_self :
    (txids : List Bytes) → All (λ t. length t ≡ 32) txids → map to_array32 txids ≡ txids
arrays_self [] h = refl
arrays_self (t ∷ ts) (h, hs) = cc (take-append_exact 32 t (replicate 32 0) h, arrays_self ts hs)

module _ (double_hash : Bytes → Bytes) where
  -- What is left when a level has been hashed until it has one node.
  unfoldable pub merkle_root : ℕ → List Bytes → Bytes
  merkle_root zero level = node level 0
  merkle_root (suc fuel) level =
      let rest = merkle_root fuel (next_level double_hash level) in
      if ltb 1 (length level) then rest else node level 0
