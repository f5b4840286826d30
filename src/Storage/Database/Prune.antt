-- ===== src/Storage/Database/Prune.antt =====
-- PruneUndoData deletes the undo records below a height and nothing else.
use electrum_go.Base.{
  ◌≡◌, refl, sym, ap, ◌∙◌, Bool, true, false, ◌&&◌, Option, none, some, List, [], ◌∷◌, length,
  arith, if◌then◌else◌, Bool-cases, inl, inr,
}
use mathlib.Core.Bool.{false≢true}
use electrum_go.Base.Int.{ℤ, lt_int}
use electrum_go.Base.Bytes.{Bytes, bytes_eq, bytes_lt}
use electrum_go.Base.Map.{bytes_key, get, bytes_eq_iff, is_present}
use electrum_go.Base.Result.{Result, ok, err, Result-cases}
use electrum_go.Storage.Keys.{prefix_undo, parse_undo_key, prefix_upper_bound, first}
use electrum_go.Storage.Keys.Layout.{checked_inv}
use electrum_go.Storage.Keys.Bound.{in_range}
use electrum_go.Storage.Pebble.{del, overlay, complete, Pebble}
use electrum_go.Storage.Database.{
  Batch, prune_ops, commit_pruned, prune_undo_data, new_prefix_iterator,
}

-- The key of an undo record of a height below the limit.
abbrev below : ℤ → Result (ℤ × Bytes) → Bool
below limit (ok (h, hash)) = lt_int h limit
below limit (err e) = false

abbrev pub is_old : ℤ → Bytes → Bool
is_old limit key = below limit (parse_undo_key key)

prune_step :
    (limit : ℤ) (key value : Bytes) (rest : List (Bytes × Bytes))
    → prune_ops limit ((key, value) ∷ rest)
      ≡ (if is_old limit key then del key ∷ prune_ops limit rest else prune_ops limit rest)
unfolding prune_ops
prune_step limit key value rest = elim (Result-cases (parse_undo_key key)) [
  | inl ((h, hash), e) ↦ rw (e, prune_ops) refl
  | inr (x, e) ↦ rw (e, prune_ops) refl
]

-- What the batch leaves of a key that the iterator visited, and of one that it did not.
overlay-prune_ops :
    (limit : ℤ) (entries : List (Bytes × Bytes)) (before : Bytes → Option Bytes) (k : Bytes)
    → overlay (prune_ops limit entries) before k
      ≡ (if is_present (get entries k) && is_old limit k then none else before k)
unfolding overlay get
overlay-prune_ops limit [] before k = unfold prune_ops in refl
overlay-prune_ops limit ((key, value) ∷ rest) before k = elim (Bool-cases (is_old limit key)) [
  | inl old ↦
      rw (prune_step limit key value rest, old)
        (ground (
          arith,
          overlay-prune_ops limit rest (λ j. if bytes_eq key j then none else before j) k,
          bytes_eq_iff key k,
          old,
        ))
  | inr young ↦
      rw (prune_step limit key value rest, young)
        (ground (arith, overlay-prune_ops limit rest before k, bytes_eq_iff key k, young))
]

undo_prefix : (limit : ℤ) (k : Bytes) → is_old limit k ≡ true → first k ≡ prefix_undo
unfolding parse_undo_key
undo_prefix limit k h = elim (Result-cases (parse_undo_key k)) [
  | inl (x, e) ↦ (checked_inv 37 prefix_undo k _ e).1
  | inr (x, e) ↦ absurd (false≢true (ap (below limit) (sym e) ∙ h))
]

-- The iterator visits every key of an undo record.
in_undo_range :
    (limit : ℤ) (k : Bytes)
    → is_old limit k ≡ true
    → in_range (prefix_undo ∷ []) (prefix_upper_bound (prefix_undo ∷ [])) k ≡ true
unfolding prefix_upper_bound bytes_lt
in_undo_range limit [] h = absurd (omega (arith, undo_prefix limit [] h))
in_undo_range limit (q ∷ []) h = rw (undo_prefix limit (q ∷ []) h) refl
in_undo_range limit (q ∷ r ∷ k) h = rw (undo_prefix limit (q ∷ r ∷ k) h) refl

seen : (o : Option Bytes) → (if is_present o && true then none else o) ≡ none
seen none = refl
seen (some v) = refl

unseen : (b : Bool) (o : Option Bytes) → (if b && false then none else o) ≡ o
unseen true o = refl
unseen false o = refl

module _ (p : Pebble) (d : p.Db) (limit : ℤ) where
  commit_pruned_total :
      (ops : Batch)
      → ((b : Batch) → (d' : p.Db) × (p.commit d b ≡ ok d'))
      → (d' : p.Db) × (commit_pruned p d ops ≡ ok (length ops, d'))
        × ((k : Bytes) → p.contents d' k ≡ overlay ops (p.contents d) k)
  unfolding commit_pruned
  commit_pruned_total [] writes = (d, refl, λ k. unfold overlay in refl)
  commit_pruned_total (o ∷ ops) writes =
      let (d', e) = writes (o ∷ ops) in (d', rw e refl, p.contents_commit d d' (o ∷ ops) e)

  pruned_key :
      (entries : List (Bytes × Bytes)) (k : Bytes)
      → new_prefix_iterator p d (prefix_undo ∷ []) ≡ ok (complete entries)
      → overlay (prune_ops limit entries) (p.contents d) k
        ≡ (if is_old limit k then none else p.contents d k)
  unfolding new_prefix_iterator
  pruned_key entries k e =
      overlay-prune_ops limit entries (p.contents d) k ∙ elim (Bool-cases (is_old limit k)) [
        | inl old ↦
            rw (old, p.scan_contents d _ _ entries e k, in_undo_range limit k old)
              (seen (p.contents d k))
        | inr young ↦ rw young (unseen (is_present (get entries k)) (p.contents d k))
      ]

  -- If the iterator over the undo records and the commit do not fail, PruneUndoData returns the number
  -- of its deletions, every undo record of a height below the limit is gone, and every other key of
  -- the database reads as before.
  pub prune_undo_data_exact :
      (entries : List (Bytes × Bytes))
      → new_prefix_iterator p d (prefix_undo ∷ []) ≡ ok (complete entries)
      → ((b : Batch) → (d' : p.Db) × (p.commit d b ≡ ok d'))
      → (d' : p.Db) × (prune_undo_data p d limit ≡ ok (length (prune_ops limit entries), d'))
        × ((k : Bytes) → p.contents d' k ≡ (if is_old limit k then none else p.contents d k))
  unfolding prune_undo_data
  prune_undo_data_exact entries e writes =
      let (d', c, same) = commit_pruned_total (prune_ops limit entries) writes in
      (d', rw e c, λ k. same k ∙ pruned_key entries k e)
