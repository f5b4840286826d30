-- ===== src/Base/Sets.antt =====
-- Go's maps of maps to bool, which are sets by key, and the sets that are never empty.
use mathlib.Core.Path.{◌≡◌, refl}
use mathlib.Core.Logic.{◌≢◌}
use mathlib.Core.Bool.{Bool, true, false, not, ◌&&◌, ◌||◌}
use mathlib.Core.Option.{Option, none, some}
use mathlib.Core.List.{List, [], ◌∷◌, map}
use native.Mathlib.Omega.{arith}
use electrum_go.Base.Tests.{if◌then◌else◌}
use electrum_go.Base.Map.{Eq, ◌==◌, Map, get, set, delete, has, get-set, get-delete, get-empty}

-- A nil inner map reads as an empty one.
abbrev pub or_empty {ℓ κ} : {J : Type ℓ} {V : Type κ} → Option (Map J V) → Map J V
or_empty none = []
or_empty (some m) = m

abbrev pub is_empty {ℓ} : {A : Type ℓ} → List A → Bool
is_empty [] = true
is_empty (x ∷ xs) = false

module _ {ℓ κ} {K : Type ℓ} {J : Type κ} ⦃e : Eq K⦄ ⦃f : Eq J⦄ where
  -- `if m[k] == nil { m[k] = make(...) }; m[k][j] = true`
  unfoldable pub add_member : Map K (Map J Bool) → K → J → Map K (Map J Bool)
  add_member m k j = set m k (set (or_empty (get m k)) j true)

  -- `if inner, ok := m[k]; ok { delete(inner, j); if len(inner) == 0 { delete(m, k) } }`
  unfoldable pub drop_member : Map K (Map J Bool) → K → J → Map K (Map J Bool)
  drop_member m k j = elim (get m k) [
    | none ↦ m
    | some inner ↦ if is_empty (delete inner j) then delete m k else set m k (delete inner j)
  ]

  -- `for k := range ks { ... drop j from m[k] ... }`
  unfoldable pub drop_each : Map K (Map J Bool) → List K → J → Map K (Map J Bool)
  drop_each m [] j = m
  drop_each m (k ∷ ks) j = drop_each (drop_member m k j) ks j

abbrev pub keys {ℓ κ} : {K : Type ℓ} {V : Type κ} → Map K V → List K
keys m = map (λ e. e.0) m

module _ {ℓ} {J : Type ℓ} ⦃f : Eq J⦄ where
  unfoldable pub among : J → List J → Bool
  among k [] = false
  among k (x ∷ xs) = x == k || among k xs

  empty_has_none : (m : Map J Bool) (j : J) → is_empty m ≡ true → has m j ≡ false
  unfolding get
  empty_has_none [] j h = refl
  empty_has_none (x ∷ m) j h = cc

  pub among-keys {κ} : {V : Type κ} (m : Map J V) (j : J) → among j (keys m) ≡ has m j
  unfolding among get
  among-keys [] j = refl
  among-keys ((i, v) ∷ m) j = ground (arith, among-keys m j)

module _ {ℓ κ} {K : Type ℓ} {J : Type κ} ⦃e : Eq K⦄ ⦃f : Eq J⦄ where
  unfoldable pub member : Map K (Map J Bool) → K → J → Bool
  member m k j = has (or_empty (get m k)) j

  pub member-add_member :
      (m : Map K (Map J Bool)) (k k' : K) (j j' : J)
      → member (add_member m k j) k' j' ≡ ((k == k' && j == j') || member m k' j')
  unfolding member add_member
  member-add_member m k k' j j' = ground (
    arith,
    get-set m k k' (set (or_empty (get m k)) j true),
    get-set (or_empty (get m k)) j j' true,
    e.beq_iff k k',
  )

  pub member-drop_member :
      (m : Map K (Map J Bool)) (k k' : K) (j j' : J)
      → member (drop_member m k j) k' j' ≡ (not (k == k' && j == j') && member m k' j')
  unfolding member drop_member
  member-drop_member m k k' j j' = split (get m k) refl
    where
      split :
          (o : Option (Map J Bool))
          → get m k ≡ o
          → member (drop_member m k j) k' j' ≡ (not (k == k' && j == j') && member m k' j')
      split none h = rw (h, drop_member) (ground (arith, e.beq_iff k k', get-empty {V = Bool} j'))
      split (some inner) h =
          rw (h, drop_member)
            (ground (
              arith,
              get-set m k k' (delete inner j),
              get-delete m k k',
              get-delete inner j j',
              get-empty {V = Bool} j',
              empty_has_none (delete inner j) j',
              e.beq_iff k k',
            ))

  pub member-delete :
      (m : Map K (Map J Bool)) (k k' : K) (j' : J)
      → member (delete m k) k' j' ≡ (not (k == k') && member m k' j')
  unfolding member
  member-delete m k k' j' = ground (arith, get-delete m k k', get-empty {V = Bool} j')

  pub among-members :
      (m : Map K (Map J Bool)) (k : K) (j : J) → among j (keys (or_empty (get m k))) ≡ member m k j
  unfolding member
  among-members m k j = among-keys (or_empty (get m k)) j

  -- No inner map is empty: it would have been deleted.
  abbrev pub NoneEmpty : Map K (Map J Bool) → Type (ℓ ⊔ κ)
  NoneEmpty m = (k : K) → get m k ≢ some []

  pub add_member-NoneEmpty :
      (m : Map K (Map J Bool)) (k : K) (j : J) → NoneEmpty m → NoneEmpty (add_member m k j)
  unfolding add_member set
  add_member-NoneEmpty m k j h k' p =
      ground (arith, get-set m k k' (set (or_empty (get m k)) j true), h k')

  pub drop_member-NoneEmpty :
      (m : Map K (Map J Bool)) (k : K) (j : J) → NoneEmpty m → NoneEmpty (drop_member m k j)
  unfolding drop_member
  drop_member-NoneEmpty m k j h k' p = split (get m k) refl
    where
      split : (o : Option (Map J Bool)) → get m k ≡ o → ⊥
      split none q = h k' (rw (q, drop_member) at p)
      split (some inner) q =
          ground (arith, q, h k', get-set m k k' (delete inner j), get-delete m k k')

  pub member-drop_each :
      (m : Map K (Map J Bool)) (ks : List K) (k' : K) (j j' : J)
      → member (drop_each m ks j) k' j' ≡ (not (among k' ks && j == j') && member m k' j')
  unfolding drop_each among
  member-drop_each m [] k' j j' = unfold member in refl
  member-drop_each m (k ∷ ks) k' j j' =
      ground
        (arith, member-drop_each (drop_member m k j) ks k' j j', member-drop_member m k k' j j')

  pub delete-NoneEmpty : (m : Map K (Map J Bool)) (k : K) → NoneEmpty m → NoneEmpty (delete m k)
  delete-NoneEmpty m k h k' p = ground (arith, get-delete m k k', h k')

  pub drop_each-NoneEmpty :
      (m : Map K (Map J Bool)) (ks : List K) (j : J) → NoneEmpty m → NoneEmpty (drop_each m ks j)
  unfolding drop_each
  drop_each-NoneEmpty m [] j h = h
  drop_each-NoneEmpty m (k ∷ ks) j h =
      drop_each-NoneEmpty (drop_member m k j) ks j (drop_member-NoneEmpty m k j h)
