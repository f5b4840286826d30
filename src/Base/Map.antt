-- ===== src/Base/Map.antt =====
-- Go's maps, as lists of entries: `m[k]`, `m[k] = v`, `delete(m, k)` and `len(m)`. Where the program
-- ranges over a map, the order of the entries is that of the list; no theorem depends on it.
use Prim.Native.Nat.{ℕ, suc, ◌≤◌}
use mathlib.Core.Path.{◌≡◌, refl, ap, sym, ◌∙◌}
use mathlib.Core.Bool.{Bool, true, false}
use mathlib.Core.Logic.{◌↔◌}
use mathlib.Core.Option.{Option, none, some}
use mathlib.Core.List.{List, [], ◌∷◌}
use native.Mathlib.Omega.{arith}
use electrum_go.Base.Lists.{length}
use electrum_go.Base.Tests.{◌==◌ as nat_beq, ==_iff, if◌then◌else◌}
use electrum_go.Base.Int.{ℤ, pos, negsuc, eq_int}
use electrum_go.Base.Bytes.{Bytes, bytes_eq, bytes_eq→eq, bytes_eq_self}

pub bytes_eq_iff : (a b : Bytes) → (bytes_eq a b ≡ true) ↔ (a ≡ b)
bytes_eq_iff a b = (bytes_eq→eq a b, λ h. ap (bytes_eq a) (sym h) ∙ bytes_eq_self a)

-- What a type of keys has.
pub record Eq {ℓ} (Key : Type ℓ) : Type ℓ where
  pub beq : Key → Key → Bool
  pub beq_iff : (j k : Key) → (beq j k ≡ true) ↔ (j ≡ k)

instance abbrev pub bytes_key : Eq Bytes
bytes_key = record { beq = bytes_eq; beq_iff = bytes_eq_iff }

instance abbrev pub nat_eq : Eq ℕ
nat_eq = record { beq = nat_beq; beq_iff = ==_iff }

pub eq_int_iff : (a b : ℤ) → (eq_int a b ≡ true) ↔ (a ≡ b)
eq_int_iff (pos a) (pos b) = ground arith
eq_int_iff (negsuc a) (negsuc b) = ground arith
eq_int_iff (pos a) (negsuc b) = ground arith
eq_int_iff (negsuc a) (pos b) = ground arith

instance abbrev pub int_key : Eq ℤ
int_key = record { beq = eq_int; beq_iff = eq_int_iff }

infix 50 ◌==◌
abbrev pub ◌==◌ {ℓ} : {Key : Type ℓ} ⦃keys : Eq Key⦄ → Key → Key → Bool
◌==◌ ⦃keys⦄ = keys.beq

abbrev pub Map {ℓ κ} : Type ℓ → Type κ → Type (ℓ ⊔ κ)
Map K V = List (K × V)

abbrev pub is_present {ℓ} : {V : Type ℓ} → Option V → Bool
is_present none = false
is_present (some v) = true

module _ {ℓ κ} {K : Type ℓ} {V : Type κ} ⦃e : Eq K⦄ where
  unfoldable pub get : Map K V → K → Option V
  get [] k = none
  get ((j, v) ∷ m) k = if j == k then some v else get m k

  unfoldable pub delete : Map K V → K → Map K V
  delete [] k = []
  delete ((j, v) ∷ m) k = let rest = delete m k in if j == k then rest else (j, v) ∷ rest

  unfoldable pub set : Map K V → K → V → Map K V
  set m k v = (k, v) ∷ delete m k

  pub get-empty : (k : K) → get [] k ≡ none
  unfolding get
  get-empty k = refl

  pub get-delete : (m : Map K V) (k j : K) → get (delete m k) j ≡ (if k == j then none else get m j)
  unfolding get delete
  get-delete [] k j = ground arith
  get-delete ((i, v) ∷ m) k j =
      ground (arith, get-delete m k j, e.beq_iff i k, e.beq_iff i j, e.beq_iff k j)

  pub get-set :
      (m : Map K V) (k j : K) (v : V) → get (set m k v) j ≡ (if k == j then some v else get m j)
  unfolding get set
  get-set m k j v = ground (arith, get-delete m k j)

  length-delete_le : (m : Map K V) (k : K) → length (delete m k) ≤ length m
  unfolding delete
  length-delete_le [] k = ground arith
  length-delete_le ((i, v) ∷ m) k = ground (arith, length-delete_le m k)

  pub length-set_le : (m : Map K V) (k : K) (v : V) → length (set m k v) ≤ suc (length m)
  unfolding set
  length-set_le m k v = ground (arith, length-delete_le m k)

  -- `_, ok := m[k]`
  abbrev pub has : Map K V → K → Bool
  has m k = is_present (get m k)
