-- ===== src/Base/Result.antt =====
-- Go's pair of a value and an error: a value, or what went wrong. The number that an error carries
-- is the length, byte or size that the message reports as found.
use Prim.Native.Nat.{ℕ}
use mathlib.Core.Path.{◌≡◌, refl}
use mathlib.Core.Bool.{Bool, true, false}
use mathlib.Core.Logic.{◌⊎◌, inl, inr}

pub data Error : Type 0 where
  bad_scripthash_length bad_txid_length bad_block_hash_length bad_header_length : ℕ → Error
  bad_key_length bad_key_prefix bad_value_length : ℕ → Error
  bad_hex bad_hash_length negative_height not_found end_of_data bad_data : Error
  io_failed too_deep not_connected double_spend : Error

pub data Result {ℓ} (Value : Type ℓ) : Type ℓ where
  ok : Value → Result Value
  err : Error → Result Value

-- `if !test { return ..., e }`.
abbrev pub guard : (test : Bool) (e : Error) → Result (Unit {0})
guard false e = err e
guard true e = ok tt

-- `v, e := m; if e != nil { return ..., e }`, and the same without a value.
infixl 5 ◌>>=◌
abbrev pub ◌>>=◌ {ℓ κ} : {V : Type ℓ} {W : Type κ} → Result V → (V → Result W) → Result W
err e >>= rest = err e
ok v >>= rest = rest v

infixl 5 ◌>>◌
abbrev pub ◌>>◌ {κ} : {W : Type κ} → Result (Unit {0}) → Result W → Result W
m >> rest = m >>= λ done. rest

pub Result-cases {ℓ} :
    {A : Type ℓ} (r : Result A) → ((a : A) × (r ≡ ok a)) ⊎ ((e : Error) × (r ≡ err e))
Result-cases (ok a) = inl (a, refl)
Result-cases (err e) = inr (e, refl)

-- A passed test, and what a passed test tells.
pub guard-true {ℓ} :
    {A : Type ℓ} (b : Bool) (e : Error) (m : Result A) → b ≡ true → (guard b e >> m) ≡ m
guard-true true e m h = refl
guard-true false e m h = cc

pub guard_inv {ℓ} :
    {A : Type ℓ} (b : Bool) (e : Error) (m : Result A) {a : A}
    → (guard b e >> m) ≡ ok a
    → (b ≡ true) × (m ≡ ok a)
guard_inv true e m h = (refl, h)
guard_inv false e m h = cc

pub ok_injective {ℓ} : {A : Type ℓ} {a b : A} → ok a ≡ ok b → a ≡ b
ok_injective h = cc

-- What a chain that returned a value tells of its first step.
pub >>=-eq-ok {ℓ κ} :
    {V : Type ℓ} {W : Type κ} (step : Result V) (rest : V → Result W) {w : W}
    → (step >>= rest) ≡ ok w
    → (v : V) × (step ≡ ok v) × (rest v ≡ ok w)
>>=-eq-ok (err e) rest stopped = cc
>>=-eq-ok (ok v) rest returned = (v, refl, returned)
