-- ===== src/Storage/Keys/Order.antt =====
-- Why numbers in keys are big-endian: the order of the keys is the order of what they encode.
use electrum_go.Base.{
  ℕ, ◌+◌, ◌*◌, ◌/◌, ◌%◌, ◌^◌, ◌<◌, ◌≡◌, refl, ◌∙◌, Bool, ◌&&◌, ◌||◌, [], ◌∷◌, ◌++◌, arith, ltb,
  ◌==◌, if◌then◌else◌,
}
use electrum_go.Base.Int.{ℤ, pos}
use electrum_go.Base.Result.{ok}
use electrum_go.Base.Bytes.{Bytes, bytes_lt, put_be32}
use electrum_go.Storage.Keys.{make_history_key, height_bytes, prefix_history}

-- A common part in front does not matter.
bytes_lt-append : (a x y : Bytes) → bytes_lt (a ++ x) (a ++ y) ≡ bytes_lt x y
unfolding bytes_lt
bytes_lt-append [] x y = refl
bytes_lt-append (c ∷ a) x y = ground (arith, bytes_lt-append a x y)

-- Four bytes each, in front of what is compared next.
bytes_lt_four :
    (a b c d a' b' c' d' : ℕ) (x y : Bytes)
    → a < 256
    → b < 256
    → c < 256
    → d < 256
    → a' < 256
    → b' < 256
    → c' < 256
    → d' < 256
    → bytes_lt (a ∷ b ∷ c ∷ d ∷ x) (a' ∷ b' ∷ c' ∷ d' ∷ y) ≡ (
        if a * 2 ^ 24 + b * 2 ^ 16 + c * 2 ^ 8 + d == a' * 2 ^ 24 + b' * 2 ^ 16 + c' * 2 ^ 8 + d'
        then bytes_lt x y
        else ltb
            (a * 2 ^ 24 + b * 2 ^ 16 + c * 2 ^ 8 + d)
            (a' * 2 ^ 24 + b' * 2 ^ 16 + c' * 2 ^ 8 + d'))
unfolding bytes_lt
bytes_lt_four a b c d a' b' c' d' x y h₀ h₁ h₂ h₃ k₀ k₁ k₂ k₃ = ground arith

four_digits :
    (m : ℕ)
    → m < 2 ^ 32
    → m / 2 ^ 24 % 256 * 2 ^ 24 + m / 2 ^ 16 % 256 * 2 ^ 16 + m / 2 ^ 8 % 256 * 2 ^ 8 + m % 256 ≡ m
four_digits m h = omega arith

bytes_lt-put_be32 :
    (m n : ℕ) (x y : Bytes)
    → m < 2 ^ 32
    → n < 2 ^ 32
    → bytes_lt (put_be32 m ++ x) (put_be32 n ++ y) ≡ (if m == n then bytes_lt x y else ltb m n)
bytes_lt-put_be32 m n x y h k =
    bytes_lt_four (m / 2 ^ 24 % 256) (m / 2 ^ 16 % 256) (m / 2 ^ 8 % 256) (m % 256)
      (n / 2 ^ 24 % 256) (n / 2 ^ 16 % 256) (n / 2 ^ 8 % 256) (n % 256) x y (omega arith)
      (omega arith) (omega arith) (omega arith) (omega arith) (omega arith) (omega arith)
      (omega arith)
    ∙ rw (four_digits m h, four_digits n k) refl

-- Chain order: by height, then by the place of the transaction in the block, then by the index.
abbrev pub position_lt : ℕ × ℕ × ℕ → ℕ × ℕ × ℕ → Bool
position_lt (h, i, j) (h', i', j') = ltb h h' || (h == h' && (ltb i i' || (i == i' && ltb j j')))

nested_lt :
    (h h' i i' j j' : ℕ)
    → (if h == h' then (if i == i' then ltb j j' else ltb i i') else ltb h h')
      ≡ position_lt (h, i, j) (h', i', j')
nested_lt h h' i i' j j' = ground arith

last_lt : (j j' : ℕ) → (if j == j' then bytes_lt [] [] else ltb j j') ≡ ltb j j'
unfolding bytes_lt
last_lt j j' = ground arith

height_mod : (h : ℕ) → h < 2 ^ 31 → h % 2 ^ 32 ≡ h
height_mod h l = omega arith

key_bytes :
    (sh k : Bytes) (h : ℤ) (i j : ℕ)
    → make_history_key sh h i j ≡ ok k
    → (prefix_history ∷ sh) ++ (height_bytes h ++ (put_be32 i ++ put_be32 j)) ≡ k
unfolding make_history_key
key_bytes sh k h i j e = ground arith

-- Of two history keys of one scripthash, with heights below 2 ^ 31 and uint32 indices, the database
-- puts that one first whose (height, transaction index, index) is smaller.
pub history_keys_in_chain_order :
    (sh k k' : Bytes) (h i j h' i' j' : ℕ)
    → (h < 2 ^ 31) × (i < 2 ^ 32) × (j < 2 ^ 32)
    → (h' < 2 ^ 31) × (i' < 2 ^ 32) × (j' < 2 ^ 32)
    → make_history_key sh (pos h) i j ≡ ok k
    → make_history_key sh (pos h') i' j' ≡ ok k'
    → bytes_lt k k' ≡ position_lt (h, i, j) (h', i', j')
history_keys_in_chain_order sh k k' h i j h' i' j' (bh, bi, bj) (bh', bi', bj') e e' =
    rw (← key_bytes sh k (pos h) i j e, ← key_bytes sh k' (pos h') i' j' e')
      (bytes_lt-append (prefix_history ∷ sh) _ _
        ∙ bytes_lt-put_be32 (h % 2 ^ 32) (h' % 2 ^ 32) _ _ (omega arith) (omega arith)
        ∙ rw
            (
              height_mod h bh,
              height_mod h' bh',
              bytes_lt-put_be32 i i' (put_be32 j) (put_be32 j') bi bi',
              bytes_lt-put_be32 j j' [] [] bj bj',
              last_lt j j',
            )
            (nested_lt h h' i i' j j'))
