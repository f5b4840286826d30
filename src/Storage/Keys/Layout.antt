-- ===== src/Storage/Keys/Layout.antt =====
-- How the fields of a key lie behind one another, for every prefix byte.
use electrum_go.Base.Lists.{All-take, length-take_of_le}
use electrum_go.Base.{
  ◌<◌, ◌^◌, ℕ, ◌-◌, ◌+◌, ◌≤◌, ◌≡◌, sym, ap, ◌∙◌, ◌++◌, length, take, drop, slice, arith, All-drop,
}
use electrum_go.Base.Lists.{drop-append_more, take-append-drop, length-drop, take_all}
use electrum_go.Base.Result.{Result, ok, ◌>>◌}
use electrum_go.Storage.Keys.{check_key, first, height_bytes, read_height}
use electrum_go.Base.Int.{
  ℤ, IsI32, to_signed, to_unsigned, to_unsigned-to_signed32, to_signed-to_unsigned32,
  to_unsigned32-lt,
}
use electrum_go.Base.Bytes.{
  Bytes, IsByte, IsBytes, put_be32, be32, put_be32-be32, be32-lt, be32-put_be32,
}

-- What stands behind a first field of length n, from an offset not before its end.
pub slice-second :
    (n i j : ℕ) (xs ys : Bytes)
    → length xs ≡ n
    → n ≤ i
    → i ≤ j
    → slice i j (xs ++ ys) ≡ slice (i - n) (j - n) ys
slice-second n i j xs ys h k l =
    ap (λ (t : Bytes). take (j - i) t) (drop-append_more n i xs ys h k)
    ∙ ap (λ m. take m (drop (i - n) ys)) (omega arith)

pub take_eq_self : (n : ℕ) (xs : Bytes) → length xs ≡ n → take n xs ≡ xs
take_eq_self n xs h = ap (λ m. take m xs) (sym h) ∙ take_all xs

-- A list cut into a part of length n and the rest.
pub split_at : (n : ℕ) (xs : Bytes) → xs ≡ take n xs ++ drop n xs
split_at n xs = sym (take-append-drop n xs)

-- The last four bytes of a key are the number that they encode.
pub put_be32-tail :
    (n : ℕ) (xs : Bytes)
    → length xs ≡ n + 4
    → IsBytes xs
    → put_be32 (be32 (take 4 (drop n xs))) ≡ drop n xs
put_be32-tail n xs h b =
    let e = take_eq_self 4 (drop n xs) (omega (arith, length-drop n xs)) in
    ap (λ t. put_be32 (be32 t)) e
    ∙ put_be32-be32 (drop n xs) (omega (arith, length-drop n xs)) (All-drop IsByte n xs b)

-- The two tests of a `parse`, passed and read off.
module _ {ℓ} {A : Type ℓ} (n p : ℕ) (key : Bytes) (body : Result A) where
  pub checked : length key ≡ n → first key ≡ p → (check_key n p key >> body) ≡ body
  checked h k = ground arith

  pub checked_inv :
      {a : A}
      → (check_key n p key >> body) ≡ ok a
      → (length key ≡ n) × (first key ≡ p) × (body ≡ ok a)
  checked_inv h = ground arith

-- Equations of the parts of a pair and of a triple in a result.
pub ok_pair_inv {ℓ κ} :
    {A : Type ℓ} {B : Type κ} (x a : A) (y b : B)
    → ◌≡◌ {A = Result (A × B)} (ok (x, y)) (ok (a, b))
    → (x ≡ a) × (y ≡ b)
ok_pair_inv x a y b h = (cc, cc)

pub ok_triple_inv {ℓ κ μ} :
    {A : Type ℓ} {B : Type κ} {C : Type μ} (x a : A) (y b : B) (z c : C)
    → ◌≡◌ {A = Result (A × B × C)} (ok (x, y, z)) (ok (a, b, c))
    → (x ≡ a) × (y ≡ b) × (z ≡ c)
ok_triple_inv x a y b z c h = (cc, cc, cc)

-- Four bytes at an offset are the number that they encode.
pub put_be32-field :
    (n : ℕ) (xs : Bytes)
    → n + 4 ≤ length xs
    → IsBytes xs
    → put_be32 (be32 (take 4 (drop n xs))) ≡ take 4 (drop n xs)
put_be32-field n xs h b =
    put_be32-be32 (take 4 (drop n xs))
      (length-take_of_le 4 (drop n xs) (omega (arith, length-drop n xs)))
      (All-take IsByte 4 (drop n xs) (All-drop IsByte n xs b))

pub be32-field-lt : (n : ℕ) (xs : Bytes) → IsBytes xs → be32 (take 4 (drop n xs)) < 2 ^ 32
be32-field-lt n xs b =
    be32-lt (take 4 (drop n xs)) (All-take IsByte 4 (drop n xs) (All-drop IsByte n xs b))

-- So are they as a height.
pub height_bytes-field :
    (n : ℕ) (xs : Bytes)
    → n + 4 ≤ length xs
    → IsBytes xs
    → height_bytes (read_height (take 4 (drop n xs))) ≡ take 4 (drop n xs)
height_bytes-field n xs h b =
    ap put_be32 (to_unsigned-to_signed32 (be32 (take 4 (drop n xs))) (be32-field-lt n xs b))
    ∙ put_be32-field n xs h b

pub read_height-height_bytes : (h : ℤ) → IsI32 h → read_height (height_bytes h) ≡ h
read_height-height_bytes h r =
    ap (to_signed 32) (be32-put_be32 (to_unsigned 32 h) (to_unsigned32-lt h))
    ∙ to_signed-to_unsigned32 h r
