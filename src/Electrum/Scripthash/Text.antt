-- ===== src/Electrum/Scripthash/Text.antt =====
-- internal/electrum/scripthash.go, ComputeScripthashStatus: the text that is hashed tells the history.
use electrum_go.Base.{
  ℕ, zero, suc, ◌+◌, ◌%◌, ◌/◌, ◌≡◌, ◌≢◌, ◌≤◌, subst, refl, sym, ap, List, [], ◌∷◌, ◌++◌, All,
  All-append, All-map, ltb, Bool-cases, inl, inr, arith,
}
use electrum_go.Base.Int.{ℤ, pos, negsuc}
use electrum_go.Base.Bytes.{Bytes}
use electrum_go.Base.Decimal.{digits, decimal, decimal_int, decimal_injective}
use electrum_go.Electrum.Scripthash.{HistoryItem, status_text}

-- No byte of it is a colon.
abbrev pub HasNoColon : Bytes → Type 0
HasNoColon = All (λ b. b ≢ b':')

-- Where the first colons stand, the texts before and behind them agree.
split_colon :
    (x y r s : Bytes)
    → HasNoColon x
    → HasNoColon y
    → x ++ (b':' ∷ r) ≡ y ++ (b':' ∷ s)
    → (x ≡ y) × (r ≡ s)
split_colon [] [] r s hx hy e = (refl, cc e)
split_colon [] (b ∷ y) r s hx (h, hy) e = absurd (h (cc e))
split_colon (a ∷ x) [] r s (h, hx) hy e = absurd (h (cc e))
split_colon (a ∷ x) (b ∷ y) r s (h, hx) (k, hy) e =
    let (p, q) = split_colon x y r s hx hy (cc e) in (cc (e, p), q)

abbrev IsDigit : ℕ → Type 0
IsDigit b = (48 ≤ b) × (b ≤ 57)

digits-IsDigit : (fuel n : ℕ) → All IsDigit (digits fuel n)
unfolding digits
digits-IsDigit zero n = tt
digits-IsDigit (suc fuel) n = elim (Bool-cases (ltb n 10)) [
  | inl e ↦ rw e ((omega arith, ground (arith, e)), tt)
  | inr e ↦ rw e (
      All-append IsDigit (digits fuel (n / 10)) ((48 + n % 10) ∷ []) (digits-IsDigit fuel (n / 10))
        ((omega arith, omega arith), tt))
]

decimal-IsDigit : (n : ℕ) → All IsDigit (decimal n)
unfolding decimal
decimal-IsDigit n = digits-IsDigit (suc n) n

decimal-HasNoColon : (n : ℕ) → HasNoColon (decimal n)
decimal-HasNoColon n =
    All-map IsDigit (λ b. b ≢ b':') (λ b d q. omega (arith, d.1, q)) (decimal n) (decimal-IsDigit n)

decimal_int-HasNoColon : (h : ℤ) → HasNoColon (decimal_int h)
decimal_int-HasNoColon (pos n) = decimal-HasNoColon n
decimal_int-HasNoColon (negsuc n) = ((λ q. ground (arith, q)), decimal-HasNoColon (suc n))

decimal_no_minus : (m : ℕ) (r : Bytes) → decimal m ≢ b'-' ∷ r
decimal_no_minus m r e =
    let d : All IsDigit (b'-' ∷ r) = subst (All IsDigit) e (decimal-IsDigit m) in
    omega (arith, d.0.0)

decimal_int_injective : (g h : ℤ) → decimal_int g ≡ decimal_int h → g ≡ h
decimal_int_injective (pos m) (pos n) e = ap pos (decimal_injective m n e)
decimal_int_injective (pos m) (negsuc n) e = absurd (decimal_no_minus m (decimal (suc n)) e)
decimal_int_injective (negsuc m) (pos n) e = absurd (decimal_no_minus n (decimal (suc m)) (sym e))
decimal_int_injective (negsuc m) (negsuc n) e =
    ap negsuc (omega (arith, decimal_injective (suc m) (suc n) (cc e)))

text_injective :
    (a b : HistoryItem) (r s : Bytes)
    → HasNoColon a.tx_hash
    → HasNoColon b.tx_hash
    → a.tx_hash ++ (b':' ∷ decimal_int a.height ++ (b':' ∷ r))
      ≡ b.tx_hash ++ (b':' ∷ decimal_int b.height ++ (b':' ∷ s))
    → (a ≡ b) × (r ≡ s)
text_injective a b r s ha hb e =
    let (p, e₁) = split_colon a.tx_hash b.tx_hash _ _ ha hb e in
    let (q, e₂) =
      split_colon (decimal_int a.height) (decimal_int b.height) r s
        (decimal_int-HasNoColon a.height) (decimal_int-HasNoColon b.height) e₁ in
    (λ i. record { tx_hash = p i; height = decimal_int_injective a.height b.height q i }, e₂)

not_empty : (t r : Bytes) → [] ≢ t ++ (b':' ∷ r)
not_empty [] r e = absurd (cc e)
not_empty (b ∷ t) r e = absurd (cc e)

-- Two histories whose hashes hold no colon, as hexadecimal digits do not, have the same status text,
-- of which ComputeScripthashStatus takes the SHA-256, only if they are equal: the same hashes at the
-- same heights in the same order.
pub status_text_injective :
    (xs ys : List HistoryItem)
    → All (λ x. HasNoColon x.tx_hash) xs
    → All (λ y. HasNoColon y.tx_hash) ys
    → status_text xs ≡ status_text ys
    → xs ≡ ys
unfolding status_text
status_text_injective [] [] hx hy e = refl
status_text_injective [] (y ∷ ys) hx hy e = absurd (not_empty y.tx_hash _ e)
status_text_injective (x ∷ xs) [] hx hy e = absurd (not_empty x.tx_hash _ (sym e))
status_text_injective (x ∷ xs) (y ∷ ys) (h, hx) (k, hy) e =
    let (p, r) = text_injective x y (status_text xs) (status_text ys) h k e in
    cc (p, status_text_injective xs ys hx hy r)
