-- ===== src/Storage/Keys/Bound.antt =====
-- PrefixUpperBound against the range that its iterators scan.
use electrum_go.Base.{
  ℕ, zero, suc, ◌+◌, ◌%◌, ◌≤◌, ◌≡◌, refl, ap, ◌∙◌, Bool, true, false, not, ◌&&◌, Option, none, some,
  [], ◌∷◌, ◌++◌, length, replicate, reverse, arith, ◌==◌, if◌then◌else◌,
}
use electrum_go.Base.{◌<◌, sym, inl, inr, Bool-cases, length-append}
use mathlib.Core.List.{reverse-append}
use electrum_go.Base.Bytes.{Bytes, IsBytes, bytes_lt}
use electrum_go.Storage.Keys.{increment, prefix_upper_bound}

abbrev pub starts_with : Bytes → Bytes → Bool
starts_with [] key = true
starts_with (b ∷ bs) [] = false
starts_with (b ∷ bs) (k ∷ ks) = b == k && starts_with bs ks

-- What an iterator with these bounds visits: lower included, upper excluded, nil for no upper bound.
abbrev pub in_range : Bytes → Option Bytes → Bytes → Bool
in_range lower none key = not (bytes_lt key lower)
in_range lower (some upper) key = not (bytes_lt key lower) && bytes_lt key upper

-- The same bound, computed from the front.
bump : ℕ → ℕ → Option Bytes → Option Bytes
bump b n none = if (b + 1) % 256 == 0 then none else some (((b + 1) % 256) ∷ replicate n 0)
bump b n (some r) = some (b ∷ r)

bound : Bytes → Option Bytes
bound [] = none
bound (b ∷ bs) = bump b (length bs) (bound bs)

-- One more byte in front of the loop's reversed list.
increment-snoc :
    (xs : Bytes) (b : ℕ)
    → increment (xs ++ (b ∷ [])) ≡ elim (increment xs) [
      | some r ↦ some (r ++ (b ∷ []))
      | none ↦
          if (b + 1) % 256 == 0
          then none
          else some (replicate (length xs) 0 ++ (((b + 1) % 256) ∷ []))
    ]
unfolding increment
increment-snoc [] b = refl
increment-snoc (x ∷ xs) b = ground (arith, increment-snoc xs b)

opt_reverse : Option Bytes → Option Bytes
opt_reverse none = none
opt_reverse (some r) = some (reverse r)

reverse-snoc : (xs : Bytes) (b : ℕ) → reverse (xs ++ (b ∷ [])) ≡ b ∷ reverse xs
reverse-snoc xs b = reverse-append xs (b ∷ [])

reverse-cons : (b : ℕ) (xs : Bytes) → reverse (b ∷ xs) ≡ reverse xs ++ (b ∷ [])
reverse-cons b xs = reverse-append (b ∷ []) xs

length-reverse : (xs : Bytes) → length (reverse xs) ≡ length xs
length-reverse [] = refl
length-reverse (b ∷ xs) =
    omega
      (arith, ap length (reverse-cons b xs), length-append (reverse xs) (b ∷ []), length-reverse xs)

replicate-snoc : (n : ℕ) → ◌≡◌ {A = Bytes} (replicate n 0 ++ (0 ∷ [])) (0 ∷ replicate n 0)
replicate-snoc zero = refl
replicate-snoc (suc n) = ap (◌∷◌ 0) (replicate-snoc n)

reverse-replicate : (n : ℕ) → ◌≡◌ {A = Bytes} (reverse (replicate n 0)) (replicate n 0)
reverse-replicate zero = refl
reverse-replicate (suc n) =
    reverse-cons 0 (replicate n 0)
    ∙ ap (λ t. t ++ (0 ∷ [])) (reverse-replicate n)
    ∙ replicate-snoc n

opt_reverse_elim :
    (o : Option Bytes) → (elim o [ none ↦ none | some r ↦ some (reverse r) ]) ≡ opt_reverse o
unfolding opt_reverse
opt_reverse_elim none = refl
opt_reverse_elim (some r) = refl

bump-snoc :
    (o : Option Bytes) (b n : ℕ)
    → opt_reverse (elim o [
      | some r ↦ some (r ++ (b ∷ []))
      | none ↦ if (b + 1) % 256 == 0 then none else some (replicate n 0 ++ (((b + 1) % 256) ∷ []))
    ])
      ≡ bump b n (opt_reverse o)
unfolding opt_reverse bump
bump-snoc (some r) b n = ap some (reverse-snoc r b)
bump-snoc none b n = elim (Bool-cases ((b + 1) % 256 == 0)) [
  | inl e ↦ rw e refl
  | inr e ↦
      rw e
        (ap some (reverse-snoc (replicate n 0) _ ∙ ap (◌∷◌ ((b + 1) % 256)) (reverse-replicate n)))
]

bound-increment : (p : Bytes) → opt_reverse (increment (reverse p)) ≡ bound p
unfolding bound
bound-increment [] = unfold opt_reverse increment in refl
bound-increment (b ∷ bs) =
    ap (λ t. opt_reverse (increment t)) (reverse-cons b bs)
    ∙ ap opt_reverse (increment-snoc (reverse bs) b)
    ∙ bump-snoc (increment (reverse bs)) b (length (reverse bs))
    ∙ cc (length-reverse bs, bound-increment bs)

prefix_upper_bound-bound : (p : Bytes) → prefix_upper_bound p ≡ bound p
unfolding prefix_upper_bound
prefix_upper_bound-bound p = opt_reverse_elim (increment (reverse p)) ∙ bound-increment p

zeros_least : (n : ℕ) (ks : Bytes) → n ≤ length ks → bytes_lt ks (replicate n 0) ≡ false
unfolding bytes_lt
zeros_least zero [] h = refl
zeros_least zero (k ∷ ks) h = refl
zeros_least (suc n) [] h = absurd (omega arith)
zeros_least (suc n) (k ∷ ks) h = ground (arith, zeros_least n ks (omega arith))

-- One byte of the prefix, whatever the bound of the rest.
in_range-bump :
    (b k : ℕ) (bs ks : Bytes) (o : Option Bytes)
    → b < 256
    → k < 256
    → length bs ≤ length ks
    → in_range (b ∷ bs) (bump b (length bs) o) (k ∷ ks) ≡ (b == k && in_range bs o ks)
unfolding bump bytes_lt
in_range-bump b k bs ks none hb hk h = ground (arith, zeros_least (length bs) ks h)
in_range-bump b k bs ks (some r) hb hk h = ground arith

starts_with-in_range :
    (p key : Bytes)
    → IsBytes p
    → IsBytes key
    → length p ≤ length key
    → starts_with p key ≡ in_range p (bound p) key
unfolding bound
starts_with-in_range [] [] hp hk h = unfold bytes_lt in refl
starts_with-in_range [] (k ∷ ks) hp hk h = unfold bytes_lt in refl
starts_with-in_range (b ∷ bs) [] hp hk h = absurd (omega arith)
starts_with-in_range (b ∷ bs) (k ∷ ks) (hb, hp) (hk, hks) h =
    ap (λ t. b == k && t) (starts_with-in_range bs ks hp hks (omega arith))
    ∙ sym (in_range-bump b k bs ks (bound bs) hb hk (omega arith))

-- Of the keys that are at least as long as a prefix, the range from the prefix to its
-- PrefixUpperBound holds exactly those that start with the prefix; so it is if there is no bound.
pub prefix_range_exact :
    (p key : Bytes)
    → IsBytes p
    → IsBytes key
    → length p ≤ length key
    → in_range p (prefix_upper_bound p) key ≡ starts_with p key
prefix_range_exact p key hp hk h =
    rw (prefix_upper_bound-bound p) (sym (starts_with-in_range p key hp hk h))
