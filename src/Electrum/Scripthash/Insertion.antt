-- ===== src/Electrum/Scripthash/Insertion.antt =====
-- A sort that does what sort.Slice promises.
use electrum_go.Base.{
  suc, ◌≡◌, refl, ap, ◌∙◌, Bool, false, Bool-cases, inl, inr, List, [], ◌∷◌, All, All-map, arith,
  if◌then◌else◌,
}
use electrum_go.Electrum.Scripthash.{HistoryItem}
use electrum_go.Electrum.Scripthash.Sorted.{Less, count, IsStrictWeak, InOrder, IsSort}

unfoldable pub insert : Less → HistoryItem → List HistoryItem → List HistoryItem
insert less x [] = x ∷ []
insert less x (y ∷ ys) = let rest = insert less x ys in if less y x then y ∷ rest else x ∷ y ∷ ys

unfoldable pub insertion_sort : Less → List HistoryItem → List HistoryItem
insertion_sort less [] = []
insertion_sort less (x ∷ xs) = insert less x (insertion_sort less xs)

count-insert :
    (less : Less) (x : HistoryItem) (l : List HistoryItem) (q : HistoryItem → Bool)
    → count q (insert less x l) ≡ count q (x ∷ l)
unfolding insert count
count-insert less x [] q = refl
count-insert less x (y ∷ ys) q = ground (arith, count-insert less x ys q)

count-insertion_sort :
    (less : Less) (l : List HistoryItem) (q : HistoryItem → Bool)
    → count q (insertion_sort less l) ≡ count q l
unfolding insertion_sort count
count-insertion_sort less [] q = refl
count-insertion_sort less (x ∷ xs) q =
    count-insert less x (insertion_sort less xs) q
    ∙ ap (λ n. if q x then suc n else n) (count-insertion_sort less xs q)

All-insert :
    (less : Less) (P : HistoryItem → Type 0) (x : HistoryItem) (l : List HistoryItem)
    → P x
    → All P l
    → All P (insert less x l)
unfolding insert
All-insert less P x [] h hs = (h, tt)
All-insert less P x (y ∷ ys) h (k, ks) = elim (Bool-cases (less y x)) [
  | inl before ↦ rw before (k, All-insert less P x ys h ks)
  | inr behind ↦ rw behind (h, (k, ks))
]

insert-InOrder :
    (less : Less) (weak : IsStrictWeak less) (x : HistoryItem) (l : List HistoryItem)
    → InOrder less l
    → InOrder less (insert less x l)
unfolding insert
insert-InOrder less weak x [] h = (tt, tt)
insert-InOrder less weak x (y ∷ ys) (h, hs) = elim (Bool-cases (less y x)) [
  | inl before ↦ rw before (
    All-insert less (λ z. less z y ≡ false) x ys (weak.asymmetric y x before) h,
    insert-InOrder less weak x ys hs,
  )
  | inr behind ↦ rw behind (
    (
      behind,
      All-map (λ z. less z y ≡ false) (λ z. less z x ≡ false)
          (λ z e. weak.incomparable z y x e behind) ys h,
    ),
    (h, hs),
  )
]

insertion_sort-InOrder :
    (less : Less) (l : List HistoryItem) → IsStrictWeak less → InOrder less (insertion_sort less l)
unfolding insertion_sort
insertion_sort-InOrder less [] weak = tt
insertion_sort-InOrder less (x ∷ xs) weak =
    insert-InOrder less weak x (insertion_sort less xs) (insertion_sort-InOrder less xs weak)

pub insertion_sort-IsSort : IsSort insertion_sort
insertion_sort-IsSort = record { permutes = count-insertion_sort; orders = insertion_sort-InOrder }
