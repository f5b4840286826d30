-- ===== src/Storage/Pebble/Table.antt =====
-- A store in memory that behaves as `Pebble` asks, and codecs that keep what they are given.
use electrum_go.Base.{
  ◌≡◌, refl, sym, ap, ◌∙◌, Bool, true, Option, none, some, List, [], ◌∷◌, arith, if◌then◌else◌,
  Bool-cases, inl, inr,
}
use mathlib.Core.Path.{fun_ext}
use electrum_go.Base.Bytes.{Bytes, bytes_eq, bytes_lt}
use electrum_go.Base.Map.{bytes_key, Map, get, delete, get-delete, bytes_eq_iff}
use electrum_go.Base.Result.{Result, ok, err, io_failed, ok_injective}
use electrum_go.Storage.Keys.Bound.{in_range}
use electrum_go.Storage.Pebble.{
  Op, put, del, op_key, written, overlay, ascending, Scanned, complete, Pebble,
}

abbrev pub Table : Type 0
Table = Map Bytes Bytes

unfoldable pub insert_ordered : Bytes → Bytes → Table → Table
insert_ordered k v [] = (k, v) ∷ []
insert_ordered k v ((i, w) ∷ t) =
    let later = insert_ordered k v t in if bytes_lt k i then (k, v) ∷ (i, w) ∷ t else (i, w) ∷ later

get-insert_ordered :
    (k v : Bytes) (t : Table) (j : Bytes)
    → get t k ≡ none
    → get (insert_ordered k v t) j ≡ (if bytes_eq k j then some v else get t j)
unfolding insert_ordered get
get-insert_ordered k v [] j h = refl
get-insert_ordered k v ((i, w) ∷ t) j h =
    ground (arith, get-insert_ordered k v t j, bytes_eq_iff i k, bytes_eq_iff i j, bytes_eq_iff k j)

unfoldable pub perform : Op → Table → Table
perform (put k v) t = insert_ordered k v (delete t k)
perform (del k) t = delete t k

unfoldable pub perform_all : List Op → Table → Table
perform_all [] t = t
perform_all (o ∷ ops) t = perform_all ops (perform o t)

get-perform :
    (o : Op) (t : Table) (j : Bytes)
    → get (perform o t) j ≡ (if bytes_eq (op_key o) j then written o else get t j)
unfolding perform
get-perform (put k v) t j = ground (
  arith,
  get-insert_ordered k v (delete t k) j,
  get-delete t k k,
  get-delete t k j,
  bytes_eq_iff k k,
)
get-perform (del k) t j = get-delete t k j

pub get-perform_all :
    (ops : List Op) (t : Table) (k : Bytes) → get (perform_all ops t) k ≡ overlay ops (get t) k
unfolding perform_all overlay
get-perform_all [] t k = refl
get-perform_all (o ∷ ops) t k =
    get-perform_all ops (perform o t) k
    ∙ ap (λ f. overlay ops f k) (fun_ext (λ j. get-perform o t j))

unfoldable pub keep : (Bytes → Bool) → Table → Table
keep q [] = []
keep q ((k, v) ∷ t) = let rest = keep q t in if q k then (k, v) ∷ rest else rest

pub get-keep :
    (q : Bytes → Bool) (t : Table) (k : Bytes) → get (keep q t) k ≡ (if q k then get t k else none)
unfolding keep get
get-keep q [] k = ground arith
get-keep q ((i, v) ∷ t) k = ground (arith, get-keep q t k, bytes_eq_iff i k)

abbrev pub within : Bytes → Option Bytes → Table → Table
within lower upper = keep (in_range lower upper)

-- A table that is out of order refuses to be scanned; `insert_ordered` keeps the order.
unfoldable pub scan_table : Table → Bytes → Option Bytes → Result Scanned
scan_table t lower upper =
    if ascending (within lower upper t) then ok (complete (within lower upper t)) else err io_failed

err-ne-ok : {t : Scanned} → ◌≡◌ {A = Result Scanned} (err io_failed) (ok t) → ⊥
err-ne-ok h = cc

pub scan_inv :
    (t : Table) (lower : Bytes) (upper : Option Bytes) (l : Table)
    → scan_table t lower upper ≡ ok (complete l)
    → (ascending (within lower upper t) ≡ true) × (within lower upper t ≡ l)
unfolding scan_table
scan_inv t lower upper l h = elim (Bool-cases (ascending (within lower upper t))) [
  | inl e ↦ (e, ap (λ (s : Scanned). s.entries) (ok_injective (rw e at h)))
  | inr e ↦ absurd (err-ne-ok (rw e at h))
]

abbrev pub table_store : Pebble
table_store = record {
  Db = Table;
  contents = λ t k. get t k;
  read = λ t k. ok (get t k);
  commit = λ t ops. ok (perform_all ops t);
  scan = scan_table;
  read_contents = λ t k r h. sym (ok_injective h);
  contents_commit =
      λ t t' ops h k. ap (λ (u : Table). get u k) (sym (ok_injective h)) ∙ get-perform_all ops t k;
  scan_contents = λ t lower upper l h k.
      ap (λ (u : Table). get u k) (sym (scan_inv t lower upper l h).1)
      ∙ get-keep (in_range lower upper) t k;
  scan_ascending =
      λ t lower upper l h. let (a, e) = scan_inv t lower upper l h in ap ascending (sym e) ∙ a;
}
