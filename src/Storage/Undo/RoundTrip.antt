-- ===== src/Storage/Undo/RoundTrip.antt =====
-- DecodeUndoBlock reads back what EncodeUndoBlock wrote.
use electrum_go.Base.{
  ℕ, ◌%◌, ◌≤◌, ◌<◌, false, ◌^◌, ◌≡◌, refl, sym, ap, ◌∙◌, List, [], ◌∷◌, ◌++◌, length, take, drop,
  All, arith, ltb, ◌==◌, ==_iff, take-append_exact, drop-append_exact,
}
use mathlib.Core.List.{append_assoc, append-nil}
use electrum_go.Base.Int.{
  ℤ, IsI32, IsI64, to_unsigned, to_signed-to_unsigned32, to_signed-to_unsigned64, to_unsigned32-lt,
  to_unsigned64-lt,
}
use electrum_go.Base.Bytes.{Bytes, put_le32, le32-put_le32, le64-put_le64}
use electrum_go.Base.Result.{Result, ok, ◌>>=◌, guard_inv, >>=-eq-ok, ok_injective}
use electrum_go.Storage.Undo.{
  UndoOutput, UndoHistory, UndoBlock, write_i32, write_i64, write_count, write_output,
  write_history, write_all, encode_undo_block, read_u32, read_i32, read_i64, read_bytes,
  read_output, read_history, read_many, decode_undo_block,
}

abbrev pub FitsOutput : UndoOutput → Type 0
FitsOutput o = (o.vout < 2 ^ 32) × IsI64 o.value × IsI32 o.height

abbrev pub FitsHistory : UndoHistory → Type 0
FitsHistory h = IsI32 h.height × (h.tx_index < 2 ^ 32) × (h.index < 2 ^ 32)

-- Every number of the record fits its Go type, the three counts included.
pub record FitsUndo (u : UndoBlock) : Type 0 where
  pub height : IsI32 u.height
  pub spent : All FitsOutput u.spent_outputs
  pub created : All FitsOutput u.created_outputs
  pub history : All FitsHistory u.history_entries
  pub spent_count : length u.spent_outputs < 2 ^ 32
  pub created_count : length u.created_outputs < 2 ^ 32
  pub history_count : length u.history_entries < 2 ^ 32

enough : (n k : ℕ) → k ≤ n → ltb n k ≡ false
enough n k h = ground arith

read_u32-put : (v : ℕ) (r : Bytes) → v < 2 ^ 32 → read_u32 (put_le32 v ++ r) ≡ ok (v, r)
unfolding read_u32
read_u32-put v r h = rw (enough (length (put_le32 v ++ r)) 4 (omega arith)) (cc (le32-put_le32 v h))

read_i32-write : (v : ℤ) (r : Bytes) → IsI32 v → read_i32 (write_i32 v ++ r) ≡ ok (v, r)
unfolding read_i32 write_i32
read_i32-write v r h =
    rw (enough (length (write_i32 v ++ r)) 4 (omega arith))
      (cc (le32-put_le32 (to_unsigned 32 v) (to_unsigned32-lt v), to_signed-to_unsigned32 v h))

read_i64-write : (v : ℤ) (r : Bytes) → IsI64 v → read_i64 (write_i64 v ++ r) ≡ ok (v, r)
unfolding read_i64 write_i64
read_i64-write v r h =
    rw (enough (length (write_i64 v ++ r)) 8 (omega arith))
      (cc (le64-put_le64 (to_unsigned 64 v) (to_unsigned64-lt v), to_signed-to_unsigned64 v h))

read_u32-count : (n : ℕ) (r : Bytes) → n < 2 ^ 32 → read_u32 (write_count n ++ r) ≡ ok (n, r)
unfolding write_count
read_u32-count n r h =
    read_u32-put (n % 2 ^ 32) r (omega arith)
    ∙ ap (λ k. ok (k, r)) (let e : n % 2 ^ 32 ≡ n = omega arith in e)

read_bytes-append : (xs r : Bytes) → length xs ≡ 32 → read_bytes 32 (xs ++ r) ≡ ok (xs, r)
unfolding read_bytes
read_bytes-append [] r h = absurd (omega arith)
read_bytes-append (x ∷ xs) r h =
    let t : take 32 (x ∷ xs ++ r) ≡ x ∷ xs = take-append_exact 32 (x ∷ xs) r h in
    let d : drop 32 (x ∷ xs ++ r) ≡ r = drop-append_exact 32 (x ∷ xs) r h in
    cc (t, d, h, append-nil (x ∷ xs))

-- A reader that reads back what a writer writes, whatever follows.
abbrev ReadsBack {ℓ κ} :
    {A : Type ℓ} → (A → Type κ) → (A → Result Bytes) → (Bytes → Result (A × Bytes)) → Type (ℓ ⊔ κ)
ReadsBack {A = A} Fits write read =
    (x : A) (b r : Bytes) → Fits x → write x ≡ ok b → read (b ++ r) ≡ ok (x, r)

read_many-write_all {ℓ κ} :
    {A : Type ℓ} (Fits : A → Type κ) (write : A → Result Bytes) (read : Bytes → Result (A × Bytes))
    → ReadsBack Fits write read
    → (xs : List A) (b r : Bytes) → All Fits xs
    → write_all write xs ≡ ok b
    → read_many read (length xs) (b ++ r) ≡ ok (xs, r)
unfolding read_many write_all
read_many-write_all Fits write read back [] b r f e =
    ap (λ t. ok ([], t ++ r)) (sym (ok_injective e))
read_many-write_all Fits write read back (x ∷ xs) b r (f, fs) e =
    let (c, ec, e') = >>=-eq-ok (write x) _ e in
    let (d, ed, e'') = >>=-eq-ok (write_all write xs) _ e' in
    rw (← ok_injective e'', append_assoc c d r)
      (rw (back x c (d ++ r) f ec)
        (rw (read_many-write_all Fits write read back xs d r fs ed) refl))

write_output_inv :
    (o : UndoOutput) (b : Bytes)
    → write_output o ≡ ok b
    → (length o.scripthash ≡ 32)
      × (length o.txid ≡ 32)
      × (length o.block_hash ≡ 32)
      × (o.scripthash
            ++ (o.txid
                ++ (put_le32 o.vout ++ (write_i64 o.value ++ (write_i32 o.height ++ o.block_hash))))
          ≡ b)
unfolding write_output
write_output_inv o b e =
    let (hs, e₁) = guard_inv (length o.scripthash == 32) _ _ e in
    let (ht, e₂) = guard_inv (length o.txid == 32) _ _ e₁ in
    let (hb, e₃) = guard_inv (length o.block_hash == 32) _ _ e₂ in
    ((==_iff _ 32).0 hs, (==_iff _ 32).0 ht, (==_iff _ 32).0 hb, ok_injective e₃)

write_history_inv :
    (h : UndoHistory) (b : Bytes)
    → write_history h ≡ ok b
    → (length h.scripthash ≡ 32)
      × (h.scripthash ++ (write_i32 h.height ++ (put_le32 h.tx_index ++ put_le32 h.index)) ≡ b)
unfolding write_history
write_history_inv h b e =
    let (hs, e₁) = guard_inv (length h.scripthash == 32) _ _ e in
    ((==_iff _ 32).0 hs, ok_injective e₁)

read_output-write : ReadsBack FitsOutput write_output read_output
unfolding read_output
read_output-write o b r (fv, fa, fh) e =
    let (hs, ht, hb, eb) = write_output_inv o b e in
    rw (← eb, append_assoc)
      (rw (read_bytes-append o.scripthash _ hs, append_assoc)
        (rw (read_bytes-append o.txid _ ht, append_assoc)
          (rw (read_u32-put o.vout _ fv, append_assoc)
            (rw (read_i64-write o.value _ fa, append_assoc)
              (rw (read_i32-write o.height _ fh)
                (rw (read_bytes-append o.block_hash r hb) refl))))))

read_history-write : ReadsBack FitsHistory write_history read_history
unfolding read_history
read_history-write h b r (fh, fi, fj) e =
    let (hs, eb) = write_history_inv h b e in
    rw (← eb, append_assoc)
      (rw (read_bytes-append h.scripthash _ hs, append_assoc)
        (rw (read_i32-write h.height _ fh, append_assoc)
          (rw (read_u32-put h.tx_index _ fi) (rw (read_u32-put h.index r fj) refl))))

pub encode_inv :
    (u : UndoBlock) (b : Bytes)
    → encode_undo_block u ≡ ok b
    → (length u.block_hash ≡ 32)
      × (length u.prev_block_hash ≡ 32)
      × (spent created history : Bytes) × (write_all write_output u.spent_outputs ≡ ok spent)
      × (write_all write_output u.created_outputs ≡ ok created)
      × (write_all write_history u.history_entries ≡ ok history)
      × (write_i32 u.height
            ++ (u.block_hash
                ++ (u.prev_block_hash
                    ++ (write_count (length u.spent_outputs)
                        ++ (write_count (length u.created_outputs)
                            ++ (write_count (length u.history_entries)
                                ++ (spent ++ (created ++ history)))))))
          ≡ b)
unfolding encode_undo_block
encode_inv u b e =
    let (hb, e₁) = guard_inv (length u.block_hash == 32) _ _ e in
    let (hp, e₂) = guard_inv (length u.prev_block_hash == 32) _ _ e₁ in
    let (s, es, e₃) = >>=-eq-ok (write_all write_output u.spent_outputs) _ e₂ in
    let (c, ec, e₄) = >>=-eq-ok (write_all write_output u.created_outputs) _ e₃ in
    let (h, eh, e₅) = >>=-eq-ok (write_all write_history u.history_entries) _ e₄ in
    ((==_iff _ 32).0 hb, (==_iff _ 32).0 hp, s, c, h, es, ec, eh, ok_injective e₅)

-- The three lists, behind the fields of fixed width.
lists :
    (u : UndoBlock) (s c h rest : Bytes)
    → FitsUndo u
    → write_all write_output u.spent_outputs ≡ ok s
    → write_all write_output u.created_outputs ≡ ok c
    → write_all write_history u.history_entries ≡ ok h
    → (do
      (spent, r) ← read_many read_output (length u.spent_outputs) (s ++ ((c ++ h) ++ rest))
      (created, r) ← read_many read_output (length u.created_outputs) r
      (history, r) ← read_many read_history (length u.history_entries) r
      ok (record u { spent_outputs = spent; created_outputs = created; history_entries = history }))
      ≡ ok u
lists u s c h rest f es ec eh =
    rw
      (
        read_many-write_all FitsOutput write_output read_output read_output-write u.spent_outputs s
            _ f.spent es,
        append_assoc,
      )
      (rw
        (read_many-write_all FitsOutput write_output read_output read_output-write u.created_outputs
          c _ f.created ec)
        (rw
          (read_many-write_all FitsHistory write_history read_history read_history-write
            u.history_entries h rest f.history eh)
          refl))

-- If every number of an undo record fits its Go type and EncodeUndoBlock returns bytes, then
-- DecodeUndoBlock returns that record from those bytes, whatever follows them.
pub decode-encode_undo_block :
    (u : UndoBlock) (b rest : Bytes)
    → FitsUndo u
    → encode_undo_block u ≡ ok b
    → decode_undo_block (b ++ rest) ≡ ok u
unfolding decode_undo_block
decode-encode_undo_block u b rest f e =
    let (hb, hp, s, c, h, es, ec, eh, eb) = encode_inv u b e in
    rw (← eb, append_assoc)
      (rw (read_i32-write u.height _ f.height, append_assoc)
        (rw (read_bytes-append u.block_hash _ hb, append_assoc)
          (rw (read_bytes-append u.prev_block_hash _ hp, append_assoc)
            (rw (read_u32-count (length u.spent_outputs) _ f.spent_count, append_assoc)
              (rw (read_u32-count (length u.created_outputs) _ f.created_count, append_assoc)
                (rw (read_u32-count (length u.history_entries) _ f.history_count, append_assoc)
                  (lists u s c h rest f es ec eh)))))))
