-- ===== src/Indexer/Mempool/Steps.antt =====
-- internal/indexer/mempool.go: any sequence of calls of the methods, from a new overlay.
use electrum_go.Base.{
  ℕ, ◌+◌, ◌≡◌, refl, ap, ◌∙◌, subst, Bool, true, false, not, ◌&&◌, ◌||◌, Option, none, some, List,
  [], ◌∷◌, map, arith, if◌then◌else◌, Bool-cases, Option-cases, inl, inr,
}
use electrum_go.Base.Int.{ℤ}
use electrum_go.Base.Bytes.{Bytes, bytes_eq}
use electrum_go.Base.Hex.{hex_encode}
use electrum_go.Base.Map.{nat_eq, bytes_key, Map, get, delete, has, get-delete, bytes_eq_iff}
use electrum_go.Base.Result.{Result, ok, err, ok_injective, >>=-eq-ok}
use electrum_go.Base.Sets.{keys, among, member, member-drop_member, among-keys, among-members}
use electrum_go.Storage.Pebble.{Pebble}
use electrum_go.Indexer.Types.{txid_to_hex}
use electrum_go.Indexer.Wire.{Tx, Wire}
use electrum_go.Indexer.Mempool.{
  MempoolInput, MempoolOutput, MempoolTransaction, MempoolOverlay, new, uninstall,
  make_outpoint_key,
}
use electrum_go.Indexer.Mempool.Methods.{
  resolve_inputs, make_transaction, add_transaction, remove_by_hex, remove_transaction, clear,
}
use electrum_go.Indexer.Mempool.Queries.{
  remove_output, get_scripthash_transactions, is_output_spent,
}
use electrum_go.Indexer.Mempool.Reconcile.{
  is_valid, add_affected, Progress, drop_output, drop_outputs, drop_spenders, drop_transactions,
  reconcile_with,
}
use electrum_go.Indexer.Mempool.Spending.{spends}
use electrum_go.Indexer.Mempool.Listing.{affected_by_inputs-IsByText, affected_by_outputs-IsByText}
use electrum_go.Indexer.Mempool.Invariant.{
  touches, IsConsistent, new-IsConsistent, install-IsConsistent, uninstall-IsConsistent,
}

remove_output-IsConsistent :
    (m : MempoolOverlay) (txid : Bytes) (vout : ℕ)
    → IsConsistent m
    → IsConsistent (remove_output m txid vout)
unfolding remove_output
remove_output-IsConsistent m txid vout c = record {
  sound = λ key id h.
      c.sound key id (ground (arith, h, get-delete m.spent_by (make_outpoint_key txid vout) key));
  listed = c.listed;
}

-- The transactions that are left are valid, or still to be looked at.
abbrev Left : Map Bytes Bool → MempoolOverlay → List Bytes → Type 0
Left valid m rest =
    (id : Bytes) → has m.transactions id ≡ true → (is_valid valid id || among id rest) ≡ true

drop_output-IsConsistent :
    (valid : Map Bytes Bool) (s : Progress) (key : Bytes) (o : MempoolOutput)
    → is_valid valid (txid_to_hex o.txid) ≡ false
    → Left valid s.overlay []
    → IsConsistent s.overlay
    → IsConsistent (drop_output s key o).overlay
unfolding drop_output among
drop_output-IsConsistent valid s key o gone kept c = record {
  sound = c.sound;
  listed = λ sh id. ground (
    arith,
    c.listed sh id,
    gone,
    kept id,
    member-drop_member s.overlay.by_scripthash (hex_encode o.scripthash) sh (txid_to_hex o.txid) id,
    bytes_eq_iff (txid_to_hex o.txid) id,
  );
}

drop_outputs-IsConsistent :
    (valid : Map Bytes Bool) (s : Progress) (outs : Map Bytes ℕ)
    → Left valid s.overlay []
    → IsConsistent s.overlay
    → IsConsistent (drop_outputs valid s outs).overlay
unfolding drop_outputs
drop_outputs-IsConsistent valid s [] kept c = c
drop_outputs-IsConsistent valid s ((key, a) ∷ r) kept c =
    at_cell (get s.overlay.cells a) refl (λ (s' : Progress). drop_outputs-IsConsistent valid s' r)
  where
    at_cell :
        (o : Option MempoolOutput)
        → get s.overlay.cells a ≡ o
        → ((s' : Progress)
            → Left valid s'.overlay []
            → IsConsistent s'.overlay
            → IsConsistent (drop_outputs valid s' r).overlay)
        → IsConsistent (drop_outputs valid s ((key, a) ∷ r)).overlay
    at_cell none e ih = rw (e, drop_outputs) (ih s kept c)
    at_cell (some o) e ih = elim (Bool-cases (is_valid valid (txid_to_hex o.txid))) [
      | inl h ↦ rw (e, drop_outputs) (rw (h, drop_outputs) (ih s kept c))
      | inr h ↦
          rw (e, drop_outputs)
            (rw (h, drop_outputs)
              (ih (drop_output s key o) (unfold drop_output in kept)
                (drop_output-IsConsistent valid s key o h kept c)))
    ]

get-drop_spenders :
    (valid : Map Bytes Bool) (spent_by rest : Map Bytes Bytes) (key id : Bytes)
    → get (drop_spenders valid spent_by rest) key ≡ some id
    → get spent_by key ≡ some id
unfolding drop_spenders
get-drop_spenders valid spent_by [] key id h = h
get-drop_spenders valid spent_by ((k, spender) ∷ r) key id h =
    let ih =
      get-drop_spenders valid (if is_valid valid spender then spent_by else delete spent_by k) r key
        id h in
    ground (arith, ih, get-delete spent_by k key)

module _ (p : Pebble) where
  open p use {Db}

  remove_by_hex-IsConsistent :
      (m : MempoolOverlay) (d : Db) (id : Bytes)
      → IsConsistent m
      → IsConsistent (remove_by_hex p m d id).0
  unfolding remove_by_hex
  remove_by_hex-IsConsistent m d id c = at_entry (get m.transactions id) refl
    where
      at_entry :
          (t : Option MempoolTransaction)
          → get m.transactions id ≡ t
          → IsConsistent (remove_by_hex p m d id).0
      at_entry none e = rw (e, remove_by_hex) c
      at_entry (some t) e = rw (e, remove_by_hex) (uninstall-IsConsistent m t id e c)

  has-remove_by_hex :
      (m : MempoolOverlay) (d : Db) (id other : Bytes)
      → has (remove_by_hex p m d id).0.transactions other
        ≡ (not (bytes_eq id other) && has m.transactions other)
  unfolding remove_by_hex
  has-remove_by_hex m d id other = at_entry (get m.transactions id) refl
    where
      at_entry :
          (t : Option MempoolTransaction)
          → get m.transactions id ≡ t
          → has (remove_by_hex p m d id).0.transactions other
            ≡ (not (bytes_eq id other) && has m.transactions other)
      at_entry none e = rw (e, remove_by_hex) (ground (arith, e, bytes_eq_iff id other))
      at_entry (some t) e =
          rw (e, remove_by_hex)
            (unfold uninstall in
              ground (arith, get-delete m.transactions id other, bytes_eq_iff id other))

  -- The loop over the transactions: those that are left are valid.
  drop_transactions_lem :
      (valid : Map Bytes Bool) (s : Progress) (d : Db) (rest : List Bytes)
      → Left valid s.overlay rest
      → IsConsistent s.overlay
      → Left valid (drop_transactions p valid s d rest).0.overlay []
        × IsConsistent (drop_transactions p valid s d rest).0.overlay
  unfolding drop_transactions among
  drop_transactions_lem valid s d [] h c = (h, c)
  drop_transactions_lem valid s d (id ∷ rest) h c = elim (Bool-cases (is_valid valid id)) [
    | inl e ↦
        rw (e, drop_transactions)
          (drop_transactions_lem valid s d rest
            (λ other there. ground (arith, h other there, e, bytes_eq_iff id other)) c)
    | inr e ↦
        let (m, d', shs) = remove_by_hex p s.overlay d id in
        let next : Progress = record {
          overlay = m;
          removed = s.removed + 1;
          affected = add_affected s.affected shs;
        } in
        rw (e, drop_transactions)
          (drop_transactions_lem valid next d' rest
            (λ other there. ground (
              arith,
              h other,
              there,
              has-remove_by_hex s.overlay d id other,
              bytes_eq_iff id other,
            ))
            (remove_by_hex-IsConsistent s.overlay d id c))
  ]

  reconcile_with-IsConsistent :
      (m : MempoolOverlay) (d : Db) (valid : Map Bytes Bool)
      → IsConsistent m
      → IsConsistent (reconcile_with p m d valid).0
  unfolding reconcile_with
  reconcile_with-IsConsistent m d valid c =
      let start : Progress = record { overlay = m; removed = 0; affected = [] } in
      let (kept, c1) =
        drop_transactions_lem valid start d (keys m.transactions)
          (λ id there. ground (arith, there, among-keys m.transactions id)) c in
      let s = (drop_transactions p valid start d (keys m.transactions)).0 in
      let c2 = drop_outputs-IsConsistent valid s s.overlay.outputs kept c1 in
      let t = drop_outputs valid s s.overlay.outputs in
      record {
        sound = λ key id h.
            c2.sound key id
              (get-drop_spenders valid t.overlay.spent_by t.overlay.spent_by key id h);
        listed = c2.listed;
      }

  clear-IsConsistent : (m : MempoolOverlay) (d : Db) → IsConsistent (clear p m d).0
  unfolding clear get member
  clear-IsConsistent m d = record { sound = λ key id e. cc e; listed = λ sh id. refl }

  make_transaction-affected :
      (w : Wire) (m : MempoolOverlay) (tx : Tx) (now : ℤ) (inputs : List MempoolInput)
      → (make_transaction p w m tx now inputs).2
        ≡ map hex_encode (make_transaction p w m tx now inputs).0.scripthashes
  unfolding make_transaction
  make_transaction-affected w m tx now inputs =
      affected_by_outputs-IsByText _ _ (affected_by_inputs-IsByText inputs [] refl)

  make_transaction-txid_hex :
      (w : Wire) (m : MempoolOverlay) (tx : Tx) (now : ℤ) (inputs : List MempoolInput)
      → (make_transaction p w m tx now inputs).0.txid_hex ≡ w.hash_string (w.tx_hash tx)
  unfolding make_transaction
  make_transaction-txid_hex w m tx now inputs = refl

  add_transaction-IsConsistent :
      (w : Wire) (m : MempoolOverlay) (d : Db) (tx : Tx) (now : ℤ) (m' : MempoolOverlay) (d' : Db)
      (shs : List Bytes)
      → add_transaction p w m d tx now ≡ ok (m', d', shs)
      → IsConsistent m
      → IsConsistent m'
  unfolding add_transaction
  add_transaction-IsConsistent w m d tx now m' d' shs e c =
      let id = w.hash_string (w.tx_hash tx) in
      elim (Bool-cases (has m.transactions id)) [
        | inl there ↦
            subst IsConsistent
              (ap (λ (r : MempoolOverlay × Db × List Bytes). r.0)
                (ok_injective (rw (there, add_transaction) at e)))
              c
        | inr fresh ↦
            let (inputs, _e, rest) =
              >>=-eq-ok (resolve_inputs p m d tx.tx_in) _ (rw (fresh, add_transaction) at e) in
            let (t, outs, affected) = make_transaction p w m tx now inputs in
            subst IsConsistent
              (ap (λ (r : MempoolOverlay × Db × List Bytes). r.0) (ok_injective rest))
              (install-IsConsistent m t outs affected
                (ground (arith, fresh, make_transaction-txid_hex w m tx now inputs))
                (make_transaction-affected w m tx now inputs) c)
      ]

  -- The calls that change the overlay, each with the database as it is then.
  pub data Call : Type 0 where
    added : (d : Db) (tx : Tx) (now : ℤ) → Call
    removed : (d : Db) (txid : Bytes) → Call
    taken : (txid : Bytes) (vout : ℕ) → Call
    reconciled : (d : Db) (valid : Map Bytes Bool) → Call
    cleared : (d : Db) → Call

  -- The overlay after a call; one that fails leaves it as it is.
  unfoldable pub perform : Wire → MempoolOverlay → Call → MempoolOverlay
  perform w m (added d tx now) = elim (add_transaction p w m d tx now) [
    | err e ↦ m
    | ok (m', d', affected) ↦ m'
  ]
  perform w m (removed d txid) = (remove_transaction p m d txid).0
  perform w m (taken txid vout) = remove_output m txid vout
  perform w m (reconciled d valid) = (reconcile_with p m d valid).0
  perform w m (cleared d) = (clear p m d).0

  unfoldable pub perform_all : Wire → MempoolOverlay → List Call → MempoolOverlay
  perform_all w m [] = m
  perform_all w m (c ∷ cs) = perform_all w (perform w m c) cs

  perform-IsConsistent :
      (w : Wire) (m : MempoolOverlay) (call : Call)
      → IsConsistent m
      → IsConsistent (perform w m call)
  unfolding perform remove_transaction
  perform-IsConsistent w m (added d tx now) c = at_result (add_transaction p w m d tx now) refl
    where
      at_result :
          (r : Result (MempoolOverlay × Db × List Bytes))
          → add_transaction p w m d tx now ≡ r
          → IsConsistent (perform w m (added d tx now))
      at_result (err x) e = rw (e, perform) c
      at_result (ok (m', d', shs)) e =
          rw (e, perform) (add_transaction-IsConsistent w m d tx now m' d' shs e c)
  perform-IsConsistent w m (removed d txid) c = remove_by_hex-IsConsistent m d (txid_to_hex txid) c
  perform-IsConsistent w m (taken txid vout) c = remove_output-IsConsistent m txid vout c
  perform-IsConsistent w m (reconciled d valid) c = reconcile_with-IsConsistent m d valid c
  perform-IsConsistent w m (cleared d) c = clear-IsConsistent m d

  perform_all-IsConsistent :
      (w : Wire) (m : MempoolOverlay) (calls : List Call)
      → IsConsistent m
      → IsConsistent (perform_all w m calls)
  unfolding perform_all
  perform_all-IsConsistent w m [] c = c
  perform_all-IsConsistent w m (x ∷ xs) c =
      perform_all-IsConsistent w (perform w m x) xs (perform-IsConsistent w m x c)

  -- After any calls of AddTransaction, RemoveTransaction, RemoveOutput, ReconcileWith and Clear on a new
  -- overlay, with any databases and with failures, GetScripthashTransactions returns just the
  -- transactions that the overlay has and whose scripthashes include the one asked for.
  pub get_scripthash_transactions_iff :
      (w : Wire) (calls : List Call) (scripthash txid_hex : Bytes)
      → among txid_hex (get_scripthash_transactions (perform_all w new calls) scripthash)
        ≡ touches (get (perform_all w new calls).transactions txid_hex) (hex_encode scripthash)
  unfolding get_scripthash_transactions
  get_scripthash_transactions_iff w calls scripthash txid_hex =
      among-members (perform_all w new calls).by_scripthash (hex_encode scripthash) txid_hex
      ∙ (perform_all-IsConsistent w new calls new-IsConsistent).listed (hex_encode scripthash)
          txid_hex

  -- After any such calls, an outpoint that IsOutputSpent reports as spent is an input of a transaction
  -- that the overlay has, and spentBy names that transaction.
  pub is_output_spent_sound :
      (w : Wire) (calls : List Call) (txid : Bytes) (vout : ℕ)
      → is_output_spent (perform_all w new calls) txid vout ≡ true
      → (txid_hex : Bytes) × (t : MempoolTransaction) × (get
            (perform_all w new calls).spent_by
            (make_outpoint_key txid vout)
          ≡ some txid_hex)
        × (get (perform_all w new calls).transactions txid_hex ≡ some t)
        × (spends t.inputs (make_outpoint_key txid vout) ≡ true)
  unfolding is_output_spent
  is_output_spent_sound w calls txid vout h =
      let m = perform_all w new calls in
      let key = make_outpoint_key txid vout in
      elim (Option-cases (get m.spent_by key)) [
        | inl absent ↦ ground (arith, absent, h)
        | inr (id, e) ↦
            let (t, there, s) =
              (perform_all-IsConsistent w new calls new-IsConsistent).sound key id e in
            (id, t, e, there, s)
      ]
