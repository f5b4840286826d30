-- ===== src/Indexer/Mempool/Added.antt =====
-- internal/indexer/mempool.go: what AddTransaction lists a transaction under.
use electrum_go.Base.{
  not, true, reverse, replicate, ◌==◌, ◌+◌, ℕ, Bool-cases, Option-cases, inl, inr, sym, ◌∙◌,
  if◌then◌else◌,
}
use electrum_go.Base.{
  ◌≡◌, refl, ap, subst, Bool, false, ◌&&◌, ◌||◌, Option, none, some, List, [], ◌∷◌, arith,
}
use electrum_go.Base.Int.{ℤ, pos, eq_int}
use electrum_go.Base.Bytes.{Bytes, bytes_eq}
use electrum_go.Base.Hex.{hex_encode}
use electrum_go.Base.Map.{nat_eq, bytes_key, Map, get, set, has, get-set}
use electrum_go.Base.Result.{ok, err, ◌>>=◌, ok_injective, >>=-eq-ok}
use electrum_go.Base.Sets.{among, member, among-keys, among-members}
use electrum_go.Storage.Pebble.{Pebble}
use electrum_go.Indexer.Wire.{TxIn, TxOut, Tx, Wire}
use electrum_go.Indexer.Types.{is_op_return, is_coinbase_input, compute_scripthash}
use electrum_go.Storage.Database.{get_utxo, get_scripthash_for_outpoint}
use electrum_go.Indexer.Mempool.{
  MempoolInput, MempoolOutput, MempoolOverlay, install, add_own, affected_by_inputs,
  affected_by_outputs, make_outputs, output_at, make_outpoint_key,
}
use electrum_go.Indexer.Mempool.Methods.{
  indexed_input, resolve_input, resolve_inputs, make_transaction, add_transaction,
}
use electrum_go.Indexer.Mempool.Queries.{pays, draws, get_scripthash_transactions}
use electrum_go.Indexer.Mempool.Listing.{member-add_to_each}
use electrum_go.Indexer.Mempool.Invariant.{install-by_scripthash}

unfoldable pub any_draws : List MempoolInput → Bytes → Bool
any_draws [] sh_hex = false
any_draws (i ∷ is') sh_hex = draws i sh_hex || any_draws is' sh_hex

unfoldable pub any_pays : List MempoolOutput → Bytes → Bool
any_pays [] sh_hex = false
any_pays (o ∷ os) sh_hex = pays o sh_hex || any_pays os sh_hex

has-add_own :
    (o : Option Bytes) (a : Map Bytes Bytes) (k : Bytes)
    → has (add_own o a) k
      ≡ ((elim o [ none ↦ false | some sh ↦ bytes_eq (hex_encode sh) k ]) || has a k)
has-add_own none a k = refl
has-add_own (some sh) a k = ground (arith, get-set a (hex_encode sh) k sh)

has-affected_by_inputs :
    (is' : List MempoolInput) (a : Map Bytes Bytes) (k : Bytes)
    → has (affected_by_inputs is' a) k ≡ (any_draws is' k || has a k)
unfolding affected_by_inputs any_draws
has-affected_by_inputs [] a k = refl
has-affected_by_inputs (i ∷ is') a k =
    ground
      (arith, has-affected_by_inputs is' (add_own i.scripthash a) k, has-add_own i.scripthash a k)

has-affected_by_outputs :
    (os : List MempoolOutput) (a : Map Bytes Bytes) (k : Bytes)
    → has (affected_by_outputs os a) k ≡ (any_pays os k || has a k)
unfolding affected_by_outputs any_pays
has-affected_by_outputs [] a k = refl
has-affected_by_outputs (o ∷ os) a k = ground (
  arith,
  has-affected_by_outputs os (set a (hex_encode o.scripthash) o.scripthash) k,
  get-set a (hex_encode o.scripthash) k o.scripthash,
)

-- An output that the overlay takes: it has a value, and its script does not begin with OP_RETURN.
abbrev pub is_taken : TxOut → Bool
is_taken o =
    not (eq_int o.value (pos 0)) && elim o.pk_script [ [] ↦ true | b ∷ r ↦ not (b == 0x6a) ]

-- One of the outputs is taken and its script has this scripthash in hex.
unfoldable pub any_output : (Bytes → Bytes) → List TxOut → Bytes → Bool
any_output sha256 [] sh_hex = false
any_output sha256 (o ∷ os) sh_hex =
    let rest = any_output sha256 os sh_hex in
    is_taken o && bytes_eq (hex_encode (reverse (sha256 o.pk_script))) sh_hex || rest

op_return_or_not :
    (script : Bytes)
    → is_op_return script ≡ not (elim script [ [] ↦ true | b ∷ r ↦ not (b == 0x6a) ])
unfolding is_op_return
op_return_or_not [] = refl
op_return_or_not (b ∷ r) = ground arith

any_pays-make_outputs :
    (sha256 : Bytes → Bytes) (txid : Bytes) (vout : ℕ) (os : List TxOut) (sh_hex : Bytes)
    → any_pays (make_outputs sha256 txid vout os) sh_hex ≡ any_output sha256 os sh_hex
unfolding any_pays make_outputs any_output compute_scripthash
any_pays-make_outputs sha256 txid vout [] sh_hex = refl
any_pays-make_outputs sha256 txid vout (o ∷ os) sh_hex =
    ground
      (arith, op_return_or_not o.pk_script, any_pays-make_outputs sha256 txid (vout + 1) os sh_hex)

module _ (p : Pebble) (m : MempoolOverlay) (d : p.Db) where
  -- The scripthash whose output an input spends: the mempool's, else the index's, unless the input is
  -- a coinbase.
  unfoldable pub owner : TxIn → Option Bytes
  owner i =
      if bytes_eq i.prev_hash (replicate 32 0)
      then none
      else elim (output_at m (make_outpoint_key i.prev_hash i.prev_index)) [
        | some o ↦ some o.scripthash
        | none ↦ elim (get_scripthash_for_outpoint p d i.prev_hash i.prev_index) [
          | ok found ↦ found
          | err e ↦ none
        ]
      ]

  unfoldable pub any_input : List TxIn → Bytes → Bool
  any_input [] sh_hex = false
  any_input (i ∷ is') sh_hex =
      let rest = any_input is' sh_hex in
      (elim (owner i) [ none ↦ false | some sh ↦ bytes_eq (hex_encode sh) sh_hex ]) || rest

  owner-indexed_input :
      (i : TxIn) (input : MempoolInput)
      → indexed_input p d i ≡ ok input
      → get_scripthash_for_outpoint p d i.prev_hash i.prev_index ≡ ok input.scripthash
  unfolding indexed_input
  owner-indexed_input i input e =
      let (found, ef, r) =
        >>=-eq-ok (get_scripthash_for_outpoint p d i.prev_hash i.prev_index) _ e in
      ef ∙ ap ok (at_found found r)
    where
      at_found :
          (found : Option Bytes)
          → (elim found [
            | none ↦ ok (record {
              prev_txid = i.prev_hash;
              prev_vout = i.prev_index;
              scripthash = none;
              value = pos 0;
              from_mempool = false;
            })
            | some sh ↦ get_utxo p d sh i.prev_hash i.prev_index >>= λ utxo. ok (record {
              prev_txid = i.prev_hash;
              prev_vout = i.prev_index;
              scripthash = some sh;
              value = elim utxo [ none ↦ pos 0 | some u ↦ u.value ];
              from_mempool = false;
            })
          ])
            ≡ ok input
          → found ≡ input.scripthash
      at_found none r = ap (λ (x : MempoolInput). x.scripthash) (ok_injective r)
      at_found (some sh) r =
          let (utxo, eu, done) = >>=-eq-ok (get_utxo p d sh i.prev_hash i.prev_index) _ r in
          ap (λ (x : MempoolInput). x.scripthash) (ok_injective done)

  resolve_input-owner :
      (i : TxIn) (input : MempoolInput)
      → bytes_eq i.prev_hash (replicate 32 0) ≡ false
      → resolve_input p m d i ≡ ok input
      → owner i ≡ input.scripthash
  unfolding resolve_input owner
  resolve_input-owner i input real e =
      let key = make_outpoint_key i.prev_hash i.prev_index in
      elim (Bool-cases (has m.spent_by key)) [
        | inl spent ↦ absurd (cc (rw (spent, resolve_input) at e))
        | inr free ↦ elim (Option-cases (output_at m key)) [
          | inl nowhere ↦
              rw (real, nowhere, owner)
                (rw
                  (owner-indexed_input i input
                    (rw (nowhere, resolve_input) at (rw (free, resolve_input) at e)))
                  refl)
          | inr (o, there) ↦
              rw (real, there, owner)
                (ap (λ (x : MempoolInput). x.scripthash)
                  (ok_injective (rw (there, resolve_input) at (rw (free, resolve_input) at e))))
        ]
      ]

  any_draws-resolve_inputs :
      (is' : List TxIn) (inputs : List MempoolInput) (sh_hex : Bytes)
      → resolve_inputs p m d is' ≡ ok inputs
      → any_draws inputs sh_hex ≡ any_input is' sh_hex
  unfolding resolve_inputs any_draws any_input is_coinbase_input owner
  any_draws-resolve_inputs [] inputs sh_hex e =
      ap (λ (x : List MempoolInput). any_draws x sh_hex) (sym (ok_injective e))
  any_draws-resolve_inputs (i ∷ is') inputs sh_hex e =
      elim (Bool-cases (bytes_eq i.prev_hash (replicate 32 0))) [
        | inl coinbase ↦
            rw (coinbase, owner) (any_draws-resolve_inputs is' inputs sh_hex (rw coinbase at e))
        | inr real ↦
            let (input, ei, r) = >>=-eq-ok (resolve_input p m d i) _ (rw real at e) in
            let (others, eo, r') = >>=-eq-ok (resolve_inputs p m d is') _ r in
            rw (← ok_injective r', resolve_input-owner i input real ei)
              (ap (λ (b : Bool). draws input sh_hex || b)
                (any_draws-resolve_inputs is' others sh_hex eo))
      ]

module _ (p : Pebble) (w : Wire) (m : MempoolOverlay) where
  open p use {Db}

  among-affected :
      (tx : Tx) (now : ℤ) (inputs : List MempoolInput) (sh_hex : Bytes)
      → among sh_hex (make_transaction p w m tx now inputs).2 ≡ (
          any_pays (make_outputs w.sha256 (w.tx_hash tx) 0 tx.tx_out) sh_hex
          || any_draws inputs sh_hex)
  unfolding make_transaction get
  among-affected tx now inputs sh_hex =
      let outs = make_outputs w.sha256 (w.tx_hash tx) 0 tx.tx_out in
      ground (
        arith,
        among-keys (affected_by_outputs outs (affected_by_inputs inputs [])) sh_hex,
        has-affected_by_outputs outs (affected_by_inputs inputs []) sh_hex,
        has-affected_by_inputs inputs [] sh_hex,
      )

  -- The transactions under a scripthash once the new one is installed.
  abbrev Lists : Tx → List MempoolInput → MempoolOverlay → Type 0
  Lists tx inputs m' =
      (scripthash txid_hex : Bytes)
      → among txid_hex (get_scripthash_transactions m' scripthash) ≡ (
          bytes_eq (w.hash_string (w.tx_hash tx)) txid_hex
            && (any_pays (make_outputs w.sha256 (w.tx_hash tx) 0 tx.tx_out) (hex_encode scripthash)
                || any_draws inputs (hex_encode scripthash))
          || among txid_hex (get_scripthash_transactions m scripthash))

  install-Lists :
      (tx : Tx) (now : ℤ) (inputs : List MempoolInput)
      → (let (t, outs, affected) = make_transaction p w m tx now inputs in
          Lists tx inputs (install m t outs affected))
  unfolding get_scripthash_transactions
  install-Lists tx now inputs scripthash txid_hex =
      let (t, outs, affected) = make_transaction p w m tx now inputs in
      let sh_hex = hex_encode scripthash in
      let id : t.txid_hex ≡ w.hash_string (w.tx_hash tx) = unfold make_transaction in refl in
      ground (
        arith,
        id,
        among-members (install m t outs affected).by_scripthash sh_hex txid_hex,
        among-members m.by_scripthash sh_hex txid_hex,
        ap (λ (x : Map Bytes (Map Bytes Bool)). member x sh_hex txid_hex)
            (install-by_scripthash m t outs affected),
        member-add_to_each m.by_scripthash affected t.txid_hex sh_hex txid_hex,
        among-affected tx now inputs sh_hex,
      )

  -- AddTransaction of a transaction that the overlay does not have, if it succeeds, lists it under the
  -- scripthashes of its outputs' scripts, OP_RETURN and zero values aside, and of the outputs that its
  -- inputs spend, in the mempool or else in the index, coinbase inputs aside, and under no other where
  -- it was not listed; all other entries stay.
  pub add_transaction-lists :
      (d : Db) (tx : Tx) (now : ℤ) (m' : MempoolOverlay) (d' : Db) (shs : List Bytes)
      → has m.transactions (w.hash_string (w.tx_hash tx)) ≡ false
      → add_transaction p w m d tx now ≡ ok (m', d', shs)
      → (scripthash txid_hex : Bytes)
      → among txid_hex (get_scripthash_transactions m' scripthash) ≡ (
          bytes_eq (w.hash_string (w.tx_hash tx)) txid_hex
            && (any_output w.sha256 tx.tx_out (hex_encode scripthash)
                || any_input p m d tx.tx_in (hex_encode scripthash))
          || among txid_hex (get_scripthash_transactions m scripthash))
  unfolding add_transaction get_scripthash_transactions
  add_transaction-lists d tx now m' d' shs fresh e scripthash txid_hex =
      let (inputs, resolved, rest) =
        >>=-eq-ok (resolve_inputs p m d tx.tx_in) _ (rw (fresh, add_transaction) at e) in
      let listed =
        subst (Lists tx inputs)
          (ap (λ (r : MempoolOverlay × Db × List Bytes). r.0) (ok_injective rest))
          (install-Lists tx now inputs) in
      rw
        (
          ← any_pays-make_outputs w.sha256 (w.tx_hash tx) 0 tx.tx_out (hex_encode scripthash),
          ← any_draws-resolve_inputs p m d tx.tx_in inputs (hex_encode scripthash) resolved,
        )
        (listed scripthash txid_hex)
