-- ===== src/Indexer/Mempool/Invariant.antt =====
-- The maps of the overlay agree with its transactions, whatever methods were called.
use electrum_go.Base.{
  ◌≡◌, refl, Bool, false, Option, none, some, List, map, arith, if◌then◌else◌, Bool-cases, inl, inr,
}
use electrum_go.Base.Bytes.{Bytes}
use electrum_go.Base.Hex.{hex_encode}
use electrum_go.Base.Map.{nat_eq, bytes_key, get, set, get-set, get-delete, bytes_eq_iff}
use electrum_go.Base.Sets.{among, member}
use electrum_go.Indexer.Mempool.{
  MempoolOutput, MempoolTransaction, MempoolOverlay, new, install, uninstall, add_to_each,
}
use electrum_go.Indexer.Mempool.Spending.{
  spends, get-delete_spent, spend_inputs-maps, get-spend_inputs, IsSound,
}
use electrum_go.Indexer.Mempool.Listing.{member-add_to_each, member-remove_from_each}

-- Whether a transaction that is there touches a scripthash, by its text.
abbrev pub touches : Option MempoolTransaction → Bytes → Bool
touches none sh_hex = false
touches (some t) sh_hex = among sh_hex (map hex_encode t.scripthashes)

-- The sets by scripthash hold just the transactions that touch it.
abbrev pub IsListed : MempoolOverlay → Type 0
IsListed m =
    (sh_hex txid_hex : Bytes)
    → member m.by_scripthash sh_hex txid_hex ≡ touches (get m.transactions txid_hex) sh_hex

pub record IsConsistent (m : MempoolOverlay) : Type 0 where
  pub sound : IsSound m
  pub listed : IsListed m

pub new-IsConsistent : IsConsistent new
unfolding new get member
new-IsConsistent = record { sound = λ key id e. cc e; listed = λ sh id. refl }

module _ (m : MempoolOverlay) (t : MempoolTransaction) (outs : List MempoolOutput)
    (affected : List Bytes) where
  install-transactions : (install m t outs affected).transactions ≡ set m.transactions t.txid_hex t
  unfolding install
  install-transactions = (spend_inputs-maps _ t.inputs t.txid t.txid_hex).0

  pub install-by_scripthash :
      (install m t outs affected).by_scripthash ≡ add_to_each m.by_scripthash affected t.txid_hex
  unfolding install
  install-by_scripthash = (spend_inputs-maps _ t.inputs t.txid t.txid_hex).1

  install-spent_by :
      (key : Bytes)
      → get (install m t outs affected).spent_by key
        ≡ (if spends t.inputs key then some t.txid_hex else get m.spent_by key)
  unfolding install
  install-spent_by key = get-spend_inputs _ t.inputs t.txid t.txid_hex key

  install-IsSound :
      get m.transactions t.txid_hex ≡ none → IsSound m → IsSound (install m t outs affected)
  install-IsSound fresh sound key id h = elim (Bool-cases (spends t.inputs key)) [
    | inl e ↦ (
      t,
      ground (
        arith,
        e,
        h,
        install-spent_by key,
        install-transactions,
        get-set m.transactions t.txid_hex id t,
        bytes_eq_iff t.txid_hex id,
      ),
      e,
    )
    | inr e ↦
        let before : get m.spent_by key ≡ some id = ground (arith, e, h, install-spent_by key) in
        let (t', there, s) = sound key id before in
        (
          t',
          rw (install-transactions) (
              ground (
                arith,
                there,
                fresh,
                get-set m.transactions t.txid_hex id t,
                bytes_eq_iff t.txid_hex id,
              )),
          s,
        )
  ]

  install-IsListed :
      get m.transactions t.txid_hex ≡ none
      → affected ≡ map hex_encode t.scripthashes
      → IsListed m
      → IsListed (install m t outs affected)
  install-IsListed fresh e listed sh id = rw (install-transactions) (
      rw (install-by_scripthash) (
        ground (
          arith,
          e,
          fresh,
          listed sh id,
          member-add_to_each m.by_scripthash affected t.txid_hex sh id,
          get-set m.transactions t.txid_hex id t,
          bytes_eq_iff t.txid_hex id,
        )))

  pub install-IsConsistent :
      get m.transactions t.txid_hex ≡ none
      → affected ≡ map hex_encode t.scripthashes
      → IsConsistent m
      → IsConsistent (install m t outs affected)
  install-IsConsistent fresh e c = record {
    sound = install-IsSound fresh c.sound;
    listed = install-IsListed fresh e c.listed;
  }

module _ (m : MempoolOverlay) (t : MempoolTransaction) (txid_hex : Bytes) where
  uninstall-IsSound :
      get m.transactions txid_hex ≡ some t → IsSound m → IsSound (uninstall m t txid_hex)
  unfolding uninstall
  uninstall-IsSound there sound key id h =
      let unspent : spends t.inputs key ≡ false =
        ground (arith, h, get-delete_spent m.spent_by t.inputs key) in
      let before : get m.spent_by key ≡ some id =
        ground (arith, h, unspent, get-delete_spent m.spent_by t.inputs key) in
      let (t', there', s) = sound key id before in
      (
        t',
        ground (
          arith,
          there,
          there',
          s,
          unspent,
          get-delete m.transactions txid_hex id,
          bytes_eq_iff txid_hex id,
        ),
        s,
      )

  pub uninstall-IsConsistent :
      get m.transactions txid_hex ≡ some t → IsConsistent m → IsConsistent (uninstall m t txid_hex)
  unfolding uninstall
  uninstall-IsConsistent there c = record {
    sound = uninstall-IsSound there c.sound;
    listed = λ sh id. ground (
      arith,
      there,
      c.listed sh id,
      member-remove_from_each m.by_scripthash t.scripthashes txid_hex sh id,
      get-delete m.transactions txid_hex id,
      bytes_eq_iff txid_hex id,
    );
  }
