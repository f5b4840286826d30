-- ===== src/Config/Checked.antt =====
-- internal/config/config.go: the configurations that Validate accepts.
use electrum_go.Base.{◌≡◌, ◌≢◌, ◌↔◌, ◌⊎◌, refl, true, false, List, [], ◌∷◌, ◌++◌, take, arith}
use electrum_go.Base.Int.{ℤ, negsuc, lt_int}
use electrum_go.Base.Bytes.{Bytes}
use electrum_go.Base.Map.{bytes_eq_iff}
use electrum_go.Config.{
  ServerConfig, BitcoinConfig, StorageConfig, IndexerConfig, LoggingConfig, MetricsConfig, Config,
  file, Host, Problem, no_zmq_block, no_zmq_block_tcp, no_zmq_tx, no_zmq_tx_tcp, positive,
  tcp_scheme, debug_level, info_level, warn_level, error_level, server_problems, auth_problems,
  zmq_problems, bitcoin_problems, storage_problems, indexer_problems, logging_problems,
  metrics_problems, validate,
}

abbrev pub IsPositive : ℤ → Type 0
IsPositive n = positive n ≡ true

-- A cookie that is a file, without a password, or a user and a password without a cookie.
abbrev pub HasCredentials : Host → BitcoinConfig → Type 0
HasCredentials h b =
    ((b.rpc_cookie_path ≢ []) × (b.rpc_pass ≡ []) × (h.stat b.rpc_cookie_path ≡ file))
    ⊎ ((b.rpc_cookie_path ≡ []) × (b.rpc_user ≢ []) × (b.rpc_pass ≢ []))

append_empty : {A : Type 0} (xs ys : List A) → (xs ++ ys ≡ []) ↔ ((xs ≡ []) × (ys ≡ []))
append_empty [] ys = ((λ e. (refl, e)), λ e. e.1)
append_empty (x ∷ xs) ys = ((λ e. absurd (cc e)), λ e. absurd (cc (e.0)))

server_checked :
    (s : ServerConfig)
    → (server_problems s ≡ [])
      ↔ ((s.listen ≢ []) × IsPositive s.max_connections × IsPositive s.request_timeout_seconds)
unfolding server_problems
server_checked s = ground arith

storage_checked :
    (s : StorageConfig)
    → (storage_problems s ≡ []) ↔ ((s.db_path ≢ []) × IsPositive s.max_reorg_depth)
unfolding storage_problems
storage_checked s = ground arith

indexer_checked :
    (i : IndexerConfig)
    → (indexer_problems i ≡ []) ↔ (
        (lt_int i.start_height (negsuc 0) ≡ false)
        × IsPositive i.checkpoint_interval
        × IsPositive i.undo_prune_interval)
unfolding indexer_problems
indexer_checked i = ground arith

metrics_checked :
    (h : Host) (m : MetricsConfig)
    → (metrics_problems h m ≡ [])
      ↔ ((m.enabled ≡ false) ⊎ ((m.listen ≢ []) × (h.splits m.listen ≡ true)))
unfolding metrics_problems
metrics_checked h m = ground arith

abbrev pub IsLevel : Bytes → Type 0
IsLevel l = (l ≡ debug_level) ⊎ ((l ≡ info_level) ⊎ ((l ≡ warn_level) ⊎ (l ≡ error_level)))

logging_checked :
    (h : Host) (l : LoggingConfig) → (logging_problems h l ≡ []) ↔ IsLevel (h.to_lower l.level)
unfolding logging_problems
logging_checked h l =
    let t = h.to_lower l.level in
    ground (
      arith,
      bytes_eq_iff t debug_level,
      bytes_eq_iff t info_level,
      bytes_eq_iff t warn_level,
      bytes_eq_iff t error_level,
    )

-- The address begins with the scheme.
abbrev pub IsTcp : Bytes → Type 0
IsTcp addr = take 6 addr ≡ tcp_scheme

zmq_checked : (addr : Bytes) (p q : Problem) → (zmq_problems addr p q ≡ []) ↔ IsTcp addr
unfolding zmq_problems
zmq_checked [] p q = ground (arith, bytes_eq_iff (take 6 []) tcp_scheme)
zmq_checked (a ∷ r) p q = ground (arith, bytes_eq_iff (take 6 (a ∷ r)) tcp_scheme)

auth_checked : (h : Host) (b : BitcoinConfig) → (auth_problems h b ≡ []) ↔ HasCredentials h b
unfolding auth_problems
auth_checked h b = ground arith

bitcoin_checked :
    (h : Host) (b : BitcoinConfig)
    → (bitcoin_problems h b ≡ [])
      ↔ ((b.rpc_host ≢ []) × HasCredentials h b × IsTcp b.zmq_block_addr × IsTcp b.zmq_tx_addr)
unfolding bitcoin_problems
bitcoin_checked h b =
    let blocks = zmq_problems b.zmq_block_addr no_zmq_block no_zmq_block_tcp in
    let txs = zmq_problems b.zmq_tx_addr no_zmq_tx no_zmq_tx_tcp in
    ground (
      arith,
      append_empty (auth_problems h b) (blocks ++ txs),
      append_empty blocks txs,
      auth_checked h b,
      zmq_checked b.zmq_block_addr no_zmq_block no_zmq_block_tcp,
      zmq_checked b.zmq_tx_addr no_zmq_tx no_zmq_tx_tcp,
    )

-- What a configuration must be.
pub record IsAccepted (h : Host) (c : Config) : Type 0 where
  pub listen : c.server.listen ≢ []
  pub max_connections : IsPositive c.server.max_connections
  pub request_timeout : IsPositive c.server.request_timeout_seconds
  pub rpc_host : c.bitcoin.rpc_host ≢ []
  pub credentials : HasCredentials h c.bitcoin
  pub zmq_blocks : IsTcp c.bitcoin.zmq_block_addr
  pub zmq_txs : IsTcp c.bitcoin.zmq_tx_addr
  pub db_path : c.storage.db_path ≢ []
  pub max_reorg_depth : IsPositive c.storage.max_reorg_depth
  pub start_height : lt_int c.indexer.start_height (negsuc 0) ≡ false
  pub checkpoint_interval : IsPositive c.indexer.checkpoint_interval
  pub undo_prune_interval : IsPositive c.indexer.undo_prune_interval
  pub level : IsLevel (h.to_lower c.logging.level)
  pub metrics :
      (c.metrics.enabled ≡ false) ⊎ ((c.metrics.listen ≢ []) × (h.splits c.metrics.listen ≡ true))

-- Validate reports no problem exactly for these configurations: no address and no path is empty, the
-- limits and intervals are positive, the start height is at least -1, the credentials are a cookie
-- file without a password or a user and a password without a cookie, both ZMQ addresses begin with
-- tcp://, the level is one of the four, and the address of the metrics splits where they are enabled.
pub validate-iff-IsAccepted : (h : Host) (c : Config) → (validate h c ≡ []) ↔ IsAccepted h c
unfolding validate
validate-iff-IsAccepted h c =
    let s = server_problems c.server in
    let b = bitcoin_problems h c.bitcoin in
    let t = storage_problems c.storage in
    let i = indexer_problems c.indexer in
    let l = logging_problems h c.logging in
    let m = metrics_problems h c.metrics in
    (
      (λ e.
          let (es, e₁) = (append_empty s (b ++ (t ++ (i ++ (l ++ m))))).0 e in
          let (eb, e₂) = (append_empty b (t ++ (i ++ (l ++ m)))).0 e₁ in
          let (et, e₃) = (append_empty t (i ++ (l ++ m))).0 e₂ in
          let (ei, e₄) = (append_empty i (l ++ m)).0 e₃ in
          let (el, em) = (append_empty l m).0 e₄ in
          let (s₁, s₂, s₃) = (server_checked c.server).0 es in
          let (b₁, b₂, b₃, b₄) = (bitcoin_checked h c.bitcoin).0 eb in
          let (t₁, t₂) = (storage_checked c.storage).0 et in
          let (i₁, i₂, i₃) = (indexer_checked c.indexer).0 ei in
          record {
            listen = s₁;
            max_connections = s₂;
            request_timeout = s₃;
            rpc_host = b₁;
            credentials = b₂;
            zmq_blocks = b₃;
            zmq_txs = b₄;
            db_path = t₁;
            max_reorg_depth = t₂;
            start_height = i₁;
            checkpoint_interval = i₂;
            undo_prune_interval = i₃;
            level = (logging_checked h c.logging).0 el;
            metrics = (metrics_checked h c.metrics).0 em;
          }),
      λ a.
          let es = (server_checked c.server).1 (a.listen, a.max_connections, a.request_timeout) in
          let eb =
            (bitcoin_checked h c.bitcoin).1 (a.rpc_host, a.credentials, a.zmq_blocks, a.zmq_txs) in
          let et = (storage_checked c.storage).1 (a.db_path, a.max_reorg_depth) in
          let ei =
            (indexer_checked c.indexer).1
              (a.start_height, a.checkpoint_interval, a.undo_prune_interval) in
          let el = (logging_checked h c.logging).1 a.level in
          let em = (metrics_checked h c.metrics).1 a.metrics in
          (append_empty s (b ++ (t ++ (i ++ (l ++ m))))).1 (
            es,
            (append_empty b (t ++ (i ++ (l ++ m)))).1 (
              eb,
              (append_empty t (i ++ (l ++ m))).1
                  (et, (append_empty i (l ++ m)).1 (ei, (append_empty l m).1 (el, em))),
            ),
          ),
    )
