-- ===== src/Config.antt =====
-- internal/config/config.go: the configuration, its defaults, its loading, its validation, and the reading of Bitcoin
-- Core's cookie. The warnings on the console are left out. `Host` stands for what Go's library and the
-- file system answer.
pub mod Checked
pub mod Cookie
mod Runs
use electrum_go.Base.{
  ℕ, suc, ◌+◌, ◌*◌, ◌%◌, ◌^◌, ◌-◌, Bool, true, false, not, ◌&&◌, ◌||◌, Option, none, some, List, [],
  ◌∷◌, ◌++◌, length, take, drop, ltb, ◌==◌, if◌then◌else◌,
}
use electrum_go.Base.Int.{ℤ, pos, negsuc, to_signed, to_unsigned, lt_int}
use electrum_go.Base.Bytes.{Bytes, bytes_eq}
use electrum_go.Base.Sets.{is_empty}
use electrum_go.Base.Result.{Error, Result, ok, err, ◌>>=◌, bad_data}

-- The request timeout is in nanoseconds.
pub record ServerConfig : Type 0 where
  pub listen : Bytes
  pub max_connections : ℤ
  pub request_timeout_seconds : ℤ
  pub request_timeout : ℤ

pub record BitcoinConfig : Type 0 where
  pub rpc_host : Bytes
  pub rpc_user : Bytes
  pub rpc_pass : Bytes
  pub rpc_cookie_path : Bytes
  pub zmq_block_addr : Bytes
  pub zmq_tx_addr : Bytes

pub record StorageConfig : Type 0 where
  pub db_path : Bytes
  pub max_reorg_depth : ℤ

pub record IndexerConfig : Type 0 where
  pub start_height : ℤ
  pub checkpoint_interval : ℤ
  pub undo_prune_interval : ℤ

pub record LoggingConfig : Type 0 where
  pub level : Bytes
  pub log_requests : Bool

pub record MetricsConfig : Type 0 where
  pub enabled : Bool
  pub listen : Bytes

pub record Config : Type 0 where
  pub server : ServerConfig
  pub bitcoin : BitcoinConfig
  pub storage : StorageConfig
  pub indexer : IndexerConfig
  pub logging : LoggingConfig
  pub metrics : MetricsConfig

-- DefaultConfig; the addresses and the path in bytes.
abbrev pub default_config : Config
default_config = record {
  server = record {
    listen =
        b'1' ∷ b'2' ∷ b'7' ∷ b'.' ∷ b'0' ∷ b'.' ∷ b'0' ∷ b'.' ∷ b'1' ∷ b':' ∷ b'5' ∷ b'0' ∷ b'0'
        ∷ b'0' ∷ b'1' ∷ [];
    max_connections = pos 100;
    request_timeout_seconds = pos 30;
    request_timeout = pos 30000000000;
  };
  bitcoin = record {
    rpc_host =
        b'1' ∷ b'2' ∷ b'7' ∷ b'.' ∷ b'0' ∷ b'.' ∷ b'0' ∷ b'.' ∷ b'1' ∷ b':' ∷ b'4' ∷ b'8' ∷ b'3'
        ∷ b'3' ∷ b'2' ∷ [];
    rpc_user = b'e' ∷ b'l' ∷ b'e' ∷ b'c' ∷ b't' ∷ b'r' ∷ b'u' ∷ b'm' ∷ b'g' ∷ b'o' ∷ [];
    rpc_pass = [];
    rpc_cookie_path = [];
    zmq_block_addr =
        b't' ∷ b'c' ∷ b'p' ∷ b':' ∷ b'/' ∷ b'/' ∷ b'1' ∷ b'2' ∷ b'7' ∷ b'.' ∷ b'0' ∷ b'.' ∷ b'0'
        ∷ b'.' ∷ b'1' ∷ b':' ∷ b'2' ∷ b'8' ∷ b'3' ∷ b'3' ∷ b'2' ∷ [];
    zmq_tx_addr =
        b't' ∷ b'c' ∷ b'p' ∷ b':' ∷ b'/' ∷ b'/' ∷ b'1' ∷ b'2' ∷ b'7' ∷ b'.' ∷ b'0' ∷ b'.' ∷ b'0'
        ∷ b'.' ∷ b'1' ∷ b':' ∷ b'2' ∷ b'8' ∷ b'3' ∷ b'3' ∷ b'3' ∷ [];
  };
  storage = record {
    db_path =
        b'.' ∷ b'/' ∷ b'd' ∷ b'a' ∷ b't' ∷ b'a' ∷ b'/' ∷ b'i' ∷ b'n' ∷ b'd' ∷ b'e' ∷ b'x' ∷ b'.'
        ∷ b'd' ∷ b'b' ∷ [];
    max_reorg_depth = pos 144;
  };
  indexer = record {
    start_height = negsuc 0;
    checkpoint_interval = pos 100;
    undo_prune_interval = pos 1000;
  };
  logging = record { level = b'i' ∷ b'n' ∷ b'f' ∷ b'o' ∷ []; log_requests = false };
  metrics = record {
    enabled = false;
    listen =
        b'1' ∷ b'2' ∷ b'7' ∷ b'.' ∷ b'0' ∷ b'.' ∷ b'0' ∷ b'.' ∷ b'1' ∷ b':' ∷ b'9' ∷ b'1' ∷ b'0'
        ∷ b'1' ∷ [];
  };
}

-- What os.Stat answers.
pub data Stat : Type 0 where
  missing directory file : Stat

-- os.Stat, net.SplitHostPort, strings.ToLower, os.ReadFile with strings.TrimSpace, and os.ReadFile with
-- toml.Unmarshal into a configuration.
pub record Host : Type 0 where
  pub stat : Bytes → Stat
  pub splits : Bytes → Bool
  pub to_lower : Bytes → Bytes
  pub read_trimmed : Bytes → Result Bytes
  pub parse_file : Bytes → Config → Result Config

-- One for each of the messages.
pub data Problem : Type 0 where
  no_listen bad_max_connections bad_request_timeout : Problem
  no_rpc_host two_credentials no_credentials cookie_missing cookie_is_directory : Problem
  no_zmq_block no_zmq_block_tcp no_zmq_tx no_zmq_tx_tcp : Problem
  no_db_path bad_max_reorg_depth : Problem
  bad_start_height bad_checkpoint_interval bad_undo_prune_interval : Problem
  bad_level no_metrics_listen bad_metrics_listen : Problem

-- `if wrong { errs = append(errs, problem) }`
abbrev pub when : Bool → Problem → List Problem
when wrong problem = if wrong then problem ∷ [] else []

abbrev pub positive : ℤ → Bool
positive n = lt_int (pos 0) n

abbrev pub tcp_scheme : Bytes
tcp_scheme = b't' ∷ b'c' ∷ b'p' ∷ b':' ∷ b'/' ∷ b'/' ∷ []

abbrev pub has_prefix : Bytes → Bytes → Bool
has_prefix text prefix = bytes_eq (take (length prefix) text) prefix

abbrev pub debug_level : Bytes
debug_level = b'd' ∷ b'e' ∷ b'b' ∷ b'u' ∷ b'g' ∷ []

abbrev pub info_level : Bytes
info_level = b'i' ∷ b'n' ∷ b'f' ∷ b'o' ∷ []

abbrev pub warn_level : Bytes
warn_level = b'w' ∷ b'a' ∷ b'r' ∷ b'n' ∷ []

abbrev pub error_level : Bytes
error_level = b'e' ∷ b'r' ∷ b'r' ∷ b'o' ∷ b'r' ∷ []

abbrev pub is_level : Bytes → Bool
is_level l =
    bytes_eq l debug_level
    || bytes_eq l info_level
    || bytes_eq l warn_level
    || bytes_eq l error_level

unfoldable pub server_problems : ServerConfig → List Problem
server_problems s =
    when (is_empty s.listen) no_listen
    ++ (when (not (positive s.max_connections)) bad_max_connections
        ++ when (not (positive s.request_timeout_seconds)) bad_request_timeout)

-- Either the cookie or both the user and the password.
unfoldable pub auth_problems : Host → BitcoinConfig → List Problem
auth_problems h b =
    let cookie_set = not (is_empty b.rpc_cookie_path) in
    let user_pass_set = not (is_empty b.rpc_user) && not (is_empty b.rpc_pass) in
    if cookie_set && not (is_empty b.rpc_pass)
    then two_credentials ∷ []
    else if not cookie_set && not user_pass_set
    then no_credentials ∷ []
    else if cookie_set
    then elim (h.stat b.rpc_cookie_path) [
      | missing ↦ cookie_missing ∷ []
      | directory ↦ cookie_is_directory ∷ []
      | file ↦ []
    ]
    else []

unfoldable pub zmq_problems : Bytes → Problem → Problem → List Problem
zmq_problems addr none_set no_tcp =
    when (is_empty addr) none_set ++ when (not (has_prefix addr tcp_scheme)) no_tcp

unfoldable pub bitcoin_problems : Host → BitcoinConfig → List Problem
bitcoin_problems h b =
    when (is_empty b.rpc_host) no_rpc_host
    ++ (auth_problems h b
        ++ (zmq_problems b.zmq_block_addr no_zmq_block no_zmq_block_tcp
            ++ zmq_problems b.zmq_tx_addr no_zmq_tx no_zmq_tx_tcp))

unfoldable pub storage_problems : StorageConfig → List Problem
storage_problems s =
    when (is_empty s.db_path) no_db_path
    ++ when (not (positive s.max_reorg_depth)) bad_max_reorg_depth

unfoldable pub indexer_problems : IndexerConfig → List Problem
indexer_problems i =
    when (lt_int i.start_height (negsuc 0)) bad_start_height
    ++ (when (not (positive i.checkpoint_interval)) bad_checkpoint_interval
        ++ when (not (positive i.undo_prune_interval)) bad_undo_prune_interval)

unfoldable pub logging_problems : Host → LoggingConfig → List Problem
logging_problems h l = when (not (is_level (h.to_lower l.level))) bad_level

unfoldable pub metrics_problems : Host → MetricsConfig → List Problem
metrics_problems h m =
    if m.enabled
    then if is_empty m.listen
      then no_metrics_listen ∷ []
      else when (not (h.splits m.listen)) bad_metrics_listen
    else []

-- Validate: nil is the empty list.
unfoldable pub validate : Host → Config → List Problem
validate h c =
    server_problems c.server
    ++ (bitcoin_problems h c.bitcoin
        ++ (storage_problems c.storage
            ++ (indexer_problems c.indexer
                ++ (logging_problems h c.logging ++ metrics_problems h c.metrics))))

-- `strings.IndexByte(s, ':')`, with none for -1.
unfoldable pub index_colon : Bytes → Option ℕ
index_colon [] = none
index_colon (b ∷ bs) =
    let rest = index_colon bs in
    if b == b':' then some 0 else elim rest [ none ↦ none | some i ↦ some (suc i) ]

-- The text before the first colon and the text behind it, neither of them empty.
unfoldable pub split_cookie : Bytes → Result (Bytes × Bytes)
split_cookie s = elim (index_colon s) [
  | none ↦ err bad_data
  | some i ↦ if i == 0 || i == length s - 1 then err bad_data else ok (take i s, drop (i + 1) s)
]

unfoldable pub read_rpc_cookie : Host → Bytes → Result (Bytes × Bytes)
read_rpc_cookie h path = do content ← h.read_trimmed path; split_cookie content

-- What LoadFromFile returns: the error of the file or of its parsing, that of Validate, or the
-- configuration.
pub data Loading : Type 0 where
  not_read : Error → Loading
  invalid : List Problem → Loading
  loaded : Config → Loading

-- `time.Duration(seconds) * time.Second`
abbrev pub set_timeout : Config → Config
set_timeout c = record c {
  server = record c.server {
    request_timeout =
        to_signed 64 (to_unsigned 64 c.server.request_timeout_seconds * 1000000000 % 2 ^ 64);
  };
}

unfoldable pub validated : Host → Config → Loading
validated h c = elim (validate h c) [ [] ↦ loaded c | q ∷ qs ↦ invalid (q ∷ qs) ]

unfoldable pub load_from_file : Host → Bytes → Loading
load_from_file h path = elim (h.parse_file path default_config) [
  | err e ↦ not_read e
  | ok c ↦ validated h (set_timeout c)
]
