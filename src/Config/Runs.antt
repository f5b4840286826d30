-- ===== src/Config/Runs.antt =====
-- A configuration that is accepted, the defaults, which are not, and a cookie.
use electrum_go.Base.{◌≡◌, ◌≢◌, ◌↔◌, refl, true, [], ◌∷◌, ◌++◌}
use electrum_go.Base.Bytes.{Bytes, bytes_eq}
use electrum_go.Base.Result.{ok}
use electrum_go.Config.{
  Config, file, Host, no_credentials, validate, server_problems, auth_problems, zmq_problems,
  bitcoin_problems, storage_problems, indexer_problems, logging_problems, metrics_problems,
  read_rpc_cookie, load_from_file, validated, invalid, default_config,
}
use electrum_go.Config.Checked.{IsAccepted, validate-iff-IsAccepted}
use electrum_go.Config.Cookie.{HasNoColon, read_rpc_cookie-iff-append}

abbrev cookie : Bytes
cookie = b'u' ∷ b':' ∷ b'p' ∷ b':' ∷ []

abbrev plain_host : Host
plain_host = record {
  stat = λ path. file;
  splits = λ addr. true;
  to_lower = λ t. t;
  read_trimmed = λ path. ok cookie;
  parse_file = λ path c. ok c;
}

-- The defaults with the path of a cookie.
abbrev with_cookie : Config
with_cookie = record default_config {
  bitcoin = record default_config.bitcoin { rpc_cookie_path = b'c' ∷ [] };
}

validate-iff-IsAccepted_example :
    (validate plain_host with_cookie ≡ []) ↔ IsAccepted plain_host with_cookie
validate-iff-IsAccepted_example = validate-iff-IsAccepted plain_host with_cookie

-- The defaults have a user and no password.
defaults_lack_credentials : validate plain_host default_config ≡ no_credentials ∷ []
unfolding validate server_problems auth_problems zmq_problems bitcoin_problems storage_problems
    indexer_problems logging_problems metrics_problems bytes_eq
defaults_lack_credentials = refl

abbrev user : Bytes
user = b'u' ∷ []

abbrev password : Bytes
password = b'p' ∷ b':' ∷ []

-- The password may hold a colon itself.
read_rpc_cookie-iff-append_example :
    (read_rpc_cookie plain_host [] ≡ ok (user, password))
    ↔ ((cookie ≡ user ++ (b':' ∷ password)) × HasNoColon user × (user ≢ []) × (password ≢ []))
read_rpc_cookie-iff-append_example =
    read_rpc_cookie-iff-append plain_host [] cookie user password refl

-- A file that changes nothing is refused with the defaults.
load_from_file_of_nothing : load_from_file plain_host [] ≡ invalid (no_credentials ∷ [])
unfolding load_from_file validated validate server_problems auth_problems zmq_problems
    bitcoin_problems storage_problems indexer_problems logging_problems metrics_problems bytes_eq
load_from_file_of_nothing = refl
