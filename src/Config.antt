-- ===== src/Config.antt =====
-- internal/config/config.go: the configuration that the environment gives. Go's net and net/url are
-- a parameter; reading a variable has no effect, so that the variables are read first.
pub mod Environment
use dogecade.Common.{
  Bool, Option, String, [], count_if, false, if◌then◌else◌, leb, ltb, none, not, some, str_eq, true,
  ℕ, ◌&&◌, ◌==◌, ◌^◌, ◌||◌, ◌∷◌,
}
use dogecade.Settings.Decimal.{is_digit, read_unsigned}
use dogecade.Web.{bytes}
use Prim.Native.Char.{code}

pub record Config : Type 0 where
  pub db_path : String
  pub base_url : String
  pub listen_addr : String
  pub dogecoin_rpc_url : String
  pub dogecoin_rpc_user : String
  pub dogecoin_rpc_pass : String
  pub dogecoin_zmq_addr : String
  pub admin_subjects : String
  pub oidc_issuer_url : String
  pub oidc_client_id : String
  pub oidc_client_secret : String
  pub session_secret : String

pub data ConfigError : Type 0 where
  db_path_required base_url_required base_url_unparsed base_url_without_scheme : ConfigError
  base_url_scheme base_url_without_host listen_addr_empty listen_addr_malformed : ConfigError
  listen_addr_without_port port_not_numeric port_zero host_invalid oidc_incomplete : ConfigError

pub data Loaded : Type 0 where
  refused : ConfigError → Loaded
  loaded : Config → Loaded

-- What the network packages read: the scheme and the host of a URL, the host and the port of an
-- address, and whether a text is an IP.
pub record Net : Type 0 where
  pub parse_url : String → Option (String × String)
  pub split_host_port : String → Option (String × String)
  pub is_ip : String → Bool

-- `OIDCConfigured`.
abbrev pub oidc_configured : Config → Bool
oidc_configured c =
    not (str_eq c.oidc_issuer_url "")
    && not (str_eq c.oidc_client_id "")
    && not (str_eq c.oidc_client_secret "")

abbrev pub check_url : Option (String × String) → Option ConfigError
check_url none = some base_url_unparsed
check_url (some (scheme, host)) =
    if str_eq scheme ""
    then some base_url_without_scheme
    else if not (str_eq scheme "http") && not (str_eq scheme "https")
    then some base_url_scheme
    else if str_eq host ""
    then some base_url_without_host
    else none

abbrev pub validate_base_url : Net → String → Option ConfigError
validate_base_url net base_url = check_url (net.parse_url base_url)

abbrev pub is_letter : ℕ → Bool
is_letter c = (leb b'a' c && leb c b'z') || (leb b'A' c && leb c b'Z')

-- A dot or a hyphen stands neither first nor last.
abbrev pub valid_chars : Bool → String → Bool
valid_chars at_start String.[] = true
valid_chars at_start (String.◌∷◌ c s) =
    let rest = valid_chars false s in
    if is_letter (code c)
    then rest
    else if is_digit (code c)
    then rest
    else if code c == b'.' || code c == b'-'
    then (if at_start || str_eq s "" then false else rest)
    else false

abbrev pub is_valid_hostname : String → Bool
is_valid_hostname h =
    if str_eq h "" then false else if str_eq h "localhost" then true else valid_chars true h

-- strconv.ParseUint in base 10 for 16 bits.
abbrev pub within_16_bits : Option ℕ → Option ℕ
within_16_bits none = none
within_16_bits (some n) = if ltb n (2 ^ 16) then some n else none

abbrev pub check_port : Net → String → Option ℕ → Option ConfigError
check_port net host none = some port_not_numeric
check_port net host (some n) =
    if n == 0
    then some port_zero
    else if not (str_eq host "") && not (net.is_ip host) && not (is_valid_hostname host)
    then some host_invalid
    else none

abbrev pub check_listen_addr : Net → Option (String × String) → Option ConfigError
check_listen_addr net none = some listen_addr_malformed
check_listen_addr net (some (host, port)) =
    if str_eq port ""
    then some listen_addr_without_port
    else check_port net host (within_16_bits (read_unsigned (bytes port)))

abbrev pub validate_listen_addr : Net → String → Option ConfigError
validate_listen_addr net addr =
    if str_eq addr ""
    then some listen_addr_empty
    else check_listen_addr net (net.split_host_port addr)

abbrev pub or_fallback : String → String → String
or_fallback fallback text = if str_eq text "" then fallback else text

abbrev pub read_config : (String → String) → Config
read_config getenv = record {
  db_path = getenv "DOGECADE_DB_PATH";
  base_url = getenv "DOGECADE_BASE_URL";
  listen_addr = or_fallback ":8080" (getenv "DOGECADE_LISTEN_ADDR");
  dogecoin_rpc_url = getenv "DOGECOIND_RPC_URL";
  dogecoin_rpc_user = getenv "DOGECOIND_RPC_USER";
  dogecoin_rpc_pass = getenv "DOGECOIND_RPC_PASS";
  dogecoin_zmq_addr = getenv "DOGECOIND_ZMQ_ADDR";
  admin_subjects = getenv "DOGECADE_ADMIN_SUBJECTS";
  oidc_issuer_url = getenv "DOGECADE_OIDC_ISSUER_URL";
  oidc_client_id = getenv "DOGECADE_OIDC_CLIENT_ID";
  oidc_client_secret = getenv "DOGECADE_OIDC_CLIENT_SECRET";
  session_secret = getenv "DOGECADE_SESSION_SECRET";
}

abbrev pub or_refuse : Option ConfigError → Loaded → Loaded
or_refuse none rest = rest
or_refuse (some e) rest = refused e

abbrev pub oidc_fields_set : Config → ℕ
oidc_fields_set c =
    count_if (λ v. not (str_eq v ""))
      (c.oidc_issuer_url ∷ c.oidc_client_id ∷ c.oidc_client_secret ∷ [])

abbrev pub with_oidc : Config → Loaded
with_oidc c =
    if not (oidc_fields_set c == 0) && not (oidc_fields_set c == 3)
    then refused oidc_incomplete
    else loaded c

abbrev pub validated : Net → Config → Loaded
validated net c =
    if str_eq c.db_path ""
    then refused db_path_required
    else if str_eq c.base_url ""
    then refused base_url_required
    else or_refuse (validate_base_url net c.base_url)
        (or_refuse (validate_listen_addr net c.listen_addr) (with_oidc c))

abbrev pub load : Net → (String → String) → Loaded
load net getenv = validated net (read_config getenv)
