-- ===== src/Config/Environment.antt =====
-- Which environments the configuration accepts, and what it then holds.
use dogecade.Common.{
  Bool, Bool-cases, Option, String, arith, eq_iff, false, inl, inr, ltb, none, not, refl, some,
  str_eq, true, ℕ, ◌&&◌, ◌==◌, ◌||◌, ◌∙◌, ◌≡◌,
}
use dogecade.Settings.Decimal.{read_unsigned}
use dogecade.Web.{bytes}
use dogecade.Config.{
  Config, ConfigError, Loaded, Net, check_listen_addr, check_port, check_url, is_valid_hostname,
  load, loaded, oidc_configured, oidc_fields_set, or_refuse, read_config, refused,
  validate_listen_addr, validated, with_oidc, within_16_bits,
}

-- A URL with a host, for the web.
abbrev pub is_web : Option (String × String) → Bool
is_web none = false
is_web (some (scheme, host)) =
    (str_eq scheme "http" || str_eq scheme "https") && not (str_eq host "")

abbrev pub is_port : Option ℕ → Bool
is_port none = false
is_port (some n) = ltb 0 n && ltb n 65_536

-- Any host, an IP or a name, with the number of a port.
abbrev pub is_listener : Net → Option (String × String) → Bool
is_listener net none = false
is_listener net (some (host, port)) =
    (str_eq host "" || net.is_ip host || is_valid_hostname host)
    && not (str_eq port "")
    && is_port (read_unsigned (bytes port))

abbrev pub has_no_oidc : Config → Bool
has_no_oidc c =
    str_eq c.oidc_issuer_url "" && str_eq c.oidc_client_id "" && str_eq c.oidc_client_secret ""

abbrev pub is_acceptable : Net → Config → Bool
is_acceptable net c =
    not (str_eq c.db_path "")
    && not (str_eq c.base_url "")
    && is_web (net.parse_url c.base_url)
    && not (str_eq c.listen_addr "")
    && is_listener net (net.split_host_port c.listen_addr)
    && (has_no_oidc c || oidc_configured c)

abbrev pub LoadedAs : Net → Config → Loaded → Type 0
LoadedAs net c (refused e) = is_acceptable net c ≡ false
LoadedAs net c (loaded c') = (is_acceptable net c ≡ true) × (c' ≡ c)

abbrev is_none : Option ConfigError → Bool
is_none none = true
is_none (some e) = false

not_empty : (s t : String) → str_eq s t ≡ true → str_eq t "" ≡ false → str_eq s "" ≡ false
not_empty s t h e = rw ((eq_iff s t).0 h) e

check_url_lem : (u : Option (String × String)) → is_none (check_url u) ≡ is_web u
check_url_lem none = refl
check_url_lem (some (scheme, host)) = elim (Bool-cases (str_eq scheme "http")) [
  | inl e ↦ let full = not_empty scheme "http" e refl in rw full (rw e (ground arith))
  | inr n ↦ elim (Bool-cases (str_eq scheme "https")) [
    | inl e ↦ let full = not_empty scheme "https" e refl in rw full (rw n (rw e (ground arith)))
    | inr m ↦ rw n (rw m (ground arith))
  ]
]

check_port_lem :
    (net : Net) (host : String) (n : Option ℕ)
    → is_none (check_port net host (within_16_bits n))
      ≡ ((str_eq host "" || net.is_ip host || is_valid_hostname host) && is_port n)
check_port_lem net host none = ground arith
check_port_lem net host (some n) = ground arith

check_listen_addr_lem :
    (net : Net) (a : Option (String × String))
    → is_none (check_listen_addr net a) ≡ is_listener net a
check_listen_addr_lem net none = refl
check_listen_addr_lem net (some (host, port)) = elim (Bool-cases (str_eq port "")) [
  | inl e ↦ rw e (ground arith)
  | inr e ↦
      let checked = check_port_lem net host (read_unsigned (bytes port)) in rw e (ground arith)
]

validate_listen_addr_lem :
    (net : Net) (a : String)
    → is_none (validate_listen_addr net a)
      ≡ (not (str_eq a "") && is_listener net (net.split_host_port a))
validate_listen_addr_lem net a =
    let listener = check_listen_addr_lem net (net.split_host_port a) in ground arith

with_oidc_lem :
    (c : Config)
    → (not (oidc_fields_set c == 0) && not (oidc_fields_set c == 3))
      ≡ not (has_no_oidc c || oidc_configured c)
with_oidc_lem c = ground arith

with_oidc-LoadedAs :
    (net : Net) (c : Config)
    → is_acceptable net c ≡ (has_no_oidc c || oidc_configured c)
    → LoadedAs net c (with_oidc c)
with_oidc-LoadedAs net c h = elim (Bool-cases (has_no_oidc c || oidc_configured c)) [
  | inl e ↦ rw (with_oidc_lem c) (rw e (h ∙ e, refl))
  | inr e ↦ rw (with_oidc_lem c) (rw e (h ∙ e))
]

or_refuse-LoadedAs :
    (net : Net) (c : Config) (u v : Option ConfigError)
    → str_eq c.db_path "" ≡ false
    → str_eq c.base_url "" ≡ false
    → is_none u ≡ is_web (net.parse_url c.base_url)
    → is_none v
      ≡ (not (str_eq c.listen_addr "") && is_listener net (net.split_host_port c.listen_addr))
    → LoadedAs net c (or_refuse u (or_refuse v (with_oidc c)))
or_refuse-LoadedAs net c (some e) v d b hu hv = ground arith
or_refuse-LoadedAs net c none (some e) d b hu hv = ground arith
or_refuse-LoadedAs net c none none d b hu hv = with_oidc-LoadedAs net c (ground arith)

-- The configuration is accepted exactly if there are a database, a web URL and a listener whose host
-- is missing, an IP or a name and whose port is from 1 to 65535, and the identity provider's three
-- settings are all there or all missing; an accepted one is what the environment holds, with the
-- default listener.
pub load-LoadedAs :
    (net : Net) (getenv : String → String) → LoadedAs net (read_config getenv) (load net getenv)
load-LoadedAs net getenv = validated-LoadedAs (read_config getenv)
  where
    validated-LoadedAs : (c : Config) → LoadedAs net c (validated net c)
    validated-LoadedAs c = elim (Bool-cases (str_eq c.db_path "")) [
      | inl d ↦ rw d (ground arith)
      | inr d ↦ elim (Bool-cases (str_eq c.base_url "")) [
        | inl b ↦ rw d (rw b (ground arith))
        | inr b ↦ rw d (
            rw b (
              or_refuse-LoadedAs net c _ _ d b (check_url_lem (net.parse_url c.base_url))
                (validate_listen_addr_lem net c.listen_addr)))
      ]
    ]
