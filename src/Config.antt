-- ===== src/Config.antt =====
-- config.py: the checks of the configuration (`ListenerConfig.validated`, `ServiceConfig.validated`,
-- the condition of `ssl_context`). The file system and the classes of addresses are parameters.
pub mod Laws
use Prim.Native.String.{◌++◌}
use home_assistant_chat_comp.Prelude.{
  ℕ, String, Bool, true, false, ◌&&◌, ◌||◌, not, Option, none, some, leb, ◌==◌, str_eq,
  if◌then◌else◌,
}
use home_assistant_chat_comp.Address.{IpAddress, parse_ipv4}
use home_assistant_chat_comp.Wire.{Checked, valid, value_error, other_error, ◌>>=◌, ◌>>◌, reject_if}

pub record ListenerConfig : Type 0 where
  pub host : String
  pub port : ℕ
  pub tls_cert : Option String
  pub tls_key : Option String
  pub allow_insecure_http : Bool

pub record ServiceConfig : Type 0 where
  pub database : String
  pub client : ListenerConfig
  pub federation : ListenerConfig

-- `Path.is_file`, the parser of addresses and `is_loopback` of a canonical address
pub record System : Type 0 where
  pub is_file : String → Bool
  pub ip_address : String → Option IpAddress
  pub is_loopback : String → Bool

abbrev pub is_given : Option String → Bool
is_given none = false
is_given (some _) = true

abbrev pub same : Bool → Bool → Bool
same true b = b
same false b = not b

-- `except ValueError` of the parser
abbrev pub canonical_host : Option String → Checked String
canonical_host none = value_error "invalid_ipv4_address"
canonical_host (some host) = valid host

module _ (system : System) where
  -- one round of the loop over the two files
  unfoldable pub check_file : Option String → Checked (Unit {0})
  check_file none = valid tt
  check_file (some path) = reject_if (not (system.is_file path)) ("tls_file_not_found:" ++ path)

  -- `ListenerConfig.validated`; the least port is 0 where a free one may be chosen
  unfoldable pub validated_listener : Bool → ListenerConfig → Checked ListenerConfig
  unfolding check_file
  validated_listener allow_ephemeral c = do
    host ← canonical_host (parse_ipv4 system.ip_address c.host)
    reject_if (not (leb (if allow_ephemeral then 0 else 1) c.port && leb c.port 65535))
        "invalid_listener_port"
    reject_if (not (same (is_given c.tls_cert) (is_given c.tls_key))) "tls_cert_and_key_required"
    check_file c.tls_cert
    check_file c.tls_key
    reject_if
        (not (is_given c.tls_cert) && not (system.is_loopback host) && not c.allow_insecure_http)
        "tls_required_for_non_loopback_listener"
    valid (record c { host = host })

  -- `ServiceConfig.validated`; a path stands as its text
  unfoldable pub validated_service : Bool → ServiceConfig → Checked ServiceConfig
  unfolding validated_listener
  validated_service allow_ephemeral c = do
    client ← validated_listener allow_ephemeral c.client
    federation ← validated_listener allow_ephemeral c.federation
    reject_if
        (str_eq client.host federation.host
          && client.port == federation.port
          && not (client.port == 0))
        "listeners_must_be_separate"
    reject_if (str_eq c.database "") "database_path_required"
    valid (record { database = c.database; client = client; federation = federation })

-- whether `ssl_context` gives a context: whether the listener speaks TLS
unfoldable pub has_tls : ListenerConfig → Bool
has_tls c = is_given c.tls_cert && is_given c.tls_key
