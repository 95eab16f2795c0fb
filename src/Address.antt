-- ===== src/Address.antt =====
-- address.py: the addresses of users and of peers. `ipaddress.ip_address` is the standard library's, a
-- parameter; a port is a number below 100,000 as it is read, and within 1 and 65,535 when it is kept.
pub mod Number
use Prim.Native.String.{◌++◌, count}
use home_assistant_chat_comp.Prelude.{
  ℕ, String, Bool, true, false, ◌&&◌, ◌||◌, not, Option, none, some, ltb, leb, ◌==◌, str_eq,
  if◌then◌else◌,
}
use home_assistant_chat_comp.Text.{is_digit, strip, first_chars, repeated}
use home_assistant_chat_comp.Text.Parts.{
  drop_chars, before_colon, after_colon, uncons, decimal_value, decimal,
}
use home_assistant_chat_comp.Wire.{Value, as_text, Checked, valid, value_error, ◌>>◌, reject_if}

-- an address of either version, in its compressed form
pub data IpAddress : Type 0 where
  ipv4 ipv6 : String → IpAddress

-- `None` stands for the `ValueError`
unfoldable pub parse_ipv4 : (String → Option IpAddress) → String → Option String
parse_ipv4 ip_address value = elim (ip_address value) [
  | none ↦ none
  | some (ipv4 compressed) ↦ some compressed
  | some (ipv6 _) ↦ none
]

-- the server is an IPv4 address in its compressed form
pub record UserAddress : Type 0 where
  pub number : ℕ
  pub server : Option String
  pub port : Option ℕ

abbrev pub is_local : UserAddress → Bool
is_local a = elim a.server [ none ↦ true | some _ ↦ false ]

-- `__str__`
unfoldable pub print_address : UserAddress → String
unfolding decimal
print_address a = elim a.server [
  | none ↦ decimal a.number
  | some server ↦ elim a.port [
    | none ↦ decimal a.number ++ ("@" ++ server)
    | some port ↦ decimal a.number ++ ("@" ++ (server ++ (":" ++ decimal port)))
  ]
]

-- `[1-9][0-9]{7}`
unfoldable pub is_number_text : String → Bool
unfolding repeated
is_number_text s = elim (uncons s) [
  | none ↦ false
  | some (c, _) ↦ not (c == b'0') && repeated is_digit 8 8 s
]

-- The three groups of `^([1-9][0-9]{7})(?:@([^:]+)(?::([0-9]{1,5}))?)?$`.
pub record Groups : Type 0 where
  pub number : String
  pub server : Option String
  pub port : Option String

-- what follows the number
unfoldable pub match_server : String → String → Option Groups
unfolding repeated
match_server number rest = elim (uncons rest) [
  | none ↦ some (record { number = number; server = none; port = none })
  | some (c, tail) ↦
      if not (c == b'@') || str_eq (before_colon tail) "" then none else elim (after_colon tail) [
        | none ↦ some (record { number = number; server = some (before_colon tail); port = none })
        | some port ↦
            if repeated is_digit 1 5 port
            then some
                (record { number = number; server = some (before_colon tail); port = some port })
            else none
      ]
]

unfoldable pub match_address : String → Option Groups
unfolding is_number_text match_server
match_address value =
    if is_number_text (first_chars 8 value)
    then match_server (first_chars 8 value) (drop_chars 8 value)
    else none

-- `int(raw_port)`, if there is a port
abbrev pub port_of : Option String → Option ℕ
port_of none = none
port_of (some raw) = some (decimal_value 0 raw)

abbrev pub is_bad_port : Option ℕ → Bool
is_bad_port none = false
is_bad_port (some p) = not (leb 1 p && leb p 65535)

-- the address that the groups give; without a server the expression leaves no port
unfoldable pub address_of : (String → Option IpAddress) → Groups → Checked UserAddress
address_of ip_address g = elim g.server [
  | none ↦ valid (record { number = decimal_value 0 g.number; server = none; port = none })
  | some raw ↦ elim (ip_address raw) [
    | none ↦ value_error "invalid_server_address"
    | some (ipv6 _) ↦ value_error "invalid_server_address"
    | some (ipv4 server) ↦ do
      reject_if (is_bad_port (port_of g.port)) "invalid_server_port"
      valid (record {
        number = decimal_value 0 g.number;
        server = some server;
        port = port_of g.port;
      })
  ]
]

unfoldable pub parse_user_address : (String → Option IpAddress) → Value → Checked UserAddress
unfolding match_address address_of
parse_user_address ip_address value = elim (as_text value) [
  | none ↦ value_error "invalid_address"
  | some s ↦
      if ltb 64 (count s) || not (str_eq s (strip s))
      then value_error "invalid_address"
      else elim (match_address s) [
        | none ↦ value_error "invalid_address"
        | some g ↦ address_of ip_address g
      ]
]
