-- ===== src/Wire.antt =====
-- What the program reads from the wire: the values of `json.loads`, the checks that raise
-- `ValueError`, and the calls of `json`, `base64` and `uuid`, which are parameters.
pub mod Envelope
pub mod DeviceKey
pub mod Json
pub mod Checks
use home_assistant_chat_comp.Prelude.{
  ℕ, ℤ, String, Bool, true, false, ◌&&◌, ◌||◌, not, Option, none, some, List, [], ◌∷◌, leb,
  pos_part, neg_part, str_eq, ◌+◌, ◌==◌, if◌then◌else◌,
}

-- A value of Python that stands for a JSON value. A text is a sequence of characters without
-- surrogates, and an object has each key once.
mutual
  pub data Value : Type 0 where
    null : Value
    boolean : Bool → Value
    integer : ℤ → Value
    float : String → Value
    text : String → Value
    array : Items → Value
    object : Fields → Value

  pub data Items : Type 0 where
    nil : Items
    item : Value → Items → Items

  pub data Fields : Type 0 where
    no_fields : Fields
    field : String → Value → Fields → Fields

-- `isinstance(value, str)`
abbrev pub as_text : Value → Option String
as_text (text s) = some s
as_text _ = none

-- `isinstance(value, int)` without `bool`
abbrev pub as_int : Value → Option ℤ
as_int (integer n) = some n
as_int _ = none

-- `isinstance(value, dict)`
abbrev pub as_object : Value → Option Fields
as_object (object fs) = some fs
as_object _ = none

-- `isinstance(value, list)`
abbrev pub as_array : Value → Option Items
as_array (array xs) = some xs
as_array _ = none

-- whether a value equals a text, as `==` of Python has it
abbrev pub is_text : String → Value → Bool
is_text s (text t) = str_eq t s
is_text s _ = false

-- the text of a value that is one
abbrev pub text_of : Value → String
text_of (text s) = s
text_of _ = ""

-- `value[key]`, of a key that is there
unfoldable pub value_of : String → Fields → Value
value_of key no_fields = null
value_of key (field k v fs) = let rest = value_of key fs in if str_eq k key then v else rest

-- `key in value`
unfoldable pub has_key : String → Fields → Bool
has_key key no_fields = false
has_key key (field k v fs) = str_eq k key || has_key key fs

unfoldable pub is_member : String → List String → Bool
is_member key [] = false
is_member key (k ∷ ks) = str_eq k key || is_member key ks

-- `set(value) <= allowed`
unfoldable pub keys_within : List String → Fields → Bool
unfolding is_member
keys_within allowed no_fields = true
keys_within allowed (field k v fs) = is_member k allowed && keys_within allowed fs

-- `required <= set(value)`
unfoldable pub has_keys : List String → Fields → Bool
unfolding has_key
has_keys [] fs = true
has_keys (k ∷ ks) fs = has_key k fs && has_keys ks fs

-- `set(value) == required`
unfoldable pub has_exactly : List String → Fields → Bool
unfolding keys_within has_keys
has_exactly required fs = keys_within required fs && has_keys required fs

-- `lo <= n <= hi`
abbrev pub int_between : ℕ → ℕ → ℤ → Bool
int_between lo hi n = leb (lo + neg_part n) (pos_part n) && leb (pos_part n) (hi + neg_part n)

-- A check returns, raises a `ValueError` with a message, or raises another exception.
pub data Checked (A : Type 0) : Type 0 where
  valid : A → Checked A
  value_error : String → Checked A
  other_error : Checked A

infixl 5 ◌>>=◌ ◌>>◌
abbrev pub ◌>>=◌ : {A B : Type 0} → Checked A → (A → Checked B) → Checked B
valid a >>= f = f a
value_error e >>= f = value_error e
other_error >>= f = other_error

abbrev pub ◌>>◌ : {B : Type 0} → Checked (Unit {0}) → Checked B → Checked B
m >> k = m >>= λ _. k

-- `if c: raise ValueError(e)`
abbrev pub reject_if : Bool → String → Checked (Unit {0})
reject_if c e = if c then value_error e else valid tt

-- What `json.loads` does: a value, a `JSONDecodeError` or `UnicodeDecodeError`, another
-- `ValueError` (a number with too many digits), or another exception (a text nested too deeply).
pub data Loaded : Type 0 where
  loaded : Value → Loaded
  decode_error : Loaded
  number_error : String → Loaded
  load_error : Loaded

-- `uuid.UUID(text)`: its canonical text and its version
pub record Uuid : Type 0 where
  pub canonical : String
  pub version : Option ℕ

abbrev pub Octets : Type 0
Octets = List ℕ

pub record Codec : Type 0 where
  pub loads_bytes : Octets → Loaded
  pub loads_text : String → Loaded
  -- `json.dumps` with sorted keys and no spaces
  pub dumps_value : Value → String
  -- the same, as bytes
  pub dumps_bytes : Value → Octets
  -- `str(value)` of a value that is no text
  pub str_value : Value → String
  pub b64decode : String → Option Octets
  pub b64encode : Octets → String
  -- of a text whose padding is put back
  pub urlsafe_b64decode : String → Option Octets
  -- without the padding, which is stripped off
  pub urlsafe_b64encode : Octets → String
  pub uuid : String → Option Uuid
