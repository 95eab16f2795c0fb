-- ===== src/Security/Passwords.antt =====
-- security.py: the records of passwords, `hash_password` and `verify_password`. The hash function,
-- with its fixed cost, and the encoding of bytes are the standard library's; the salt is drawn by the
-- caller.
use Prim.Native.Char.{code}
use Prim.Native.String.{[], ◌∷◌, ◌++◌, len}
use home_assistant_chat_comp.Prelude.{
  ℕ, zero, suc, ℤ, pos, negsuc, String, Bool, true, false, ◌&&◌, Option, none, some, leb, ◌==◌,
  str_eq, if◌then◌else◌,
}
use home_assistant_chat_comp.Prelude
use home_assistant_chat_comp.Text.Split.{split_on}
use home_assistant_chat_comp.Security.{Bytes, Crypto, decode_b64url}

pub record Kdf : Type 0 where
  -- `hashlib.scrypt` of the text's UTF-8 under a salt, with n = 16384, r = 8 and p = 1
  pub scrypt : String → Bytes → Bytes
  -- base64url without padding
  pub b64url : Bytes → String

-- `None` stands for the `ValueError`
unfoldable pub hash_password : Kdf → Bytes → String → Option String
hash_password kdf salt password =
    if leb 12 (len password) && leb (len password) 1024
    then some
        ("scrypt$16384$8$1$" ++ kdf.b64url salt ++ "$" ++ kdf.b64url (kdf.scrypt password salt))
    else none

abbrev pub is_int : Crypto → ℕ → String → Bool
is_int crypto n text = elim (crypto.int text) [
  | none ↦ false
  | some (pos k) ↦ k == n
  | some (negsuc k) ↦ false
]

-- salt and hash of a stored password; anything else than the six parts is a `ValueError`
unfoldable pub stored_hash : Crypto → Prelude.List String → Option (Bytes × Bytes)
stored_hash crypto
      (Prelude.◌∷◌ scheme (
        Prelude.◌∷◌ n
          (Prelude.◌∷◌ r (Prelude.◌∷◌ p (Prelude.◌∷◌ salt (Prelude.◌∷◌ expected Prelude.[])))))) =
    if str_eq scheme "scrypt" && is_int crypto 16384 n && is_int crypto 8 r && is_int crypto 1 p
    then (elim (decode_b64url crypto salt) [
      | none ↦ none
      | some raw_salt ↦ elim (decode_b64url crypto expected) [
        | none ↦ none
        | some raw_expected ↦ some (raw_salt, raw_expected)
      ]
    ])
    else none
stored_hash crypto _ = none

-- `b"\x00" * n`
unfoldable pub zeros : ℕ → Bytes
zeros zero = Prelude.[]
zeros (suc n) = Prelude.◌∷◌ 0 (zeros n)

-- `_FAKE_SALT`, the bytes of "ha-chat-auth-fake"
unfoldable pub bytes_of : String → Bytes
bytes_of [] = Prelude.[]
bytes_of (c ∷ s) = Prelude.◌∷◌ (code c) (bytes_of s)

abbrev pub or_fake : Option (Bytes × Bytes) → Bytes × Bytes
or_fake none = (bytes_of "ha-chat-auth-fake", zeros 64)
or_fake (some b) = b

unfoldable pub bytes_eq : Bytes → Bytes → Bool
bytes_eq Prelude.[] Prelude.[] = true
bytes_eq (Prelude.◌∷◌ x xs) (Prelude.◌∷◌ y ys) = x == y && bytes_eq xs ys
bytes_eq _ _ = false

-- `(encoded or "")`
abbrev pub or_empty : Option String → String
or_empty none = ""
or_empty (some s) = s

unfoldable pub verify_password : Crypto → Kdf → String → Option String → Bool
unfolding split_on stored_hash
verify_password crypto kdf password encoded =
    let (salt, expected) = or_fake (stored_hash crypto (split_on b'$' (or_empty encoded))) in
    bytes_eq (kdf.scrypt password salt) expected
