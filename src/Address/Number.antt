-- ===== src/Address/Number.antt =====
-- The number of an address that was read has eight digits.
use Prim.Native.Char.{Char, code}
use Prim.Native.String.{[], ◌∷◌, count}
use Prim.Native.String.count
use native.Mathlib.Nat.{mul_assoc, mul_comm, pow-suc}
use home_assistant_chat_comp.Prelude.{
  ℕ, suc, ◌+◌, ◌-◌, ◌*◌, ◌^◌, ◌≤◌, ◌<◌, String, true, Option, some, Option-cases, inl, inr, ◌≡◌,
  sym, ap, ◌∙◌, arith,
}
use home_assistant_chat_comp.Text.{is_digit, all_chars, repeated, first_chars}
use home_assistant_chat_comp.Text.Parts.{decimal_value, drop_chars}
use home_assistant_chat_comp.Wire.{Value, as_text, valid}
use home_assistant_chat_comp.Address.{
  IpAddress, ipv4, ipv6, UserAddress, Groups, is_number_text, match_server, match_address,
  address_of, parse_user_address,
}

count-cons : (c : Char) (s : String) → count (c ∷ s) ≡ suc (count s)
count-cons c s i = count.cons c s i

-- ten to the power of the length, on the other side
shift : (a : ℕ) (c : Char) (s : String) → a * 10 ^ count (c ∷ s) ≡ a * 10 * 10 ^ count s
shift a c s =
    let power : 10 ^ count (c ∷ s) ≡ 10 * 10 ^ count s =
      ap (λ n. 10 ^ n) (count-cons c s) ∙ pow-suc 10 (count s) ∙ mul_comm (10 ^ count s) 10 in
    ap (λ x. a * x) power ∙ sym (mul_assoc a 10 (10 ^ count s))

decimal_value-least :
    (a n : ℕ) (s : String)
    → all_chars is_digit s ≡ true
    → a ≤ n
    → a * 10 ^ count s ≤ decimal_value n s
unfolding all_chars decimal_value
decimal_value-least a n [] h l = ground arith
decimal_value-least a n (c ∷ s) h l =
    let step = shift a c s in
    let rest =
      decimal_value-least (a * 10) (n * 10 + (code c - b'0')) s (ground arith) (ground arith) in
    omega arith

decimal_value-below :
    (n b : ℕ) (s : String)
    → all_chars is_digit s ≡ true
    → n < b
    → decimal_value n s < b * 10 ^ count s
unfolding all_chars decimal_value
decimal_value-below n b [] h l = ground arith
decimal_value-below n b (c ∷ s) h l =
    let step = shift b c s in
    let rest =
      decimal_value-below (n * 10 + (code c - b'0')) (b * 10) s (ground arith) (ground arith) in
    omega arith

-- what the two groups of digits come to
number_text-bounds :
    (s : String)
    → is_number_text s ≡ true
    → (10_000_000 ≤ decimal_value 0 s) × (decimal_value 0 s ≤ 99_999_999)
unfolding is_number_text repeated all_chars decimal_value
number_text-bounds [] h = absurd (ground arith)
number_text-bounds (c ∷ s) h =
    let least = decimal_value-least 1 (code c - b'0') s (ground arith) (ground arith) in
    let below = decimal_value-below (code c - b'0') 10 s (ground arith) (ground arith) in
    let longer = count-cons c s in
    let seven : count s ≡ 7 = ground arith in
    let power : 10 ^ count s ≡ 10_000_000 = ap (λ k. 10 ^ k) seven in (ground arith, ground arith)

address_of-number :
    (ip_address : String → Option IpAddress) (g : Groups) (a : UserAddress)
    → address_of ip_address g ≡ valid a
    → a.number ≡ decimal_value 0 g.number
unfolding address_of
address_of-number ip_address g a h = elim (Option-cases g.server) [
  | inl k ↦ ground arith
  | inr (raw, k) ↦ elim (Option-cases (ip_address raw)) [
    | inl bad ↦ absurd (ground arith)
    | inr (ipv4 s, found) ↦ ground arith
    | inr (ipv6 s, found) ↦ absurd (ground arith)
  ]
]

match_server-number :
    (number rest : String) (g : Groups) → match_server number rest ≡ some g → g.number ≡ number
unfolding match_server
match_server-number number rest g h = ground arith

pub parse_user_address-number :
    (ip_address : String → Option IpAddress) (v : Value) (a : UserAddress)
    → parse_user_address ip_address v ≡ valid a
    → (10_000_000 ≤ a.number) × (a.number ≤ 99_999_999)
unfolding parse_user_address match_address
parse_user_address-number ip_address v a h = elim (Option-cases (as_text v)) [
  | inl bad ↦ absurd (ground arith)
  | inr (s, ks) ↦ elim (Option-cases (match_address s)) [
    | inl bad ↦ absurd (ground arith)
    | inr (g, kg) ↦
        let n = address_of-number ip_address g a (ground arith) in
        let k = match_server-number (first_chars 8 s) (drop_chars 8 s) g (ground arith) in
        let (least, most) = number_text-bounds (first_chars 8 s) (ground arith) in
        let e : a.number ≡ decimal_value 0 (first_chars 8 s) = n ∙ ap (decimal_value 0) k in
        (ground arith, ground arith)
  ]
]
