-- ===== src/Text/Parts.antt =====
-- The parts into which the program's regular expressions take a text, and its decimal numbers.
pub mod Decimal
use Prim.Native.Char.{Char, code}
use Prim.Native.String.{[], ◌∷◌}
use home_assistant_chat_comp.Prelude.{
  ℕ, zero, suc, ◌+◌, ◌-◌, ◌*◌, ◌/◌, ◌%◌, String, Bool, true, false, ◌&&◌, ◌||◌, Option, none, some,
  ltb, ◌==◌, str_eq, if◌then◌else◌,
}
use home_assistant_chat_comp.Text.{is_alnum, between}

-- the text behind a fixed prefix
unfoldable pub after_prefix : String → String → Option String
after_prefix [] s = some s
after_prefix (p ∷ ps) [] = none
after_prefix (p ∷ ps) (c ∷ s) =
    let rest = after_prefix ps s in if code p == code c then rest else none

-- `s[n:]`
unfoldable pub drop_chars : ℕ → String → String
drop_chars zero s = s
drop_chars (suc n) [] = []
drop_chars (suc n) (c ∷ s) = drop_chars n s

-- `[^:]*`, from the start of the text
unfoldable pub before_colon : String → String
before_colon [] = []
before_colon (c ∷ s) = let rest = before_colon s in if code c == b':' then [] else c ∷ rest

-- what stands behind the first colon
unfoldable pub after_colon : String → Option String
after_colon [] = none
after_colon (c ∷ s) = let rest = after_colon s in if code c == b':' then some s else rest

-- the character and the rest, if the text is not empty
abbrev pub uncons : String → Option (ℕ × String)
uncons [] = none
uncons (c ∷ s) = some (code c, s)

-- `[A-Za-z0-9+/]*={0,2}`
unfoldable pub is_b64_text : String → Bool
is_b64_text [] = true
is_b64_text (c ∷ s) =
    let rest = is_b64_text s in
    if is_alnum (code c) || code c == b'+' || code c == b'/'
    then rest
    else str_eq (c ∷ s) "=" || str_eq (c ∷ s) "=="

-- the value of a text of digits, behind the digits of `n`
unfoldable pub decimal_value : ℕ → String → ℕ
decimal_value n [] = n
decimal_value n (c ∷ s) = decimal_value (n * 10 + (code c - b'0')) s

abbrev pub digit : ℕ → Char
digit zero = "0"
digit (suc zero) = "1"
digit (suc (suc zero)) = "2"
digit (suc (suc (suc zero))) = "3"
digit (suc (suc (suc (suc zero)))) = "4"
digit (suc (suc (suc (suc (suc zero))))) = "5"
digit (suc (suc (suc (suc (suc (suc zero)))))) = "6"
digit (suc (suc (suc (suc (suc (suc (suc zero))))))) = "7"
digit (suc (suc (suc (suc (suc (suc (suc (suc zero)))))))) = "8"
digit (suc (suc (suc (suc (suc (suc (suc (suc (suc _))))))))) = "9"

-- the digits of a number in front of a text; the fuel is above the number
unfoldable pub digits_onto : ℕ → ℕ → String → String
digits_onto zero n rest = rest
digits_onto (suc fuel) n rest =
    let more = digits_onto fuel (n / 10) (digit (n % 10) ∷ rest) in
    if ltb n 10 then digit n ∷ rest else more

-- `str(number)`
unfoldable pub decimal : ℕ → String
unfolding digits_onto
decimal n = digits_onto (suc n) n ""

-- `s.split(c, 1)[0]`
unfoldable pub before_char : ℕ → String → String
before_char sep [] = []
before_char sep (c ∷ s) = let rest = before_char sep s in if code c == sep then [] else c ∷ rest

abbrev pub lower_code : ℕ → ℕ
lower_code c = if between b'A' b'Z' c then c + 32 else c

-- Whether `str.lower` of the first text is the second, which holds ASCII letters other than `k`: of the
-- characters beyond ASCII only the sign of Kelvin has an ASCII letter, `k`, as its lower case.
unfoldable pub lowers_to : String → String → Bool
lowers_to [] [] = true
lowers_to [] (d ∷ t) = false
lowers_to (c ∷ s) [] = false
lowers_to (c ∷ s) (d ∷ t) = let rest = lowers_to s t in lower_code (code c) == code d && rest
