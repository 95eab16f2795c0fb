-- ===== src/Text.antt =====
-- Python's `str` operations that the program uses, on the code points of a text.
pub mod Size
pub mod Split
pub mod Parts
use Prim.Native.Char.{code}
use Prim.Native.String.{[], ◌∷◌, count}
use home_assistant_chat_comp.Prelude.{
  ℕ, zero, suc, String, Bool, true, false, ◌&&◌, ◌||◌, leb, ◌==◌, ◌≡◌, refl, arith, str_eq,
  if◌then◌else◌,
}

abbrev pub between : ℕ → ℕ → ℕ → Bool
between lo hi c = leb lo c && leb c hi

abbrev pub is_digit : ℕ → Bool
is_digit c = between b'0' b'9' c

abbrev pub is_alnum : ℕ → Bool
is_alnum c = between b'A' b'Z' c || between b'a' b'z' c || is_digit c

-- `[A-Za-z0-9_-]`
abbrev pub is_url_char : ℕ → Bool
is_url_char c = is_alnum c || c == b'_' || c == b'-'

-- what `str.strip` removes
abbrev pub is_space : ℕ → Bool
is_space c =
    between 9 13 c
    || between 28 32 c
    || c == 0x85
    || c == 0xa0
    || c == 0x1680
    || between 0x2000 0x200a c
    || c == 0x2028
    || c == 0x2029
    || c == 0x202f
    || c == 0x205f
    || c == 0x3000

-- whether every character of the text fits
unfoldable pub all_chars : (ℕ → Bool) → String → Bool
all_chars p [] = true
all_chars p (c ∷ s) = p (code c) && all_chars p s

-- whether some character of the text fits
unfoldable pub any_char : (ℕ → Bool) → String → Bool
any_char p [] = false
any_char p (c ∷ s) = p (code c) || any_char p s

-- `re.fullmatch` of a repeated character class, between `lo` and `hi` times
unfoldable pub repeated : (ℕ → Bool) → ℕ → ℕ → String → Bool
unfolding all_chars
repeated p lo hi s = between lo hi (count s) && all_chars p s

-- whether `str.encode("ascii")` succeeds
unfoldable pub is_ascii : String → Bool
unfolding all_chars
is_ascii s = all_chars (λ c. leb c 127) s

pub all_chars_mono :
    (p q : ℕ → Bool) (s : String)
    → ((c : ℕ) → p c ≡ true → q c ≡ true)
    → all_chars p s ≡ true
    → all_chars q s ≡ true
unfolding all_chars
all_chars_mono p q [] h a = refl
all_chars_mono p q (c ∷ s) h a = ground (arith, h (code c), all_chars_mono p q s h)

unfoldable pub lstrip : String → String
lstrip [] = []
lstrip (c ∷ s) = let rest = lstrip s in if is_space (code c) then rest else c ∷ s

unfoldable pub rstrip : String → String
rstrip [] = []
rstrip (c ∷ s) = let rest = rstrip s in if str_eq rest "" && is_space (code c) then [] else c ∷ rest

unfoldable pub strip : String → String
unfolding lstrip rstrip
strip s = rstrip (lstrip s)

-- `s[:n]`
unfoldable pub first_chars : ℕ → String → String
first_chars zero s = []
first_chars (suc n) [] = []
first_chars (suc n) (c ∷ s) = c ∷ first_chars n s
