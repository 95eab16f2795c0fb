-- ===== src/Text/Parts/Decimal.antt =====
-- A number is the value of its decimal text: the fuel is enough.
use Prim.Native.Char.{code}
use Prim.Native.String.{◌∷◌}
use home_assistant_chat_comp.Prelude.{
  ℕ, zero, suc, ◌+◌, ◌-◌, ◌*◌, ◌/◌, ◌%◌, ◌<◌, String, ltb, ◌≡◌, refl, ap, ◌∙◌, arith, Bool-cases,
  inl, inr,
}
use home_assistant_chat_comp.Text.Parts.{decimal_value, digit, digits_onto, decimal}

digit-code : (d : ℕ) → d < 10 → code (digit d) - b'0' ≡ d
digit-code zero h = refl
digit-code (suc zero) h = refl
digit-code (suc (suc zero)) h = refl
digit-code (suc (suc (suc zero))) h = refl
digit-code (suc (suc (suc (suc zero)))) h = refl
digit-code (suc (suc (suc (suc (suc zero))))) h = refl
digit-code (suc (suc (suc (suc (suc (suc zero)))))) h = refl
digit-code (suc (suc (suc (suc (suc (suc (suc zero))))))) h = refl
digit-code (suc (suc (suc (suc (suc (suc (suc (suc zero)))))))) h = refl
digit-code (suc (suc (suc (suc (suc (suc (suc (suc (suc zero))))))))) h = refl
digit-code (suc (suc (suc (suc (suc (suc (suc (suc (suc (suc d)))))))))) h = absurd (omega arith)

digits_onto-value :
    (fuel n : ℕ) (rest : String)
    → n < fuel
    → decimal_value 0 (digits_onto fuel n rest) ≡ decimal_value n rest
unfolding digits_onto decimal_value
digits_onto-value zero n rest h = absurd (omega arith)
digits_onto-value (suc fuel) n rest h = elim (Bool-cases (ltb n 10)) [
  | inl small ↦
      let d = digit-code n (ground arith) in
      let chosen : digits_onto (suc fuel) n rest ≡ digit n ∷ rest = ground arith in
      let whole : 0 * 10 + (code (digit n) - b'0') ≡ n = ground arith in
      ap (decimal_value 0) chosen ∙ ap (λ k. decimal_value k rest) whole
  | inr large ↦
      let more = digits_onto-value fuel (n / 10) (digit (n % 10) ∷ rest) (ground arith) in
      let d = digit-code (n % 10) (ground arith) in
      let chosen : digits_onto (suc fuel) n rest
          ≡ digits_onto fuel (n / 10) (digit (n % 10) ∷ rest) =
        ground arith in
      let whole : n / 10 * 10 + (code (digit (n % 10)) - b'0') ≡ n = ground arith in
      ap (decimal_value 0) chosen ∙ more ∙ ap (λ k. decimal_value k rest) whole
]

-- the value of the text of a number is the number
pub decimal_value-decimal : (n : ℕ) → decimal_value 0 (decimal n) ≡ n
unfolding decimal decimal_value
decimal_value-decimal n = digits_onto-value (suc n) n "" (omega arith)
