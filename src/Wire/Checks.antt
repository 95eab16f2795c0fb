-- ===== src/Wire/Checks.antt =====
-- The results of a check, by cases.
use home_assistant_chat_comp.Prelude.{String, inl, inr, ◌⊎◌, ◌≡◌, refl}
use home_assistant_chat_comp.Wire.{Checked, valid, value_error, other_error}

pub Checked-cases :
    {A : Type 0}
    → (m : Checked A)
    → ((a : A) × (m ≡ valid a)) ⊎ (((e : String) × (m ≡ value_error e)) ⊎ (m ≡ other_error))
Checked-cases (valid a) = inl (a, refl)
Checked-cases (value_error e) = inr (inl (e, refl))
Checked-cases other_error = inr (inr refl)
