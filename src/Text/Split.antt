-- ===== src/Text/Split.antt =====
-- `str.split` at a character.
use Prim.Native.Char.{Char, code}
use Prim.Native.String.{[], ◌∷◌}
use home_assistant_chat_comp.Prelude.{ℕ, String, ◌==◌, if◌then◌else◌}
use home_assistant_chat_comp.Prelude

abbrev pub prepend : Char → Prelude.List String → Prelude.List String
prepend c Prelude.[] = Prelude.◌∷◌ (c ∷ []) Prelude.[]
prepend c (Prelude.◌∷◌ w ws) = Prelude.◌∷◌ (c ∷ w) ws

unfoldable pub split_on : ℕ → String → Prelude.List String
split_on sep [] = Prelude.◌∷◌ [] Prelude.[]
split_on sep (c ∷ s) =
    let rest = split_on sep s in if code c == sep then Prelude.◌∷◌ [] rest else prepend c rest
