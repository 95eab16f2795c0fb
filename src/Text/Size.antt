-- ===== src/Text/Size.antt =====
-- The two sizes of a text: SQLite counts its characters, and the program the bytes of its UTF-8.
use Prim.Native.Char.{Char, len_utf8, len_utf8_def, width, code}
use Prim.Native.Nat.{compare, Ordering}
use Prim.Native.String.{[], ◌∷◌, count, len}
use Prim.Native.String.count
use Prim.Native.String.len
use home_assistant_chat_comp.Prelude.{suc, ◌+◌, ◌≤◌, String, arith, ◌≡◌}

width_pos : (a b c : Ordering) → 1 ≤ width a b c
width_pos a b c = ground arith

len_utf8_pos : (c : Char) → 1 ≤ len_utf8 c
len_utf8_pos c =
    let e : len_utf8 c
        ≡ width (compare (code c) 128) (compare (code c) 2048) (compare (code c) 65536) =
      λ i. len_utf8_def c i in
    rw e (width_pos (compare (code c) 128) (compare (code c) 2048) (compare (code c) 65536))

-- A character takes a byte at least.
pub count-le-len : (s : String) → count s ≤ len s
count-le-len [] = omega arith
count-le-len (c ∷ s) =
    let e : count (c ∷ s) ≡ suc (count s) = λ i. count.cons c s i in
    let f : len (c ∷ s) ≡ len_utf8 c + len s = λ i. len.cons c s i in
    omega (arith, len_utf8_pos c, count-le-len s)
