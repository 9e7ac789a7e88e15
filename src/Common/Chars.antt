-- ===== src/Common/Chars.antt =====
-- Texts as Unicode code points: their UTF-8 lengths, and what the program calls of `str`.
use Prim.Native.Char.{code}
use Prim.Native.Nat.{ℕ, ◌+◌}
use Prim.Native.String.{String}
use mathlib.Core.Bool.{Bool, true, false, ◌||◌, ◌&&◌}
use mathlib.Core.List.{List, [], ◌∷◌, ◌++◌}
use mathlib.Core.Option.{Option, none, some}
use zca_desktop.Common.Tests.{if◌then◌else◌, ltb, leb, eqb, map_option}

abbrev pub codes : String → List ℕ
codes String.[] = []
codes (String.◌∷◌ c s) = code c ∷ codes s

unfoldable pub utf8_len : ℕ → ℕ
utf8_len c = if ltb c 128 then 1 else if ltb c 2048 then 2 else if ltb c 65536 then 3 else 4

-- `str::len`
abbrev pub byte_len : List ℕ → ℕ
byte_len [] = 0
byte_len (c ∷ s) = utf8_len c + byte_len s

-- `char::is_whitespace`
unfoldable pub is_whitespace : ℕ → Bool
is_whitespace c =
    leb 9 c && leb c 13
    || eqb c 32
    || eqb c 133
    || eqb c 160
    || eqb c 5760
    || leb 8192 c && leb c 8202
    || eqb c 8232
    || eqb c 8233
    || eqb c 8239
    || eqb c 8287
    || eqb c 12288

abbrev pub Text : Type 0
Text = List ℕ

unfoldable pub to_ascii_lowercase : ℕ → ℕ
to_ascii_lowercase c = if leb 65 c && leb c 90 then c + 32 else c

unfoldable pub starts_with : Text → Text → Bool
starts_with [] s = true
starts_with (p ∷ ps) [] = false
starts_with (p ∷ ps) (c ∷ s) = eqb p c && starts_with ps s

-- The texts before and after the first `sep`.
unfoldable pub split_first : ℕ → Text → Option (Text × Text)
split_first sep [] = none
split_first sep (c ∷ s) =
    let rest = split_first sep s in
    if eqb c sep then some ([], s) else map_option (λ r. (c ∷ r.0, r.1)) rest

abbrev pub prepend : ℕ → List Text → List Text
prepend c [] = (c ∷ []) ∷ []
prepend c (part ∷ parts) = (c ∷ part) ∷ parts

-- `str::split` at the characters that pass a test, and at one character.
unfoldable pub split_by : (ℕ → Bool) → Text → List Text
split_by p [] = [] ∷ []
split_by p (c ∷ s) = let rest = split_by p s in if p c then [] ∷ rest else prepend c rest

abbrev pub split : ℕ → Text → List Text
split sep s = split_by (λ c. eqb c sep) s

unfoldable pub join : ℕ → List Text → Text
join sep [] = []
join sep (part ∷ []) = part
join sep (part ∷ part' ∷ parts) = part ++ sep ∷ join sep (part' ∷ parts)

unfoldable pub drop_while : (ℕ → Bool) → Text → Text
drop_while p [] = []
drop_while p (c ∷ s) = let rest = drop_while p s in if p c then rest else c ∷ s

abbrev pub keep_unless : (ℕ → Bool) → ℕ → Text → Text
keep_unless p c [] = if p c then [] else c ∷ []
keep_unless p c (d ∷ s) = c ∷ d ∷ s

unfoldable pub drop_end : (ℕ → Bool) → Text → Text
drop_end p [] = []
drop_end p (c ∷ s) = keep_unless p c (drop_end p s)

unfoldable pub trim_text : Text → Text
trim_text s = drop_end is_whitespace (drop_while is_whitespace s)

-- `==` on texts.
unfoldable pub same_text : Text → Text → Bool
same_text [] [] = true
same_text [] (d ∷ t) = false
same_text (c ∷ s) [] = false
same_text (c ∷ s) (d ∷ t) = eqb c d && same_text s t
