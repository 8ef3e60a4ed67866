-- ===== src/Base/Text.antt =====
-- What the program uses of Rust's `str`, over code points.
use Prim.Native.Nat.{ℕ}
use Prim.Native.Char.{Char, code}
use mathlib.Core.Path.{◌≡◌, refl}
use mathlib.Core.Bool.{Bool, ◌&&◌, ◌||◌}
use Prim.Native.String.{String, [], ◌∷◌}
use mathlib.Core.List.{List, [], ◌∷◌}
use overlay_mcp.Base.Tests.{nat_eq, leb, ◌==◌, if◌then◌else◌}
pub use Prim.Native.String.{◌++◌ as ◌<>◌}

abbrev pub push_front : Char → List String → List String
push_front c [] = (c ∷ []) ∷ []
push_front c (w ∷ ws) = (c ∷ w) ∷ ws

-- `s.split(":")`: the parts between the separators, at least one.
unfoldable pub split : ℕ → String → List String
split sep [] = "" ∷ []
split sep (c ∷ s) = if nat_eq (code c) sep then "" ∷ split sep s else push_front c (split sep s)

-- Rust's `char::is_whitespace` on ASCII.
abbrev pub is_whitespace : Char → Bool
is_whitespace c = nat_eq (code c) 32 || (leb 9 (code c) && leb (code c) 13)

-- `s.split_whitespace()`: the words of the text; `word` is the one being read.
abbrev end_word : String → List String → List String
end_word word rest = if word == "" then rest else word ∷ rest

abbrev words_from : String → String → List String
words_from word [] = end_word word []
words_from word (c ∷ s) =
    let ended = end_word word (words_from "" s) in
    let longer = words_from (word <> (c ∷ [])) s in if is_whitespace c then ended else longer

unfoldable pub split_whitespace : String → List String
split_whitespace s = words_from "" s

unfoldable pub trim_start : String → String
trim_start [] = []
trim_start (c ∷ s) = if is_whitespace c then trim_start s else c ∷ s

unfoldable pub trim_end : String → String
trim_end [] = []
trim_end (c ∷ s) = let rest = trim_end s in if is_whitespace c && (rest == "") then "" else c ∷ rest

unfoldable pub trim : String → String
unfolding trim_start trim_end
trim s = trim_end (trim_start s)

abbrev translate : String → String → Char → Char
translate [] _ c = c
translate (a ∷ s) [] c = c
translate (a ∷ s) (b ∷ t) c = if nat_eq (code a) (code c) then b else translate s t c

-- `s.to_lowercase()` on ASCII.
unfoldable pub to_lowercase : String → String
to_lowercase [] = []
to_lowercase (c ∷ s) =
    translate "ABCDEFGHIJKLMNOPQRSTUVWXYZ" "abcdefghijklmnopqrstuvwxyz" c ∷ to_lowercase s

lowercase_bearer : to_lowercase "BeaRer" ≡ "bearer"
unfolding to_lowercase
lowercase_bearer = refl

two_words : split_whitespace "  Bearer\tabc  d" ≡ "Bearer" ∷ "abc" ∷ "d" ∷ []
unfolding split_whitespace
two_words = refl

trimmed : trim "  a b " ≡ "a b"
unfolding trim
trimmed = refl
