-- ===== src/Prelude/Texts.antt =====
-- Tests of texts, character by character.
use Prim.Native.Char.{Char, code}
use Prim.Native.String.{String}
use mathlib.Core.Bool.{Bool, true, false, ◌&&◌, ◌||◌}
use mathlib.Core.List.{List, [], ◌∷◌}
use midicrt.Prelude.Tests.{eqb, ltb, if◌then◌else◌}

-- Python's `text.startswith(prefix)`.
unfoldable pub starts_with : String → String → Bool
starts_with String.[] t = true
starts_with (String.◌∷◌ c s) String.[] = false
starts_with (String.◌∷◌ c s) (String.◌∷◌ d t) =
    let rest = starts_with s t in eqb (code c) (code d) && rest

-- Python's `part in text`.
unfoldable pub occurs_in : String → String → Bool
occurs_in s String.[] = starts_with s String.[]
occurs_in s (String.◌∷◌ d t) = let later = occurs_in s t in starts_with s (String.◌∷◌ d t) || later

-- Python's order of texts.
unfoldable pub text_leb : String → String → Bool
text_leb String.[] t = true
text_leb (String.◌∷◌ c s) String.[] = false
text_leb (String.◌∷◌ c s) (String.◌∷◌ d t) =
    let rest = text_leb s t in if eqb (code c) (code d) then rest else ltb (code c) (code d)

unfoldable pub insert_text : String → List String → List String
insert_text t [] = t ∷ []
insert_text t (u ∷ us) =
    let rest = insert_text t us in if text_leb t u then t ∷ u ∷ us else u ∷ rest

unfoldable pub sort_texts : List String → List String
sort_texts [] = []
sort_texts (t ∷ ts) = insert_text t (sort_texts ts)

-- The characters of a text.
abbrev pub chars : String → List Char
chars String.[] = []
chars (String.◌∷◌ c s) = c ∷ chars s
