-- ===== src/Prelude/Texts.antt =====
-- A `String` is its UTF-8 bytes, so that its length in bytes and its character boundaries are
-- what the source sees.
use Prim.Native.Nat.{ℕ}
use Prim.Native.Char.{code}
use Prim.Native.String.{String}
use mathlib.Core.Bool.{Bool, true, false, ◌&&◌, ◌||◌}
use mathlib.Core.List.{List, [], ◌∷◌}
use native.Mathlib.Decide.{ℕ_discrete}
use etl_server_cloudberry.Prelude.Tests.{◌==◌, ltb}

-- Bytes of a text, or of a value (`bytes::Bytes`).
abbrev pub Bytes : Type 0
Bytes = List ℕ

abbrev pub Text : Type 0
Text = Bytes

-- A literal of the source; all of them are ASCII.
unfoldable pub text : String → Text
text String.[] = []
text (String.◌∷◌ c s) = code c ∷ text s

unfoldable pub Bytes-discrete : Discrete Bytes
Bytes-discrete = hlevel ℕ_discrete

-- `value.contains('\0')`.
abbrev pub contains_nul : Text → Bool
contains_nul [] = false
contains_nul (c ∷ s) = c == 0 || contains_nul s

-- The order of strings, by their bytes.
unfoldable pub leb_text : Text → Text → Bool
leb_text [] t = true
leb_text (c ∷ s) [] = false
leb_text (c ∷ s) (d ∷ t) = let rest = leb_text s t in ltb c d || (c == d && rest)

-- `value.starts_with(prefix)`.
unfoldable pub starts_with : Text → Text → Bool
starts_with [] s = true
starts_with (c ∷ prefix) [] = false
starts_with (c ∷ prefix) (d ∷ s) = let rest = starts_with prefix s in c == d && rest
