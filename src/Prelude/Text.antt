-- ===== src/Prelude/Text.antt =====
-- Texts, character by character.
use Prim.Native.Char.{Char, code}
use Prim.Native.String.{String}
use swift_route.Prelude.Tests.{◌==◌, if◌then◌else◌}

-- s.replace(old, new), for one character.
unfoldable pub replace_char : Char → Char → String → String
replace_char old new String.[] = ""
replace_char old new (String.◌∷◌ c s) =
    String.◌∷◌ (if code c == code old then new else c) (replace_char old new s)
