-- ===== src/Config/Text.antt =====
-- String.prototype.trim and Array.prototype.join, as plugin/src/config.ts and plugin/index.ts use them.
use Prim.Native.Char.{Char, code}
use Prim.Native.String.{[], ◌∷◌, ◌++◌}
use openclaw_sip_voice.Base.{ℕ, Bool, ◌||◌, String, List, if◌then◌else◌, eqb}
use openclaw_sip_voice.Protocol.Pattern.{between}

-- White space and line terminators of ECMAScript, by their code points.
unfoldable pub is_space : ℕ → Bool
is_space c =
    between 9 13 c
    || eqb c 32
    || eqb c 0xA0
    || eqb c 0x1680
    || between 0x2000 0x200A c
    || eqb c 0x2028
    || eqb c 0x2029
    || eqb c 0x202F
    || eqb c 0x205F
    || eqb c 0x3000
    || eqb c 0xFEFF

unfoldable pub trim_start : String → String
trim_start [] = []
trim_start (c ∷ s) = if is_space (code c) then trim_start s else c ∷ s

-- A character in front of what is left of a text.
unfoldable pub in_front : Char → String → String
in_front c [] = if is_space (code c) then [] else c ∷ []
in_front c (d ∷ s) = c ∷ d ∷ s

unfoldable pub trim_end : String → String
trim_end [] = []
trim_end (c ∷ s) = in_front c (trim_end s)

-- String.prototype.trim
unfoldable pub trim : String → String
trim s = trim_end (trim_start s)

abbrev joined_rest : String → List String → String
joined_rest separator List.[] = ""
joined_rest separator (List.◌∷◌ s parts) = separator ++ s ++ joined_rest separator parts

-- Array.prototype.join
unfoldable pub join : String → List String → String
join separator List.[] = ""
join separator (List.◌∷◌ s parts) = s ++ joined_rest separator parts
