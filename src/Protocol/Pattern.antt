-- ===== src/Protocol/Pattern.antt =====
-- The regular expressions of plugin/src/protocol.ts, on the code points of a text. Their classes are
-- ASCII, so a character outside of ASCII matches none, as one code point or as two code units.
use Prim.Native.Char.{code}
use openclaw_sip_voice.Base.{
  ℕ, suc, ◌+◌, ◌*◌, ◌/◌, Bool, true, false, ◌&&◌, ◌||◌, String, List, [], ◌∷◌, map, Option, none,
  some, if◌then◌else◌, leb, ltb, eqb, length,
}

abbrev pub codes : String → List ℕ
codes String.[] = []
codes (String.◌∷◌ c s) = code c ∷ codes s

-- String.prototype.length counts UTF-16 code units.
abbrev pub unit_count : List ℕ → ℕ
unit_count [] = 0
unit_count (c ∷ cs) = (if ltb c 0x10000 then 1 else 2) + unit_count cs

abbrev pub units : String → ℕ
units s = unit_count (codes s)

abbrev pub between : ℕ → ℕ → ℕ → Bool
between lo hi c = leb lo c && leb c hi

unfoldable pub is_lower : ℕ → Bool
is_lower c = between b'a' b'z' c

unfoldable pub is_upper : ℕ → Bool
is_upper c = between b'A' b'Z' c

unfoldable pub is_digit : ℕ → Bool
is_digit c = between b'0' b'9' c

unfoldable pub is_alnum : ℕ → Bool
is_alnum c = is_lower c || is_upper c || is_digit c

-- [A-Za-z0-9._:-]
unfoldable pub is_id_char : ℕ → Bool
is_id_char c = is_alnum c || eqb c b'.' || eqb c b'_' || eqb c b':' || eqb c b'-'

unfoldable pub all_chars : (ℕ → Bool) → List ℕ → Bool
all_chars p [] = true
all_chars p (c ∷ cs) = p c && all_chars p cs

-- What follows a prefix.
unfoldable pub strip_prefix : List ℕ → List ℕ → Option (List ℕ)
strip_prefix [] cs = some cs
strip_prefix (p ∷ ps) [] = none
strip_prefix (p ∷ ps) (c ∷ cs) = if eqb p c then strip_prefix ps cs else none

-- ^class{lo,hi}$ on what a prefix has left.
unfoldable pub is_run : (ℕ → Bool) → ℕ → ℕ → Option (List ℕ) → Bool
is_run p lo hi none = false
is_run p lo hi (some cs) = between lo hi (length cs) && all_chars p cs

unfoldable pub call_id_re : String → Bool
call_id_re s = is_run is_id_char 6 96 (strip_prefix (codes "call_") (codes s))

unfoldable pub command_id_re : String → Bool
command_id_re s = is_run is_id_char 6 96 (strip_prefix (codes "cmd_") (codes s))

unfoldable pub bridge_id_re : String → Bool
bridge_id_re s = is_run is_id_char 3 96 (strip_prefix (codes "bridge_") (codes s))

-- ^first rest{lo,hi}$
unfoldable pub first_and_rest : (ℕ → Bool) → (ℕ → Bool) → ℕ → ℕ → List ℕ → Bool
first_and_rest first rest lo hi [] = false
first_and_rest first rest lo hi (c ∷ cs) = first c && is_run rest lo hi (some cs)

unfoldable pub reason_code_re : String → Bool
reason_code_re s =
    first_and_rest is_lower (λ c. is_lower c || is_digit c || eqb c b'_') 1 63 (codes s)

unfoldable pub remote_handle_re : String → Bool
remote_handle_re s =
    first_and_rest (λ c. eqb c b'+' || is_alnum c)
      (λ c.
        is_alnum c
        || eqb c b' '
        || eqb c b'.'
        || eqb c b'_'
        || eqb c b'('
        || eqb c b')'
        || eqb c b'+'
        || eqb c b'-')
      0 63 (codes s)

-- The `i` flag: letters are compared in lower case.
unfoldable pub to_lower : ℕ → ℕ
to_lower c = if is_upper c then c + 32 else c

abbrev starts : List ℕ → List ℕ → Bool
starts ps cs = elim (strip_prefix ps cs) [ none ↦ false | some _ ↦ true ]

-- The pattern occurs somewhere.
unfoldable pub occurs : List ℕ → List ℕ → Bool
occurs ps [] = starts ps []
occurs ps (c ∷ cs) = starts ps (c ∷ cs) || occurs ps cs

unfoldable pub occurs_one_of : List String → List ℕ → Bool
occurs_one_of [] cs = false
occurs_one_of (word ∷ words) cs = occurs (codes word) cs || occurs_one_of words cs

abbrev pub forbidden_words : List String
forbidden_words =
    "sip" ∷ "sdp" ∷ "rtp" ∷ "unifi" ∷ "gemini" ∷ "openai" ∷ "credential" ∷ "secret" ∷ "token"
    ∷ "password" ∷ "authorization" ∷ "apikey" ∷ "api_key" ∷ "api-key" ∷ []

unfoldable pub forbidden_field_name_re : String → Bool
forbidden_field_name_re key = occurs_one_of forbidden_words (map to_lower (codes key))

-- [A-Za-z0-9+/]
unfoldable pub is_base64_char : ℕ → Bool
is_base64_char c = is_alnum c || eqb c b'+' || eqb c b'/'

-- ^(?:xxxx)*(?:xx==|xxx=)?$, four characters at a time.
unfoldable pub base64_re : List ℕ → Bool
base64_re [] = true
base64_re (a ∷ b ∷ c ∷ d ∷ []) =
    is_base64_char a
    && is_base64_char b
    && (is_base64_char c && (is_base64_char d || eqb d b'=') || eqb c b'=' && eqb d b'=')
base64_re (a ∷ b ∷ c ∷ d ∷ cs) =
    is_base64_char a && is_base64_char b && is_base64_char c && is_base64_char d && base64_re cs
base64_re _ = false

-- Buffer.from(value, "base64").byteLength: six bits for each character before the padding.
unfoldable pub data_count : List ℕ → ℕ
data_count [] = 0
data_count (c ∷ cs) = if eqb c b'=' then 0 else suc (data_count cs)

unfoldable pub decoded_length : List ℕ → ℕ
decoded_length cs = data_count cs * 6 / 8
