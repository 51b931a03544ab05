-- ===== src/Protocol/Base64.antt =====
-- Buffer.prototype.toString("base64"), as plugin/src/protocol.ts uses it on the bytes of a frame.
pub mod Payload
use Prim.Native.Char.{Char}
use Prim.Native.String.{char_at, [], ◌∷◌}
use openclaw_sip_voice.Base.{ℕ, ◌+◌, ◌*◌, ◌/◌, ◌%◌, String, List}

abbrev pub base64_alphabet : String
base64_alphabet = "ABCDEFGHIJKLMNOPQRSTUVWXYZabcdefghijklmnopqrstuvwxyz0123456789+/"

-- The character of six bits.
unfoldable pub sextet : ℕ → Char
sextet n = char_at base64_alphabet n

abbrev pub padding : Char
padding = "="

-- Three bytes at a time.
unfoldable pub base64_encode : List ℕ → String
base64_encode List.[] = []
base64_encode (List.◌∷◌ a List.[]) = sextet (a / 4) ∷ sextet (a % 4 * 16) ∷ padding ∷ padding ∷ []
base64_encode (List.◌∷◌ a (List.◌∷◌ b List.[])) =
    sextet (a / 4) ∷ sextet (a % 4 * 16 + b / 16) ∷ sextet (b % 16 * 4) ∷ padding ∷ []
base64_encode (List.◌∷◌ a (List.◌∷◌ b (List.◌∷◌ c bytes))) =
    sextet (a / 4)
    ∷ sextet (a % 4 * 16 + b / 16)
    ∷ sextet (b % 16 * 4 + c / 64)
    ∷ sextet (c % 64)
    ∷ base64_encode bytes
