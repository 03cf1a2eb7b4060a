-- ===== src/Gateway/RequestId.antt =====
-- The ids of internal/gateway/request_id.go: where a handler finds the id of its request, and how
-- one is made when the client sends none. The random bytes are an argument.
pub mod Hex
mod Tests
use Prim.Native.Char.{Char}
use Prim.Native.String as Text
use voxplatform.Prelude.{ℕ, ◌/◌, ◌%◌, String, Option, none, some, List, [], ◌∷◌}

-- RequestIDFromContext; the argument is the value that the context has for requestIDKey.
abbrev pub request_id_from_context : Option String → String
request_id_from_context (some id) = id
request_id_from_context none = "unknown"

-- The table of the package encoding/hex.
abbrev pub hex_digit : ℕ → Char
hex_digit n = Text.char_at "0123456789abcdef" n

-- hex.EncodeToString
pub encode_to_string : List ℕ → String
encode_to_string [] = ""
encode_to_string (b ∷ bs) =
    Text.◌∷◌ (hex_digit (b / 16)) (Text.◌∷◌ (hex_digit (b % 16)) (encode_to_string bs))

-- generateRequestID, for the bytes that rand.Read puts into its buffer.
pub generate_request_id : List ℕ → String
unfolding encode_to_string
generate_request_id bytes = encode_to_string bytes
