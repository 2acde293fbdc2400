-- ===== src/Client/Json.antt =====
-- USBPcapCMD/cmd.c: the texts in the JSON that the client prints (`json_print_escaped`,
-- `print_json_error`). A text is the list of its bytes without the terminating zero, and the output
-- is the list of the bytes that are written.
pub mod Read
mod Tests
use usbpcap_ai.Base.{
  ℕ, ◌+◌, ◌/◌, ◌%◌, Bool, Option, none, some, List, [], ◌∷◌, ◌++◌, ltb, ◌==◌, if◌then◌else◌,
}

-- A digit of `%x`.
unfoldable pub hex_digit : ℕ → ℕ
hex_digit n = if ltb n 10 then 48 + n else 87 + n

-- A byte below 0x20, as `\u%04x`.
abbrev pub unicode_escape : ℕ → List ℕ
unicode_escape c = 92 ∷ b'u' ∷ b'0' ∷ b'0' ∷ hex_digit (c / 16) ∷ hex_digit (c % 16) ∷ []

-- What the loop of `json_print_escaped` writes for a byte.
unfoldable pub escape_byte : ℕ → List ℕ
escape_byte c =
    if c == 92
    then 92 ∷ 92 ∷ []
    else if c == 34
    then 92 ∷ 34 ∷ []
    else if c == 8
    then 92 ∷ b'b' ∷ []
    else if c == 12
    then 92 ∷ b'f' ∷ []
    else if c == 10
    then 92 ∷ b'n' ∷ []
    else if c == 13
    then 92 ∷ b'r' ∷ []
    else if c == 9
    then 92 ∷ b't' ∷ []
    else if ltb c 32
    then unicode_escape c
    else c ∷ []

unfoldable pub escape_bytes : List ℕ → List ℕ
escape_bytes [] = []
escape_bytes (c ∷ cs) = escape_byte c ++ escape_bytes cs

abbrev pub text_or_none : Option (List ℕ) → List ℕ
text_or_none none = []
text_or_none (some text) = text

-- `json_print_escaped`
unfoldable pub json_print_escaped : Option (List ℕ) → List ℕ
json_print_escaped value = 34 ∷ escape_bytes (text_or_none value) ++ 34 ∷ []

-- `{"ok":false,"errorCode":`, `,"message":`, `,"hint":` and the end of the line.
abbrev pub error_start : List ℕ
error_start =
    b'{' ∷ 34 ∷ b'o' ∷ b'k' ∷ 34 ∷ b':' ∷ b'f' ∷ b'a' ∷ b'l' ∷ b's' ∷ b'e' ∷ b',' ∷ 34 ∷ b'e' ∷ b'r'
    ∷ b'r' ∷ b'o' ∷ b'r' ∷ b'C' ∷ b'o' ∷ b'd' ∷ b'e' ∷ 34 ∷ b':' ∷ []

abbrev pub message_start : List ℕ
message_start = b',' ∷ 34 ∷ b'm' ∷ b'e' ∷ b's' ∷ b's' ∷ b'a' ∷ b'g' ∷ b'e' ∷ 34 ∷ b':' ∷ []

abbrev pub hint_start : List ℕ
hint_start = b',' ∷ 34 ∷ b'h' ∷ b'i' ∷ b'n' ∷ b't' ∷ 34 ∷ b':' ∷ []

abbrev pub error_end : List ℕ
error_end = b'}' ∷ 10 ∷ []

-- The hint, where there is one.
abbrev pub hint_part : Option (List ℕ) → List ℕ
hint_part none = []
hint_part (some hint) = hint_start ++ json_print_escaped (some hint)

-- `print_json_error`
unfoldable pub print_json_error : List ℕ → List ℕ → Option (List ℕ) → List ℕ
print_json_error code message hint =
    let last = hint_part hint ++ error_end in
    let behind = message_start ++ (json_print_escaped (some message) ++ last) in
    error_start ++ (json_print_escaped (some code) ++ behind)
