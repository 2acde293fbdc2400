-- ===== src/Client/Json/Tests.antt =====
-- The theorem on the JSON of an error at a concrete error.
use usbpcap_ai.Base.{◌≡◌, some, false, [], ◌∷◌}
use usbpcap_ai.Client.Json.{print_json_error}
use usbpcap_ai.Client.Json.Read.{
  JsonValue, code_key, hint_key, message_key, ok_key, read_object, read_object-print_json_error,
}

-- A message with a quote, a backslash and a line feed, and a hint with the byte 1.
read_object-print_json_error_example :
    read_object 4 (print_json_error (b'E' ∷ []) (34 ∷ 92 ∷ 10 ∷ b'x' ∷ []) (some (1 ∷ b'y' ∷ [])))
    ≡ some (
        (ok_key, JsonValue.truth false)
        ∷ (code_key, JsonValue.text (b'E' ∷ []))
        ∷ (message_key, JsonValue.text (34 ∷ 92 ∷ 10 ∷ b'x' ∷ []))
        ∷ (hint_key, JsonValue.text (1 ∷ b'y' ∷ []))
        ∷ [])
read_object-print_json_error_example =
    read_object-print_json_error (b'E' ∷ []) (34 ∷ 92 ∷ 10 ∷ b'x' ∷ []) (some (1 ∷ b'y' ∷ []))
