-- ===== src/Client/Json/Read.antt =====
-- What the JSON of USBPcapCMD/cmd.c reads back as: a reader of lines with a JSON object, by the grammar
-- of JSON.
use usbpcap_ai.Base.{
  ℕ, zero, suc, ◌+◌, ◌-◌, ◌*◌, ◌/◌, ◌%◌, ◌≡◌, ◌<◌, refl, ◌∙◌, ap, Bool, true, false, ◌&&◌, Option,
  none, some, List, [], ◌∷◌, ◌++◌, append_assoc, ltb, leb, ◌==◌, if◌then◌else◌, Bool-cases, inl,
  inr, arith,
}
use usbpcap_ai.Client.Json.{
  error_end, hint_part, message_start, print_json_error, escape_byte, escape_bytes, hex_digit,
  json_print_escaped, unicode_escape,
}

-- Within a string, behind a backslash, and in a number of hexadecimal digits that are left.
pub data Place : Type 0 where
  inside escaped : Place
  digits : ℕ → ℕ → Place

abbrev pub digit_value : ℕ → Option ℕ
digit_value c =
    if leb 48 c && leb c 57
    then some (c - 48)
    else if leb 97 c && leb c 102
    then some (c - 87)
    else none

-- The byte that a letter behind a backslash stands for.
abbrev pub escape_value : ℕ → Option ℕ
escape_value c =
    if c == 92
    then some 92
    else if c == 34
    then some 34
    else if c == 47
    then some 47
    else if c == b'b'
    then some 8
    else if c == b'f'
    then some 12
    else if c == b'n'
    then some 10
    else if c == b'r'
    then some 13
    else if c == b't'
    then some 9
    else none

abbrev pub with_byte : ℕ → Option (List ℕ × List ℕ) → Option (List ℕ × List ℕ)
with_byte c none = none
with_byte c (some (text, rest)) = some (c ∷ text, rest)

-- The string up to its closing quote, and what is behind it.
unfoldable pub read_string : Place → List ℕ → Option (List ℕ × List ℕ)
read_string place [] = none
read_string Place.inside (c ∷ cs) =
    let next = read_string Place.inside cs in
    let escape = read_string Place.escaped cs in
    if c == 34
    then some ([], cs)
    else if c == 92
    then escape
    else if ltb c 32
    then none
    else with_byte c next
read_string Place.escaped (c ∷ cs) =
    let next = read_string Place.inside cs in
    let number = read_string (Place.digits 3 0) cs in
    if c == b'u'
    then number
    else elim (escape_value c) [ none ↦ none | some byte ↦ with_byte byte next ]
read_string (Place.digits zero v) (c ∷ cs) =
    let next = read_string Place.inside cs in
    elim (digit_value c) [ none ↦ none | some d ↦ with_byte (v * 16 + d) next ]
read_string (Place.digits (suc k) v) (c ∷ cs) = elim (digit_value c) [
  | none ↦ none
  | some d ↦ read_string (Place.digits k (v * 16 + d)) cs
]

digit_value-hex_digit : (n : ℕ) → n < 16 → digit_value (hex_digit n) ≡ some n
unfolding hex_digit
digit_value-hex_digit n h = ground arith

-- A byte below 32 that is written with its number.
read_unicode :
    (c : ℕ) (rest : List ℕ)
    → c < 32
    → read_string Place.inside (unicode_escape c ++ rest)
      ≡ with_byte c (read_string Place.inside rest)
unfolding read_string
read_unicode c rest h =
    let high = digit_value-hex_digit (c / 16) (omega arith) in
    let low = digit_value-hex_digit (c % 16) (omega arith) in
    let whole : (0 + c / 16) * 16 + c % 16 ≡ c = omega arith in rw (high, low, whole) refl

read_plain :
    (c : ℕ) (rest : List ℕ)
    → (c == 34) ≡ false
    → (c == 92) ≡ false
    → ltb c 32 ≡ false
    → read_string Place.inside (c ∷ rest) ≡ with_byte c (read_string Place.inside rest)
unfolding read_string
read_plain c rest a b d = rw (a, b, d) refl

-- One byte is read back, whatever it is written as.
read_byte :
    (c : ℕ) (rest : List ℕ)
    → read_string Place.inside (escape_byte c ++ rest) ≡ with_byte c (read_string Place.inside rest)
unfolding read_string escape_byte
read_byte c rest = elim (Bool-cases (c == 92)) [
  | inl e ↦ let at : c ≡ 92 = ground arith in rw at refl
  | inr a ↦ elim (Bool-cases (c == 34)) [
    | inl e ↦ let at : c ≡ 34 = ground arith in rw at refl
    | inr b ↦ elim (Bool-cases (c == 8)) [
      | inl e ↦ let at : c ≡ 8 = ground arith in rw at refl
      | inr d ↦ elim (Bool-cases (c == 12)) [
        | inl e ↦ let at : c ≡ 12 = ground arith in rw at refl
        | inr f ↦ elim (Bool-cases (c == 10)) [
          | inl e ↦ let at : c ≡ 10 = ground arith in rw at refl
          | inr g ↦ elim (Bool-cases (c == 13)) [
            | inl e ↦ let at : c ≡ 13 = ground arith in rw at refl
            | inr h ↦ elim (Bool-cases (c == 9)) [
              | inl e ↦ let at : c ≡ 9 = ground arith in rw at refl
              | inr i ↦ elim (Bool-cases (ltb c 32)) [
                | inl e ↦ rw (a, b, d, f, g, h, i, e) (read_unicode c rest (ground arith))
                | inr e ↦ rw (a, b, d, f, g, h, i, e) (read_plain c rest b a e)
              ]
            ]
          ]
        ]
      ]
    ]
  ]
]

read_bytes :
    (text rest : List ℕ)
    → read_string Place.inside (escape_bytes text ++ 34 ∷ rest) ≡ some (text, rest)
unfolding escape_bytes read_string
read_bytes [] rest = refl
read_bytes (c ∷ text) rest =
    ap (λ x. read_string Place.inside x)
      (append_assoc (escape_byte c) (escape_bytes text) (34 ∷ rest))
    ∙ read_byte c (escape_bytes text ++ 34 ∷ rest)
    ∙ ap (λ x. with_byte c x) (read_bytes text rest)

-- A string with its quotes.
unfoldable pub read_quoted : List ℕ → Option (List ℕ × List ℕ)
read_quoted [] = none
read_quoted (c ∷ cs) = let rest = read_string Place.inside cs in if c == 34 then rest else none

-- A value: a string, or true or false.
pub data JsonValue : Type 0 where
  text : List ℕ → JsonValue
  truth : Bool → JsonValue

abbrev pub Member : Type 0
Member = List ℕ × JsonValue

abbrev as_text : Option (List ℕ × List ℕ) → Option (JsonValue × List ℕ)
as_text none = none
as_text (some (value, rest)) = some (JsonValue.text value, rest)

-- A word that is expected is taken off.
unfoldable pub strip : List ℕ → List ℕ → Option (List ℕ)
strip [] cs = some cs
strip (p ∷ ps) [] = none
strip (p ∷ ps) (c ∷ cs) = let rest = strip ps cs in if c == p then rest else none

abbrev as_truth : Bool → Option (List ℕ) → Option (JsonValue × List ℕ)
as_truth b none = none
as_truth b (some rest) = some (JsonValue.truth b, rest)

unfoldable pub read_value : List ℕ → Option (JsonValue × List ℕ)
read_value [] = none
read_value (c ∷ cs) =
    if c == 34
    then as_text (read_string Place.inside cs)
    else if c == b't'
    then as_truth true (strip (b'r' ∷ b'u' ∷ b'e' ∷ []) cs)
    else if c == b'f'
    then as_truth false (strip (b'a' ∷ b'l' ∷ b's' ∷ b'e' ∷ []) cs)
    else none

abbrev pub Members : Type 0
Members = Option (List Member × List ℕ)

abbrev add_member : Member → Members → Members
add_member m none = none
add_member m (some (ms, rest)) = some (m ∷ ms, rest)

-- Behind a value: a comma and other members, or the end of the object.
abbrev after_value : (List ℕ → Members) → List ℕ → Option (JsonValue × List ℕ) → Members
after_value more key none = none
after_value more key (some (v, [])) = none
after_value more key (some (v, c ∷ rest)) =
    if c == b','
    then add_member (key, v) (more rest)
    else if c == b'}'
    then some ((key, v) ∷ [], rest)
    else none

abbrev after_colon : (List ℕ → Members) → List ℕ → Option (List ℕ) → Members
after_colon more key none = none
after_colon more key (some rest) = after_value more key (read_value rest)

abbrev after_key : (List ℕ → Members) → Option (List ℕ × List ℕ) → Members
after_key more none = none
after_key more (some (key, rest)) = after_colon more key (strip (b':' ∷ []) rest)

-- At least one member and at most `n`, up to the closing brace, and what is behind it.
unfoldable pub read_members : ℕ → List ℕ → Members
read_members zero cs = none
read_members (suc n) cs = after_key (λ rest. read_members n rest) (read_quoted cs)

-- Nothing but a line feed is behind the object.
abbrev ended : Members → Option (List Member)
ended (some (ms, c ∷ [])) = if c == 10 then some ms else none
ended _ = none

-- A line with an object of one member and at most `n`.
unfoldable pub read_object : ℕ → List ℕ → Option (List Member)
read_object n [] = none
read_object n (c ∷ cs) = if c == b'{' then ended (read_members n cs) else none

read_value-json_print_escaped :
    (value rest : List ℕ)
    → read_value (json_print_escaped (some value) ++ rest) ≡ some (JsonValue.text value, rest)
unfolding read_value json_print_escaped
read_value-json_print_escaped value rest =
    ap (λ x. as_text (read_string Place.inside x))
      (append_assoc (escape_bytes value) (34 ∷ []) rest)
    ∙ ap (λ o. as_text o) (read_bytes value rest)

abbrev pub ok_key : List ℕ
ok_key = b'o' ∷ b'k' ∷ []

abbrev pub code_key : List ℕ
code_key = b'e' ∷ b'r' ∷ b'r' ∷ b'o' ∷ b'r' ∷ b'C' ∷ b'o' ∷ b'd' ∷ b'e' ∷ []

abbrev pub message_key : List ℕ
message_key = b'm' ∷ b'e' ∷ b's' ∷ b's' ∷ b'a' ∷ b'g' ∷ b'e' ∷ []

abbrev pub hint_key : List ℕ
hint_key = b'h' ∷ b'i' ∷ b'n' ∷ b't' ∷ []

abbrev pub hint_member : Option (List ℕ) → List Member
hint_member none = []
hint_member (some hint) = (hint_key, JsonValue.text hint) ∷ []

-- The message is followed by the hint, or ends the object.
after_message :
    (message : List ℕ) (hint : Option (List ℕ))
    → after_value
        (λ rest. read_members 1 rest)
        message_key
        (some (JsonValue.text message, hint_part hint ++ error_end))
      ≡ some ((message_key, JsonValue.text message) ∷ hint_member hint, 10 ∷ [])
unfolding read_members read_quoted read_string strip
after_message message none = refl
after_message message (some hint) =
    ap
      (λ o.
        add_member (message_key, JsonValue.text message)
          (after_value (λ rest. read_members 0 rest) hint_key o))
      (read_value-json_print_escaped hint error_end)

-- The error line that is printed is one JSON object: its members are `ok`, which is false, the error
-- code, the message and, where there is one, the hint, in this order, and the texts read back as
-- those that were printed, whatever bytes they have.
pub read_object-print_json_error :
    (code message : List ℕ) (hint : Option (List ℕ))
    → read_object 4 (print_json_error code message hint)
      ≡ some (
          (ok_key, JsonValue.truth false)
          ∷ (code_key, JsonValue.text code)
          ∷ (message_key, JsonValue.text message)
          ∷ hint_member hint)
unfolding read_object print_json_error read_members read_quoted read_string strip read_value
read_object-print_json_error code message hint =
    let last = hint_part hint ++ error_end in
    let behind = message_start ++ (json_print_escaped (some message) ++ last) in
    let ok_member : Member = (ok_key, JsonValue.truth false) in
    let code_member : Member = (code_key, JsonValue.text code) in
    ap (λ o. ended (add_member ok_member (after_value (λ rest. read_members 2 rest) code_key o)))
      (read_value-json_print_escaped code behind)
    ∙ ap
        (λ o. ended (
          add_member ok_member
            (add_member code_member (after_value (λ rest. read_members 1 rest) message_key o))))
        (read_value-json_print_escaped message last)
    ∙ ap (λ o. ended (add_member ok_member (add_member code_member o))) (after_message message hint)
