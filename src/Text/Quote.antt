-- ===== src/Text/Quote.antt =====
-- The quoted texts of Go's standard library, for texts of ASCII: `%q` of `fmt`, and the strings of
-- `encoding/json`.
use terraform_provider_zedam.Prelude.{
  ℕ, ◌+◌, ◌-◌, ◌/◌, ◌%◌, ltb, ◌==◌, ◌||◌, [], ◌∷◌, ◌++◌, if◌then◌else◌, ◌≡◌, refl,
}
use terraform_provider_zedam.Text.{Text, codes}

unfoldable pub hex_digit : ℕ → ℕ
hex_digit n = if ltb n 10 then b'0' + n else b'a' + (n - 10)

unfoldable pub hex_byte : ℕ → Text
unfolding hex_digit
hex_byte c = hex_digit (c / 16) ∷ hex_digit (c % 16) ∷ []

-- one byte of `%q`
unfoldable pub quote_byte : ℕ → Text
unfolding hex_byte
quote_byte c =
    if c == b'"' || c == 92
    then 92 ∷ c ∷ []
    else if c == 7
    then codes "\\a"
    else if c == 8
    then codes "\\b"
    else if c == 12
    then codes "\\f"
    else if c == 10
    then codes "\\n"
    else if c == 13
    then codes "\\r"
    else if c == 9
    then codes "\\t"
    else if c == 11
    then codes "\\v"
    else if ltb c 32 || c == 127
    then codes "\\x" ++ hex_byte c
    else c ∷ []

quote_bytes : Text → Text
unfolding quote_byte
quote_bytes [] = []
quote_bytes (c ∷ s) = quote_byte c ++ quote_bytes s

-- `fmt.Sprintf("%q", s)`
unfoldable pub go_quote : Text → Text
unfolding quote_bytes
go_quote s = b'"' ∷ (quote_bytes s ++ (b'"' ∷ []))

-- one byte of a JSON string, with the escapes for HTML that `json.Marshal` makes
unfoldable pub json_byte : ℕ → Text
unfolding hex_byte
json_byte c =
    if c == b'"' || c == 92
    then 92 ∷ c ∷ []
    else if c == 8
    then codes "\\b"
    else if c == 12
    then codes "\\f"
    else if c == 10
    then codes "\\n"
    else if c == 13
    then codes "\\r"
    else if c == 9
    then codes "\\t"
    else if ltb c 32 || c == b'<' || c == b'>' || c == b'&'
    then codes "\\u00" ++ hex_byte c
    else c ∷ []

unfoldable pub json_bytes : Text → Text
unfolding json_byte
json_bytes [] = []
json_bytes (c ∷ s) = json_byte c ++ json_bytes s

-- a JSON string
unfoldable pub json_string : Text → Text
unfolding json_bytes
json_string s = b'"' ∷ (json_bytes s ++ (b'"' ∷ []))

quotes : go_quote (codes "a\"b\n") ≡ codes "\"a\\\"b\\n\""
unfolding go_quote
quotes = refl

escapes : json_string (codes "a<\"b") ≡ codes "\"a\\u003c\\\"b\""
unfolding json_string
escapes = refl
