-- ===== src/Js/Json.antt =====
-- `JSON.stringify` of texts, arrays and objects.
use network_monitoring.Base.{
  ℕ, Bool, ◌&&◌, List, [], ◌∷◌, ◌++◌, ltb, leb, nat_beq, if◌then◌else◌, Str, map, codes, codes,
}
use network_monitoring.Js.Text.{join, to_string, pad_start}

abbrev is_lead : ℕ → Bool
is_lead c = leb 0xd800 c && ltb c 0xdc00

abbrev is_trail : ℕ → Bool
is_trail c = leb 0xdc00 c && ltb c 0xe000

-- `\u` and four hexadecimal digits.
abbrev unicode_escape : ℕ → Str
unicode_escape c = 92 ∷ b'u' ∷ pad_start 4 (to_string 16 c)

-- A code unit that is no half of a surrogate pair.
unfoldable pub quote_unit : ℕ → Str
quote_unit c =
    if nat_beq c 8
    then 92 ∷ b'b' ∷ []
    else if nat_beq c 9
    then 92 ∷ b't' ∷ []
    else if nat_beq c 10
    then 92 ∷ b'n' ∷ []
    else if nat_beq c 12
    then 92 ∷ b'f' ∷ []
    else if nat_beq c 13
    then 92 ∷ b'r' ∷ []
    else if nat_beq c 34
    then 92 ∷ 34 ∷ []
    else if nat_beq c 92
    then 92 ∷ 92 ∷ []
    else if ltb c 32
    then unicode_escape c
    else if is_lead c
    then unicode_escape c
    else if is_trail c
    then unicode_escape c
    else c ∷ []

unfoldable pub quote_units : Str → Str
quote_units [] = []
quote_units (c ∷ []) = quote_unit c
quote_units (c ∷ d ∷ s) =
    let pair = c ∷ d ∷ quote_units s in
    let single = quote_unit c ++ quote_units (d ∷ s) in
    if is_lead c && is_trail d then pair else single

-- `JSON.stringify(text)`
unfoldable pub quote : Str → Str
quote s = 34 ∷ (quote_units s ++ (34 ∷ []))

-- An array of what has been written already.
unfoldable pub bracketed : List Str → Str
bracketed parts = b'[' ∷ (join (codes ",") parts ++ (b']' ∷ []))

abbrev member : Str × Str → Str
member field = quote field.0 ++ (b':' ∷ field.1)

-- An object of what has been written already.
unfoldable pub object : List (Str × Str) → Str
object fields = b'{' ∷ (join (codes ",") (map member fields) ++ (b'}' ∷ []))
