-- ===== src/Json/Dumps.antt =====
-- `json.dumps(…, sort_keys=True, ensure_ascii=True)` of a flat object, as the program calls it: on an
-- observation (src/app/agent/tools.py) and on the goal in a decision context (src/app/agent/decision.py).
use saas_agent_lab.Common.{
  ℕ, ◌+◌, ◌-◌, ◌/◌, ◌%◌, String, Bool, true, false, List, [], ◌∷◌, ◌++◌, ◌||◌, ◌==◌, ltb,
  if◌then◌else◌,
}
use saas_agent_lab.Text.{Text, codes}
use saas_agent_lab.Text.Decimal.{decimal}

pub data Scalar : Type 0 where
  null : Scalar
  bool : Bool → Scalar
  num : ℕ → Scalar
  text : Text → Scalar

unfoldable pub hex_digit : ℕ → ℕ
hex_digit n = if ltb n 10 then b'0' + n else b'a' + (n - 10)

-- `\u{n:04x}`.
unfoldable pub unicode_escape : ℕ → Text
unfolding hex_digit
unicode_escape n =
    b'\\'
    ∷ b'u'
    ∷ hex_digit (n / 4096 % 16)
    ∷ hex_digit (n / 256 % 16)
    ∷ hex_digit (n / 16 % 16)
    ∷ hex_digit (n % 16)
    ∷ []

-- One character: escaped unless it is printable ASCII other than a quote or a backslash; beyond the
-- basic plane as a surrogate pair.
unfoldable pub escape : ℕ → Text
unfolding unicode_escape
escape c =
    if (c == 34) || (c == 92)
    then b'\\' ∷ c ∷ []
    else if c == 10
    then b'\\' ∷ b'n' ∷ []
    else if c == 13
    then b'\\' ∷ b'r' ∷ []
    else if c == 9
    then b'\\' ∷ b't' ∷ []
    else if c == 12
    then b'\\' ∷ b'f' ∷ []
    else if c == 8
    then b'\\' ∷ b'b' ∷ []
    else if ltb c 32 || ltb 126 c
    then (if ltb c 65536
        then unicode_escape c
        else unicode_escape (55296 + (c - 65536) / 1024)
          ++ unicode_escape (56320 + (c - 65536) % 1024))
    else c ∷ []

unfoldable pub escape_all : Text → Text
unfolding escape
escape_all [] = []
escape_all (c ∷ t) = escape c ++ escape_all t

unfoldable pub dump_string : Text → Text
unfolding escape_all
dump_string t = 34 ∷ (escape_all t ++ 34 ∷ [])

unfoldable pub dump_scalar : Scalar → Text
unfolding dump_string decimal
dump_scalar null = codes "null"
dump_scalar (bool true) = codes "true"
dump_scalar (bool false) = codes "false"
dump_scalar (num n) = decimal n
dump_scalar (text t) = dump_string t

-- Python compares texts by code points.
unfoldable pub text_leb : Text → Text → Bool
text_leb [] t = true
text_leb (c ∷ s) [] = false
text_leb (c ∷ s) (d ∷ t) = if c == d then text_leb s t else ltb c d

abbrev pub Object : Type 0
Object = List (String × Scalar)

unfoldable pub insert_key : String × Scalar → Object → Object
unfolding text_leb
insert_key e [] = e ∷ []
insert_key e (x ∷ xs) = if text_leb (codes e.0) (codes x.0) then e ∷ x ∷ xs else x ∷ insert_key e xs

unfoldable pub sort_keys : Object → Object
unfolding insert_key
sort_keys [] = []
sort_keys (e ∷ es) = insert_key e (sort_keys es)

-- The members behind the first, each behind the item separator.
unfoldable pub dump_rest : Text → Text → Object → Text
unfolding dump_scalar
dump_rest item_separator key_separator [] = []
dump_rest item_separator key_separator ((k, v) ∷ es) =
    item_separator
    ++ (dump_string (codes k)
        ++ (key_separator ++ (dump_scalar v ++ dump_rest item_separator key_separator es)))

unfoldable pub dump_members : Text → Text → Object → Text
unfolding dump_rest
dump_members item_separator key_separator [] = []
dump_members item_separator key_separator ((k, v) ∷ es) =
    dump_string (codes k)
    ++ (key_separator ++ (dump_scalar v ++ dump_rest item_separator key_separator es))

unfoldable pub dumps : Text → Text → Object → Text
unfolding dump_members sort_keys
dumps item_separator key_separator members =
    b'{' ∷ (dump_members item_separator key_separator (sort_keys members) ++ b'}' ∷ [])
