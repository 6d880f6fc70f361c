-- ===== src/Text.antt =====
-- Python's `str` as the program uses it: code points, `strip`, `startswith`, `in`, and decimal
-- printing in f-strings. Case mappings are Unicode tables of the interpreter: `Unicode` below.
pub mod Laws
pub mod Decimal
use Prim.Native.Char.{code}
use saas_agent_lab.Common.{
  ℕ, ◌+◌, ◌<◌, ◌≡◌, String, Bool, true, false, not, ◌&&◌, ◌||◌, List, [], ◌∷◌, ◌++◌, map, leb, ◌==◌,
  All, if◌then◌else◌,
}

abbrev pub Text : Type 0
Text = List ℕ

-- A literal of the source as a text.
abbrev pub codes : String → Text
codes String.[] = []
codes (String.◌∷◌ c s) = code c ∷ codes s

-- `str.isspace` of one character, which is also what `\s` matches in `re`.
unfoldable pub is_space : ℕ → Bool
is_space c =
    leb 9 c && leb c 13
    || leb 28 c && leb c 32
    || c == 133
    || c == 160
    || c == 5760
    || leb 8192 c && leb c 8202
    || c == 8232
    || c == 8233
    || c == 8239
    || c == 8287
    || c == 12288

abbrev pub is_empty : Text → Bool
is_empty [] = true
is_empty (_ ∷ _) = false

unfoldable pub lstrip : Text → Text
lstrip [] = []
lstrip (c ∷ s) = if is_space c then lstrip s else c ∷ s

unfoldable pub rstrip : Text → Text
rstrip [] = []
rstrip (c ∷ s) = let rest = rstrip s in if is_empty rest && is_space c then [] else c ∷ rest

-- `value.strip()`.
unfoldable pub strip : Text → Text
unfolding lstrip rstrip
strip s = rstrip (lstrip s)

-- `text.startswith(prefix)`, the prefix first.
unfoldable pub starts_with : Text → Text → Bool
starts_with [] t = true
starts_with (p ∷ ps) [] = false
starts_with (p ∷ ps) (c ∷ t) = (p == c) && starts_with ps t

-- `part in text`, the part first.
unfoldable pub is_substring : Text → Text → Bool
unfolding starts_with
is_substring part [] = starts_with part []
is_substring part (c ∷ t) = starts_with part (c ∷ t) || is_substring part t

abbrev pub IsAscii : Text → Type 0
IsAscii = All (λ c. c < 128)

abbrev pub ascii_lower : ℕ → ℕ
ascii_lower c = if leb b'A' c && leb c b'Z' then c + 32 else c

-- The interpreter's Unicode tables. `lower` maps whole texts, since it looks at the neighbours of a
-- final sigma; full case folding maps character by character. On ASCII both are the usual mapping.
pub record Unicode : Type 0 where
  pub lower : Text → Text
  pub fold : ℕ → Text
  pub lower_ascii : (t : Text) → IsAscii t → lower t ≡ map ascii_lower t
  pub fold_ascii : (c : ℕ) → c < 128 → fold c ≡ ascii_lower c ∷ []

-- `text.casefold()`.
unfoldable pub casefold : Unicode → Text → Text
casefold u [] = []
casefold u (c ∷ t) = u.fold c ++ casefold u t
