-- ===== src/Strings.antt =====
-- libyaaf/utils/strings.h and strings.cpp: texts cut at a separator, joined, and mapped.
pub mod Tokens
use yaaf.Common.{
  ℕ, zero, suc, Option, none, some, ◌+◌, if◌then◌else◌, List, [], ◌∷◌, ◌++◌, map, length, Str, ◌==◌,
  nat_eq, str_eq,
}
use yaaf.Common.Outcomes.{Outcome, ok, out_of_fuel, ◌>>=◌}

-- The copying loop of `tokens`: `extract` is the stream's `>>`, which gives a word and leaves the rest, or
-- fails. The loop ends when it fails.
unfoldable pub copy_words : (Str → Option (Str × Str)) → ℕ → Str → Outcome (List Str)
copy_words extract zero iss = out_of_fuel
copy_words extract (suc fuel) iss = elim (extract iss) [
  | none ↦ ok []
  | some (word, rest) ↦ copy_words extract fuel rest >>= λ words. ok (word ∷ words)
]

-- No more words are read than there are characters.
unfoldable pub tokens : (Str → Option (Str × Str)) → Str → Outcome (List Str)
unfolding copy_words
tokens extract str = copy_words extract (suc (length str)) str

-- `if (temp != "") tokens.emplace_back(temp)`.
unfoldable pub emplace : Str → List Str → List Str
emplace temp tokens = if temp == [] then tokens else tokens ++ (temp ∷ [])

-- The loop of `split`: what has been read since `start`, the tokens so far, and the rest of the text.
unfoldable pub split_from : ℕ → Str → List Str → Str → List Str
unfolding emplace
split_from sep temp tokens [] = emplace temp tokens
split_from sep temp tokens (c ∷ text) =
    if c == sep
    then split_from sep [] (emplace temp tokens) text
    else split_from sep (temp ++ (c ∷ [])) tokens text

unfoldable pub split : Str → ℕ → List Str
split text sep = split_from sep [] [] text

-- `toupper` and `tolower` go by the locale.
unfoldable pub to_upper : (ℕ → ℕ) → Str → Str
to_upper toupper text = map toupper text

unfoldable pub to_lower : (ℕ → ℕ) → Str → Str
to_lower tolower text = map tolower text

-- `args_as_string`: the texts of the arguments fill the array, and their sizes are added up.
unfoldable pub args_as_string : ℕ → List Str → List Str × ℕ
args_as_string sz [] = ([], sz)
args_as_string sz (str ∷ tail) =
    let (s, total) = args_as_string (sz + length str) tail in (str ∷ s, total)

unfoldable pub append_each : Str → List Str → Str
append_each result [] = result
append_each result (v ∷ ss) = append_each (result ++ v) ss

unfoldable pub args_to_string : List Str → Str
unfolding append_each
args_to_string args = append_each [] (args_as_string 0 args).0
