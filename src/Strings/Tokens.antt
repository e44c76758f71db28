-- ===== src/Strings/Tokens.antt =====
-- libyaaf/utils/strings.cpp: what `split` keeps of a text, and the size that `args_to_string` reserves.
use yaaf.Common.{
  ℕ, ◌+◌, ◌≡◌, refl, false, if◌then◌else◌, List, [], ◌∷◌, ◌++◌, length, length-append, All, Str,
  ◌==◌, nat_eq, str_eq, append_assoc, append-nil, arith, contains, Bool-cases, inl, inr, ◌≢◌,
}
use yaaf.Strings.{emplace, split_from, split, args_as_string, args_to_string, append_each}

-- The tokens without the gaps between them, and the text without its separators.
abbrev pub joined : List Str → Str
joined [] = []
joined (t ∷ ts) = t ++ joined ts

abbrev pub without : ℕ → Str → Str
without sep [] = []
without sep (c ∷ text) = let rest = without sep text in if c == sep then rest else c ∷ rest

-- Not empty, and without the separator.
abbrev pub IsToken : ℕ → Str → Type 0
IsToken sep t = (t ≢ []) × (contains sep t ≡ false)

joined-append : (ts us : List Str) → joined (ts ++ us) ≡ joined ts ++ joined us
joined-append [] us = refl
joined-append (t ∷ ts) us = rw (joined-append ts us, append_assoc t (joined ts) (joined us))

joined-emplace : (temp : Str) (ts : List Str) → joined (emplace temp ts) ≡ joined ts ++ temp
unfolding emplace
joined-emplace [] ts = rw append-nil
joined-emplace (c ∷ temp) ts = rw (joined-append ts ((c ∷ temp) ∷ []), append-nil)

joined-split_from :
    (sep : ℕ) (temp : Str) (ts : List Str) (text : Str)
    → joined (split_from sep temp ts text) ≡ joined ts ++ (temp ++ without sep text)
unfolding split_from
joined-split_from sep temp ts [] = rw (joined-emplace temp ts, append-nil)
joined-split_from sep temp ts (c ∷ text) = elim (Bool-cases (c == sep)) [
  | inl same ↦
      rw
        (
          same,
          joined-split_from sep [] (emplace temp ts) text,
          joined-emplace temp ts,
          append_assoc (joined ts) temp (without sep text),
        )
        refl
  | inr other ↦
      rw
        (
          other,
          joined-split_from sep (temp ++ (c ∷ [])) ts text,
          append_assoc temp (c ∷ []) (without sep text),
        )
        refl
]

All-append :
    (sep : ℕ) (ts us : List Str)
    → All (IsToken sep) ts
    → All (IsToken sep) us
    → All (IsToken sep) (ts ++ us)
All-append sep [] us h k = k
All-append sep (t ∷ ts) us (h, hs) k = (h, All-append sep ts us hs k)

contains-append :
    (c d : ℕ) (s : Str)
    → contains c s ≡ false
    → (d == c) ≡ false
    → contains c (s ++ (d ∷ [])) ≡ false
unfolding contains
contains-append c d [] h k = ground arith
contains-append c d (x ∷ s) h k = ground (arith, contains-append c d s)

emplace-IsToken :
    (sep : ℕ) (temp : Str) (ts : List Str)
    → contains sep temp ≡ false
    → All (IsToken sep) ts
    → All (IsToken sep) (emplace temp ts)
unfolding emplace
emplace-IsToken sep [] ts h k = k
emplace-IsToken sep (c ∷ temp) ts h k = All-append sep ts _ k ((λ e. ground arith, h), tt)

split_from-IsToken :
    (sep : ℕ) (temp : Str) (ts : List Str) (text : Str)
    → contains sep temp ≡ false
    → All (IsToken sep) ts
    → All (IsToken sep) (split_from sep temp ts text)
unfolding split_from contains
split_from-IsToken sep temp ts [] h k = emplace-IsToken sep temp ts h k
split_from-IsToken sep temp ts (c ∷ text) h k = elim (Bool-cases (c == sep)) [
  | inl same ↦
      rw same
        (split_from-IsToken sep [] (emplace temp ts) text refl (emplace-IsToken sep temp ts h k))
  | inr other ↦ rw other (split_from-IsToken sep _ ts text (contains-append sep c temp h other) k)
]

-- The tokens that `split` gives are not empty and contain no separator, and one behind another they
-- are the text without its separators.
pub split_lem :
    (text : Str) (sep : ℕ)
    → All (IsToken sep) (split text sep) × (joined (split text sep) ≡ without sep text)
unfolding split contains
split_lem text sep = (split_from-IsToken sep [] [] text refl tt, joined-split_from sep [] [] text)

length-append_each :
    (result : Str) (sz : ℕ) (args : List Str)
    → sz ≡ length result
    → (args_as_string sz args).1 ≡ length (append_each result (args_as_string sz args).0)
unfolding append_each args_as_string
length-append_each result sz [] h = h
length-append_each result sz (str ∷ args) h =
    length-append_each (result ++ str) (sz + length str) args
      (omega (arith, h, length-append result str))

-- The size that `args_to_string` reserves is the size of its result.
pub length-args_to_string :
    (args : List Str) → (args_as_string 0 args).1 ≡ length (args_to_string args)
unfolding args_to_string
length-args_to_string args = length-append_each [] 0 args refl
