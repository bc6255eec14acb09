-- ===== src/Ledger/Links.antt =====
-- The identity of a video in vios/capture/ledger.py: `PERMALINK` and `canonical` for the links of
-- Instagram, `upload_key`, `is_upload` and `upload_msg_id` for a video that stands in the channel
-- alone. Of the letters beyond ASCII that Python's IGNORECASE folds onto i, k and s, and of the
-- digits beyond ASCII that its `\d` takes, nothing is modelled: they match nothing here.
pub mod Roundtrip
pub mod Uploads
use Prim.Native.Char.{Char, code}
use Prim.Native.String
use vios_manus.Common.{
  ℕ, zero, suc, ◌+◌, ◌-◌, ◌*◌, ◌/◌, ◌%◌, Bool, true, false, ◌&&◌, ◌||◌, not, Option, none, some,
  String, List, [], ◌∷◌, ◌++◌, ltb, leb, ◌==◌, length, get_or, if◌then◌else◌,
}

-- A text as the list of its characters, and back.
abbrev pub chars : String → List Char
chars String.[] = []
chars (String.◌∷◌ c s) = c ∷ chars s

abbrev pub text : List Char → String
text [] = String.[]
text (c ∷ cs) = String.◌∷◌ c (text cs)

-- A letter of the pattern, in lower case, against a character, as IGNORECASE does.
abbrev pub folds : ℕ → ℕ → Bool
folds l c = c == l || (leb b'a' l && (leb l b'z' && c + 32 == l))

-- The rest behind a literal part of the pattern.
unfoldable pub drop_text : List Char → List Char → Option (List Char)
drop_text [] s = some s
drop_text (l ∷ ls) [] = none
drop_text (l ∷ ls) (c ∷ s) = if folds (code l) (code c) then drop_text ls s else none

-- The rest behind an optional part. What it skips cannot match the part that follows.
unfoldable pub drop_maybe : List Char → List Char → List Char
unfolding drop_text
drop_maybe part s = elim (drop_text part s) [ some rest ↦ rest | none ↦ s ]

abbrev is_letter : ℕ → Bool
is_letter c = leb b'a' c && leb c b'z' || leb b'A' c && leb c b'Z'

abbrev is_digit : ℕ → Bool
is_digit c = leb b'0' c && leb c b'9'

-- `[A-Za-z0-9_.]`
abbrev pub is_user_char : Char → Bool
is_user_char c = is_letter (code c) || (is_digit (code c) || (code c == b'_' || code c == b'.'))

-- `[A-Za-z0-9_-]`
abbrev pub is_key_char : Char → Bool
is_key_char c = is_letter (code c) || (is_digit (code c) || (code c == b'_' || code c == b'-'))

-- The longest run of characters of a class, and what follows it.
unfoldable pub run_of : (Char → Bool) → List Char → List Char
run_of p [] = []
run_of p (c ∷ s) = if p c then c ∷ run_of p s else []

unfoldable pub after_run : (Char → Bool) → List Char → List Char
after_run p [] = []
after_run p (c ∷ s) = if p c then after_run p s else c ∷ s

-- `(reel|reels|p|tv)/`: the kind that matched, as `canonical` writes it, and the rest
unfoldable pub match_kind : List Char → Option (List Char × List Char)
unfolding drop_text
match_kind s = elim (drop_text (chars "reel/") s) [
  | some rest ↦ some (chars "reel", rest)
  | none ↦ elim (drop_text (chars "reels/") s) [
    | some rest ↦ some (chars "reel", rest)
    | none ↦ elim (drop_text (chars "p/") s) [
      | some rest ↦ some (chars "p", rest)
      | none ↦ elim (drop_text (chars "tv/") s) [
        | some rest ↦ some (chars "tv", rest)
        | none ↦ none
      ]
    ]
  ]
]

-- `{5,}`
abbrev pub long_enough : List Char → List Char → Option (List Char × List Char)
long_enough kind key = if ltb (length key) 5 then none else some (kind, key)

-- `(reel|reels|p|tv)/([A-Za-z0-9_-]{5,})`
unfoldable pub match_post : List Char → Option (List Char × List Char)
unfolding match_kind run_of
match_post s = elim (match_kind s) [
  | none ↦ none
  | some (kind, rest) ↦ long_enough kind (run_of is_key_char rest)
]

-- The same behind `[A-Za-z0-9_.]+/`, which must not be empty.
unfoldable pub match_user_post : List Char → Option (List Char × List Char)
unfolding match_post run_of after_run
match_user_post s = elim (run_of is_user_char s) [
  | [] ↦ none
  | u ∷ us ↦ elim (drop_text (chars "/") (after_run is_user_char s)) [
    | none ↦ none
    | some rest ↦ match_post rest
  ]
]

-- The whole pattern at one place: with the user's name if that matches, else without.
unfoldable pub match_path : List Char → Option (List Char × List Char)
unfolding match_post match_user_post
match_path s = elim (match_user_post s) [ some m ↦ some m | none ↦ match_post s ]

unfoldable pub match_host : List Char → Option (List Char × List Char)
unfolding match_path drop_maybe
match_host s = elim (drop_text (chars "instagram.com/") (drop_maybe (chars "www.") s)) [
  | none ↦ none
  | some rest ↦ match_path rest
]

unfoldable pub match_link : List Char → Option (List Char × List Char)
unfolding match_host
match_link s = elim (drop_text (chars "http") s) [
  | none ↦ none
  | some rest ↦ elim (drop_text (chars "://") (drop_maybe (chars "s") rest)) [
    | none ↦ none
    | some rest' ↦ match_host rest'
  ]
]

-- `PERMALINK.search`: the leftmost match
unfoldable pub search_link : List Char → Option (List Char × List Char)
unfolding match_link
search_link [] = none
search_link (c ∷ s) = elim (match_link (c ∷ s)) [ some m ↦ some m | none ↦ search_link s ]

-- The result of `canonical`.
pub record Canonical : Type 0 where
  pub key : String
  pub url : String
  pub kind : String

-- `https://www.instagram.com/{kind}/{key}/`
abbrev pub permalink : List Char → List Char → List Char
permalink kind key =
    chars "https://www.instagram.com/" ++ (kind ++ (chars "/" ++ (key ++ chars "/")))

abbrev pub canonical_of : List Char × List Char → Canonical
canonical_of (kind, key) = record {
  key = text key;
  url = text (permalink kind key);
  kind = text kind;
}

unfoldable pub canonical : String → Option Canonical
unfolding search_link
canonical url = elim (search_link (chars url)) [ none ↦ none | some m ↦ some (canonical_of m) ]

-- A decimal digit as a character.
unfoldable pub digit : ℕ → Char
digit d = get_or (chars "0123456789") d "0"

-- `str(n)`, the digits of `n` in front of `out`, with fuel for its rounds
unfoldable pub digits : ℕ → ℕ → List Char → List Char
unfolding digit
digits zero n out = out
digits (suc fuel) n out =
    let rest = digits fuel (n / 10) (digit (n % 10) ∷ out) in
    if n / 10 == 0 then digit (n % 10) ∷ out else rest

-- `upload_key`
unfoldable pub upload_key : ℕ → String
unfolding digits
upload_key msg_id = text (chars "up_" ++ digits (suc msg_id) msg_id [])

-- The rest behind a text that must be there as it is written.
unfoldable pub drop_exact : List Char → List Char → Option (List Char)
drop_exact [] s = some s
drop_exact (l ∷ ls) [] = none
drop_exact (l ∷ ls) (c ∷ s) = if code c == code l then drop_exact ls s else none

-- `int` of a run of digits, behind the number read so far
unfoldable pub value : ℕ → List Char → ℕ
value n [] = n
value n (c ∷ s) = value (n * 10 + (code c - b'0')) s

-- `$` matches at the end, and before a line feed that ends the text.
abbrev at_end : List Char → Bool
at_end [] = true
at_end (c ∷ []) = code c == 10
at_end (c ∷ d ∷ s) = false

abbrev group_if : Bool → List Char → Option (List Char)
group_if true run = some run
group_if false run = none

abbrev pub some_digits : List Char → List Char → Option (List Char)
some_digits [] rest = none
some_digits (c ∷ run) rest = group_if (at_end rest) (c ∷ run)

abbrev pub is_digit_char : Char → Bool
is_digit_char c = is_digit (code c)

-- `_UPLOAD_KEY.match`: the digits of its group
unfoldable pub match_upload : String → Option (List Char)
unfolding drop_exact run_of after_run
match_upload key = elim (drop_exact (chars "up_") (chars key)) [
  | none ↦ none
  | some rest ↦ some_digits (run_of is_digit_char rest) (after_run is_digit_char rest)
]

unfoldable pub is_upload : String → Bool
unfolding match_upload
is_upload key = elim (match_upload key) [ none ↦ false | some run ↦ true ]

unfoldable pub upload_msg_id : String → ℕ
unfolding match_upload value
upload_msg_id key = elim (match_upload key) [ none ↦ 0 | some run ↦ value 0 run ]
