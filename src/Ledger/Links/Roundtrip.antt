-- ===== src/Ledger/Links/Roundtrip.antt =====
-- `canonical` of vios/capture/ledger.py on its own results.
use Prim.Native.Char.{Char, code}
use mathlib.Core.Path.{subst}
use vios_manus.Common.{
  ◌≤◌, ◌≡◌, ◌⊎◌, refl, ap, Bool, true, false, Option, none, some, String, List, [], ◌∷◌, ◌++◌,
  arith, ltb, length, All, Bool-cases, Option-cases, inl, inr,
}
use vios_manus.Ledger.Links.{
  chars, text, folds, drop_text, is_key_char, is_user_char, run_of, after_run, match_kind,
  match_post, match_user_post, match_path, match_host, match_link, search_link, long_enough,
  Canonical, permalink, canonical_of, canonical, drop_maybe,
}

pub chars-text : (cs : List Char) → chars (text cs) ≡ cs
chars-text [] = refl
chars-text (c ∷ cs) = ap (λ s. c ∷ s) (chars-text cs)

-- What a match of the pattern consists of.
pub record IsPost (kind key : List Char) : Type 0 where
  pub known : (kind ≡ chars "reel") ⊎ ((kind ≡ chars "p") ⊎ (kind ≡ chars "tv"))
  pub letters : All (λ c. is_key_char c ≡ true) key
  pub long : 5 ≤ length key

abbrev IsMatch : Option (List Char × List Char) → Type 0
IsMatch none = Unit {0}
IsMatch (some (kind, key)) = IsPost kind key

abbrev IsKind : Option (List Char × List Char) → Type 0
IsKind none = Unit {0}
IsKind (some (kind, rest)) = (kind ≡ chars "reel") ⊎ ((kind ≡ chars "p") ⊎ (kind ≡ chars "tv"))

match_kind-IsKind : (s : List Char) → IsKind (match_kind s)
unfolding match_kind
match_kind-IsKind s = elim (Option-cases (drop_text (chars "reel/") s)) [
  | inr (r, e) ↦ rw (match_kind, e) (inl refl)
  | inl e ↦ elim (Option-cases (drop_text (chars "reels/") s)) [
    | inr (r, f) ↦ rw (match_kind, e, f) (inl refl)
    | inl f ↦ elim (Option-cases (drop_text (chars "p/") s)) [
      | inr (r, g) ↦ rw (match_kind, e, f, g) (inr (inl refl))
      | inl g ↦ elim (Option-cases (drop_text (chars "tv/") s)) [
        | inr (r, h) ↦ rw (match_kind, e, f, g, h) (inr (inr refl))
        | inl h ↦ rw (match_kind, e, f, g, h) tt
      ]
    ]
  ]
]

run_of_holds : (p : Char → Bool) (s : List Char) → All (λ c. p c ≡ true) (run_of p s)
unfolding run_of
run_of_holds p [] = tt
run_of_holds p (c ∷ s) = elim (Bool-cases (p c)) [
  | inl e ↦ rw e (e, run_of_holds p s)
  | inr e ↦ rw e tt
]

long_enough-IsMatch :
    (kind key : List Char)
    → (kind ≡ chars "reel") ⊎ ((kind ≡ chars "p") ⊎ (kind ≡ chars "tv"))
    → All (λ c. is_key_char c ≡ true) key
    → IsMatch (long_enough kind key)
long_enough-IsMatch kind key known letters = elim (Bool-cases (ltb (length key) 5)) [
  | inl short ↦ rw short tt
  | inr long ↦ rw long (record { known = known; letters = letters; long = ground arith })
]

match_post-IsMatch : (s : List Char) → IsMatch (match_post s)
unfolding match_post
match_post-IsMatch s = elim (Option-cases (match_kind s)) [
  | inl e ↦ rw (match_post, e) tt
  | inr ((kind, rest), e) ↦
      rw (match_post, e)
        (long_enough-IsMatch kind (run_of is_key_char rest) (subst IsKind e (match_kind-IsKind s))
          (run_of_holds is_key_char rest))
]

match_user_post-IsMatch : (s : List Char) → IsMatch (match_user_post s)
unfolding match_user_post
match_user_post-IsMatch s = user (run_of is_user_char s) refl
  where
    user : (run : List Char) → run_of is_user_char s ≡ run → IsMatch (match_user_post s)
    user [] e = rw (match_user_post, e) tt
    user (u ∷ us) e = elim (Option-cases (drop_text (chars "/") (after_run is_user_char s))) [
      | inl f ↦ rw (match_user_post, e, f) tt
      | inr (rest, f) ↦ rw (match_user_post, e, f) (match_post-IsMatch rest)
    ]

match_path-IsMatch : (s : List Char) → IsMatch (match_path s)
unfolding match_path
match_path-IsMatch s = elim (Option-cases (match_user_post s)) [
  | inl e ↦ rw (match_path, e) (match_post-IsMatch s)
  | inr (m, e) ↦ rw (match_path, e) (subst IsMatch e (match_user_post-IsMatch s))
]

match_host-IsMatch : (s : List Char) → IsMatch (match_host s)
unfolding match_host
match_host-IsMatch s =
    elim (Option-cases (drop_text (chars "instagram.com/") (drop_maybe (chars "www.") s))) [
      | inl e ↦ rw (match_host, e) tt
      | inr (rest, e) ↦ rw (match_host, e) (match_path-IsMatch rest)
    ]

match_link-IsMatch : (s : List Char) → IsMatch (match_link s)
unfolding match_link
match_link-IsMatch s = elim (Option-cases (drop_text (chars "http") s)) [
  | inl e ↦ rw (match_link, e) tt
  | inr (rest, e) ↦ elim (Option-cases (drop_text (chars "://") (drop_maybe (chars "s") rest))) [
    | inl f ↦ rw (match_link, e, f) tt
    | inr (rest', f) ↦ rw (match_link, e, f) (match_host-IsMatch rest')
  ]
]

search_link-IsMatch : (s : List Char) → IsMatch (search_link s)
unfolding search_link
search_link-IsMatch [] = tt
search_link-IsMatch (c ∷ s) = elim (Option-cases (match_link (c ∷ s))) [
  | inl e ↦ rw (search_link, e) (search_link-IsMatch s)
  | inr (m, e) ↦ rw (search_link, e) (subst IsMatch e (match_link-IsMatch (c ∷ s)))
]

-- A key is read up to the slash behind it.
run_of-key :
    (key : List Char)
    → All (λ c. is_key_char c ≡ true) key
    → run_of is_key_char (key ++ chars "/") ≡ key
unfolding run_of
run_of-key [] h = refl
run_of-key (c ∷ key) h = rw h.0 (ap (λ t. c ∷ t) (run_of-key key h.1))

no_slash : (c : Char) → is_key_char c ≡ true → folds b'/' (code c) ≡ false
no_slash c h = ground arith

-- No text with a slash at its end leaves more than nothing of a key and its slash.
drop_text-nil : (ls : List Char) → drop_text (ls ++ chars "/") [] ≡ none
unfolding drop_text
drop_text-nil [] = refl
drop_text-nil (l ∷ ls) = refl

slash_ends :
    (ls key : List Char) {rest : List Char}
    → All (λ c. is_key_char c ≡ true) key
    → drop_text (ls ++ chars "/") (key ++ chars "/") ≡ some rest
    → rest ≡ []
unfolding drop_text
slash_ends [] [] h e = cc
slash_ends [] (c ∷ key) h e = cc (no_slash c h.0)
slash_ends (l ∷ ls) [] h e = elim (Bool-cases (folds (code l) b'/')) [
  | inl f ↦ cc (rw f at e, drop_text-nil ls)
  | inr f ↦ cc (rw f at e)
]
slash_ends (l ∷ ls) (c ∷ key) {rest} h e = elim (Bool-cases (folds (code l) (code c))) [
  | inl f ↦ slash_ends ls key h.1 (rw f at e)
  | inr f ↦ cc (rw f at e)
]

match_kind-slash :
    (key : List Char) {kind rest : List Char}
    → All (λ c. is_key_char c ≡ true) key
    → match_kind (key ++ chars "/") ≡ some (kind, rest)
    → rest ≡ []
unfolding match_kind
match_kind-slash key {kind} {rest} h e =
    elim (Option-cases (drop_text (chars "reel/") (key ++ chars "/"))) [
      | inr (r, f) ↦ cc (rw (match_kind, f) at e, slash_ends (chars "reel") key h f)
      | inl f ↦ elim (Option-cases (drop_text (chars "reels/") (key ++ chars "/"))) [
        | inr (r, g) ↦ cc (rw (match_kind, f, g) at e, slash_ends (chars "reels") key h g)
        | inl g ↦ elim (Option-cases (drop_text (chars "p/") (key ++ chars "/"))) [
          | inr (r, k) ↦ cc (rw (match_kind, f, g, k) at e, slash_ends (chars "p") key h k)
          | inl k ↦ elim (Option-cases (drop_text (chars "tv/") (key ++ chars "/"))) [
            | inr (r, t) ↦ cc (rw (match_kind, f, g, k, t) at e, slash_ends (chars "tv") key h t)
            | inl t ↦ cc (rw (match_kind, f, g, k, t) at e)
          ]
        ]
      ]
    ]

match_post-slash :
    (key : List Char) → All (λ c. is_key_char c ≡ true) key → match_post (key ++ chars "/") ≡ none
unfolding match_post run_of
match_post-slash key h = elim (Option-cases (match_kind (key ++ chars "/"))) [
  | inl e ↦ rw (match_post, e) refl
  | inr ((kind, rest), e) ↦ rw (match_post, e) (rw (match_kind-slash key h e) refl)
]

long_enough-key :
    (kind key : List Char)
    → All (λ c. is_key_char c ≡ true) key
    → 5 ≤ length key
    → long_enough kind (run_of is_key_char (key ++ chars "/")) ≡ some (kind, key)
long_enough-key kind key letters long =
    let enough : ltb (length key) 5 ≡ false = ground arith in rw (run_of-key key letters, enough)

-- The path of a permalink.
abbrev path_of : List Char → List Char → List Char
path_of kind key = kind ++ (chars "/" ++ (key ++ chars "/"))

match_post-known :
    (kind key : List Char) → IsPost kind key → match_post (path_of kind key) ≡ some (kind, key)
unfolding match_post match_kind drop_text
match_post-known kind key h = elim h.known [
  | inl k ↦ rw k (long_enough-key (chars "reel") key h.letters h.long)
  | inr (inl k) ↦ rw k (long_enough-key (chars "p") key h.letters h.long)
  | inr (inr k) ↦ rw k (long_enough-key (chars "tv") key h.letters h.long)
]

-- Read as a user's name, the kind leaves no post.
match_user_post-known :
    (kind key : List Char) → IsPost kind key → match_user_post (path_of kind key) ≡ none
unfolding match_user_post run_of after_run drop_text
match_user_post-known kind key h = elim h.known [
  | inl k ↦ rw k (match_post-slash key h.letters)
  | inr (inl k) ↦ rw k (match_post-slash key h.letters)
  | inr (inr k) ↦ rw k (match_post-slash key h.letters)
]

match_path-known :
    (kind key : List Char) → IsPost kind key → match_path (path_of kind key) ≡ some (kind, key)
unfolding match_path
match_path-known kind key h =
    rw (match_path, match_user_post-known kind key h) (match_post-known kind key h)

match_link-permalink :
    (kind key : List Char) → IsPost kind key → match_link (permalink kind key) ≡ some (kind, key)
unfolding match_link match_host drop_text drop_maybe
match_link-permalink kind key h = match_path-known kind key h

search_link-permalink :
    (kind key : List Char) → IsPost kind key → search_link (permalink kind key) ≡ some (kind, key)
unfolding search_link
search_link-permalink kind key h = rw (search_link, match_link-permalink kind key h)

canonical-text :
    (s : List Char) (m : List Char × List Char)
    → search_link s ≡ some m
    → canonical (text s) ≡ some (canonical_of m)
unfolding canonical
canonical-text s m e = rw (canonical, chars-text s, e)

canonical-permalink :
    (m : List Char × List Char)
    → IsMatch (some m)
    → canonical (canonical_of m).url ≡ some (canonical_of m)
canonical-permalink (kind, key) h =
    canonical-text (permalink kind key) (kind, key) (search_link-permalink kind key h)

-- The link that `canonical` writes is recognised again, as the same video with the same link.
pub canonical-canonical :
    (url : String) {c : Canonical} → canonical url ≡ some c → canonical c.url ≡ some c
unfolding canonical
canonical-canonical url {c} e = elim (Option-cases (search_link (chars url))) [
  | inl f ↦ cc (rw (canonical, f) at e)
  | inr (m, f) ↦
      subst (λ d. canonical d.url ≡ some d) (cc (rw (canonical, f) at e))
        (canonical-permalink m (subst IsMatch f (search_link-IsMatch (chars url))))
]
