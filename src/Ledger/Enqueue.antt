-- ===== src/Ledger/Enqueue.antt =====
-- Filling the ledger of vios/capture/ledger.py: `_next_position`, `add`, `add_many`, `adopt` and
-- `adopt_upload`. The texts of the events are written by an argument.
use Prim.Native.Char.{Char, code}
use vios_manus.Common.{
  ℕ, ◌+◌, max, Bool, ◌&&◌, ◌||◌, Option, none, some, String, str_eq, str_le, List, [], ◌∷◌, ◌++◌,
  any, sort, length, leb, ◌==◌, if◌then◌else◌,
}
use vios_manus.Ledger.{queued, uploaded, is_terminal, Facts, Item, Ledger, find, fresh, log, tag}
use vios_manus.Ledger.Links.{chars, text, Canonical, canonical, upload_key, is_upload}
use vios_manus.Ledger.Work.{mark_uploaded}

-- The characters that `str.strip` takes away.
unfoldable is_space : Char → Bool
is_space c =
    let n = code c in
    leb 9 n && leb n 13
    || (leb 28 n && leb n 32
        || (n == 0x85
            || (n == 0xa0
                || (n == 0x1680
                    || (leb 0x2000 n && leb n 0x200a
                        || (n == 0x2028
                            || (n == 0x2029 || (n == 0x202f || (n == 0x205f || n == 0x3000)))))))))

unfoldable strip_left : List Char → List Char
unfolding is_space
strip_left [] = []
strip_left (c ∷ s) = if is_space c then strip_left s else c ∷ s

-- Without the spaces at its end.
unfoldable strip_right : List Char → List Char
unfolding is_space
strip_right [] = []
strip_right (c ∷ s) = elim (strip_right s) [
  | [] ↦ if is_space c then [] else c ∷ []
  | d ∷ ds ↦ c ∷ d ∷ ds
]

unfoldable pub strip : String → String
unfolding strip_left strip_right
strip s = text (strip_right (strip_left (chars s)))

-- `MAX(position)`, with 0 for NULL
unfoldable max_position : List Item → ℕ
max_position [] = 0
max_position (r ∷ rs) = max r.position (max_position rs)

unfoldable pub next_position : Ledger → ℕ
unfolding max_position
next_position l = max_position l.items + 1

-- `position if position is not None else self._next_position()`
abbrev pub position_or : Option ℕ → Ledger → ℕ
position_or (some p) l = p
position_or none l = next_position l

-- The INSERT of `add`, made when the key is new.
unfoldable pub insert_new : ℕ → Canonical → String → Option ℕ → Ledger → Ledger
unfolding find next_position
insert_new now c source position l = elim (find c.key l.items) [
  | some r ↦ l
  | none ↦ record l {
    items = l.items ++ fresh c.key c.url c.kind queued now source (position_or position l) ∷ [];
  }
]

-- `if collection:` with its INSERT OR IGNORE
unfoldable pub tag_maybe : String → String → Ledger → Ledger
unfolding tag strip
tag_maybe key collection l =
    if str_eq collection ""
    then l
    else record l { memberships = (tag (key, strip collection) l.memberships).0 }

unfoldable pub add : ℕ → String → String → String → Option ℕ → Ledger → Ledger × Option String
unfolding insert_new tag_maybe
add now url collection source position l = elim (canonical url) [
  | none ↦ (l, none)
  | some c ↦ (tag_maybe c.key collection (insert_new now c source position l), some c.key)
]

-- One entry of the dict `folded`: a video of the input with its collections.
pub record Entry : Type 0 where
  pub key : String
  pub url : String
  pub collections : List String

-- `set.add`
abbrev add_to_set : String → List String → List String
add_to_set x xs = if any (λ y. str_eq y x) xs then xs else xs ++ x ∷ []

abbrev add_collection : String → List String → List String
add_collection collection xs = if str_eq collection "" then xs else add_to_set (strip collection) xs

-- The body of the folding loop for a link that was recognised.
unfoldable pub fold_in : Canonical → String → List Entry → List Entry
unfolding strip
fold_in c collection [] =
    record { key = c.key; url = c.url; collections = add_collection collection [] } ∷ []
fold_in c collection (e ∷ es) =
    if str_eq e.key c.key
    then record e { collections = add_collection collection e.collections } ∷ es
    else e ∷ fold_in c collection es

-- The folding loop: the entries in their order, and the number of lines that are no links.
unfoldable pub fold_all : List (String × String) → List Entry → ℕ → List Entry × ℕ
unfolding fold_in
fold_all [] es bad = (es, bad)
fold_all ((url, collection) ∷ rest) es bad = elim (canonical url) [
  | none ↦ fold_all rest es (bad + 1)
  | some c ↦ fold_all rest (fold_in c collection es) bad
]

-- What `add_many` returns.
pub record Imported : Type 0 where
  pub added : ℕ
  pub duplicate : ℕ
  pub captured : ℕ
  pub unique : ℕ
  pub memberships : ℕ
  pub unrecognised : ℕ

-- The INSERT OR IGNORE for each collection, with the count of the rows inserted.
unfoldable tag_all : String → List String → List (String × String) → List (String × String) × ℕ
unfolding tag
tag_all key [] ms = (ms, 0)
tag_all key (c ∷ cs) ms =
    let (ms', n) = tag (key, c) ms in let (ms'', k) = tag_all key cs ms' in (ms'', n + k)

-- The counters of the loop of `add_many`, with the next position.
pub record Tally : Type 0 where
  pub pos : ℕ
  pub added : ℕ
  pub known : ℕ
  pub done : ℕ
  pub links : ℕ

-- The `if` of the loop: a new video is added, a known one counted.
unfoldable pub add_entry : ℕ → String → Entry → Ledger × Tally → Ledger × Tally
unfolding add find
add_entry now source e (l, t) = elim (find e.key l.items) [
  | none ↦ (
    (add now e.url "" source (some t.pos) l).0,
    record t { pos = t.pos + 1; added = t.added + 1 },
  )
  | some r ↦ (
    l,
    record t { known = t.known + 1; done = if is_terminal r.state then t.done + 1 else t.done },
  )
]

unfoldable pub tag_entry : Entry → Ledger × Tally → Ledger × Tally
unfolding tag_all
tag_entry e (l, t) =
    let (ms, n) = tag_all e.key (sort str_le e.collections) l.memberships in
    (record l { memberships = ms }, record t { links = t.links + n })

unfoldable pub add_entries : ℕ → String → List Entry → Ledger × Tally → Ledger × Tally
unfolding add_entry tag_entry
add_entries now source [] s = s
add_entries now source (e ∷ es) s =
    add_entries now source es (tag_entry e (add_entry now source e s))

unfoldable pub add_many :
    (Imported → String) → ℕ → List (String × String) → String → Ledger → Ledger × Imported
unfolding fold_all add_entries next_position log
add_many say now pairs source l =
    let (entries, bad) = fold_all pairs [] 0 in
    let (l', t) =
      add_entries now source entries
        (l, record { pos = next_position l; added = 0; known = 0; done = 0; links = 0 }) in
    let result : Imported = record {
      added = t.added;
      duplicate = t.known;
      captured = t.done;
      unique = length entries;
      memberships = t.links;
      unrecognised = bad;
    } in
    (log now "import" (say result) none l', result)

-- The key, the link and the kind under which `adopt` records a video.
unfoldable pub adopted : String → String → Canonical
unfolding is_upload
adopted key url =
    if is_upload key
    then record { key = key; url = ""; kind = "upload" }
    else elim (canonical url) [ some c ↦ c | none ↦ record { key = key; url = url; kind = "reel" } ]

-- `UPLOAD_SOURCE if kind == UPLOAD_KIND else "seed"`
abbrev pub adopted_source : String → String
adopted_source kind = if str_eq kind "upload" then "telegram-upload" else "seed"

-- The INSERT OR IGNORE of `adopt`.
unfoldable pub insert_adopted : ℕ → Canonical → Ledger → Ledger
unfolding find next_position
insert_adopted now c l = elim (find c.key l.items) [
  | some r ↦ l
  | none ↦ record l {
    items =
        l.items
        ++ fresh c.key c.url c.kind uploaded now (adopted_source c.kind) (next_position l) ∷ [];
  }
]

unfoldable pub adopt : ℕ → String → String → ℕ → Facts → Ledger → Ledger
unfolding adopted insert_adopted mark_uploaded
adopt now key url msg_id given l =
    let c = adopted key url in
    mark_uploaded now c.key (record given { msg_id = some msg_id }) (insert_adopted now c l)

unfoldable adopt_upload : ℕ → ℕ → Facts → Ledger → Ledger × String
unfolding adopt upload_key
adopt_upload now msg_id given l =
    (adopt now (upload_key msg_id) "" msg_id given l, upload_key msg_id)
