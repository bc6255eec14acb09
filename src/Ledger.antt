-- ===== src/Ledger.antt =====
-- vios/capture/ledger.py: the record of what has been captured. The tables `item`, `membership`,
-- `event` and `meta`, and the constants of the retry policy. The operations stand in the child
-- modules. A moment is a whole number of milliseconds, and `time.time()` is an argument of the
-- operations that read it.
pub mod Links
pub mod Enqueue
pub mod Channel
pub mod Assets
pub mod Work
pub mod Report
pub mod Find
pub mod Choice
pub mod Sound
pub mod Keeps
pub mod History
pub mod Ladder
pub mod Growth
pub mod Lifecycle
mod Tests
pub mod Again
use vios_manus.Common.{
  ℕ, suc, ◌+◌, ◌*◌, Bool, true, false, ◌&&◌, ◌||◌, not, Option, none, some, String, str_eq, List,
  [], ◌∷◌, ◌++◌, any, clip, if◌then◌else◌,
}

-- The values of the column `state`.
pub data State : Type 0 where
  queued fetching uploaded failed unavailable skipped : State

-- `state = ?`
abbrev pub is : State → State → Bool
is queued queued = true
is fetching fetching = true
is uploaded uploaded = true
is failed failed = true
is unavailable unavailable = true
is skipped skipped = true
is _ _ = false

-- `state in TERMINAL`
abbrev pub is_terminal : State → Bool
is_terminal s = is uploaded s || (is unavailable s || is skipped s)

-- one second, in the model's unit of time
abbrev pub second : ℕ
second = 1000

-- CAPTURE_REVIVE_AFTER
abbrev pub revive_after : ℕ
revive_after = 4 * 3600 * second

-- CAPTURE_MAX_REVIVALS
abbrev pub max_revivals : ℕ
max_revivals = 6

-- CAPTURE_PARKED
abbrev pub parked : ℕ
parked = 86400 * 30 * second

-- The columns that `mark_uploaded` takes as keywords, each of which may be NULL. The real-valued
-- ones are whole numbers of thousandths.
pub record Facts : Type 0 where
  pub msg_id : Option ℕ
  pub record_msg_id : Option ℕ
  pub file_id : Option String
  pub file_size : Option ℕ
  pub sha256 : Option String
  pub ext : Option String
  pub duration : Option ℕ
  pub width : Option ℕ
  pub height : Option ℕ
  pub uploader : Option String
  pub title : Option String
  pub views : Option ℕ
  pub likes : Option ℕ
  pub comment_count : Option ℕ
  pub comments_got : Option ℕ
  pub taken_at : Option ℕ
  pub lang : Option String
  pub assets_msg_id : Option ℕ

abbrev no_facts : Facts
no_facts = record {
  msg_id = none;
  record_msg_id = none;
  file_id = none;
  file_size = none;
  sha256 = none;
  ext = none;
  duration = none;
  width = none;
  height = none;
  uploader = none;
  title = none;
  views = none;
  likes = none;
  comment_count = none;
  comments_got = none;
  taken_at = none;
  lang = none;
  assets_msg_id = none;
}

-- A row of the table `item`.
pub record Item : Type 0 where
  pub key : String
  pub url : String
  pub kind : String
  pub capture_meta : Option String
  pub state : State
  pub added_at : ℕ
  pub source : String
  pub position : ℕ
  pub attempts : ℕ
  pub revivals : ℕ
  pub last_try_at : Option ℕ
  pub next_try_at : ℕ
  pub last_error : Option String
  pub done_at : Option ℕ
  pub facts : Facts
  pub assets_clips : Option ℕ
  pub assets_at : Option ℕ
  pub assets_note : Option String

-- A row of the table `event`.
pub record Event : Type 0 where
  pub at : ℕ
  pub kind : String
  pub key : Option String
  pub text : String

-- The database of one ledger.
pub record Ledger : Type 0 where
  pub items : List Item
  pub memberships : List (String × String)
  pub events : List Event
  pub meta : List (String × String)

-- `WHERE key=?`
unfoldable pub keyed : String → Item → Bool
keyed key r = str_eq r.key key

-- `SELECT … FROM item WHERE key=?`, of which `fetchone` takes the first
unfoldable pub find : String → List Item → Option Item
unfolding keyed
find key [] = none
find key (r ∷ rs) = if keyed key r then some r else find key rs

-- a new row, with the defaults of the table
abbrev pub fresh : String → String → String → State → ℕ → String → ℕ → Item
fresh key url kind state now source position = record {
  key = key;
  url = url;
  kind = kind;
  capture_meta = none;
  state = state;
  added_at = now;
  source = source;
  position = position;
  attempts = 0;
  revivals = 0;
  last_try_at = none;
  next_try_at = 0;
  last_error = none;
  done_at = none;
  facts = no_facts;
  assets_clips = none;
  assets_at = none;
  assets_note = none;
}

-- `log`
unfoldable pub log : ℕ → String → String → Option String → Ledger → Ledger
unfolding clip
log now kind text key l = record l {
  events = l.events ++ record { at = now; kind = kind; key = key; text = clip 2000 text } ∷ [];
}

-- `INSERT OR IGNORE INTO membership`, with the number of rows inserted
unfoldable pub tag : String × String → List (String × String) → List (String × String) × ℕ
tag (key, collection) ms =
    if any (λ m. str_eq m.0 key && str_eq m.1 collection) ms
    then (ms, 0)
    else (ms ++ (key, collection) ∷ [], 1)

-- `key IN (SELECT key FROM membership WHERE collection IN (…))`
unfoldable pub in_collections : List String → List (String × String) → Item → Bool
in_collections skip ms r = any (λ m. str_eq m.0 r.key && any (str_eq m.1) skip) ms

-- `get_meta`, with the default "" that its callers give or put in place of NULL
unfoldable pub get_meta : String → List (String × String) → String
get_meta k [] = ""
get_meta k ((j, v) ∷ rest) = if str_eq j k then v else get_meta k rest

-- `set_meta`
unfoldable pub set_meta : String → String → List (String × String) → List (String × String)
set_meta k v [] = (k, v) ∷ []
set_meta k v ((j, w) ∷ rest) = if str_eq j k then (j, v) ∷ rest else (j, w) ∷ set_meta k v rest
