-- ===== src/Coverage/Errors.antt =====
-- The listing operations of vios/process/coverage.py: `running`, `for_video` and `recent_errors`.
use vios_manus.Common.{
  ℕ, ◌≡◌, ◌∙◌, ap, Bool, true, false, ◌&&◌, ◌||◌, not, Option, none, some, String, str_eq, str_le,
  List, map, select, sort, take, count, length, min, max, ltb, leb, clip, length-map, length-take,
  length-sort, length-select,
}
use vios_manus.Coverage.{State, running, done, skipped, is, Row, Conn, Worker, mine, max_attempts}

-- A column that may be NULL, where NULL and 0 are both read as 0.
abbrev pub or_zero : Option ℕ → ℕ
or_zero none = 0
or_zero (some n) = n

-- ORDER BY started_at: NULL comes first
abbrev started_first : Row → Row → Bool
started_first a b = leb_null a.started_at b.started_at
  where
    leb_null : Option ℕ → Option ℕ → Bool
    leb_null none y = true
    leb_null (some x) none = false
    leb_null (some x) (some y) = leb x y

unfoldable running_rows : Conn → List Row
running_rows c = sort started_first (select (λ r. is running r.state) c.rows)

unfoldable pub for_video : String → Conn → List Row
for_video key c =
    sort (λ a b. str_le a.component b.component) (select (λ r. str_eq r.video_key key) c.rows)

-- TERMINAL
abbrev pub is_terminal : State → Bool
is_terminal s = is done s || is skipped s

-- An entry of `recent_errors`.
pub record ErrorRow : Type 0 where
  pub video_key : String
  pub component : String
  pub state : State
  pub retrying : Bool
  pub attempts : ℕ
  pub revivals : ℕ
  pub error : String
  pub at : ℕ
  pub next_try_at : ℕ

-- `last_error IS NOT NULL AND last_error<>''`
abbrev has_text : Option String → Bool
has_text none = false
has_text (some s) = not (str_eq s "")

abbrev text_of : Option String → String
text_of none = ""
text_of (some s) = s

-- the WHERE clause of `recent_errors`
unfoldable is_broken : Worker → Conn → Row → Bool
unfolding mine
is_broken w c r = not (is done r.state) && has_text r.last_error && mine w c.videos r

unfoldable error_row : Row → ErrorRow
unfolding clip
error_row r = record {
  video_key = r.video_key;
  component = r.component;
  state = r.state;
  retrying = not (is_terminal r.state) && ltb r.attempts max_attempts;
  attempts = r.attempts;
  revivals = r.revivals;
  error = clip 400 (text_of r.last_error);
  at = or_zero r.done_at;
  next_try_at = r.next_try_at;
}

-- ORDER BY COALESCE(done_at,0) DESC
abbrev newest : Row → Row → Bool
newest a b = leb (or_zero b.done_at) (or_zero a.done_at)

unfoldable recent_errors : Worker → ℕ → Conn → List ErrorRow
unfolding is_broken error_row
recent_errors w limit c =
    map error_row (take (max 1 (min limit 300)) (sort newest (select (is_broken w c) c.rows)))

-- `recent_errors` lists as many rows as the slice has that are not done and carry an error, up to
-- the limit, which counts as 1 at least and 300 at most.
length-recent_errors :
    (w : Worker) (limit : ℕ) (c : Conn)
    → length (recent_errors w limit c) ≡ min (max 1 (min limit 300)) (count (is_broken w c) c.rows)
unfolding recent_errors
length-recent_errors w limit c =
    length-map error_row
      (take (max 1 (min limit 300)) (sort newest (select (is_broken w c) c.rows)))
    ∙ length-take (max 1 (min limit 300)) (sort newest (select (is_broken w c) c.rows))
    ∙ ap (min (max 1 (min limit 300)))
        (length-sort newest (select (is_broken w c) c.rows) ∙ length-select (is_broken w c) c.rows)
