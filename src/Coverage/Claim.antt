-- ===== src/Coverage/Claim.antt =====
-- `claim`, `candidates` and `claim_for` of vios/process/coverage.py.
use vios_manus.Common.{
  ℕ, ◌+◌, Bool, ◌&&◌, ◌||◌, some, String, str_eq, str_le, List, [], ◌∷◌, map, any, take, select,
  sort, mem, min, ltb, ◌==◌, is_text, if◌then◌else◌,
}
use vios_manus.Sql.{update, limited, chosen}
use vios_manus.Coverage.{Row, Conn, Worker, running, lease_seconds, claimable, mine}

-- The assignments of the UPDATE: SET state, worker, token, lease_until, started_at, attempts.
unfoldable pub lease : Worker → ℕ → String → Row → Row
lease w now token r = record r {
  state = running;
  worker = some w.name;
  token = some token;
  lease_until = now + lease_seconds;
  started_at = some now;
  attempts = r.attempts + 1;
}

-- ORDER BY attempts, video_key
unfoldable pub fewest_attempts : Row → Row → Bool
fewest_attempts a b =
    ltb a.attempts b.attempts || (a.attempts == b.attempts && str_le a.video_key b.video_key)

-- The WHERE clause of the subquery of `claim`.
unfoldable pub offered : Worker → Conn → String → ℕ → Row → Bool
unfolding claimable mine
offered w c component now r = str_eq r.component component && (claimable now r && mine w c.videos r)

-- SELECT … WHERE token=?
abbrev pub with_token : String → List Row → List Row
with_token token = select (λ r. is_text r.token token)

unfoldable pub claim : Worker → String → ℕ → ℕ → String → Conn → Conn × List String
unfolding lease fewest_attempts offered
claim w component n now token c =
    let ids = limited (λ r. r.rowid) (offered w c component now) fewest_attempts n c.rows in
    let rows = update (λ r. mem r.rowid ids) (lease w now token) c.rows in
    (record c { rows = rows }, sort str_le (map (λ r. r.video_key) (with_token token rows)))

-- The WHERE clause of `claim_for`.
unfoldable pub offered_for : Worker → Conn → String → List String → ℕ → Row → Bool
unfolding claimable mine
offered_for w c key components now r =
    str_eq r.video_key key
    && (any (str_eq r.component) components && (claimable now r && mine w c.videos r))

unfoldable pub claim_for : Worker → String → List String → ℕ → String → Conn → Conn × List String
unfolding lease offered_for
claim_for w key [] now token c = (c, [])
claim_for w key (x ∷ xs) now token c =
    let ids = chosen (λ r. r.rowid) (offered_for w c key (x ∷ xs) now) c.rows in
    let rows = update (λ r. mem r.rowid ids) (lease w now token) c.rows in
    (record c { rows = rows }, map (λ r. r.component) (with_token token rows))

-- One group of `GROUP BY video_key` with its MIN(attempts).
pub record Group : Type 0 where
  pub video_key : String
  pub attempts : ℕ

-- A row joins the group of its key, or opens one.
unfoldable pub join_group : Row → List Group → List Group
join_group r [] = record { video_key = r.video_key; attempts = r.attempts } ∷ []
join_group r (g ∷ gs) =
    let rest = join_group r gs in
    if str_eq g.video_key r.video_key
    then record g { attempts = min r.attempts g.attempts } ∷ gs
    else g ∷ rest

unfoldable pub group_by_key : List Row → List Group
unfolding join_group
group_by_key [] = []
group_by_key (r ∷ rs) = join_group r (group_by_key rs)

-- ORDER BY a, video_key
unfoldable pub group_order : Group → Group → Bool
group_order a b =
    ltb a.attempts b.attempts || (a.attempts == b.attempts && str_le a.video_key b.video_key)

unfoldable pub candidates : Worker → List String → ℕ → ℕ → Conn → List String
unfolding claimable mine group_by_key group_order
candidates w [] limit now c = []
candidates w (x ∷ xs) limit now c =
    let open_rows =
      select (λ r. any (str_eq r.component) (x ∷ xs) && (claimable now r && mine w c.videos r))
        c.rows in
    map (λ g. g.video_key) (take limit (sort group_order (group_by_key open_rows)))
