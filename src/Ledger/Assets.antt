-- ===== src/Ledger/Assets.antt =====
-- The asset sets of vios/capture/ledger.py: `mark_assets`, `needs_assets` and `asset_counts`.
use vios_manus.Common.{
  ℕ, ◌-◌, Bool, true, ◌&&◌, not, Option, none, some, String, str_eq, List, map, select, sort, take,
  count, sum, ltb, leb, ◌==◌, clip, or_null, if◌then◌else◌,
}
use vios_manus.Sql.{update}
use vios_manus.Ledger.{uploaded, is, Item, Ledger, keyed}

-- `COALESCE(column,0)`
abbrev pub or_zero : Option ℕ → ℕ
or_zero none = 0
or_zero (some n) = n

abbrev pub note_row : String → Item → Item
note_row note r = record r { assets_note = some (clip 900 note) }

unfoldable pub assets_row : ℕ → ℕ → ℕ → String → Item → Item
assets_row now manifest clips note r = record r {
  facts = record r.facts { assets_msg_id = some manifest };
  assets_clips = some clips;
  assets_at = some now;
  assets_note = or_null (clip 900 note);
}

unfoldable pub mark_assets : ℕ → String → ℕ → ℕ → String → Ledger → Ledger
unfolding keyed assets_row
mark_assets now key manifest clips note l =
    if manifest == 0
    then if str_eq note ""
      then l
      else record l { items = update (keyed key) (note_row note) l.items }
    else record l { items = update (keyed key) (assets_row now manifest clips note) l.items }

-- `COALESCE(ext,'')<>'photo'`
abbrev is_video : Option String → Bool
is_video none = true
is_video (some e) = not (str_eq e "photo")

-- `state='uploaded' AND COALESCE(msg_id,0)>0 AND COALESCE(ext,'')<>'photo'`
unfoldable is_archived : Item → Bool
is_archived r = is uploaded r.state && (ltb 0 (or_zero r.facts.msg_id) && is_video r.facts.ext)

unfoldable lacks_assets : Item → Bool
unfolding is_archived
lacks_assets r = is_archived r && or_zero r.facts.assets_msg_id == 0

-- ORDER BY COALESCE(done_at, added_at)
abbrev archived_at : Item → ℕ
archived_at r = elim r.done_at [ some t ↦ t | none ↦ r.added_at ]

abbrev oldest : Item → Item → Bool
oldest a b = leb (archived_at a) (archived_at b)

-- The rows; the source takes sixteen of their columns.
unfoldable needs_assets : ℕ → Ledger → List Item
unfolding lacks_assets
needs_assets limit l = take limit (sort oldest (select lacks_assets l.items))

-- What `asset_counts` returns.
pub record AssetCounts : Type 0 where
  pub videos : ℕ
  pub with_assets : ℕ
  pub without_assets : ℕ
  pub clips : ℕ

unfoldable has_assets : Item → Bool
unfolding is_archived
has_assets r = is_archived r && ltb 0 (or_zero r.facts.assets_msg_id)

unfoldable asset_counts : Ledger → AssetCounts
unfolding is_archived has_assets
asset_counts l =
    let videos = count is_archived l.items in
    let have = count has_assets l.items in
    record {
      videos = videos;
      with_assets = have;
      without_assets = videos - have;
      clips = sum (map (λ r. or_zero r.assets_clips) (select is_archived l.items));
    }
