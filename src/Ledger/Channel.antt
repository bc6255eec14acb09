-- ===== src/Ledger/Channel.antt =====
-- The channel that the message ids of vios/capture/ledger.py point into: `bind_channel` and
-- `rebind_channel`.
use vios_manus.Common.{
  ℕ, Bool, true, false, ◌&&◌, Option, none, some, String, str_eq, count, if◌then◌else◌,
}
use vios_manus.Sql.{update}
use vios_manus.Ledger.{queued, uploaded, is, Item, Ledger, get_meta, set_meta, log}
use vios_manus.Ledger.Enqueue.{strip}

-- The verdicts of `bind_channel`.
pub data Verdict : Type 0 where
  unset : Verdict
  bound same : String → Verdict
  changed : String → String → ℕ → Verdict

abbrev is_some {ℓ} : {A : Type ℓ} → Option A → Bool
is_some none = false
is_some (some a) = true

-- `state='uploaded' AND msg_id IS NOT NULL`
unfoldable pub points : Item → Bool
points r = is uploaded r.state && is_some r.facts.msg_id

unfoldable pub bind_channel : String → Ledger → Ledger × Verdict
unfolding strip get_meta set_meta points
bind_channel channel l =
    let new = strip channel in
    let old = strip (get_meta "channel_id" l.meta) in
    if str_eq new ""
    then (l, unset)
    else if str_eq old ""
    then (record l { meta = set_meta "channel_id" new l.meta }, bound new)
    else if str_eq old new
    then (l, same new)
    else (l, changed old new (count points l.items))

abbrev pub lost : String
lost = "channel changed; the old message ids were not valid here"

unfoldable pub rebind_row : Item → Item
rebind_row r = record r {
  state = queued;
  facts = record r.facts { msg_id = none; record_msg_id = none; file_id = none };
  done_at = none;
  next_try_at = 0;
  attempts = 0;
  last_error = some lost;
}

-- What `rebind_channel` returns.
pub record Rebound : Type 0 where
  pub was : String
  pub now : String
  pub requeued : ℕ

-- The text of the event is written by `say`, from the result and the choice.
unfoldable pub rebind_channel :
    (Rebound → Bool → String) → ℕ → String → Bool → Ledger → Ledger × Rebound
unfolding strip get_meta set_meta points rebind_row log
rebind_channel say now channel requeue l =
    let new = strip channel in
    let items = if requeue then update points rebind_row l.items else l.items in
    let result : Rebound = record {
      was = get_meta "channel_id" l.meta;
      now = new;
      requeued = if requeue then count points l.items else 0;
    } in
    (
      log now "rebind" (say result requeue) none
          (record l { items = items; meta = set_meta "channel_id" new l.meta }),
      result,
    )
