-- ===== src/Ledger/Keeps.antt =====
-- The invariant of the table `item` under the operations of vios/capture/ledger.py that write rows
-- by way of others: the imports, the claims and the marks.

use mathlib.Core.Path.{subst}
use text.Mathlib.TextPositions.{eq_refl}
use vios_manus.Common.{
  ℕ, ◌≡◌, refl, sym, Bool, true, false, Option, some, String, str_eq, eq_iff, List, [], ◌∷◌, arith,
  ltb, ◌==◌, ◌≤◌, count, All, All-imp, All-append, Bool-cases, Option-cases, inl, inr,
}
use vios_manus.Sql.{update}
use vios_manus.Ledger.{get_meta, queued, uploaded, Facts, Item, Ledger, keyed, find, fresh, log}
use vios_manus.Ledger.Work
use vios_manus.Ledger.Work.{
  next_row, claim_row, is_stale, uploaded_row, attempts_of, revivals_of, failed_row,
  unavailable_row, to_requeue, requeue_row,
}
use vios_manus.Ledger.Links.{Canonical, canonical}
use vios_manus.Ledger.Enqueue
use vios_manus.Ledger.Enqueue.{
  strip, insert_new, tag_maybe, position_or, Entry, Imported, Tally, add_entry, tag_entry,
  add_entries, fold_all, insert_adopted, adopted, adopted_source, next_position,
}
use vios_manus.Ledger.Channel
use vios_manus.Ledger.Channel.{Rebound, points, rebind_row, lost}
use vios_manus.Ledger.Assets
use vios_manus.Ledger.Assets.{assets_row, note_row}
use vios_manus.Ledger.Find.{find_elem}
use vios_manus.Ledger.Sound.{
  IsSound, IsSoundTable, IsSoundBut, append_once, uploaded-IsSoundTable, update-IsSoundTable,
  append-IsSoundTable, claim_row-IsSound, failed_row-IsSound,
}

insert_new-IsSoundTable :
    (now : ℕ) (c : Canonical) (source : String) (position : Option ℕ) (l : Ledger)
    → IsSoundTable l.items
    → IsSoundTable (insert_new now c source position l).items
unfolding insert_new
insert_new-IsSoundTable now c source position l h = elim (Option-cases (find c.key l.items)) [
  | inr (r, e) ↦ rw (insert_new, e) h
  | inl e ↦
      rw (insert_new, e)
        (append-IsSoundTable l.items
          (fresh c.key c.url c.kind queued now source (position_or position l)) e
          (record {
            tried = λ q. cc;
            dated = λ q. cc;
            landed = λ q. cc;
            revived_within = omega arith;
          })
          h)
]

pub tag_maybe-items :
    (key collection : String) (l : Ledger) → (tag_maybe key collection l).items ≡ l.items
unfolding tag_maybe
tag_maybe-items key collection l = ground arith

pub add-IsSoundTable :
    (now : ℕ) (url collection source : String) (position : Option ℕ) (l : Ledger)
    → IsSoundTable l.items
    → IsSoundTable (Enqueue.add now url collection source position l).0.items
unfolding Enqueue.add
add-IsSoundTable now url collection source position l h = elim (Option-cases (canonical url)) [
  | inl e ↦ rw (Enqueue.add, e) h
  | inr (c, e) ↦
      rw (Enqueue.add, e)
        (subst IsSoundTable
          (sym (tag_maybe-items c.key collection (insert_new now c source position l)))
          (insert_new-IsSoundTable now c source position l h))
]

add_entry-IsSoundTable :
    (now : ℕ) (source : String) (e : Entry) (l : Ledger) (t : Tally)
    → IsSoundTable l.items
    → IsSoundTable (add_entry now source e (l, t)).0.items
unfolding add_entry
add_entry-IsSoundTable now source e l t h = elim (Option-cases (find e.key l.items)) [
  | inl f ↦ rw (add_entry, f) (add-IsSoundTable now e.url "" source (some t.pos) l h)
  | inr (r, f) ↦ rw (add_entry, f) h
]

pub add_entries-IsSoundTable :
    (now : ℕ) (source : String) (es : List Entry) (s : Ledger × Tally)
    → IsSoundTable s.0.items
    → IsSoundTable (add_entries now source es s).0.items
unfolding add_entries tag_entry
add_entries-IsSoundTable now source [] s h = h
add_entries-IsSoundTable now source (e ∷ es) (l, t) h =
    add_entries-IsSoundTable now source es (tag_entry e (add_entry now source e (l, t)))
      (add_entry-IsSoundTable now source e l t h)

-- An adopted row is sound once `mark_uploaded` has dated it; before that it has no date.
sound_but : (key : String) (r : Item) → IsSound r → IsSoundBut key r
sound_but key r h = (λ e. h, h.revived_within)

adopted_each :
    (now : ℕ) (c : Canonical) (l : Ledger)
    → IsSoundTable l.items
    → All (IsSoundBut c.key) (insert_adopted now c l).items
unfolding insert_adopted keyed
adopted_each now c l h = elim (Option-cases (find c.key l.items)) [
  | inr (r, e) ↦
      rw (insert_adopted, e) (All-imp IsSound (IsSoundBut c.key) (sound_but c.key) l.items h.each)
  | inl e ↦
      rw (insert_adopted, e)
        (All-append (IsSoundBut c.key) l.items _
          (All-imp IsSound (IsSoundBut c.key) (sound_but c.key) l.items h.each)
          ((λ q. cc (q, eq_refl c.key), omega arith), tt))
]

adopted_once :
    (now : ℕ) (c : Canonical) (l : Ledger)
    → IsSoundTable l.items
    → (k : String) → count (keyed k) (insert_adopted now c l).items ≤ 1
unfolding insert_adopted
adopted_once now c l h = elim (Option-cases (find c.key l.items)) [
  | inr (r, e) ↦ rw (insert_adopted, e) h.once
  | inl e ↦
      rw (insert_adopted, e)
        (append_once l.items
          (fresh c.key c.url c.kind uploaded now (adopted_source c.kind) (next_position l)) e
          h.once)
]

pub adopt-IsSoundTable :
    (now : ℕ) (key url : String) (msg_id : ℕ) (given : Facts) (l : Ledger)
    → IsSoundTable l.items
    → IsSoundTable (Enqueue.adopt now key url msg_id given l).items
unfolding Enqueue.adopt Work.mark_uploaded insert_adopted
adopt-IsSoundTable now key url msg_id given l h =
    let c = adopted key url in
    uploaded-IsSoundTable c.key now (record given { msg_id = some msg_id })
      (insert_adopted now c l).items (adopted_each now c l h) (adopted_once now c l h)

pub claimed-IsSoundTable :
    (skip : List String) (now : ℕ) (l : Ledger)
    → IsSoundTable l.items
    → IsSoundTable (Work.claim_next skip now l).0.items
unfolding Work.claim_next claim_row
claimed-IsSoundTable skip now l h = elim (Option-cases (next_row skip now l)) [
  | inl e ↦ rw (Work.claim_next, e) h
  | inr (r, e) ↦
      rw (Work.claim_next, e)
        (update-IsSoundTable (keyed r.key) (claim_row now) l.items (λ x. refl)
          (λ x _ q _. claim_row-IsSound now x q) h)
]

pub failed-IsSoundTable :
    (now : ℕ) (key error : String) (retry_in m : ℕ) (l : Ledger)
    → IsSoundTable l.items
    → IsSoundTable (Work.mark_failed now key error retry_in m l).items
unfolding Work.mark_failed keyed failed_row
failed-IsSoundTable now key error retry_in m l h =
    let row = find key l.items in
    update-IsSoundTable (keyed key)
      (failed_row (attempts_of row) (revivals_of row) m retry_in now error) l.items
      (λ r. ground arith)
      (λ r mem q e.
        rw (find_elem key l.items (h.once key) mem ((eq_iff r.key key).0 e))
          (failed_row-IsSound m retry_in now error r q))
      h

pub repaired :
    (show : ℕ → String) (now older_than : ℕ) (l : Ledger)
    → (Work.repair_stale show now older_than l).0.items
      ≡ update (is_stale now older_than) (λ r. record r { state = queued }) l.items
unfolding Work.repair_stale log
repaired show now older_than l =
    elim (Bool-cases (ltb 0 (count (is_stale now older_than) l.items))) [
      | inl e ↦ rw e
      | inr e ↦ rw e
    ]

pub noted-IsSoundTable :
    (now : ℕ) (key : String) (manifest clips : ℕ) (note : String) (l : Ledger)
    → IsSoundTable l.items
    → IsSoundTable (Assets.mark_assets now key manifest clips note l).items
unfolding Assets.mark_assets assets_row
noted-IsSoundTable now key manifest clips note l h = elim (Bool-cases (manifest == 0)) [
  | inr e ↦ rw e (
      update-IsSoundTable (keyed key) (assets_row now manifest clips note) l.items (λ r. refl)
        (λ r _ q _. record {
          tried = q.tried;
          dated = q.dated;
          landed = q.landed;
          revived_within = q.revived_within;
        })
        h)
  | inl e ↦ rw e (elim (Bool-cases (str_eq note "")) [
    | inl f ↦ rw f h
    | inr f ↦ rw f (
        update-IsSoundTable (keyed key) (note_row note) l.items (λ r. refl)
          (λ r _ q _. record {
            tried = q.tried;
            dated = q.dated;
            landed = q.landed;
            revived_within = q.revived_within;
          })
          h)
  ])
]

pub bound-items :
    (channel : String) (l : Ledger) → (Channel.bind_channel channel l).0.items ≡ l.items
unfolding Channel.bind_channel
bound-items channel l = elim (Bool-cases (str_eq (strip channel) "")) [
  | inl a ↦ rw (Channel.bind_channel, a)
  | inr a ↦ elim (Bool-cases (str_eq (strip (get_meta "channel_id" l.meta)) "")) [
    | inl b ↦ rw (Channel.bind_channel, a, b)
    | inr b ↦ elim (Bool-cases (str_eq (strip (get_meta "channel_id" l.meta)) (strip channel))) [
      | inl c ↦ rw (Channel.bind_channel, a, b, c)
      | inr c ↦ rw (Channel.bind_channel, a, b, c)
    ]
  ]
]

pub rebound-IsSoundTable :
    (say : Rebound → Bool → String) (now : ℕ) (channel : String) (again : Bool) (l : Ledger)
    → IsSoundTable l.items
    → IsSoundTable (Channel.rebind_channel say now channel again l).0.items
unfolding Channel.rebind_channel log rebind_row
rebound-IsSoundTable say now channel false l h = h
rebound-IsSoundTable say now channel true l h =
    update-IsSoundTable points rebind_row l.items (λ r. refl)
      (λ r _ q _. record {
        tried = λ e. cc;
        dated = λ e. cc;
        landed = λ e. cc;
        revived_within = q.revived_within;
      })
      h
