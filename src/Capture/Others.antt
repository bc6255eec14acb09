-- ===== src/Capture/Others.antt =====
-- What one item of the loop of vios/capture/engine.py leaves alone: the rows of other videos.

use vios_manus.Common.{
  ℕ, ◌*◌, ◌≡◌, refl, ap, ◌∙◌, false, ◌&&◌, ◌||◌, some, String, str_eq, List, [], ◌∷◌, ltb, ◌==◌,
  clip, Bool-cases, Option-cases, inl, inr,
}
use vios_manus.Sql.{update}
use vios_manus.Ledger.{second, Item, Ledger, log, keyed, find}
use vios_manus.Ledger.Work.{
  mark_uploaded, uploaded_row, mark_failed, failed_row, attempts_of, revivals_of, mark_unavailable,
  unavailable_row,
}
use vios_manus.Ledger.Assets.{mark_assets, assets_row, note_row}
use vios_manus.Ledger.Find.{find-update, find-key, updated}
use vios_manus.Ledger.Lifecycle.Moves.{failed_row-key}
use vios_manus.Capture.Loop.{
  Engine, Outcome, sent, fetch_error, upload_error, crash, Published, built, broken, Times, log_all,
  note_assets, miss, fetch_failed, one,
}

-- The row of a video is the same in both ledgers.
unfoldable pub Same : String → Ledger → Ledger → Type 0
Same k l l' = find k l'.items ≡ find k l.items

-- An UPDATE of the row of another key.
pub update-other :
    (k key : String) (f : Item → Item) (rows : List Item)
    → ((r : Item) → (f r).key ≡ r.key)
    → str_eq k key ≡ false
    → find k (update (keyed key) f rows) ≡ find k rows
unfolding keyed
update-other k key f rows same off = elim (Option-cases (find k rows)) [
  | inl e ↦ find-update k (keyed key) f rows same ∙ cc (e, ap (updated (keyed key) f) e)
  | inr (r, e) ↦
      let miss : str_eq r.key key ≡ false = ap (λ t. str_eq t key) (find-key k rows e) ∙ off in
      find-update k (keyed key) f rows same ∙ rw (e, miss) refl
]

log_all-Same :
    (k : String) (now : ℕ) (kind key : String) (texts : List String) (l : Ledger)
    → Same k l (log_all now kind key texts l)
unfolding log_all log Same
log_all-Same k now kind key [] l = refl
log_all-Same k now kind key (text ∷ texts) l =
    log_all-Same k now kind key texts (log now kind text (some key) l)

assets-Same :
    (k : String) (now : ℕ) (key : String) (manifest clips : ℕ) (note : String) (l : Ledger)
    → str_eq k key ≡ false
    → Same k l (mark_assets now key manifest clips note l)
unfolding mark_assets assets_row Same
assets-Same k now key manifest clips note l off = elim (Bool-cases (manifest == 0)) [
  | inr e ↦
      rw (mark_assets, e)
        (update-other k key (assets_row now manifest clips note) l.items (λ r. refl) off)
  | inl e ↦ elim (Bool-cases (str_eq note "")) [
    | inl f ↦ rw (mark_assets, e, f) refl
    | inr f ↦ rw (mark_assets, e, f) (update-other k key (note_row note) l.items (λ r. refl) off)
  ]
]

note_assets-Same :
    (k : String) (now : ℕ) (key : String) (p : Published) (l : Ledger)
    → str_eq k key ≡ false
    → Same k l (note_assets now key p l)
unfolding note_assets log Same
note_assets-Same k now key (broken text) l off = refl
note_assets-Same k now key (built manifest clips uploads notes joined text) l off =
    let marked = mark_assets now key manifest clips (clip 400 joined) l in
    let base = assets-Same k now key manifest clips (clip 400 joined) l off in
    elim (Bool-cases (ltb 0 clips || ltb 0 uploads)) [
      | inl h ↦
          rw (note_assets, h)
            (log_all-Same k now "asset-note" key notes (log now "assets" text (some key) marked)
              ∙ base)
      | inr h ↦ rw (note_assets, h) (log_all-Same k now "asset-note" key notes marked ∙ base)
    ]

failed-Same :
    (k : String) (now : ℕ) (key text : String) (retry_in m : ℕ) (l : Ledger)
    → str_eq k key ≡ false
    → Same k l (mark_failed now key text retry_in m l)
unfolding mark_failed Same
failed-Same k now key text retry_in m l off =
    let row = find key l.items in
    update-other k key (failed_row (attempts_of row) (revivals_of row) m retry_in now text) l.items
      (failed_row-key _ _ m retry_in now text) off

pub one-Same :
    (k : String) (t : Times) (key : String) (o : Outcome) (e : Engine)
    → str_eq k key ≡ false
    → Same k e.ledger (one t key o e).0.ledger
unfolding one fetch_failed miss log mark_unavailable unavailable_row mark_uploaded uploaded_row Same
one-Same k t key (crash text) e off =
    failed-Same k t.marked key text (900 * second) e.max_attempts e.ledger off
one-Same k t key (upload_error text) e off =
    failed-Same k t.marked key text (300 * second) e.max_attempts e.ledger off
one-Same k t key (fetch_error kind text) e off = elim (Bool-cases (str_eq kind "unavailable")) [
  | inl u ↦
      rw (fetch_failed, u)
        (update-other k key (unavailable_row t.marked text) e.ledger.items (λ r. refl) off)
  | inr u ↦ elim (Bool-cases (str_eq kind "hostile")) [
    | inl v ↦
        rw (fetch_failed, u, v)
          (failed-Same k t.marked key text (7200 * second) e.max_attempts e.ledger off)
    | inr v ↦
        rw (fetch_failed, u, v)
          (failed-Same k t.marked key text (900 * second) e.max_attempts e.ledger off)
  ]
]
one-Same k t key (sent given text missing video got) e off =
    let marked = mark_uploaded t.marked key given e.ledger in
    let noted = log t.logged "captured" text (some key) marked in
    let told = log_all t.logged "slide-missing" key missing noted in
    let base : find k told.items ≡ find k e.ledger.items =
      log_all-Same k t.logged "slide-missing" key missing noted
      ∙ update-other k key (uploaded_row t.marked given) e.ledger.items (λ r. refl) off in
    elim (Bool-cases (e.upload_assets && video)) [
      | inl h ↦ rw (one, h) (note_assets-Same k t.noted key got told off ∙ base)
      | inr h ↦ rw (one, h) base
    ]
