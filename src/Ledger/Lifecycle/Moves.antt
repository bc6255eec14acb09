-- ===== src/Ledger/Lifecycle/Moves.antt =====
-- The life of one video in vios/capture/ledger.py: what a step does to its row.
use mathlib.Core.Path.{subst}
use vios_manus.Common.{
  ℕ, ◌+◌, ◌≡◌, refl, sym, ap, ◌∙◌, Bool, true, false, ◌&&◌, ◌||◌, not, Option, none, some, String,
  eq_iff, List, [], arith, ◌==◌, str_eq, leb, ltb, Bool-cases, Option-cases, inl, inr,
}
use vios_manus.Sql.{update}
use vios_manus.Ledger.{
  State, queued, fetching, uploaded, failed, unavailable, skipped, is, is_terminal, in_collections,
  Item, Ledger, keyed, find, log,
}
use vios_manus.Ledger.Work.{
  is_due, next_row, claim_next, claim_row, is_stale, mark_uploaded, uploaded_row, mark_failed,
  failed_row, attempts_of, revivals_of, mark_unavailable, unavailable_row,
}
use vios_manus.Ledger.Enqueue.{add_many, Imported, fold_all}
use vios_manus.Ledger.Find.{find-update, find-key, find_elem, updated, status_of}
use vios_manus.Ledger.Growth.{add_entries-Grows}
use vios_manus.Ledger.Choice.{next_row_lem}
use vios_manus.Ledger.Sound.{IsSoundTable}
use vios_manus.Ledger.Keeps.{repaired}
use vios_manus.Ledger.Assets.{mark_assets, assets_row, note_row}
use vios_manus.Ledger.Lifecycle.{
  Step, claim, upload, fail, give_up, repair, import, assets, journal, remember, Edge, take, retake,
  put_back, land, miss, lose, captured, status,
}

-- A step leaves the row of a video alone, or writes to the columns of its asset set, or moves its status along an edge of the machine, out of
-- a state that is not final.
pub data Moves : Option Item → Option Item → Type 0 where
  kept : {o o' : Option Item} → o' ≡ o → Moves o o'
  noted :
      {o o' : Option Item} {r r' : Item}
      → o ≡ some r
      → o' ≡ some r'
      → captured r' ≡ captured r
      → Moves o o'
  entered : {o o' : Option Item} → o ≡ none → status_of o' ≡ some queued → Moves o o'
  moved :
      {o o' : Option Item} {s s' : State}
      → status_of o ≡ some s
      → status_of o' ≡ some s'
      → is_terminal s ≡ false
      → Edge (some s) (some s')
      → Moves o o'

update-Moves :
    (k : String) (p : Item → Bool) (f : Item → Item) (rows : List Item)
    → ((r : Item) → (f r).key ≡ r.key)
    → ((r : Item) → find k rows ≡ some r → p r ≡ true → Moves (some r) (some (f r)))
    → Moves (find k rows) (find k (update p f rows))
update-Moves k p f rows same step =
    let after = find-update k p f rows same in
    elim (Option-cases (find k rows)) [
      | inl e ↦ kept (cc (after, e, ap (updated p f) e))
      | inr (r, e) ↦ elim (Bool-cases (p r)) [
        | inl h ↦
            let got : find k (update p f rows) ≡ some (f r) = after ∙ rw (e, h) refl in
            rw (e, got) (step r e h)
        | inr h ↦
            let got : find k (update p f rows) ≡ some r = after ∙ rw (e, h) refl in
            kept (got ∙ sym e)
      ]
    ]

-- The row that is found under a key has the state that the status of another key of it says.
found_state :
    (k key : String) (l : Ledger) {r : Item} {s : State}
    → find k l.items ≡ some r
    → keyed key r ≡ true
    → status key l ≡ some s
    → r.state ≡ s
unfolding keyed
found_state k key l {r} {s} e h st =
    let same : key ≡ k = sym ((eq_iff r.key key).0 h) ∙ find-key k l.items e in
    let q : status k l ≡ some s = subst (λ j. status j l ≡ some s) same st in cc (rw e at q)

fetching-Moves :
    (r r' : Item) {s : State}
    → r.state ≡ fetching
    → r'.state ≡ s
    → Edge (some fetching) (some s)
    → Moves (some r) (some r')
fetching-Moves r r' h h' edge = moved (ap some h) (ap some h') refl edge

failed_row-state :
    (a v m retry_in now : ℕ) (error : String) (r : Item)
    → (failed_row a v m retry_in now error r).state ≡ failed
unfolding failed_row
failed_row-state a v m retry_in now error r = ground arith

pub failed_row-key :
    (a v m retry_in now : ℕ) (error : String) (r : Item)
    → (failed_row a v m retry_in now error r).key ≡ r.key
unfolding failed_row
failed_row-key a v m retry_in now error r = ground arith

due-Edge :
    (skip : List String) (now : ℕ) (l : Ledger) (r : Item)
    → is_due skip now l r ≡ true
    → (is_terminal r.state ≡ false) × Edge (some r.state) (some fetching)
unfolding is_due
due-Edge skip now l r h = by_state r.state h
  where
    by_state :
        (s : State)
        → ((is queued s || is failed s)
            && (leb r.next_try_at now && not (in_collections skip l.memberships r)))
          ≡ true
        → (is_terminal s ≡ false) × Edge (some s) (some fetching)
    by_state queued e = (refl, take)
    by_state failed e = (refl, retake)
    by_state fetching e = cc
    by_state uploaded e = cc
    by_state unavailable e = cc
    by_state skipped e = cc

claim-Moves :
    (k : String) (skip : List String) (now : ℕ) (l : Ledger)
    → IsSoundTable l.items
    → Moves (find k l.items) (find k (claim_next skip now l).0.items)
unfolding claim_next claim_row keyed
claim-Moves k skip now l sound = elim (Option-cases (next_row skip now l)) [
  | inl e ↦ rw (claim_next, e) (kept refl)
  | inr (r, e) ↦
      rw (claim_next, e)
        (update-Moves k (keyed r.key) (claim_row now) l.items (λ x. refl)
          (λ x f h.
            let (m, due) = next_row_lem skip now l e in
            let (alive, edge) = due-Edge skip now l r due in
            let key : x.key ≡ r.key = (eq_iff x.key r.key).0 h in
            let here : find k l.items ≡ some r =
              find_elem k l.items (sound.once k) m (sym key ∙ find-key k l.items f) in
            let same : some x ≡ some r = sym f ∙ here in moved (ap status_of same) refl alive edge))
]

add_many-Moves :
    (k : String) (say : Imported → String) (now : ℕ) (pairs : List (String × String))
    (source : String) (l : Ledger)
    → Moves (find k l.items) (find k (add_many say now pairs source l).0.items)
unfolding add_many log
add_many-Moves k say now pairs source l =
    elim (add_entries-Grows k now source (fold_all pairs [] 0).0 _) [
      | inl e ↦ kept e
      | inr (n, q) ↦ entered n q
    ]

stale_state :
    (now older_than : ℕ) (r : Item) → is_stale now older_than r ≡ true → r.state ≡ fetching
unfolding is_stale
stale_state now older_than r h = by_state r.state h
  where
    by_state :
        (s : State)
        → (is fetching s && elim r.last_try_at as (λ _. Bool) [
          | none ↦ true
          | some t ↦ ltb (t + older_than) now
        ])
          ≡ true
        → s ≡ fetching
    by_state fetching e = refl
    by_state queued e = cc
    by_state failed e = cc
    by_state uploaded e = cc
    by_state unavailable e = cc
    by_state skipped e = cc

assets-Moves :
    (k : String) (now : ℕ) (key : String) (manifest clips : ℕ) (note : String) (l : Ledger)
    → Moves (find k l.items) (find k (mark_assets now key manifest clips note l).items)
unfolding mark_assets assets_row
assets-Moves k now key manifest clips note l = elim (Bool-cases (manifest == 0)) [
  | inr e ↦
      rw (mark_assets, e)
        (update-Moves k (keyed key) (assets_row now manifest clips note) l.items (λ r. refl)
          (λ r f h. noted refl refl refl))
  | inl e ↦ elim (Bool-cases (str_eq note "")) [
    | inl f ↦ rw (mark_assets, e, f) (kept refl)
    | inr f ↦
        rw (mark_assets, e, f)
          (update-Moves k (keyed key) (note_row note) l.items (λ r. refl)
            (λ r g h. noted refl refl refl))
  ]
]

pub step-Moves :
    (k : String) {l l' : Ledger}
    → Step l l'
    → IsSoundTable l.items
    → Moves (find k l.items) (find k l'.items)
unfolding mark_uploaded mark_failed mark_unavailable log keyed
step-Moves k (claim l skip now) h = claim-Moves k skip now l h
step-Moves k (upload l now key given st) h =
    update-Moves k (keyed key) (uploaded_row now given) l.items (λ r. refl)
      (λ r e q. fetching-Moves r _ (found_state k key l e q st) refl land)
step-Moves k (fail l now key error retry_in m st) h =
    let row = find key l.items in
    update-Moves k (keyed key) (failed_row (attempts_of row) (revivals_of row) m retry_in now error)
      l.items (failed_row-key _ _ m retry_in now error)
      (λ r e q.
        fetching-Moves r _ (found_state k key l e q st)
          (failed_row-state _ _ m retry_in now error r) miss)
step-Moves k (give_up l now key reason st) h =
    update-Moves k (keyed key) (unavailable_row now reason) l.items (λ r. refl)
      (λ r e q. fetching-Moves r _ (found_state k key l e q st) refl lose)
step-Moves k (repair l show now older_than) h =
    subst (λ rows. Moves (find k l.items) (find k rows)) (sym (repaired show now older_than l))
      (update-Moves k (is_stale now older_than) (λ r. record r { state = queued }) l.items
        (λ r. refl) (λ r e q. fetching-Moves r _ (stale_state now older_than r q) refl put_back))
step-Moves k (import l say now pairs source) h = add_many-Moves k say now pairs source l
step-Moves k (assets l now key manifest clips note) h = assets-Moves k now key manifest clips note l
step-Moves k (journal l now kind text key) h = kept refl
step-Moves k (remember l j v) h = kept refl
