-- ===== src/Ledger/Growth.antt =====
-- What the imports of vios/capture/ledger.py do to the row of one video: `add` and `add_many`.
use mathlib.Core.Path.{subst}
use vios_manus.Common.{
  ℕ, ◌≡◌, ◌⊎◌, refl, sym, ap, ◌∙◌, Option, none, some, String, List, [], ◌∷◌, ◌++◌, Bool-cases,
  Option-cases, inl, inr,
}
use vios_manus.Ledger.{queued, Item, Ledger, keyed, find}
use vios_manus.Ledger.Links.{Canonical, canonical}
use vios_manus.Ledger.Enqueue.{add, insert_new, add_entries, add_entry, tag_entry, Entry, Tally}
use vios_manus.Ledger.Find.{find-append, status_of}
use vios_manus.Ledger.Keeps.{tag_maybe-items}

-- A row that stays as it was, or one that is new and queued.
abbrev pub Grows : Option Item → Option Item → Type 0
Grows o o' = (o' ≡ o) ⊎ ((o ≡ none) × (status_of o' ≡ some queued))

Grows-trans : {o o' o'' : Option Item} → Grows o o' → Grows o' o'' → Grows o o''
Grows-trans (inl e) (inl e') = inl (e' ∙ e)
Grows-trans (inl e) (inr (n, q)) = inr (sym e ∙ n, q)
Grows-trans (inr (n, q)) (inl e') = inr (n, ap status_of e' ∙ q)
Grows-trans (inr (n, q)) (inr (n', q')) = absurd (cc (q, ap status_of n'))

-- A row that is appended leaves the rows that are found as they were.
append-Grows :
    (k : String) (rows : List Item) (r : Item)
    → r.state ≡ queued
    → Grows (find k rows) (find k (rows ++ r ∷ []))
unfolding find
append-Grows k rows r q = elim (Option-cases (find k rows)) [
  | inr (x, e) ↦ inl (find-append k rows (r ∷ []) ∙ rw e refl)
  | inl e ↦ elim (Bool-cases (keyed k r)) [
    | inl h ↦
        let got : find k (rows ++ r ∷ []) ≡ some r = find-append k rows (r ∷ []) ∙ rw (e, h) refl in
        inr (e, ap status_of got ∙ ap some q)
    | inr h ↦ inl (find-append k rows (r ∷ []) ∙ rw (e, h) refl)
  ]
]

insert_new-Grows :
    (k : String) (now : ℕ) (c : Canonical) (source : String) (position : Option ℕ) (l : Ledger)
    → Grows (find k l.items) (find k (insert_new now c source position l).items)
unfolding insert_new
insert_new-Grows k now c source position l = elim (Option-cases (find c.key l.items)) [
  | inr (r, e) ↦ rw (insert_new, e) (inl refl)
  | inl e ↦ rw (insert_new, e) (append-Grows k l.items _ refl)
]

add-Grows :
    (k : String) (now : ℕ) (url collection source : String) (position : Option ℕ) (l : Ledger)
    → Grows (find k l.items) (find k (add now url collection source position l).0.items)
unfolding add
add-Grows k now url collection source position l = elim (Option-cases (canonical url)) [
  | inl e ↦ rw (add, e) (inl refl)
  | inr (c, e) ↦
      rw (add, e)
        (subst (λ rows. Grows (find k l.items) (find k rows))
          (sym (tag_maybe-items c.key collection (insert_new now c source position l)))
          (insert_new-Grows k now c source position l))
]

add_entry-Grows :
    (k : String) (now : ℕ) (source : String) (e : Entry) (l : Ledger) (t : Tally)
    → Grows (find k l.items) (find k (add_entry now source e (l, t)).0.items)
unfolding add_entry
add_entry-Grows k now source e l t = elim (Option-cases (find e.key l.items)) [
  | inl f ↦ rw (add_entry, f) (add-Grows k now e.url "" source (some t.pos) l)
  | inr (r, f) ↦ rw (add_entry, f) (inl refl)
]

pub add_entries-Grows :
    (k : String) (now : ℕ) (source : String) (es : List Entry) (s : Ledger × Tally)
    → Grows (find k s.0.items) (find k (add_entries now source es s).0.items)
unfolding add_entries tag_entry
add_entries-Grows k now source [] s = inl refl
add_entries-Grows k now source (e ∷ es) (l, t) =
    Grows-trans (add_entry-Grows k now source e l t)
      (add_entries-Grows k now source es (tag_entry e (add_entry now source e (l, t))))
