-- ===== src/Ledger/Again.antt =====
-- The same import made twice on a ledger of vios/capture/ledger.py.
use mathlib.Core.Path.{subst}
use text.Mathlib.TextPositions.{eq_refl}
use vios_manus.Common.{
  ℕ, ◌+◌, ◌≡◌, refl, sym, ap, ◌∙◌, Option, some, String, str_eq, List, [], ◌∷◌, All, length, arith,
  Bool-cases, Option-cases, inl, inr,
}
use vios_manus.Ledger.{queued, Item, Ledger, find, keyed, fresh, log}
use vios_manus.Ledger.Links.{Canonical, canonical}
use vios_manus.Ledger.Links.Roundtrip.{canonical-canonical}
use vios_manus.Ledger.Enqueue.{
  add, insert_new, position_or, fold_in, fold_all, add_many, add_entries, add_entry, tag_entry,
  Entry, Imported, Tally,
}
use vios_manus.Ledger.Find.{find-append}
use vios_manus.Ledger.Keeps.{tag_maybe-items}
use vios_manus.Ledger.Growth.{Grows, add_entries-Grows}

-- An entry whose link has its key.
abbrev IsEntry : Entry → Type 0
IsEntry e = (c : Canonical) × (canonical e.url ≡ some c) × (c.key ≡ e.key)

fold_in-IsEntry :
    (c : Canonical) (collection : String) (es : List Entry)
    → canonical c.url ≡ some c
    → All IsEntry es
    → All IsEntry (fold_in c collection es)
unfolding fold_in
fold_in-IsEntry c collection [] h hs = ((c, h, refl), tt)
fold_in-IsEntry c collection (e ∷ es) h hs = elim (Bool-cases (str_eq e.key c.key)) [
  | inl q ↦ rw q hs
  | inr q ↦ rw q (hs.0, fold_in-IsEntry c collection es h hs.1)
]

fold_all-IsEntry :
    (pairs : List (String × String)) (es : List Entry) (bad : ℕ)
    → All IsEntry es
    → All IsEntry (fold_all pairs es bad).0
unfolding fold_all
fold_all-IsEntry [] es bad h = h
fold_all-IsEntry ((url, collection) ∷ rest) es bad h = elim (Option-cases (canonical url)) [
  | inl e ↦ rw (fold_all, e) (fold_all-IsEntry rest es (bad + 1) h)
  | inr (c, e) ↦
      rw (fold_all, e)
        (fold_all-IsEntry rest (fold_in c collection es) bad
          (fold_in-IsEntry c collection es (canonical-canonical url e) h))
]

abbrev IsKnown : List Item → Entry → Type 0
IsKnown rows e = (r : Item) × (find e.key rows ≡ some r)

insert_new-IsKnown :
    (now : ℕ) (c : Canonical) (source : String) (position : Option ℕ) (l : Ledger)
    → (r : Item) × (find c.key (insert_new now c source position l).items ≡ some r)
unfolding insert_new find keyed
insert_new-IsKnown now c source position l = elim (Option-cases (find c.key l.items)) [
  | inr (r, e) ↦ rw (insert_new, e) (r, e)
  | inl e ↦
      rw (insert_new, e)
        (
          fresh c.key c.url c.kind queued now source (position_or position l),
          find-append c.key l.items _ ∙ rw (e, eq_refl c.key) refl,
        )
]

add_entry-IsKnown :
    (now : ℕ) (source : String) (e : Entry) (l : Ledger) (t : Tally)
    → IsEntry e
    → IsKnown (add_entry now source e (l, t)).0.items e
unfolding add_entry add
add_entry-IsKnown now source e l t (c, q, same) = elim (Option-cases (find e.key l.items)) [
  | inr (r, f) ↦ rw (add_entry, f) (r, f)
  | inl f ↦
      let (r, g) = insert_new-IsKnown now c source (some t.pos) l in
      let l' = insert_new now c source (some t.pos) l in
      rw (add_entry, f, add, q)
        (
          r,
          ap (find e.key) (tag_maybe-items c.key "" l')
              ∙ subst (λ k. find k l'.items ≡ some r) same g,
        )
]

stays :
    (k : String) (rows rows' : List Item) {r : Item}
    → Grows (find k rows) (find k rows')
    → find k rows ≡ some r
    → find k rows' ≡ some r
stays k rows rows' (inl e) h = e ∙ h
stays k rows rows' (inr (n, _)) h = cc

add_entries-IsKnown :
    (now : ℕ) (source : String) (es : List Entry) (s : Ledger × Tally)
    → All IsEntry es
    → All (IsKnown (add_entries now source es s).0.items) es
unfolding add_entries tag_entry
add_entries-IsKnown now source [] s h = tt
add_entries-IsKnown now source (e ∷ es) (l, t) h =
    let s' = tag_entry e (add_entry now source e (l, t)) in
    let (r, f) = add_entry-IsKnown now source e l t h.0 in
    (
      (r, stays e.key _ _ (add_entries-Grows e.key now source es s') f),
      add_entries-IsKnown now source es s' h.1,
    )

-- An entry that is known leaves the row, and is counted as known.
known_entry :
    (now : ℕ) (source : String) (e : Entry) (s : Ledger × Tally)
    → IsKnown s.0.items e
    → let s' = tag_entry e (add_entry now source e s) in
      (s'.0.items ≡ s.0.items) × (s'.1.added ≡ s.1.added) × (s'.1.known ≡ s.1.known + 1)
unfolding tag_entry add_entry
known_entry now source e (l, t) (r, f) = rw (add_entry, f) (refl, refl, refl)

-- Where every entry is known, the rows stay, and the counters say so.
known_entries :
    (now : ℕ) (source : String) (es : List Entry) (s : Ledger × Tally)
    → All (IsKnown s.0.items) es
    → let s' = add_entries now source es s in
      (s'.0.items ≡ s.0.items) × (s'.1.added ≡ s.1.added) × (s'.1.known ≡ s.1.known + length es)
unfolding add_entries
known_entries now source [] s h = (refl, refl, omega arith)
known_entries now source (e ∷ es) s (known, hs) =
    let s' = tag_entry e (add_entry now source e s) in
    let (rows, added, counted) = known_entry now source e s known in
    let (rows', added', counted') =
      known_entries now source es s' (subst (λ rs. All (IsKnown rs) es) (sym rows) hs) in
    (rows' ∙ rows, added' ∙ added, omega (arith, counted, counted'))

add_many-IsKnown :
    (say : Imported → String) (now : ℕ) (pairs : List (String × String)) (source : String)
    (l : Ledger)
    → All (IsKnown (add_many say now pairs source l).0.items) (fold_all pairs [] 0).0
unfolding add_many log
add_many-IsKnown say now pairs source l =
    add_entries-IsKnown now source (fold_all pairs [] 0).0 _ (fold_all-IsEntry pairs [] 0 tt)

known_add_many :
    (say : Imported → String) (now : ℕ) (pairs : List (String × String)) (source : String)
    (l : Ledger)
    → All (IsKnown l.items) (fold_all pairs [] 0).0
    → let (l', result) = add_many say now pairs source l in
      (l'.items ≡ l.items) × (result.added ≡ 0) × (result.duplicate ≡ result.unique)
unfolding add_many log
known_add_many say now pairs source l h =
    let (rows, added, counted) = known_entries now source (fold_all pairs [] 0).0 _ h in
    (rows, added, omega (arith, counted))

-- After an import, the same import made again, at whatever moment, leaves every row as it is: it adds
-- no video, and counts each of its videos as a duplicate.
pub add_many-add_many :
    (say : Imported → String) (now later : ℕ) (pairs : List (String × String)) (source : String)
    (l : Ledger)
    → let l' = (add_many say now pairs source l).0 in
      let (l'', result) = add_many say later pairs source l' in
      (l''.items ≡ l'.items) × (result.added ≡ 0) × (result.duplicate ≡ result.unique)
add_many-add_many say now later pairs source l =
    known_add_many say later pairs source (add_many say now pairs source l).0
      (add_many-IsKnown say now pairs source l)
