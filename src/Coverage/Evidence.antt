-- ===== src/Coverage/Evidence.antt =====
-- Which rows `reconcile` of vios/process/coverage.py writes, and its repetition.
use vios_manus.Common.{
  ℕ, ◌≡◌, ◌⊎◌, refl, ap, true, false, Bool, none, List, [], ◌∷◌, arith, All, All-intro, AllPairs,
  AllPairs-refl, count, select, Bool-cases, inl, inr, if◌then◌else◌,
}
use vios_manus.Sql.{update, update-All_to, update-AllPairs}
use vios_manus.Coverage.{queued, failed, done, Row, Conn}
use vios_manus.Coverage.Reconcile.{
  Evidence, reconcile_row, to_reconcile, reconcile_all, reconcile_named, reconcile, is_named,
}

update_none :
    (p : Row → Bool) (f : Row → Row) (rows : List Row)
    → All (λ r. p r ≡ false) rows
    → (update p f rows ≡ rows) × (count p rows ≡ 0)
unfolding update count
update_none p f [] h = (refl, refl)
update_none p f (r ∷ rs) h =
    let (same, none_counted) = update_none p f rs h.1 in
    (rw h.0 (ap (λ t. r ∷ t) same), rw h.0 (omega (arith, none_counted)))

-- Nothing of the table is outstanding for this piece of evidence.
abbrev IsSettled : List Row → Evidence → Type 0
IsSettled rows e = All (λ r. to_reconcile e r ≡ false) rows

settled_row : (now : ℕ) (e d : Evidence) (r : Row) → to_reconcile e (reconcile_row now d r) ≡ false
unfolding to_reconcile reconcile_row
settled_row now e d r = ground arith

update-IsSettled :
    (now : ℕ) (e d : Evidence) (rows : List Row)
    → IsSettled rows e
    → IsSettled (update (to_reconcile d) (reconcile_row now d) rows) e
update-IsSettled now e d rows =
    update-All_to (λ r. to_reconcile e r ≡ false) (λ r. to_reconcile e r ≡ false) (to_reconcile d)
      (reconcile_row now d) rows (λ r _ _ _. settled_row now e d r) (λ r h _. h)

update-IsSettled_self :
    (now : ℕ) (e : Evidence) (rows : List Row)
    → IsSettled (update (to_reconcile e) (reconcile_row now e) rows) e
update-IsSettled_self now e rows =
    update-All_to (λ r. Unit {0}) (λ r. to_reconcile e r ≡ false) (to_reconcile e)
      (reconcile_row now e) rows (λ r _ _ _. settled_row now e e r) (λ r _ absent. absent)
      (All-intro (λ r. Unit {0}) (λ _. tt) rows)

reconcile_all-IsSettled :
    (now : ℕ) (es : List Evidence) (e : Evidence) (rows : List Row)
    → IsSettled rows e
    → IsSettled (reconcile_all now es rows).0 e
unfolding reconcile_all
reconcile_all-IsSettled now [] e rows h = h
reconcile_all-IsSettled now (d ∷ ds) e rows h =
    reconcile_all-IsSettled now ds e _ (update-IsSettled now e d rows h)

reconcile_all_settles :
    (now : ℕ) (es : List Evidence) (rows : List Row)
    → All (IsSettled (reconcile_all now es rows).0) es
unfolding reconcile_all
reconcile_all_settles now [] rows = tt
reconcile_all_settles now (e ∷ es) rows = (
  reconcile_all-IsSettled now es e _ (update-IsSettled_self now e rows),
  reconcile_all_settles now es (update (to_reconcile e) (reconcile_row now e) rows),
)

reconcile_all_settled :
    (now : ℕ) (es : List Evidence) (rows : List Row)
    → All (IsSettled rows) es
    → reconcile_all now es rows ≡ (rows, 0)
unfolding reconcile_all
reconcile_all_settled now [] rows h = refl
reconcile_all_settled now (e ∷ es) rows h =
    let (same, none_counted) = update_none (to_reconcile e) (reconcile_row now e) rows h.0 in
    rw (same, none_counted, reconcile_all_settled now es rows h.1) refl

reconcile_named_again :
    (now later : ℕ) (es : List Evidence) (c : Conn)
    → let c' = (reconcile_named now es c).0 in
      ((reconcile_named later es c').0 ≡ c') × ((reconcile_named later es c').1.rows ≡ 0)
unfolding reconcile_named
reconcile_named_again now later [] c = (refl, refl)
reconcile_named_again now later (e ∷ es) c =
    let rows = (reconcile_all now (e ∷ es) c.rows).0 in
    let again =
      reconcile_all_settled later (e ∷ es) rows (reconcile_all_settles now (e ∷ es) c.rows) in
    (ap (λ (t : List Row × ℕ). record c { rows = t.0 }) again, ap (λ (t : List Row × ℕ). t.1) again)

-- Running `reconcile` again on the same evidence, at any later moment, writes no row: the count
-- is 0 and the table is as it was.
pub reconcile-reconcile :
    (now later : ℕ) (evidence : List Evidence) (c : Conn)
    → let c' = (reconcile now evidence c).0 in
      ((reconcile later evidence c').0 ≡ c') × ((reconcile later evidence c').1.rows ≡ 0)
unfolding reconcile
reconcile-reconcile now later evidence c =
    reconcile_named_again now later (select is_named evidence) c

-- A row that is neither queued nor failed stays; one that is changed becomes done.
abbrev pub Reconciles : Row → Row → Type 0
Reconciles r r' =
    (r' ≡ r)
    ⊎ (((r.state ≡ queued) ⊎ (r.state ≡ failed))
        × (r'.state ≡ done)
        × (r'.attempts ≡ r.attempts)
        × (r'.last_error ≡ none))

Reconciles-trans : (a b c : Row) → Reconciles a b → Reconciles b c → Reconciles a c
Reconciles-trans a b c h k = ground arith

AllPairs-trans :
    (xs ys zs : List Row)
    → AllPairs Reconciles xs ys
    → AllPairs Reconciles ys zs
    → AllPairs Reconciles xs zs
AllPairs-trans [] [] [] p q = tt
AllPairs-trans [] [] (z ∷ zs) p q = elim q [ ]
AllPairs-trans [] (y ∷ ys) zs p q = elim p [ ]
AllPairs-trans (x ∷ xs) [] zs p q = elim p [ ]
AllPairs-trans (x ∷ xs) (y ∷ ys) [] p q = elim q [ ]
AllPairs-trans (x ∷ xs) (y ∷ ys) (z ∷ zs) p q =
    (Reconciles-trans x y z p.0 q.0, AllPairs-trans xs ys zs p.1 q.1)

outstanding :
    (e : Evidence) (r : Row) → to_reconcile e r ≡ true → (r.state ≡ queued) ⊎ (r.state ≡ failed)
unfolding to_reconcile
outstanding e r h = ground arith

reconciled_row :
    (now : ℕ) (e : Evidence) (r : Row)
    → Reconciles r (if to_reconcile e r then reconcile_row now e r else r)
unfolding reconcile_row
reconciled_row now e r = elim (Bool-cases (to_reconcile e r)) [
  | inl found ↦ rw found (inr (outstanding e r found, refl, refl, refl))
  | inr absent ↦ rw absent (inl refl)
]

reconcile_all-Reconciles :
    (now : ℕ) (es : List Evidence) (rows : List Row)
    → AllPairs Reconciles rows (reconcile_all now es rows).0
unfolding reconcile_all
reconcile_all-Reconciles now [] rows = AllPairs-refl Reconciles (λ r. inl refl) rows
reconcile_all-Reconciles now (e ∷ es) rows =
    let rows' = update (to_reconcile e) (reconcile_row now e) rows in
    AllPairs-trans rows rows' (reconcile_all now es rows').0
      (update-AllPairs Reconciles (to_reconcile e) (reconcile_row now e) rows
        (λ r _. reconciled_row now e r))
      (reconcile_all-Reconciles now es rows')

reconcile_named-Reconciles :
    (now : ℕ) (es : List Evidence) (c : Conn)
    → AllPairs Reconciles c.rows (reconcile_named now es c).0.rows
unfolding reconcile_named
reconcile_named-Reconciles now [] c = AllPairs-refl Reconciles (λ r. inl refl) c.rows
reconcile_named-Reconciles now (e ∷ es) c = reconcile_all-Reconciles now (e ∷ es) c.rows

-- `reconcile` leaves every done, running and skipped row exactly as it was; a row that it changes
-- was queued or failed, and is then done, with its attempts kept and its error cleared.
pub reconcile_spares :
    (now : ℕ) (evidence : List Evidence) (c : Conn)
    → AllPairs Reconciles c.rows (reconcile now evidence c).0.rows
unfolding reconcile
reconcile_spares now evidence c = reconcile_named-Reconciles now (select is_named evidence) c
