-- ===== src/Coverage/Table.antt =====
-- The invariant of the whole coverage table of vios/process/coverage.py, under UPDATE, INSERT and
-- DELETE.
use mathlib.Core.List.{Memᴰ}
use vios_manus.Common.{
  ℕ, ◌≤◌, ◌≡◌, refl, Bool, true, false, String, List, [], ◌∷◌, ◌++◌, arith, All, any, count, select,
  ◌==◌, eq_iff, Bool-cases, inl, inr, count_elem, count-append, count-select, count-and-le,
  All-append, All-select,
}
use vios_manus.Sql.{update, update-All_elem, count-update, Distinct}
use vios_manus.Coverage.{Row, at}
use vios_manus.Coverage.Finish.{attempts_at}
use vios_manus.Coverage.Operate.{next_rowid, fresh, insert_or_ignore, insert_all}
use vios_manus.Coverage.Sound.{IsSound, fresh-IsSound}

abbrev pub rowid_of : Row → ℕ
rowid_of r = r.rowid

-- Rowids are distinct, and so are the primary keys (video_key, component).
pub record IsSoundTable (rows : List Row) : Type 0 where
  pub each : All IsSound rows
  pub ids : Distinct rowid_of rows
  pub keyed : (k c : String) → count (at k c) rows ≤ 1

-- An assignment that leaves the key of a row alone.
pub record KeepsKey (f : Row → Row) : Type 0 where
  pub same_id : (r : Row) → (f r).rowid ≡ r.rowid
  pub same_key : (r : Row) → (f r).video_key ≡ r.video_key
  pub same_component : (r : Row) → (f r).component ≡ r.component

pub update-IsSoundTable :
    (p : Row → Bool) (f : Row → Row) (rows : List Row)
    → KeepsKey f
    → ((r : Row) → Memᴰ r rows → IsSound r → p r ≡ true → IsSound (f r))
    → IsSoundTable rows
    → IsSoundTable (update p f rows)
unfolding at
update-IsSoundTable p f rows same keep h = record {
  each = update-All_elem IsSound p f rows keep h.each;
  ids = λ i. rw (count-update (λ r. r.rowid == i) p f (λ r. rw (same.same_id r)) rows) (h.ids i);
  keyed = λ k c.
      rw (count-update (at k c) p f (λ r. rw (same.same_key r, same.same_component r)) rows)
        (h.keyed k c);
}

-- A statement that changes only the row of one key reads that row's own attempts.
pub attempts_at_row :
    (k c : String) {r : Row} (rows : List Row)
    → Memᴰ r rows
    → at k c r ≡ true
    → count (at k c) rows ≤ 1
    → attempts_at k c rows ≡ r.attempts
unfolding attempts_at count
attempts_at_row k c [] m h one = elim m [ ]
attempts_at_row k c (x ∷ xs) (Memᴰ.head e) h one = ground (arith, e)
attempts_at_row k c (x ∷ xs) (Memᴰ.tail m) h one =
    ground (arith, count_elem (at k c) xs m h, attempts_at_row k c xs m h)

pub select-IsSoundTable :
    (p : Row → Bool) (rows : List Row) → IsSoundTable rows → IsSoundTable (select p rows)
select-IsSoundTable p rows h = record {
  each = All-select IsSound p rows h.each;
  ids = λ i. omega (
    arith,
    count-select p (λ r. r.rowid == i) rows,
    count-and-le p (λ r. r.rowid == i) rows,
    h.ids i,
  );
  keyed =
      λ k c. omega (arith, count-select p (at k c) rows, count-and-le p (at k c) rows, h.keyed k c);
}

rowid-lt-next : (rows : List Row) (i : ℕ) → next_rowid rows ≤ i → count (λ r. r.rowid == i) rows ≡ 0
unfolding next_rowid count
rowid-lt-next [] i h = refl
rowid-lt-next (r ∷ rs) i h = ground (arith, rowid-lt-next rs i)

count-any : (p : Row → Bool) (rows : List Row) → any p rows ≡ false → count p rows ≡ 0
unfolding count
count-any p [] h = refl
count-any p (r ∷ rs) h = ground (arith, count-any p rs)

module _ (k c : String) (rows : List Row) where
  added : List Row
  added = fresh (next_rowid rows) k c ∷ []

  ids_added : Distinct rowid_of rows → Distinct rowid_of (rows ++ added)
  unfolding added fresh count
  ids_added h i =
      rw (count-append (λ r. r.rowid == i) rows added) (ground (arith, h i, rowid-lt-next rows i))

  keyed_added :
      any (at k c) rows ≡ false
      → (j d : String) → count (at j d) rows ≤ 1
      → count (at j d) (rows ++ added) ≤ 1
  unfolding added fresh at count
  keyed_added absent j d h =
      rw (count-append (at j d) rows added)
        (ground (arith, eq_iff k j, eq_iff c d, count-any (at k c) rows absent))

  pub insert-IsSoundTable : IsSoundTable rows → IsSoundTable (insert_or_ignore (k, c) rows).0
  unfolding insert_or_ignore added
  insert-IsSoundTable h = elim (Bool-cases (any (at k c) rows)) [
    | inl e ↦ rw e h
    | inr e ↦ rw e (record {
      each = All-append IsSound rows added h.each (fresh-IsSound _ k c, tt);
      ids = ids_added h.ids;
      keyed = λ j d. keyed_added e j d (h.keyed j d);
    })
  ]

pub insert_all-IsSoundTable :
    (ps : List (String × String)) (rows : List Row)
    → IsSoundTable rows
    → IsSoundTable (insert_all ps rows).0
unfolding insert_all
insert_all-IsSoundTable [] rows h = h
insert_all-IsSoundTable ((k, c) ∷ ps) rows h =
    insert_all-IsSoundTable ps (insert_or_ignore (k, c) rows).0 (insert-IsSoundTable k c rows h)
