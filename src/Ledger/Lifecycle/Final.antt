-- ===== src/Ledger/Lifecycle/Final.antt =====
-- The life of one video in vios/capture/ledger.py: its state and its row, over
-- sequences of steps.
use mathlib.Core.Path.{subst}
use vios_manus.Common.{◌≡◌, sym, ap, ◌∙◌, true, Option, none, some, String}
use vios_manus.Ledger.{is_terminal, Item, Ledger, find, log}
use vios_manus.Ledger.Find.{status_of}
use vios_manus.Ledger.Sound.{IsSoundTable}
use vios_manus.Ledger.History.{Call, perform, perform-IsSoundTable}
use vios_manus.Ledger.Lifecycle.{
  Step, claim, upload, fail, give_up, repair, import, assets, journal, remember, Edge, stay, enter,
  Reach, here, next, captured, status,
}
use vios_manus.Ledger.Lifecycle.Moves.{Moves, kept, noted, entered, moved, step-Moves}

-- Under each step of the work loop or of an import, from a sound table, the state of every video
-- moves along an edge of the state machine, or stays.
pub status-Edge :
    {l l' : Ledger} (k : String)
    → Step l l'
    → IsSoundTable l.items
    → Edge (status k l) (status k l')
status-Edge k s h = along (step-Moves k s h)
  where
    along : {o o' : Option Item} → Moves o o' → Edge (status_of o) (status_of o')
    along {o} (kept e) = subst (λ o'. Edge (status_of o) (status_of o')) (sym e) stay
    along (noted {r = r} {r' = r'} e e' same) =
        let q : r'.state ≡ r.state = ap (λ x. x.state) same in rw (e, e', q) stay
    along (entered n q) = rw (ap status_of n, q) enter
    along (moved e e' _ edge) = rw (e, e') edge

pub step-IsSoundTable : {l l' : Ledger} → Step l l' → IsSoundTable l.items → IsSoundTable l'.items
unfolding perform log
step-IsSoundTable (claim l skip now) h = perform-IsSoundTable (Call.claim_next skip now) l h
step-IsSoundTable (upload l now key given _) h =
    perform-IsSoundTable (Call.mark_uploaded now key given) l h
step-IsSoundTable (fail l now key error retry_in m _) h =
    perform-IsSoundTable (Call.mark_failed now key error retry_in m) l h
step-IsSoundTable (give_up l now key reason _) h =
    perform-IsSoundTable (Call.mark_unavailable now key reason) l h
step-IsSoundTable (repair l show now older_than) h =
    perform-IsSoundTable (Call.repair_stale show now older_than) l h
step-IsSoundTable (import l say now pairs source) h =
    perform-IsSoundTable (Call.add_many say now pairs source) l h
step-IsSoundTable (assets l now key manifest clips note) h =
    perform-IsSoundTable (Call.mark_assets now key manifest clips note) l h
step-IsSoundTable (journal l now kind text key) h = h
step-IsSoundTable (remember l k v) h = h

-- The row of a video in an option is the given one, up to its asset set.
abbrev pub Keeps : Item → Option Item → Type 0
Keeps r o = (r' : Item) × (o ≡ some r') × (captured r' ≡ captured r)

Moves-Keeps :
    {o o' : Option Item} (r : Item)
    → Moves o o'
    → is_terminal r.state ≡ true
    → Keeps r o
    → Keeps r o'
Moves-Keeps r (kept e) t (x, f, c) = (x, e ∙ f, c)
Moves-Keeps r (noted {r = y} {r' = y'} e e' same) t (x, f, c) =
    let s : some y ≡ some x = sym e ∙ f in
    let q : captured y ≡ captured x =
      ap (λ (o : Option Item). captured (elim o [ none ↦ x | some z ↦ z ])) s in
    (y', e', same ∙ (q ∙ c))
Moves-Keeps r (entered n _) t (x, f, c) = cc
Moves-Keeps r (moved {s = s} e _ alive _) t (x, f, c) =
    let q : x.state ≡ r.state = ap (λ y. y.state) c in
    absurd (cc (sym (ap status_of f) ∙ e, alive, t, q))

-- A video whose row is uploaded, unavailable or skipped (TERMINAL) keeps that row, column by column
-- but for those of its asset set, whatever steps of the work loop and imports of links by `add_many`
-- follow, when they start from a sound table.
pub Reach-terminal_kept :
    {l l' : Ledger} (k : String) (r : Item)
    → Reach l l'
    → IsSoundTable l.items
    → Keeps r (find k l.items)
    → is_terminal r.state ≡ true
    → Keeps r (find k l'.items)
Reach-terminal_kept k r here h q t = q
Reach-terminal_kept k r (next s more) h q t =
    Reach-terminal_kept k r more (step-IsSoundTable s h) (Moves-Keeps r (step-Moves k s h) t q) t
