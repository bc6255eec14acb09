-- ===== src/Coverage/Tests.antt =====
-- The theorems about vios/process/coverage.py at a small table: two videos, two passes.
use mathlib.Core.List.{Memᴰ}
use vios_manus.Common.{
  ℕ, ◌≤◌, ◌≡◌, refl, true, none, some, List, [], ◌∷◌, All, AllPairs, count, is_text, arith,
}
use vios_manus.Common.{sort, select, eq_iff}
use vios_manus.Sql.{update, limited}
use vios_manus.Coverage.{Row, Video, Conn, Worker, at, mine, in_slice, open_coverage}
use vios_manus.Coverage.Claim
use vios_manus.Coverage.Claim.{lease, offered_for}
use vios_manus.Coverage.Finish
use vios_manus.Coverage.Finish.{release_row}
use vios_manus.Coverage.Operate
use vios_manus.Coverage.Operate.{fresh, revive_failed}
use vios_manus.Coverage.Reconcile.{Evidence, reconcile}
use vios_manus.Coverage.Table.{IsSoundTable}
use vios_manus.Coverage.Exclusive.{Taken, AskedFor, claim_for_takes_free}
use vios_manus.Coverage.History
use vios_manus.Coverage.History.{Call, perform, run, run-IsSoundTable}
use vios_manus.Coverage.Leases.{claim_then_claims, fail_then_claims}
use vios_manus.Coverage.Slices.{IsKeyedVideos, slices_disjoint}
use vios_manus.Coverage.Retry.{standing, IsUnfinished, revive_failed-standing}
use vios_manus.Coverage.Evidence.{reconcile-reconcile}

abbrev reels : List Video
reels = record { video_key = "a"; partition = 3 } ∷ record { video_key = "b"; partition = 4 } ∷ []

abbrev blank : Conn
blank = record { videos = reels; rows = [] }

blank-IsSoundTable : IsSoundTable blank.rows
unfolding count
blank-IsSoundTable = record { each = tt; ids = λ i. omega arith; keyed = λ k c. omega arith }

abbrev solo : Worker
solo = record { partitions = 1; index = 0; name = "w" }

-- the passes of both videos
abbrev planned : Conn
planned = run (History.plan ("ocr" ∷ "cuts" ∷ []) none ∷ []) blank

planned-IsSoundTable : IsSoundTable planned.rows
planned-IsSoundTable =
    run-IsSoundTable (History.plan ("ocr" ∷ "cuts" ∷ []) none ∷ []) blank blank-IsSoundTable

abbrev claim_ocr : Call
claim_ocr = History.claim solo "ocr" 1 10 "t1"

-- one video claimed for ocr
abbrev claimed : Conn
claimed = run (claim_ocr ∷ []) planned

claimed-IsSoundTable : IsSoundTable claimed.rows
claimed-IsSoundTable = run-IsSoundTable (claim_ocr ∷ []) planned planned-IsSoundTable

claim_picks_first : (Claim.claim solo "ocr" 1 10 "t1" planned).1 ≡ "a" ∷ []
unfolding Claim.claim run perform Operate.plan sort select update limited
claim_picks_first = refl

run-IsSoundTable_example :
    IsSoundTable
      (run
        (History.plan ("ocr" ∷ []) none ∷ claim_ocr ∷ History.fail "a" "ocr" "oom" 20 ∷ [])
        blank).rows
run-IsSoundTable_example =
    run-IsSoundTable
      (History.plan ("ocr" ∷ []) none ∷ claim_ocr ∷ History.fail "a" "ocr" "oom" 20 ∷ []) blank
      blank-IsSoundTable

claim_then_claims_example :
    let c' = (Claim.claim solo "ocr" 1 10 "t1" planned).0 in
    AllPairs
      (λ r r'. is_text r.token "t1" ≡ true → r' ≡ r)
      c'.rows
      (run (History.claim solo "ocr" 5 2000000 "t2" ∷ []) c').rows
unfolding run perform Operate.plan
claim_then_claims_example =
    claim_then_claims solo "ocr" 1 10 "t1" planned (History.claim solo "ocr" 5 2000000 "t2" ∷ [])
      planned-IsSoundTable (refl, (refl, (refl, (refl, tt)))) (omega arith, tt)

claimed_tried : All (λ r. at "a" "ocr" r ≡ true → 1 ≤ r.attempts) claimed.rows
unfolding Claim.claim run perform Operate.plan sort select update limited at
claimed_tried = ((λ _. omega arith), ((λ e. cc), ((λ e. cc), ((λ e. cc), tt))))

fail_then_claims_example :
    let c' = (Finish.fail "a" "ocr" "oom" 20 claimed).0 in
    AllPairs
      (λ r r'. at "a" "ocr" r ≡ true → r' ≡ r)
      c'.rows
      (run (History.claim solo "ocr" 5 600019 "t2" ∷ []) c').rows
fail_then_claims_example =
    fail_then_claims "a" "ocr" "oom" 20 600019 claimed (History.claim solo "ocr" 5 600019 "t2" ∷ [])
      claimed-IsSoundTable claimed_tried (omega arith) (omega arith, tt)

claim_for_takes_free_example :
    AllPairs
      (Taken solo 10 "t1" (AskedFor solo planned "a" ("ocr" ∷ "cuts" ∷ [])))
      planned.rows
      (Claim.claim_for solo "a" ("ocr" ∷ "cuts" ∷ []) 10 "t1" planned).0.rows
claim_for_takes_free_example =
    claim_for_takes_free solo 10 "t1" planned "a" ("ocr" ∷ "cuts" ∷ []) planned-IsSoundTable

reels-IsKeyedVideos : IsKeyedVideos reels
unfolding count
reels-IsKeyedVideos k = ground (arith, eq_iff "a" k, eq_iff "b" k, eq_iff "a" "b")

abbrev a_ocr : Row
a_ocr = fresh 1 "a" "ocr"

slices_disjoint_example : ◌≡◌ {A = ℕ} 1 1
unfolding open_coverage mine in_slice fresh
slices_disjoint_example =
    slices_disjoint 2 1 1 "w" "u" "host" reels a_ocr refl refl reels-IsKeyedVideos (Memᴰ.head refl)
      refl refl refl

revive_failed-standing_example :
    let c' = (revive_failed solo 10 planned).0 in
    All
      (λ r. IsUnfinished r → mine solo planned.videos r ≡ true → standing solo c' 10 r ≡ 1)
      c'.rows
revive_failed-standing_example = revive_failed-standing solo 10 planned planned-IsSoundTable.each

abbrev shard : List Evidence
shard =
    record {
      video_key = "a";
      component = "ocr";
      observer_id = some "o1";
      claims = some 4;
      vectors = none;
      seconds = some 900;
    }
    ∷ []

reconcile-reconcile_example :
    let c' = (reconcile 10 shard planned).0 in
    ((reconcile 20 shard c').0 ≡ c') × ((reconcile 20 shard c').1.rows ≡ 0)
reconcile-reconcile_example = reconcile-reconcile 10 20 shard planned
