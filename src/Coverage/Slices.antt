-- ===== src/Coverage/Slices.antt =====
-- Static partitioning in vios/process/coverage.py: `_mine` and the check of `__init__`.
use mathlib.Core.List.{Memᴰ}
use text.Mathlib.TextPositions.{eq_refl}
use vios_manus.Common.{
  ℕ, ◌%◌, ◌≤◌, ◌≡◌, refl, true, false, Bool, some, ◌&&◌, String, str_eq, List, [], ◌∷◌, arith, any,
  count, count_elem, ◌==◌, if◌then◌else◌, leb,
}
use vios_manus.Coverage.{Row, Video, Worker, mine, in_slice, open_coverage}

-- The primary key of the table `video`.
abbrev pub IsKeyedVideos : List Video → Type 0
IsKeyedVideos vs = (k : String) → count (λ v. str_eq v.video_key k) vs ≤ 1

none_listed :
    (p q : Video → Bool) (vs : List Video) → count p vs ≡ 0 → any (λ v. p v && q v) vs ≡ false
unfolding count
none_listed p q [] h = refl
none_listed p q (v ∷ vs) h = ground (arith, none_listed p q vs)

-- The one video of a key decides the slice.
in_slice_lem :
    (w : Worker) {v : Video} (vs : List Video)
    → Memᴰ v vs
    → count (λ u. str_eq u.video_key v.video_key) vs ≤ 1
    → in_slice w vs v.video_key ≡ (v.partition % w.partitions == w.index)
unfolding in_slice count
in_slice_lem w [] m one = elim m [ ]
in_slice_lem w {v} (u ∷ us) (Memᴰ.head e) one = ground (
  arith,
  e,
  eq_refl v.video_key,
  none_listed (λ x. str_eq x.video_key v.video_key) (λ x. x.partition % w.partitions == w.index) us,
)
in_slice_lem w {v} (u ∷ us) (Memᴰ.tail m) one = ground (
  arith,
  in_slice_lem w us m,
  count_elem (λ x. str_eq x.video_key v.video_key) us m (eq_refl v.video_key),
)

-- A worker sees the rows of a video exactly if it works alone or the video's partition, modulo
-- the number of workers, is its index.
mine_lem :
    (w : Worker) (vs : List Video) {v : Video} (r : Row)
    → IsKeyedVideos vs
    → Memᴰ v vs
    → r.video_key ≡ v.video_key
    → mine w vs r ≡ (if leb w.partitions 1 then true else v.partition % w.partitions == w.index)
unfolding mine
mine_lem w vs {v} r keyed m e = rw (e, in_slice_lem w vs m (keyed v.video_key)) refl

-- In a store with one row for each video key, two valid workers of one team never see the same row
-- of a known video, unless they are the same slice.
pub slices_disjoint :
    (partitions i j : ℕ) (a b default_id : String) (vs : List Video) {v : Video} {w u : Worker}
    (r : Row)
    → open_coverage partitions i a default_id ≡ some w
    → open_coverage partitions j b default_id ≡ some u
    → IsKeyedVideos vs
    → Memᴰ v vs
    → r.video_key ≡ v.video_key
    → mine w vs r ≡ true
    → mine u vs r ≡ true
    → i ≡ j
unfolding open_coverage
slices_disjoint p i j a b d vs {v} {w} {u} r ew eu keyed m e mw mu =
    ground (arith, mine_lem w vs r keyed m e, mine_lem u vs r keyed m e)

-- In a store with one row for each video key, every row of a known video is seen by a valid worker
-- of any team of one or more.
pub slices_cover :
    (partitions : ℕ) (a default_id : String) (vs : List Video) {v : Video} (r : Row)
    → 1 ≤ partitions
    → IsKeyedVideos vs
    → Memᴰ v vs
    → r.video_key ≡ v.video_key
    → (w : Worker) × (open_coverage partitions (v.partition % partitions) a default_id ≡ some w)
      × (mine w vs r ≡ true)
unfolding open_coverage
slices_cover p a d vs {v} r pos keyed m e =
    let w : Worker = record {
      partitions = p;
      index = v.partition % p;
      name = if str_eq a "" then d else a;
    } in
    (w, ground arith, ground (arith, mine_lem w vs r keyed m e))
