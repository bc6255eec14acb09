-- ===== src/Queue/Tests.antt =====
-- The theorems about queue_manager.py at a Redis in memory, with one queue.
use vios_manus.Common.{
  suc, ◌≡◌, refl, sym, ap, true, false, Option, none, some, String, List, [], ◌∷◌, length, str_eq,
  if◌then◌else◌,
}
use vios_manus.Registry.Lookup.{has}
use vios_manus.Queue.{
  Job, all_queues, processing_key, default_lane, default_key, priority_lane, priority_key,
}
use vios_manus.Queue.Fifo.{IsLane, push_job-IsLane, claim_job-IsLane}
use vios_manus.Queue.Jobs.{push_job, new_job, claim_job, fail_job, job_of}
use vios_manus.Queue.Recover.{recover_processing_jobs}
use vios_manus.Queue.Moves.{held}
use vios_manus.Queue.Kept.{claim_job-held, fail_job-held}
use vios_manus.Queue.Emptied.{recover_processing_jobs_lem}
use vios_manus.Queue.Memory.{Memory, memory, memory-IsRedis, bare, id_codec, id_codec-IsCodec}

abbrev vision : String
vision = "QUEUE_OMNI_VISION"

vision_known : has vision all_queues ≡ true
unfolding has
vision_known = refl

-- Two jobs in PROCESSING, and one that waits.
abbrev at_work : Memory
at_work = record {
  lists = λ k.
      if str_eq k "QUEUE_OMNI_VISION_PROCESSING"
      then "ia" ∷ "ib" ∷ []
      else if str_eq k "QUEUE_OMNI_VISION_DEFAULT"
      then "ic" ∷ []
      else [];
  hashes = λ k. [];
}

abbrev job_a : Job
job_a = bare (some "a")

claim_job-held_example :
    held memory id_codec memory-IsRedis id_codec-IsCodec vision vision_known "c"
      (claim_job memory id_codec vision "host:1" 50 at_work).0
    ≡ held memory id_codec memory-IsRedis id_codec-IsCodec vision vision_known "c" at_work
claim_job-held_example =
    claim_job-held memory id_codec memory-IsRedis id_codec-IsCodec vision vision_known "c" "host:1"
      50 at_work

a_in_processing : has "ia" (memory.list at_work (processing_key vision)) ≡ true
unfolding has processing_key
a_in_processing = refl

fail_job-held_example :
    held memory id_codec memory-IsRedis id_codec-IsCodec vision vision_known "a"
      (fail_job memory id_codec vision job_a "ia" "timed out" 60 at_work).0
    ≡ held memory id_codec memory-IsRedis id_codec-IsCodec vision vision_known "a" at_work
fail_job-held_example =
    fail_job-held memory id_codec memory-IsRedis id_codec-IsCodec vision vision_known "a" job_a "ia"
      "timed out" 60 at_work a_in_processing refl

none_empty : has "" (memory.list at_work (processing_key vision)) ≡ false
unfolding has processing_key
none_empty = refl

recover_processing_jobs_lem_example :
    let fuel = suc (length (memory.list at_work (processing_key vision))) in
    let s' =
      (recover_processing_jobs memory id_codec fuel vision
        (some 2)
        (λ n. "crashed")
        70
        at_work).0 in
    (memory.list s' (processing_key vision) ≡ [])
    × ((i : String)
        → held memory id_codec memory-IsRedis id_codec-IsCodec vision vision_known i s'
          ≡ held memory id_codec memory-IsRedis id_codec-IsCodec vision vision_known i at_work)
recover_processing_jobs_lem_example =
    recover_processing_jobs_lem memory id_codec memory-IsRedis id_codec-IsCodec vision vision_known
      (some 2) (λ n. "crashed") 70 at_work none_empty

-- The default lane holds one text, and the priority lane none.
at_work-IsLane :
    IsLane memory id_codec memory-IsRedis id_codec-IsCodec vision vision_known at_work ("ic" ∷ [])
unfolding default_lane default_key has
at_work-IsLane = refl

list_of : Option String → List String
list_of none = []
list_of (some k) = memory.list at_work k

idle_at_work : (k : String) → priority_lane vision ≡ some k → memory.list at_work k ≡ []
unfolding priority_lane priority_key has list_of
idle_at_work k e = sym (ap list_of e)

push_job-IsLane_example :
    IsLane memory id_codec memory-IsRedis id_codec-IsCodec vision vision_known
      (push_job memory id_codec vision "{}" false "d" 80 at_work)
      ("ic" ∷ id_codec.dumps (new_job vision "{}" "d" 80) ∷ [])
push_job-IsLane_example =
    push_job-IsLane memory id_codec memory-IsRedis id_codec-IsCodec vision vision_known "{}" "d" 80
      at_work ("ic" ∷ []) at_work-IsLane

claim_job-IsLane_example :
    let (s', r) = claim_job memory id_codec vision "host:1" 50 at_work in
    IsLane memory id_codec memory-IsRedis id_codec-IsCodec vision vision_known s' []
    × ((leased : Job) × (r ≡ job_of leased "ic"))
claim_job-IsLane_example =
    claim_job-IsLane memory id_codec memory-IsRedis id_codec-IsCodec vision vision_known "ic" []
      (bare (some "c")) "host:1" 50 at_work at_work-IsLane idle_at_work refl refl
