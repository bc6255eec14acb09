-- ===== src/Queue/Memory.antt =====
-- A Redis in memory, and a codec that keeps only the id of an envelope: they meet what the theorems
-- about queue_manager.py rely on.

use vios_manus.Common.{
  ◌≡◌, refl, Option, none, some, String, str_eq, List, [], ◌∷◌, Option-cases, inl, inr,
  if◌then◌else◌,
}
use vios_manus.Queue.{id_read, Redis, IsRedis, Codec, IsCodec, Job, last, but_last, remove_one}

-- The lists and the hashes, by key.
pub record Memory : Type 0 where
  pub lists : String → List String
  pub hashes : String → List (String × String)

abbrev write : String → List String → Memory → Memory
write k xs m = record m { lists = λ j. if str_eq j k then xs else m.lists j }

abbrev move : String → String → Memory → Memory × Option String
move k d m = elim (last (m.lists k)) [
  | none ↦ (m, none)
  | some x ↦
      let popped = write k (but_last (m.lists k)) m in (write d (x ∷ popped.lists d) popped, some x)
]

abbrev pub memory : Redis
memory = record {
  State = Memory;
  list = λ m k. m.lists k;
  lpush = λ k x m. write k (x ∷ m.lists k) m;
  rpop = λ k m. (write k (but_last (m.lists k)) m, last (m.lists k));
  rpoplpush = move;
  lrem = λ k t m. write k (remove_one t (m.lists k)) m;
  hset = λ k fs m. record m { hashes = λ j. if str_eq j k then fs else m.hashes j };
  hincrby = λ k f n m. m;
  expire = λ k n m. m;
  delete = λ k m. record (write k [] m) { hashes = λ j. if str_eq j k then [] else m.hashes j };
}

move_last : (m : Memory) (k d : String) → (move k d m).1 ≡ last (m.lists k)
move_last m k d = elim (Option-cases (last (m.lists k))) [
  | inl e ↦ rw (move, e) refl
  | inr (x, e) ↦ rw (move, e) refl
]

move-lists :
    (m : Memory) (k d j : String)
    → (move k d m).0.lists j ≡ elim (last (m.lists k)) [
      | none ↦ m.lists j
      | some x ↦ (memory.lpush d x (memory.rpop k m).0).lists j
    ]
move-lists m k d j = elim (Option-cases (last (m.lists k))) [
  | inl e ↦ rw (move, e) refl
  | inr (x, e) ↦ rw (move, e) refl
]

pub memory-IsRedis : IsRedis memory
memory-IsRedis = record {
  list-lpush = λ s k x j. refl;
  rpop_last = λ s k. refl;
  list-rpop = λ s k j. refl;
  rpoplpush_last = move_last;
  list-rpoplpush = move-lists;
  list-lrem = λ s k t j. refl;
  list-hset = λ s k fs j. refl;
  list-hincrby = λ s k f n j. refl;
  list-expire = λ s k n j. refl;
  list-delete = λ s k j e. rw e refl;
}

-- An envelope with an id and nothing else.
abbrev pub bare : Option String → Job
bare i = record {
  id = i;
  payload = "";
  created_at = 0;
  retries = none;
  recoveries = none;
  status = "";
  queue = "";
  last_error = none;
  claimed_at = none;
  lease_owner = none;
  lease_expires_at = none;
  last_failed_at = none;
  died_at = none;
  replayed_at = none;
}

abbrev pub write_id : Option String → String
write_id none = ""
write_id (some t) = String.◌∷◌ "i" t

abbrev pub read_id : String → Option Job
read_id String.[] = some (bare none)
read_id (String.◌∷◌ c t) = some (bare (some t))

abbrev pub id_codec : Codec
id_codec = record { dumps = λ j. write_id j.id; loads = read_id; shown = λ n. "" }

read_written : (o : Option String) → id_read (read_id (write_id o)) ≡ some o
read_written none = refl
read_written (some t) = refl

pub id_codec-IsCodec : IsCodec id_codec
id_codec-IsCodec j = read_written j.id
