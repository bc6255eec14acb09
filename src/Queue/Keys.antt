-- ===== src/Queue/Keys.antt =====
-- The lists of the queues of queue_manager.py are distinct keys.
use vios_manus.Common.{
  ◌≤◌, ◌≡◌, refl, Bool, true, ◌&&◌, not, String, str_eq, List, [], ◌∷◌, All, count, arith, eq_iff,
  Bool-cases, inl, inr,
}
use vios_manus.Registry.Lookup.{has}
use vios_manus.Registry.Topo.Texts.{times, times-not-has}
use vios_manus.Queue.{
  all_queues, keys_of, processing_key, dlq_key, default_key, default_lane, priority_key,
  priority_lane,
}

-- No text twice.
abbrev pub distinct : List String → Bool
distinct [] = true
distinct (x ∷ xs) = not (has x xs) && distinct xs

pub distinct_once : (k : String) (xs : List String) → distinct xs ≡ true → times k xs ≤ 1
unfolding count
distinct_once k [] h = omega arith
distinct_once k (x ∷ xs) h = elim (Bool-cases (str_eq x k)) [
  | inl same ↦
      ground (arith, same, times-not-has k xs (rw (← (eq_iff x k).0 same) (ground (arith, h))))
  | inr differs ↦ ground (arith, differs, distinct_once k xs (ground (arith, h)))
]

one_of : (P : String → Type 0) (q : String) (xs : List String) → All P xs → has q xs ≡ true → P q
unfolding has
one_of P q [] h e = cc
one_of P q (x ∷ xs) h e = elim (Bool-cases (str_eq x q)) [
  | inl same ↦ rw (← (eq_iff x q).0 same) h.0
  | inr differs ↦ one_of P q xs h.1 (ground (arith, e, differs))
]

-- Each of the five queues has distinct lists.
pub keys_of-distinct : (q : String) → has q all_queues ≡ true → distinct (keys_of q) ≡ true
unfolding keys_of has processing_key dlq_key default_key default_lane priority_key priority_lane
keys_of-distinct q h =
    one_of (λ k. distinct (keys_of k) ≡ true) q all_queues
      (refl, (refl, (refl, (refl, (refl, tt))))) h
