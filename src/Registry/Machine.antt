-- ===== src/Registry/Machine.antt =====
-- `unrunnable` of vios/process/registry.py: what the measured machine cannot host.
pub mod Reported
pub mod Fits
use vios_manus.Common.{
  ℕ, ◌≤◌, ◌≡◌, refl, Bool, true, false, ◌&&◌, not, Option, none, some, String, str_eq, List, [],
  ◌∷◌, arith, ltb, ◌==◌, if◌then◌else◌,
}
use vios_manus.Registry.{Component, Device, gpu, is_gpu}
use vios_manus.Registry.Lookup.{by_id, dedupe}

-- What `unrunnable` reads of the measured resources.
pub record Machine : Type 0 where
  pub usable_vram_mb : ℕ
  pub usable_vram_total_mb : ℕ
  pub gpu_count : ℕ
  pub kaggle : Bool

-- The reasons that the tab shows.
pub data Reason : Type 0 where
  held_for_another_machine no_gpu : Reason
  too_few_cards : ℕ → ℕ → Reason
  too_big_across_cards too_big_for_a_card : ℕ → ℕ → Reason

-- The `if` chain for a component on the GPU.
unfoldable pub gpu_reason : Machine → Component → Option Reason
gpu_reason m c =
    if m.gpu_count == 0
    then some no_gpu
    else if ltb m.gpu_count c.cards
    then some (too_few_cards c.cards m.gpu_count)
    else if ltb 1 c.cards && ltb m.usable_vram_total_mb c.vram_mb
    then some (too_big_across_cards c.vram_mb m.usable_vram_total_mb)
    else if c.cards == 1 && ltb m.usable_vram_mb c.vram_mb
    then some (too_big_for_a_card c.vram_mb m.usable_vram_mb)
    else none

unfoldable pub reason : Machine → Component → Option Reason
unfolding gpu_reason
reason m c =
    if m.kaggle && not c.kaggle_ok
    then some held_for_another_machine
    else if is_gpu c.device
    then gpu_reason m c
    else none

-- The loop. The dict keeps one entry for an id that is given twice, so the ids are taken once.
unfoldable pub reasons : List Component → Machine → List String → List (String × Reason)
unfolding by_id reason
reasons cs m [] = []
reasons cs m (i ∷ is) = elim (by_id cs i) [
  | none ↦ reasons cs m is
  | some c ↦ elim (reason m c) [ none ↦ reasons cs m is | some why ↦ (i, why) ∷ reasons cs m is ]
]

unfoldable pub unrunnable : List Component → List String → Machine → List (String × Reason)
unfolding reasons dedupe
unrunnable cs ids m = reasons cs m (dedupe ids)
