-- ===== src/Stratum/Work/Examples.antt =====
-- The theorems on the work of the pools at concrete inputs.
use m45_gamma_firmware.Base.{
  ℕ, ◌≡◌, refl, false, ◌||◌, some, [], ◌∷◌, ◌++◌, arith, ltb, if◌then◌else◌,
}
use m45_gamma_firmware.Stratum.Work.{Queued, reset_marker, queue_work}
use m45_gamma_firmware.Stratum.Work.Sample.{ShortList, short_queue}
use m45_gamma_firmware.Stratum.Work.Queue.{others, without_first, queue_work_lem}

-- Work of a pool at the first epochs.
abbrev work_of : ℕ → ℕ → Queued
work_of pool_id work = record (reset_marker false pool_id 0 0) { work = some work }

abbrev two_pools : ShortList
two_pools = (work_of 1 10 ∷ work_of 2 20 ∷ work_of 1 11 ∷ [], omega arith)

only_others : others 1 (two_pools.0) ≡ work_of 2 20 ∷ []
unfolding others
only_others = refl

queue_work_lem_example :
    ((queue_work short_queue (work_of 1 12) two_pools).0.0 ≡ (
      if ltb 3 12
      then two_pools.0 ++ (work_of 1 12 ∷ [])
      else if (without_first 1 (two_pools.0)).1
      then (without_first 1 (two_pools.0)).0 ++ (work_of 1 12 ∷ [])
      else two_pools.0))
    × ((queue_work short_queue (work_of 1 12) two_pools).1
        ≡ (ltb 3 12 || (without_first 1 (two_pools.0)).1))
queue_work_lem_example = queue_work_lem short_queue (work_of 1 12) two_pools (omega arith)
