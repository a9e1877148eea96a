-- ===== src/Stratum/Scheduler.antt =====
-- The scheduler that shares the ASIC between the pools: the `pool_slice_scheduler_` functions and
-- `ready_pool_weights` of main/stratum_minimal.c.
use m45_gamma_firmware.Base.{
  ℕ, zero, suc, ◌+◌, ◌-◌, ◌*◌, ◌/◌, ◌%◌, Bool, true, false, ◌&&◌, ◌||◌, not, Option, none, some,
  List, [], ◌∷◌, map, ltb, leb, ◌==◌, if◌then◌else◌, get_or, set,
}
use m45_gamma_firmware.Base.Int.{ℤ, pos, add_ℤ, sub_ℤ, ltb_ℤ}
pub mod Shares
pub mod Slices
pub mod Drain
pub mod Frame
pub mod Run

-- `pool_slice_scheduler_t`, its four arrays transposed: one record for each pool.
pub record Slot : Type 0 where
  pub jobs_remaining : ℕ
  pub chunks_remaining : ℕ
  pub frame_weight : ℕ
  pub smooth : ℤ

abbrev pub frame_jobs : ℕ
frame_jobs = 80

abbrev pub slice_max_jobs : ℕ
slice_max_jobs = 12

-- `memset(scheduler, 0, sizeof(*scheduler))`
abbrev pub zero_slot : Slot
zero_slot = record { jobs_remaining = 0; chunks_remaining = 0; frame_weight = 0; smooth = pos 0 }

abbrev pub sum : List ℕ → ℕ
sum [] = 0
sum (n ∷ ns) = n + sum ns

-- An update of the element at an index.
abbrev pub adjust : {A : Type 0} → (A → A) → ℕ → List A → List A
adjust f i [] = []
adjust f zero (x ∷ xs) = f x ∷ xs
adjust f (suc i) (x ∷ xs) = x ∷ adjust f i xs

-- The weights of the pools that are ready.
abbrev pub weights_of : List Bool → List ℕ → List ℕ
weights_of [] ws = []
weights_of (r ∷ rs) [] = []
weights_of (r ∷ rs) (w ∷ ws) = (if r then w else 0) ∷ weights_of rs ws

-- `ready_pool_weights`: the effective weights, from the answers of `job_pool_ready` and of
-- `configured_pool_weight`. Their sum is its return value.
unfoldable pub ready_pool_weights : List Bool → List ℕ → List ℕ
ready_pool_weights ready configured =
    let effective = weights_of ready configured in
    if sum effective == 0 && get_or ready 0 false then set effective 0 99 else effective

-- What `pool_slice_scheduler_build_frame` knows of a pool while it shares out the jobs:
-- `effective_weight`, `jobs_remaining` and `remainders`.
pub record Quota : Type 0 where
  pub weight : ℕ
  pub jobs : ℕ
  pub remainder : ℕ

pub quota_of : ℕ → ℕ → Quota
quota_of total_weight weight =
    if weight == 0 then record { weight = 0; jobs = 0; remainder = 0 } else record {
      weight = weight;
      jobs = weight * frame_jobs / total_weight % 256;
      remainder = weight * frame_jobs % total_weight;
    }

-- `assigned_jobs`, which is the sum of the jobs at every place where it is read.
abbrev pub assigned_jobs : List Quota → ℕ
assigned_jobs [] = 0
assigned_jobs (q ∷ qs) = q.jobs + assigned_jobs qs

-- The second loop: a job for each weighted pool that has none, while there are jobs left.
pub raise_zero : ℕ → List Quota → List Quota
raise_zero assigned [] = []
raise_zero assigned (q ∷ qs) =
    let raised = ltb assigned frame_jobs && not (q.weight == 0) && (q.jobs == 0) in
    (if raised then record q { jobs = 1 } else q)
    ∷ raise_zero (if raised then assigned + 1 else assigned) qs

-- The weighted pool with the largest remainder, the first of several, with that remainder.
pub best_remainder : ℕ → Option (ℕ × ℕ) → List Quota → Option (ℕ × ℕ)
best_remainder i best [] = best
best_remainder i best (q ∷ qs) =
    best_remainder (i + 1)
      (if q.weight == 0 then best else elim best [
        | none ↦ some (i, q.remainder)
        | some (j, r) ↦ if ltb r q.remainder then some (i, q.remainder) else some (j, r)
      ])
      qs

abbrev pub grant : Quota → Quota
grant q = record q { jobs = (q.jobs + 1) % 256; remainder = 0 }

-- `while (assigned_jobs < 80)`, which adds a job in each round: the rounds left are the missing jobs.
pub top_up : ℕ → List Quota → List Quota
unfolding best_remainder
top_up zero qs = qs
top_up (suc missing) qs = elim (best_remainder 0 none qs) [
  | none ↦ qs
  | some (best, r) ↦ top_up missing (adjust grant best qs)
]

-- The pool with the most jobs, more than one, with their number.
pub most_jobs : ℕ → Option (ℕ × ℕ) → List Quota → Option (ℕ × ℕ)
most_jobs i best [] = best
most_jobs i best (q ∷ qs) =
    most_jobs (i + 1)
      (if leb q.jobs 1 then best else elim best [
        | none ↦ some (i, q.jobs)
        | some (j, n) ↦ if ltb n q.jobs then some (i, q.jobs) else some (j, n)
      ])
      qs

-- `while (assigned_jobs > 80)`: the rounds left are the jobs too many.
pub trim : ℕ → List Quota → List Quota
unfolding most_jobs
trim zero qs = qs
trim (suc excess) qs = elim (most_jobs 0 none qs) [
  | none ↦ qs
  | some (best, n) ↦ trim excess (adjust (λ q. record q { jobs = q.jobs - 1 }) best qs)
]

-- The last loop.
abbrev pub slot_of : Quota → Slot
slot_of q = record {
  jobs_remaining = q.jobs;
  chunks_remaining =
      if q.jobs == 0 then 0 else (q.jobs + slice_max_jobs - 1) / slice_max_jobs % 256;
  frame_weight = q.weight;
  smooth = pos 0;
}

-- The quotas that are shared out for a total weight that is not 0.
pub shared_out : List ℕ → ℕ → List Quota
unfolding quota_of raise_zero top_up trim
shared_out effective_weight total_weight =
    let quotas = map (quota_of total_weight) effective_weight in
    let raised = raise_zero (assigned_jobs quotas) quotas in
    let full = top_up (frame_jobs - assigned_jobs raised) raised in
    trim (assigned_jobs full - frame_jobs) full

pub build_frame : List ℕ → ℕ → List Slot
unfolding shared_out
build_frame effective_weight total_weight =
    if total_weight == 0
    then map (λ w. zero_slot) effective_weight
    else map slot_of (shared_out effective_weight total_weight)

pub frame_matches : List Slot → List ℕ → Bool
frame_matches [] ws = true
frame_matches (s ∷ ss) [] = true
frame_matches (s ∷ ss) (w ∷ ws) = s.frame_weight == w && frame_matches ss ws

unfoldable pub has_work : List Slot → Bool
has_work [] = false
has_work (s ∷ ss) = (ltb 0 s.jobs_remaining && ltb 0 s.chunks_remaining) || has_work ss

abbrev pub runnable : Bool → Slot → Bool
runnable r s = r && not (s.jobs_remaining == 0) && not (s.chunks_remaining == 0)

-- The loop of `pool_slice_scheduler_next`, its three results apart: the `smooth` values after it,
-- `total_chunks`, and `best`, the first runnable pool with the largest value after its increase.
pub credit : List Bool → List Slot → List Slot
credit [] ss = ss
credit (r ∷ rs) [] = []
credit (r ∷ rs) (s ∷ ss) =
    (if runnable r s then record s { smooth = add_ℤ s.smooth s.chunks_remaining } else s)
    ∷ credit rs ss

pub chunk_total : List Bool → List Slot → ℕ
chunk_total [] ss = 0
chunk_total (r ∷ rs) [] = 0
chunk_total (r ∷ rs) (s ∷ ss) = (if runnable r s then s.chunks_remaining else 0) + chunk_total rs ss

pub best_slot : ℕ → Option (ℕ × ℤ) → List Bool → List Slot → Option (ℕ × ℤ)
best_slot i best [] ss = best
best_slot i best (r ∷ rs) [] = best
best_slot i best (r ∷ rs) (s ∷ ss) =
    best_slot (i + 1)
      (if runnable r s
        then elim best [
          | none ↦ some (i, s.smooth)
          | some (j, m) ↦ if ltb_ℤ m s.smooth then some (i, s.smooth) else some (j, m)
        ]
        else best)
      rs ss

pub slice_jobs : Slot → ℕ
slice_jobs s =
    let even = (s.jobs_remaining + s.chunks_remaining - 1) / s.chunks_remaining % 256 in
    let cut = if ltb slice_max_jobs even then slice_max_jobs else even in
    if cut == 0 then 1 else cut

-- What the pool that runs has left, `total_chunks` taken off its `smooth` value.
pub after_slice : ℕ → Slot → Slot
unfolding slice_jobs
after_slice total_chunks s = record s {
  smooth = sub_ℤ s.smooth total_chunks;
  jobs_remaining =
      if ltb (slice_jobs s) s.jobs_remaining then s.jobs_remaining - slice_jobs s else 0;
  chunks_remaining = s.chunks_remaining - 1;
}

-- The slice that is next in a frame.
pub next_slice : List Slot → List Bool → List Slot × Option (ℕ × ℕ)
unfolding credit chunk_total best_slot after_slice
next_slice scheduler ready =
    let credited = credit ready scheduler in
    let total_chunks = chunk_total ready scheduler in
    elim (best_slot 0 none ready credited) [
      | none ↦ (map (λ s. zero_slot) scheduler, none)
      | some (best, m) ↦ if total_chunks == 0 then (map (λ s. zero_slot) scheduler, none) else (
        adjust (after_slice total_chunks) best credited,
        some (best, slice_jobs (get_or credited best zero_slot)),
      )
    ]

-- `pool_slice_scheduler_next`, with the effective weights: the pool and its jobs, or false.
unfoldable pub pool_slice_scheduler_next :
    List Slot → List Bool → List ℕ → List Slot × Option (ℕ × ℕ)
unfolding build_frame frame_matches has_work next_slice
pool_slice_scheduler_next scheduler ready effective_weight =
    let total_weight = sum effective_weight in
    let current =
      if not (frame_matches scheduler effective_weight) || not (has_work scheduler)
      then build_frame effective_weight total_weight
      else scheduler in
    if total_weight == 0 then (map (λ s. zero_slot) scheduler, none) else next_slice current ready
