-- ===== src/Stratum/Work/Task/Epoch.antt =====
-- The epoch of the work that the job task of main/stratum_minimal.c keeps.
use m45_gamma_firmware.Base.{
  ℕ, ◌≡◌, refl, ap, ◌∙◌, inl, inr, true, false, ◌&&◌, Option, none, some, List, [], ◌∷◌, map, arith,
  ltb, ◌==◌, if◌then◌else◌, ==_iff, Bool-cases, set, All, All-set,
}
use m45_gamma_firmware.Stratum.Pools.{pool_id_valid}
use m45_gamma_firmware.Stratum.Work.{Queued}
use m45_gamma_firmware.Stratum.Work.Task.{
  PoolWork, Task, drain_available, no_work, sync_epoch, apply_incoming, clear_all, clear_pool,
  take_queued,
}

-- The work that the job task keeps is of its epoch.
abbrev pub HasEpoch : ℕ → PoolWork → Type 0
HasEpoch epoch p = (work : ℕ) → p.work ≡ some work → p.epoch ≡ epoch

pub no_work-HasEpoch : (epoch : ℕ) → HasEpoch epoch no_work
no_work-HasEpoch epoch work e = absurd (cc)

clear_all-works : (latest : ℕ) (t : Task) → All (HasEpoch latest) (clear_all latest t).pools
unfolding clear_all
clear_all-works latest t = go t.pools
  where
    go : (pools : List PoolWork) → All (HasEpoch latest) (map (λ _. no_work) pools)
    go [] = tt
    go (p ∷ pools) = (no_work-HasEpoch latest, go pools)

abbrev pub Works : Task → Type 0
Works t = All (HasEpoch t.current_epoch) t.pools

pub sync_epoch-Works : (latest : ℕ) (t : Task) → Works t → Works (sync_epoch latest t)
unfolding sync_epoch
sync_epoch-Works latest t h = elim (Bool-cases (latest == t.current_epoch)) [
  | inl e ↦ rw e h
  | inr e ↦ rw e (clear_all-works latest t)
]

clear_pool-Works : (pool_id : ℕ) (t : Task) → Works t → Works (clear_pool pool_id t)
unfolding clear_pool pool_id_valid
clear_pool-Works pool_id t h = elim (Bool-cases (ltb pool_id 3)) [
  | inl e ↦ rw e (
      All-set (HasEpoch t.current_epoch) t.pools pool_id no_work h
        (no_work-HasEpoch t.current_epoch))
  | inr e ↦ rw e h
]

take_queued-Works :
    (incoming : Queued) (t : Task)
    → (incoming.epoch ≡ t.current_epoch)
    → Works t
    → All (HasEpoch t.current_epoch) (set t.pools incoming.pool_id (take_queued incoming))
unfolding take_queued
take_queued-Works incoming t e h =
    All-set (HasEpoch t.current_epoch) t.pools incoming.pool_id (take_queued incoming) h
      (λ work _. e)

incoming-Works :
    (work : Option ℕ) (pool_epoch : ℕ) (incoming : Queued) (t : Task)
    → Works t
    → Works (elim work [
      | none ↦ clear_pool incoming.pool_id t
      | some work ↦
          if incoming.epoch == t.current_epoch && incoming.pool_epoch == pool_epoch
          then record t {
            pools = set t.pools incoming.pool_id (take_queued incoming);
            next_dispatch_us = 0;
          }
          else t
    ])
incoming-Works none pool_epoch incoming t h = clear_pool-Works incoming.pool_id t h
incoming-Works (some work) pool_epoch incoming t h =
    elim (Bool-cases (incoming.epoch == t.current_epoch)) [
      | inr e ↦ rw e h
      | inl e ↦ elim (Bool-cases (incoming.pool_epoch == pool_epoch)) [
        | inr f ↦ rw (e, f) h
        | inl f ↦
            rw (e, f) (take_queued-Works incoming t ((==_iff incoming.epoch t.current_epoch).0 e) h)
      ]
    ]

-- Whatever arrives, the job task keeps work of its current epoch only.
pub apply_incoming-Works :
    (latest latest' pool_epoch : ℕ) (incoming : Queued) (t : Task)
    → Works t
    → Works (apply_incoming latest latest' pool_epoch incoming t)
unfolding apply_incoming pool_id_valid
apply_incoming-Works latest latest' pool_epoch incoming t h =
    let synced = sync_epoch-Works latest t h in
    elim (Bool-cases incoming.reset_all) [
      | inl e ↦ rw e (clear_all-works latest' (sync_epoch latest t))
      | inr e ↦ elim (Bool-cases (ltb incoming.pool_id 3)) [
        | inr f ↦ rw (e, f) synced
        | inl f ↦
            rw (e, f)
              (incoming-Works incoming.work pool_epoch incoming (sync_epoch latest t) synced)
      ]
    ]

cleared_twice :
    (pools : List PoolWork)
    → map (λ (_ : PoolWork). no_work) (map (λ (_ : PoolWork). no_work) pools)
      ≡ map (λ (_ : PoolWork). no_work) pools
cleared_twice [] = refl
cleared_twice (p ∷ pools) = ap (λ t. no_work ∷ t) (cleared_twice pools)

clear_all-sync_epoch :
    (latest : ℕ) (t : Task) → clear_all latest (sync_epoch latest t) ≡ clear_all latest t
unfolding clear_all sync_epoch
clear_all-sync_epoch latest t = elim (Bool-cases (latest == t.current_epoch)) [
  | inl e ↦ rw e refl
  | inr e ↦ rw e (
      ap (λ pools. record { pools = pools; current_epoch = latest; next_dispatch_us = 0 })
        (cleared_twice t.pools))
]

sync_epoch-clear_all :
    (latest : ℕ) (t : Task) → sync_epoch latest (clear_all latest t) ≡ clear_all latest t
unfolding clear_all sync_epoch
sync_epoch-clear_all latest t =
    let e : (latest == latest) ≡ true = (==_iff latest latest).1 refl in rw e refl

take_current :
    (epoch pool_epoch work : ℕ) (queued : Queued) (t : Task)
    → queued.reset_all ≡ false
    → queued.work ≡ some work
    → queued.epoch ≡ epoch
    → queued.pool_epoch ≡ pool_epoch
    → queued.pool_id ≡ 0
    → apply_incoming epoch epoch pool_epoch queued (clear_all epoch t) ≡ record {
      pools = set (map (λ (_ : PoolWork). no_work) t.pools) 0 (take_queued queued);
      current_epoch = epoch;
      next_dispatch_us = 0;
    }
unfolding apply_incoming pool_id_valid clear_all
take_current epoch pool_epoch work queued t not_all has_work same_epoch same_pool_epoch first =
    let e : (queued.epoch == epoch) ≡ true = (==_iff queued.epoch epoch).1 same_epoch in
    let f : (queued.pool_epoch == pool_epoch) ≡ true =
      (==_iff queued.pool_epoch pool_epoch).1 same_pool_epoch in
    let valid : ltb queued.pool_id 3 ≡ true = ground (arith, first) in
    ground (arith, valid, e, f, sync_epoch-clear_all epoch t)

-- A marker of a whole reset and work of the epochs after it, applied while no other reset comes:
-- the job task is left with this work only.
pub drain-reset :
    (epoch pool_epoch work : ℕ) (marker queued : Queued) (t : Task)
    → marker.reset_all ≡ true
    → queued.reset_all ≡ false
    → queued.work ≡ some work
    → queued.epoch ≡ epoch
    → queued.pool_epoch ≡ pool_epoch
    → queued.pool_id ≡ 0
    → drain_available
        (record { latest = epoch; latest' = epoch; pool_epoch = pool_epoch; incoming = marker }
          ∷ record { latest = epoch; latest' = epoch; pool_epoch = pool_epoch; incoming = queued }
          ∷ [])
        t
      ≡ record {
        pools = set (map (λ (_ : PoolWork). no_work) t.pools) 0 (take_queued queued);
        current_epoch = epoch;
        next_dispatch_us = 0;
      }
unfolding drain_available apply_incoming pool_id_valid
drain-reset epoch pool_epoch work marker queued t all not_all has_work same_epoch same_pool_epoch
      first =
    let cleared : apply_incoming epoch epoch pool_epoch marker t ≡ clear_all epoch t =
      rw all (clear_all-sync_epoch epoch t) in
    ap (apply_incoming epoch epoch pool_epoch queued) cleared
    ∙ take_current epoch pool_epoch work queued t not_all has_work same_epoch same_pool_epoch first
