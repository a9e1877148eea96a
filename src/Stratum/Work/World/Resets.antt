-- ===== src/Stratum/Work/World/Resets.antt =====
-- The resets of a pool in main/stratum_minimal.c, counted, and what a job in a slot says of them.
use m45_gamma_firmware.Base.{
  ℕ, ◌+◌, ◌%◌, ◌^◌, ◌<◌, ◌≡◌, refl, sym, ap, ◌∙◌, subst, inl, inr, Option, none, some, List, arith,
  ◌==◌, if◌then◌else◌, ==_iff, Bool-cases, length, get_or, length-set, get_or-set_self,
  get_or-set_ne, All-get_or,
}
use m45_gamma_firmware.Stratum.Work.World.{
  Job, free, World, raised, pool_epoch_of, raise_pool, Step, lock_all, raise_next, all_raised,
  lock_pool, pool_cleared, pause, resume, lock_clear, all_cleared, unlock, hardware_clear, sync,
  arrive, lock_send, send, count_sent, Reach, here, next,
}
use m45_gamma_firmware.Stratum.Work.World.Fresh.{Current, IsFresh, Reach-IsFresh, Reach-Current}

-- Whether a step is a reset of the pool, or the part of a whole reset that concerns it.
abbrev pub resets_pool : ℕ → {w t : World} → Step w t → ℕ
resets_pool pool_id (lock_all e) = 0
resets_pool pool_id (raise_next i e lt) = if i == pool_id then 1 else 0
resets_pool pool_id (all_raised e) = 0
resets_pool pool_id (lock_pool id e lt) = if id == pool_id then 1 else 0
resets_pool pool_id (pool_cleared id e) = 0
resets_pool pool_id pause = 0
resets_pool pool_id resume = 0
resets_pool pool_id (lock_clear e) = 0
resets_pool pool_id (all_cleared e) = 0
resets_pool pool_id (unlock e) = 0
resets_pool pool_id hardware_clear = 0
resets_pool pool_id (sync latest) = 0
resets_pool pool_id (arrive latest latest' pool_epoch incoming) = 0
resets_pool pool_id (lock_send id work e has_work allowed) = 0
resets_pool pool_id (send p e) = 0
resets_pool pool_id (count_sent id) = 0

abbrev pub resets : ℕ → {s t : World} → Reach s t → ℕ
resets pool_id here = 0
resets pool_id (next r step) = resets pool_id r + resets_pool pool_id step

raise_pool-get :
    (pool_id i : ℕ) (epochs : List ℕ)
    → pool_id < length epochs
    → get_or (raise_pool i epochs) pool_id 0
      ≡ (if i == pool_id then raised (get_or epochs pool_id 0) else get_or epochs pool_id 0)
raise_pool-get pool_id i epochs lt = elim (Bool-cases (i == pool_id)) [
  | inl e ↦
      let same : i ≡ pool_id = (==_iff i pool_id).0 e in
      rw e (
        subst (λ k. get_or (raise_pool k epochs) pool_id 0 ≡ raised (get_or epochs pool_id 0))
          (sym same) (get_or-set_self epochs pool_id (raised (get_or epochs pool_id 0)) 0 lt))
  | inr e ↦ rw e (get_or-set_ne epochs i pool_id (raised (get_or epochs i 0)) 0 (ground arith))
]

-- The epoch of a pool after some resets of it.
Counted : ℕ → World → World → ℕ → Type 0
Counted pool_id s t n =
    (pool_epoch_of t pool_id ≡ (pool_epoch_of s pool_id + n) % 2 ^ 32)
    × (length t.pool_epochs ≡ length s.pool_epochs)

Counted-raise :
    (pool_id i n : ℕ) (s t : World)
    → pool_id < length s.pool_epochs
    → Counted pool_id s t n
    → (get_or (raise_pool i t.pool_epochs) pool_id 0
        ≡ (pool_epoch_of s pool_id + (n + (if i == pool_id then 1 else 0))) % 2 ^ 32)
      × (length (raise_pool i t.pool_epochs) ≡ length s.pool_epochs)
unfolding Counted
Counted-raise pool_id i n s t lt (epoch, size) = (
  ground (arith, raise_pool-get pool_id i t.pool_epochs (omega (arith, size))),
  length-set t.pool_epochs i (raised (get_or t.pool_epochs i 0)) ∙ size,
)

Counted-same : (pool_id n : ℕ) (s t : World) → Counted pool_id s t n → Counted pool_id s t (n + 0)
Counted-same pool_id n s t h = let e : n ≡ n + 0 = omega arith in subst (Counted pool_id s t) e h

Counted-Step :
    (pool_id n : ℕ) (s : World) {t u : World} (step : Step t u)
    → pool_id < length s.pool_epochs
    → Counted pool_id s t n
    → Counted pool_id s u (n + resets_pool pool_id step)
unfolding Counted
Counted-Step pool_id n s {t} (lock_all e) lt h = Counted-same pool_id n s t h
Counted-Step pool_id n s {t} (raise_next i e small) lt h = Counted-raise pool_id i n s t lt h
Counted-Step pool_id n s {t} (all_raised e) lt h = Counted-same pool_id n s t h
Counted-Step pool_id n s {t} (lock_pool id e small) lt h = Counted-raise pool_id id n s t lt h
Counted-Step pool_id n s {t} (pool_cleared id e) lt h = Counted-same pool_id n s t h
Counted-Step pool_id n s {t} pause lt h = Counted-same pool_id n s t h
Counted-Step pool_id n s {t} resume lt h = Counted-same pool_id n s t h
Counted-Step pool_id n s {t} (lock_clear e) lt h = Counted-same pool_id n s t h
Counted-Step pool_id n s {t} (all_cleared e) lt h = Counted-same pool_id n s t h
Counted-Step pool_id n s {t} (unlock e) lt h = Counted-same pool_id n s t h
Counted-Step pool_id n s {t} hardware_clear lt h = Counted-same pool_id n s t h
Counted-Step pool_id n s {t} (sync latest) lt h = Counted-same pool_id n s t h
Counted-Step pool_id n s {t} (arrive latest latest' pool_epoch incoming) lt h =
    Counted-same pool_id n s t h
Counted-Step pool_id n s {t} (lock_send id work e has_work allowed) lt h =
    Counted-same pool_id n s t h
Counted-Step pool_id n s {t} (send p e) lt h = Counted-same pool_id n s t h
Counted-Step pool_id n s {t} (count_sent id) lt h = Counted-same pool_id n s t h

counted :
    (pool_id : ℕ) {s t : World} (r : Reach s t)
    → pool_id < length s.pool_epochs
    → pool_epoch_of s pool_id < 2 ^ 32
    → Counted pool_id s t (resets pool_id r)
unfolding Counted
counted pool_id here lt small = (omega arith, refl)
counted pool_id {s} (next {t} r step) lt small =
    Counted-Step pool_id (resets pool_id r) s step lt (counted pool_id r lt small)

-- The job in a slot, if it is not free, was built from work whose pool epoch was the one given.
abbrev pub MadeAt : ℕ → ℕ → Option Job → Type 0
MadeAt pool_id pool_epoch none = ⊥
MadeAt pool_id pool_epoch (some job) = (job.pool_id ≡ pool_id) × (job.pool_epoch ≡ pool_epoch)

made_now :
    (pool_id made epoch : ℕ) (epochs : List ℕ) (slot : Option Job)
    → MadeAt pool_id made slot
    → Current epoch epochs slot
    → made ≡ get_or epochs pool_id 0
made_now pool_id made epoch epochs none m c = absurd m
made_now pool_id made epoch epochs (some job) m c =
    sym m.1 ∙ (c.1 ∙ ap (λ k. get_or epochs k 0) m.0)

-- A job that lies in a slot while nobody holds the lock, and whose work took its pool epoch in an
-- earlier state, has seen no reset of its pool since, as long as there were fewer than 2^32.
pub no_stale_job :
    (pool_id slot : ℕ) {s0 s t : World} (before : Reach s0 s) (r : Reach s t)
    → IsFresh s0
    → pool_id < length s.pool_epochs
    → pool_epoch_of s pool_id < 2 ^ 32
    → resets pool_id r < 2 ^ 32
    → t.holder ≡ free
    → MadeAt pool_id (pool_epoch_of s pool_id) (get_or t.active_jobs slot none)
    → resets pool_id r ≡ 0
unfolding Counted
no_stale_job pool_id slot {s0} {s} {t} before r fresh lt small few is_free made =
    let all_current = Reach-Current (Reach-IsFresh fresh before) r is_free in
    let now =
      All-get_or (Current t.work_epoch t.pool_epochs) t.active_jobs slot none all_current tt in
    let same =
      made_now pool_id (pool_epoch_of s pool_id) t.work_epoch t.pool_epochs
        (get_or t.active_jobs slot none) made now in
    let (epoch, size) = counted pool_id r lt small in omega (arith, same ∙ epoch)
