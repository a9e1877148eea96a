-- ===== src/Stratum/Work.antt =====
-- The queue of work between the receiving tasks and the job task: `queued_work_t`, its queue and
-- `enqueue_work` of main/stratum_minimal.c. The queue itself is FreeRTOS's and a parameter.
use m45_gamma_firmware.Base.{
  ℕ, zero, suc, ◌≤◌, ◌<◌, ◌≡◌, Bool, true, false, ◌&&◌, ◌||◌, not, Option, none, some, List, [],
  ◌∷◌, ◌++◌, ltb, leb, ◌==◌, if◌then◌else◌, length, take,
}
use m45_gamma_firmware.Stratum.Pools.{pool_id_valid, pool_session_max}
mod Examples
pub mod Sample
pub mod Queue
pub mod Task
pub mod World
pub mod Calls

-- `4 * STRATUM_POOL_SESSION_MAX`
abbrev pub work_queue_depth : ℕ
work_queue_depth = 12

abbrev pub max_extranonce2_len : ℕ
max_extranonce2_len = 32

-- A notification is the number that stands for its pointer, and a null pointer is `none`. A double
-- is its 64 bits.
pub record Queued : Type 0 where
  pub work : Option ℕ
  pub epoch : ℕ
  pub pool_epoch : ℕ
  pub queued_us : ℕ
  pub pool_id : ℕ
  pub reset_all : Bool
  pub extranonce_bin : Option (List ℕ)
  pub extranonce_len : ℕ
  pub extranonce_2_len : ℕ
  pub pool_difficulty : ℕ
  pub version_mask : ℕ

-- The fields of `stratum_pool_session_t` that the work takes over.
pub record Session : Type 0 where
  pub connected : Bool
  pub setup_ready : Bool
  pub runtime_disabled : Bool
  pub extranonce_bin : Option (List ℕ)
  pub extranonce_len : ℕ
  pub extranonce_2_len : ℕ
  pub pool_difficulty : ℕ
  pub version_mask : ℕ

-- What FreeRTOS documents of a queue of `work_queue_depth` entries that does not wait.
pub record WorkQueue : Type 1 where
  pub Q : Type 0
  pub queue_send : Queued → Q → Option Q
  pub queue_receive : Q → Option (Queued × Q)
  pub messages_waiting : Q → ℕ
  pub items : Q → List Queued
  pub waiting_items : (q : Q) → messages_waiting q ≡ length (items q)
  pub items_bound : (q : Q) → length (items q) ≤ work_queue_depth
  pub send_room :
      (x : Queued) (q : Q)
      → length (items q) < work_queue_depth
      → (q' : Q) × ((queue_send x q ≡ some q') × (items q' ≡ items q ++ (x ∷ [])))
  pub send_full : (x : Queued) (q : Q) → length (items q) ≡ work_queue_depth → queue_send x q ≡ none
  pub receive_empty : (q : Q) → items q ≡ [] → queue_receive q ≡ none
  pub receive_first :
      (x : Queued) (xs : List Queued) (q : Q)
      → items q ≡ x ∷ xs
      → (q' : Q) × ((queue_receive q ≡ some (x, q')) × (items q' ≡ xs))

-- `x > 0.0` for the bits of a double: not zero, not negative and not a NaN.
abbrev pub is_positive : ℕ → Bool
is_positive bits = ltb 0 bits && leb bits 0x7ff0000000000000

-- The null entry that a reset queues, with `reset_all` or for one pool.
abbrev pub reset_marker : Bool → ℕ → ℕ → ℕ → Queued
reset_marker reset_all pool_id epoch pool_epoch = record {
  work = none;
  epoch = epoch;
  pool_epoch = pool_epoch;
  queued_us = 0;
  pool_id = pool_id;
  reset_all = reset_all;
  extranonce_bin = none;
  extranonce_len = 0;
  extranonce_2_len = 0;
  pool_difficulty = 0;
  version_mask = 0;
}

abbrev pub is_of_pool : ℕ → Queued → Bool
is_of_pool pool_id old = old.pool_id == pool_id

module _ (queue : WorkQueue) where
  open queue use {Q, queue_send, queue_receive, messages_waiting}

  -- The loop ends when the queue is empty; its rounds are those waiting.
  pub drain_loop : ℕ → Q → Q
  drain_loop zero q = q
  drain_loop (suc n) q = elim (queue_receive q) [ none ↦ q | some (old, q') ↦ drain_loop n q' ]

  pub drain_work_queue : Q → Q
  unfolding drain_loop
  drain_work_queue q = drain_loop (messages_waiting q) q

  -- An entry that finds the queue full is lost.
  pub send_again : Queued → Q → Q
  send_again old q = elim (queue_send old q) [ none ↦ q | some q' ↦ q' ]

  pub drain_pool_loop : ℕ → ℕ → Q → Q
  unfolding send_again
  drain_pool_loop pool_id zero q = q
  drain_pool_loop pool_id (suc n) q = elim (queue_receive q) [
    | none ↦ q
    | some (old, q') ↦
        drain_pool_loop pool_id n
          (if old.reset_all || is_of_pool pool_id old then q' else send_again old q')
  ]

  pub drain_work_queue_for_pool : ℕ → Q → Q
  unfolding drain_pool_loop pool_id_valid
  drain_work_queue_for_pool pool_id q =
      if pool_id_valid pool_id then drain_pool_loop pool_id (messages_waiting q) q else q

  pub drop_loop : ℕ → ℕ → Q → Bool → Q × Bool
  unfolding send_again
  drop_loop pool_id zero q dropped = (q, dropped)
  drop_loop pool_id (suc n) q dropped = elim (queue_receive q) [
    | none ↦ (q, dropped)
    | some (old, q') ↦
        let drop_it = not dropped && (not old.reset_all && is_of_pool pool_id old) in
        drop_loop pool_id n (if drop_it then q' else send_again old q') (dropped || drop_it)
  ]

  pub drop_one_queued_work_for_pool : ℕ → Q → Q × Bool
  unfolding drop_loop pool_id_valid
  drop_one_queued_work_for_pool pool_id q =
      if pool_id_valid pool_id then drop_loop pool_id (messages_waiting q) q false else (q, false)

  -- The marker is lost where the queue is full.
  pub queue_work_reset_marker : Bool → ℕ → ℕ → ℕ → Q → Q
  unfolding send_again
  queue_work_reset_marker reset_all pool_id epoch pool_epoch q =
      send_again (reset_marker reset_all pool_id epoch pool_epoch) q

  -- The end of `enqueue_work`: whether the work is in the queue.
  pub queue_work : Queued → Q → Q × Bool
  unfolding drop_one_queued_work_for_pool
  queue_work queued q = elim (queue_send queued q) [
    | some q' ↦ (q', true)
    | none ↦
        let dropped = (drop_one_queued_work_for_pool queued.pool_id q).0 in
        elim (queue_send queued dropped) [ some q' ↦ (q', true) | none ↦ (dropped, false) ]
  ]

-- The session's setup, copied under the transport lock: `none` where the work is dropped. `room` is
-- whether malloc succeeds, `suggested` the configured difficulty as a double.
unfoldable pub session_setup : Session → Bool → ℕ → ℕ → Queued → Option Queued
session_setup s room suggested state_mask queued =
    let ready =
      s.connected
      && (s.setup_ready
          && (ltb 0 s.extranonce_2_len
              && (leb s.extranonce_2_len max_extranonce2_len
                  && (s.extranonce_len == 0
                      || elim s.extranonce_bin [ none ↦ false | some bytes ↦ true ])))) in
    let difficulty = if is_positive s.pool_difficulty then s.pool_difficulty else suggested in
    let copy : Option (List ℕ) =
      if ltb 0 s.extranonce_len && room
      then elim s.extranonce_bin [ none ↦ none | some bytes ↦ some (take s.extranonce_len bytes) ]
      else none in
    if ready && ((room || s.extranonce_len == 0) && is_positive difficulty)
    then some (record queued {
      extranonce_bin = copy;
      extranonce_len = s.extranonce_len;
      extranonce_2_len = s.extranonce_2_len;
      pool_difficulty = difficulty;
      version_mask = if s.version_mask == 0 then state_mask else s.version_mask;
    })
    else none

-- `enqueue_work` of a notification, with the two epochs as they were loaded.
module _ (queue : WorkQueue) where
  open queue use {Q}

  pub enqueue_work : Session → Bool → ℕ → ℕ → ℕ → ℕ → ℕ → ℕ → ℕ → Q → Q × Bool
  unfolding pool_id_valid session_setup queue_work
  enqueue_work s room suggested state_mask pool_id work epoch pool_epoch now q =
      if not (pool_id_valid pool_id) || s.runtime_disabled
      then (q, false)
      else elim (session_setup s room suggested state_mask
          (record (reset_marker false pool_id epoch pool_epoch) {
            work = some work;
            queued_us = now;
          })) [ none ↦ (q, false) | some queued ↦ queue_work queue queued q ]
