-- ===== src/Stratum/Work/Calls/Notified.antt =====
-- After a notification that starts over, main/stratum_minimal.c works on it and on nothing older.
use m45_gamma_firmware.Base.{
  ℕ, ◌≡◌, refl, ap, ◌∙◌, ◌⊎◌, inl, inr, Bool, true, false, some, List, [], ◌∷◌, ◌++◌, map, arith,
  ltb, length, set,
}
use m45_gamma_firmware.Stratum.Pools.{pool_id_valid}
use m45_gamma_firmware.Stratum.Blocks.{Blocks, new, same, note_current_block}
use m45_gamma_firmware.Stratum.Work.{
  Queued, Session, WorkQueue, work_queue_depth, reset_marker, drain_work_queue,
  queue_work_reset_marker, session_setup, queue_work, enqueue_work,
}
use m45_gamma_firmware.Stratum.Work.Queue.{drain_work_queue_lem, items-send_again, queue_work_lem}
use m45_gamma_firmware.Stratum.Work.Task.{
  PoolWork, Task, no_work, take_queued, Arrival, drain_available,
}
use m45_gamma_firmware.Stratum.Work.Task.Epoch.{drain-reset}
use m45_gamma_firmware.Stratum.Work.World.{World, pool_epoch_of}
use m45_gamma_firmware.Stratum.Work.Calls.{reset_all, reset_work_state, handle_mining_notify_work}

-- The setup of the session adds its own fields only.
session_setup-kept :
    (s : Session) (room : Bool) (suggested state_mask : ℕ) (x y : Queued)
    → session_setup s room suggested state_mask x ≡ some y
    → (y.work ≡ x.work)
      × (y.epoch ≡ x.epoch)
      × (y.pool_epoch ≡ x.pool_epoch)
      × (y.pool_id ≡ x.pool_id)
      × (y.reset_all ≡ x.reset_all)
unfolding session_setup
session_setup-kept s room suggested state_mask x y h = ground (arith, h)

-- What the job task loads while it takes an entry and no other call runs.
abbrev pub arrival_of : World → Queued → Arrival
arrival_of w queued = record {
  latest = w.work_epoch;
  latest' = w.work_epoch;
  pool_epoch = pool_epoch_of w 0;
  incoming = queued;
}

module _ (queue : WorkQueue) where
  open queue use {Q, items}

  reset-items :
      (w : World) (q : Q)
      → items (reset_work_state queue true w q).1
        ≡ reset_marker true 0 (reset_all w).work_epoch 0 ∷ []
  unfolding reset_work_state queue_work_reset_marker
  reset-items w q =
      let drained = drain_work_queue_lem queue q in
      items-send_again queue (reset_marker true 0 (reset_all w).work_epoch 0)
        (drain_work_queue queue q) (omega (arith, ap length drained))
      ∙ ap (λ xs. xs ++ (reset_marker true 0 (reset_all w).work_epoch 0 ∷ [])) drained

  -- Work for a queue with one entry goes behind it.
  second-items :
      (queued marker : Queued) (q : Q)
      → queued.pool_id ≡ 0
      → items q ≡ marker ∷ []
      → items (queue_work queue queued q).0 ≡ marker ∷ queued ∷ []
  second-items queued marker q first e =
      let one : length (items q) ≡ 1 = ap length e in
      let (left, _) = queue_work_lem queue queued q (omega (arith, first)) in
      let room : ltb (length (items q)) work_queue_depth ≡ true = ground (arith, one) in
      left ∙ rw room (ap (λ xs. xs ++ (queued ∷ [])) e)

  -- The work of a ready session goes behind the marker of the reset.
  started :
      (s : Session) (room : Bool) (suggested state_mask work now : ℕ) (w : World) (q : Q)
      (queued : Queued)
      → s.runtime_disabled ≡ false
      → session_setup s room suggested state_mask
          (record (reset_marker false 0 (reset_all w).work_epoch (pool_epoch_of (reset_all w) 0)) {
            work = some work;
            queued_us = now;
          })
        ≡ some queued
      → items
          (enqueue_work queue s room suggested state_mask 0 work
            (reset_all w).work_epoch
            (pool_epoch_of (reset_all w) 0)
            now
            (reset_work_state queue true w q).1).0
        ≡ reset_marker true 0 (reset_all w).work_epoch 0 ∷ queued ∷ []
  unfolding enqueue_work pool_id_valid
  started s room suggested state_mask work now w q queued enabled ready =
      let (_, _, _, first, _) =
        session_setup-kept s room suggested state_mask
          (record (reset_marker false 0 (reset_all w).work_epoch (pool_epoch_of (reset_all w) 0)) {
            work = some work;
            queued_us = now;
          })
          queued ready in
      rw enabled (
        rw ready (
          second-items queued (reset_marker true 0 (reset_all w).work_epoch 0)
            (reset_work_state queue true w q).1 first (reset-items w q)))

  starts_over :
      (s : Session) (room : Bool) (suggested state_mask work : ℕ) (prev_block_hash : List ℕ)
      (clean_jobs : Bool) (now : ℕ) (b : Blocks) (w : World) (q : Q)
      → ((note_current_block b 0 prev_block_hash).1 ≡ new)
        ⊎ (((note_current_block b 0 prev_block_hash).1 ≡ same) × (clean_jobs ≡ true))
      → handle_mining_notify_work queue false s room suggested state_mask 0 work prev_block_hash
          clean_jobs now b w q
        ≡ (
          (note_current_block b 0 prev_block_hash).0,
          reset_all w,
          (enqueue_work queue s room suggested state_mask 0 work
              (reset_all w).work_epoch
              (pool_epoch_of (reset_all w) 0)
              now
              (reset_work_state queue true w q).1).0,
        )
  unfolding handle_mining_notify_work reset_work_state
  starts_over s room suggested state_mask work prev_block_hash clean_jobs now b w q (inl is_new) =
      rw is_new refl
  starts_over s room suggested state_mask work prev_block_hash clean_jobs now b w q
        (inr (is_same, clean)) =
      rw is_same (rw clean refl)

  -- When a notification of the only pool brings a new block or asks to start over, and the session
  -- is ready for it, then the queue holds the marker of the reset and the notification's work, with
  -- the epochs after the reset, and nothing else; and the job task, once it has taken both, is left
  -- with that work alone.
  pub handle_mining_notify_work_lem :
      (s : Session) (room : Bool) (suggested state_mask work : ℕ) (prev_block_hash : List ℕ)
      (clean_jobs : Bool) (now : ℕ) (b : Blocks) (w : World) (q : Q) (t : Task) (queued : Queued)
      → ((note_current_block b 0 prev_block_hash).1 ≡ new)
        ⊎ (((note_current_block b 0 prev_block_hash).1 ≡ same) × (clean_jobs ≡ true))
      → s.runtime_disabled ≡ false
      → session_setup s room suggested state_mask
          (record (reset_marker false 0 (reset_all w).work_epoch (pool_epoch_of (reset_all w) 0)) {
            work = some work;
            queued_us = now;
          })
        ≡ some queued
      → let (b', w', q') =
          handle_mining_notify_work queue false s room suggested state_mask 0 work prev_block_hash
            clean_jobs now b w q in
        let marker = reset_marker true 0 w'.work_epoch 0 in
        (w' ≡ reset_all w)
        × (items q' ≡ marker ∷ queued ∷ [])
        × (drain_available (arrival_of w' marker ∷ arrival_of w' queued ∷ []) t ≡ record {
          pools = set (map (λ (_ : PoolWork). no_work) t.pools) 0 (take_queued queued);
          current_epoch = w'.work_epoch;
          next_dispatch_us = 0;
        })
  handle_mining_notify_work_lem s room suggested state_mask work prev_block_hash clean_jobs now b w
        q t queued brings enabled ready =
      let (has_work, epoch, pool_epoch, first, not_all) =
        session_setup-kept s room suggested state_mask
          (record (reset_marker false 0 (reset_all w).work_epoch (pool_epoch_of (reset_all w) 0)) {
            work = some work;
            queued_us = now;
          })
          queued ready in
      rw (starts_over s room suggested state_mask work prev_block_hash clean_jobs now b w q brings)
        (
          refl,
          started s room suggested state_mask work now w q queued enabled ready,
          drain-reset (reset_all w).work_epoch (pool_epoch_of (reset_all w) 0) work
              (reset_marker true 0 (reset_all w).work_epoch 0) queued t refl not_all has_work epoch
              pool_epoch first,
        )
