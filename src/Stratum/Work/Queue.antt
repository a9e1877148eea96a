-- ===== src/Stratum/Work/Queue.antt =====
-- What the operations of main/stratum_minimal.c on the work queue leave in it.
use m45_gamma_firmware.Base.{
  ℕ, suc, ◌<◌, ◌≡◌, refl, sym, ap, ◌∙◌, inl, inr, Bool, true, false, ◌&&◌, ◌||◌, not, List, [], ◌∷◌,
  ◌++◌, append-nil, append_assoc, arith, ltb, if◌then◌else◌, ltb→lt, lt→ltb, Bool-cases, length,
}
use m45_gamma_firmware.Stratum.Pools.{pool_id_valid}
use m45_gamma_firmware.Stratum.Work.{
  Queued, WorkQueue, work_queue_depth, is_of_pool, drain_loop, drain_work_queue, send_again,
  drain_pool_loop, drain_work_queue_for_pool, drop_loop, drop_one_queued_work_for_pool, queue_work,
}

-- The entries of the other pools, without the markers of a whole reset.
unfoldable pub others : ℕ → List Queued → List Queued
others pool_id [] = []
others pool_id (x ∷ xs) =
    if x.reset_all || is_of_pool pool_id x then others pool_id xs else x ∷ others pool_id xs

-- The entries without the pool's first one, and whether there was one.
unfoldable pub without_first : ℕ → List Queued → List Queued × Bool
without_first pool_id [] = ([], false)
without_first pool_id (x ∷ xs) =
    if not x.reset_all && is_of_pool pool_id x
    then (xs, true)
    else (x ∷ (without_first pool_id xs).0, (without_first pool_id xs).1)

module _ (queue : WorkQueue) where
  open queue use {
    Q, queue_send, queue_receive, messages_waiting, items, waiting_items, items_bound, send_room,
    send_full, receive_empty, receive_first,
  }

  pub items-send_again :
      (x : Queued) (q : Q)
      → length (items q) < work_queue_depth
      → items (send_again queue x q) ≡ items q ++ (x ∷ [])
  unfolding send_again
  items-send_again x q lt = let (q', (e, h)) = send_room x q lt in rw (e, send_again) h

  receive_bound :
      (x : Queued) (xs : List Queued) (q q' : Q)
      → items q ≡ x ∷ xs
      → items q' ≡ xs
      → length (items q') < work_queue_depth
  receive_bound x xs q q' e e' =
      let all : length (items q) ≡ suc (length xs) = ap length e in
      let rest : length (items q') ≡ length xs = ap length e' in omega (arith, items_bound q)

  items-drain_loop :
      (xs : List Queued) (q : Q) → items q ≡ xs → items (drain_loop queue (length xs) q) ≡ []
  unfolding drain_loop
  items-drain_loop [] q e = e
  items-drain_loop (x ∷ xs) q e =
      let (q', (got, e')) = receive_first x xs q e in rw got (items-drain_loop xs q' e')

  -- Draining leaves the queue empty.
  pub drain_work_queue_lem : (q : Q) → items (drain_work_queue queue q) ≡ []
  unfolding drain_work_queue
  drain_work_queue_lem q = rw (waiting_items q) (items-drain_loop (items q) q refl)

  -- The queue after an entry was received and sent again or not.
  returned :
      (back : Bool) (x : Queued) (xs ys : List Queued) (q q' : Q)
      → items q ≡ x ∷ (xs ++ ys)
      → items q' ≡ xs ++ ys
      → items (if back then q' else send_again queue x q')
        ≡ xs ++ (ys ++ (if back then [] else x ∷ []))
  returned true x xs ys q q' e e' = e' ∙ ap (λ t. xs ++ t) (sym (append-nil ys))
  returned false x xs ys q q' e e' =
      items-send_again x q' (receive_bound x (xs ++ ys) q q' e e')
      ∙ (ap (λ t. t ++ (x ∷ [])) e' ∙ append_assoc xs ys (x ∷ []))

  items-drain_pool_loop :
      (pool_id : ℕ) (xs ys : List Queued) (q : Q)
      → items q ≡ xs ++ ys
      → items (drain_pool_loop queue pool_id (length xs) q) ≡ ys ++ others pool_id xs
  unfolding drain_pool_loop others
  items-drain_pool_loop pool_id [] ys q e = e ∙ sym (append-nil ys)
  items-drain_pool_loop pool_id (x ∷ xs) ys q e =
      let (q', (got, e')) = receive_first x (xs ++ ys) q e in
      let gone : Bool = x.reset_all || is_of_pool pool_id x in
      let rest =
        items-drain_pool_loop pool_id xs (ys ++ (if gone then [] else x ∷ []))
          (if gone then q' else send_again queue x q') (returned gone x xs ys q q' e e') in
      rw got (elim (Bool-cases gone) [
        | inl g ↦ rw g (rw g at rest ∙ ap (λ t. t ++ others pool_id xs) (append-nil ys))
        | inr g ↦ rw g (rw g at rest ∙ append_assoc ys (x ∷ []) (others pool_id xs))
      ])

  -- Resetting a valid pool takes exactly its entries and the markers of whole resets out of the
  -- queue and keeps the others in their order.
  pub drain_work_queue_for_pool_lem :
      (pool_id : ℕ) (q : Q)
      → pool_id < 3
      → items (drain_work_queue_for_pool queue pool_id q) ≡ others pool_id (items q)
  unfolding drain_work_queue_for_pool pool_id_valid
  drain_work_queue_for_pool_lem pool_id q lt = rw (lt→ltb pool_id 3 lt) (
      rw (waiting_items q)
        (items-drain_pool_loop pool_id (items q) [] q (sym (append-nil (items q)))))

  items-drop_loop_done :
      (pool_id : ℕ) (xs ys : List Queued) (q : Q)
      → items q ≡ xs ++ ys
      → (items (drop_loop queue pool_id (length xs) q true).0 ≡ ys ++ xs)
  unfolding drop_loop
  items-drop_loop_done pool_id [] ys q e = e ∙ sym (append-nil ys)
  items-drop_loop_done pool_id (x ∷ xs) ys q e =
      let (q', (got, e')) = receive_first x (xs ++ ys) q e in
      rw got (
        items-drop_loop_done pool_id xs (ys ++ (x ∷ [])) (send_again queue x q')
          (returned false x xs ys q q' e e')
        ∙ append_assoc ys (x ∷ []) xs)

  items-drop_loop :
      (pool_id : ℕ) (xs ys : List Queued) (q : Q)
      → items q ≡ xs ++ ys
      → items (drop_loop queue pool_id (length xs) q false).0 ≡ ys ++ (without_first pool_id xs).0
  unfolding drop_loop without_first
  items-drop_loop pool_id [] ys q e = e ∙ sym (append-nil ys)
  items-drop_loop pool_id (x ∷ xs) ys q e =
      let (q', (got, e')) = receive_first x (xs ++ ys) q e in
      rw got (elim (Bool-cases (not x.reset_all && is_of_pool pool_id x)) [
        | inl g ↦ rw g (items-drop_loop_done pool_id xs ys q' e')
        | inr g ↦ rw g (
            items-drop_loop pool_id xs (ys ++ (x ∷ [])) (send_again queue x q')
              (returned false x xs ys q q' e e')
            ∙ append_assoc ys (x ∷ []) (without_first pool_id xs).0)
      ])

  drop_one_lem :
      (pool_id : ℕ) (q : Q)
      → pool_id < 3
      → items (drop_one_queued_work_for_pool queue pool_id q).0
        ≡ (without_first pool_id (items q)).0
  unfolding drop_one_queued_work_for_pool pool_id_valid
  drop_one_lem pool_id q lt =
      rw (lt→ltb pool_id 3 lt)
        (rw (waiting_items q) (items-drop_loop pool_id (items q) [] q (sym (append-nil (items q)))))

  length-without_first :
      (pool_id : ℕ) (xs : List Queued)
      → ((without_first pool_id xs).1 ≡ true
          → suc (length (without_first pool_id xs).0) ≡ length xs)
        × ((without_first pool_id xs).1 ≡ false → (without_first pool_id xs).0 ≡ xs)
  unfolding without_first
  length-without_first pool_id [] = ((λ e. absurd (cc)), λ e. refl)
  length-without_first pool_id (x ∷ xs) =
      let (found, kept) = length-without_first pool_id xs in
      elim (Bool-cases (not x.reset_all && is_of_pool pool_id x)) [
        | inl g ↦ rw g ((λ e. refl), λ e. absurd (cc))
        | inr g ↦ rw g ((λ e. ap suc (found e)), λ e. ap (λ t. x ∷ t) (kept e))
      ]

  -- Queueing work of a valid pool puts it behind what is there; where the queue is full it takes the
  -- place of the pool's first entry, and only where the pool has none is it refused and nothing
  -- changed.
  pub queue_work_lem :
      (queued : Queued) (q : Q)
      → queued.pool_id < 3
      → let older = without_first queued.pool_id (items q) in
        let room = ltb (length (items q)) work_queue_depth in
        (items (queue_work queue queued q).0 ≡ (
          if room
          then items q ++ (queued ∷ [])
          else if older.1
          then older.0 ++ (queued ∷ [])
          else items q))
        × ((queue_work queue queued q).1 ≡ (room || older.1))
  unfolding queue_work
  queue_work_lem queued q lt =
      let after : Q = (drop_one_queued_work_for_pool queue queued.pool_id q).0 in
      let left = drop_one_lem queued.pool_id q lt in
      let (found, kept) = length-without_first queued.pool_id (items q) in
      elim (Bool-cases (ltb (length (items q)) work_queue_depth)) [
        | inl e ↦
            let (q', (sent, h)) = send_room queued q (ltb→lt _ _ e) in
            rw (e, sent, queue_work) (h, refl)
        | inr e ↦
            let full : length (items q) ≡ work_queue_depth = ground (arith, items_bound q) in
            elim (Bool-cases (without_first queued.pool_id (items q)).1) [
              | inl g ↦
                  let size : length (items after) < work_queue_depth =
                    omega (arith, found g, ap length left) in
                  let (q', (sent, h)) = send_room queued after size in
                  rw (e, queue_work, send_full queued q full, g, sent)
                    (h ∙ ap (λ t. t ++ (queued ∷ [])) left, refl)
              | inr g ↦
                  let size : length (items after) ≡ work_queue_depth =
                    omega (arith, ap length (left ∙ kept g)) in
                  rw (e, queue_work, send_full queued q full, g, send_full queued after size)
                    (left ∙ kept g, refl)
            ]
      ]
