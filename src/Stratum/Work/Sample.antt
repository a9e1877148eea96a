-- ===== src/Stratum/Work/Sample.antt =====
-- A queue with at most the entries of main/stratum_minimal.c's, for the examples.
use m45_gamma_firmware.Base.{
  ◌≤◌, ◌<◌, ◌≡◌, refl, ap, Option, none, some, List, [], ◌∷◌, ◌++◌, arith, length, length-append,
}
use m45_gamma_firmware.Stratum.Work.{Queued, WorkQueue, work_queue_depth}
use native.Mathlib.Decide.{dec_lt}

-- A list of at most `work_queue_depth` entries as the queue.
abbrev pub ShortList : Type 0
ShortList = (xs : List Queued) × (length xs ≤ work_queue_depth)

put_by : Queued → (xs : List Queued) → Dec (length xs < work_queue_depth) → Option ShortList
put_by x xs (yes lt) = some (xs ++ (x ∷ []), omega (arith, length-append xs (x ∷ [])))
put_by x xs (no full) = none

pub put : Queued → ShortList → Option ShortList
put x (xs, le) = put_by x xs (dec_lt (length xs) work_queue_depth)

pub get : ShortList → Option (Queued × ShortList)
get ([], le) = none
get (x ∷ xs, le) = some (x, (xs, omega arith))

put_by_room :
    (x : Queued) (xs : List Queued) (d : Dec (length xs < work_queue_depth))
    → length xs < work_queue_depth
    → (q' : ShortList) × ((put_by x xs d ≡ some q') × (q'.0 ≡ xs ++ (x ∷ [])))
unfolding put_by
put_by_room x xs (yes less) lt = (_, (refl, refl))
put_by_room x xs (no full) lt = absurd (full lt)

pub put_room :
    (x : Queued) (q : ShortList)
    → length q.0 < work_queue_depth
    → (q' : ShortList) × ((put x q ≡ some q') × (q'.0 ≡ q.0 ++ (x ∷ [])))
unfolding put
put_room x (xs, le) lt = put_by_room x xs (dec_lt (length xs) work_queue_depth) lt

put_by_full :
    (x : Queued) (xs : List Queued) (d : Dec (length xs < work_queue_depth))
    → length xs ≡ work_queue_depth
    → put_by x xs d ≡ none
unfolding put_by
put_by_full x xs (yes less) e = absurd (omega arith)
put_by_full x xs (no full) e = refl

pub put_full : (x : Queued) (q : ShortList) → length q.0 ≡ work_queue_depth → put x q ≡ none
unfolding put
put_full x (xs, le) e = put_by_full x xs (dec_lt (length xs) work_queue_depth) e

pub get_empty : (q : ShortList) → q.0 ≡ [] → get q ≡ none
unfolding get
get_empty ([], le) e = refl
get_empty (x ∷ xs, le) e = absurd (cc)

pub get_first :
    (x : Queued) (xs : List Queued) (q : ShortList)
    → q.0 ≡ x ∷ xs
    → (q' : ShortList) × ((get q ≡ some (x, q')) × (q'.0 ≡ xs))
unfolding get
get_first x xs ([], le) e = absurd (cc)
get_first x xs (y ∷ ys, le) e =
    let head : y ≡ x = cc in
    let tail : ys ≡ xs = cc in
    ((ys, omega arith), (ap (λ z. some (z, (ys, omega arith))) head, tail))

abbrev pub short_queue : WorkQueue
short_queue = record {
  Q = ShortList;
  queue_send = put;
  queue_receive = get;
  messages_waiting = λ q. length q.0;
  items = λ q. q.0;
  waiting_items = λ q. refl;
  items_bound = λ q. q.1;
  send_room = put_room;
  send_full = put_full;
  receive_empty = get_empty;
  receive_first = get_first;
}
