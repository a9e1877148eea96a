-- ===== src/Stratum/Requests.antt =====
-- The requests that wait for a response in main/stratum_minimal.c, and what a response to a share
-- does.
use m45_gamma_firmware.Base.{
  ℕ, zero, suc, ◌+◌, ◌-◌, ◌*◌, ◌/◌, ◌%◌, ◌^◌, min, Bool, true, false, ◌&&◌, ◌||◌, not, Option, none,
  some, List, [], ◌∷◌, ltb, leb, ◌==◌, if◌then◌else◌, set,
}
use m45_gamma_firmware.Base.Int.{ℤ, pos, negsuc}
use m45_gamma_firmware.Stratum.Pools.{pool_session_max}
use m45_gamma_firmware.Stratum.Text.{codes, ◌>>=◌}
use m45_gamma_firmware.Stratum.Span.{field_value, parse_response_success}
pub mod Wait
pub mod Once

abbrev pub share_id_slots : ℕ
share_id_slots = 16

-- `g_pending_share_ids` with `g_pending_share_pool_ids`, and the counter of the slots. A request has
-- a positive id; the counter wraps at a multiple of 16.
pub record Waiting : Type 0 where
  pub slots : List (ℕ × ℕ)
  pub next : ℕ

pub mark_share_request : Waiting → ℕ → ℕ → Waiting
mark_share_request w id pool_id = record w {
  slots = set w.slots (w.next % share_id_slots) (id, pool_id);
  next = w.next + 1;
}

-- The loop of `take_share_request`: the slots after it, and the pool of the request if it waits.
pub take_slot : ℕ → List (ℕ × ℕ) → List (ℕ × ℕ) × Option ℕ
take_slot id [] = ([], none)
take_slot id ((other, pool_id) ∷ slots) =
    let (after, found) = take_slot id slots in
    if other == id then ((0, 0) ∷ slots, some pool_id) else ((other, pool_id) ∷ after, found)

pub take_share_request : Waiting → ℕ → Waiting × Option ℕ
unfolding take_slot
take_share_request w id =
    let (slots, found) = take_slot id w.slots in (record w { slots = slots }, found)

-- `g_pending_response_ids`, `_us` and `_pool_ids`.
pub record Sent : Type 0 where
  pub id : ℤ
  pub sent_us : ℕ
  pub pool_id : ℕ

pub record Responses : Type 0 where
  pub slots : List Sent
  pub next : ℕ

abbrev pub is_negative : ℤ → Bool
is_negative (pos n) = false
is_negative (negsuc n) = true

abbrev pub same_id : ℤ → ℤ → Bool
same_id (pos m) (pos n) = m == n
same_id (pos m) (negsuc n) = false
same_id (negsuc m) (pos n) = false
same_id (negsuc m) (negsuc n) = m == n

-- `mark_response_request_at`, and `mark_response_request` with the present time.
unfoldable pub mark_response_request_at : Responses → ℕ → ℤ → ℕ → Responses
mark_response_request_at r pool_id id sent_us =
    if is_negative id || not (ltb pool_id pool_session_max) then r else record r {
      slots = set r.slots (r.next % 16) (record { id = id; sent_us = sent_us; pool_id = pool_id });
      next = r.next + 1;
    }

pub take_sent : ℤ → ℕ → List Sent → List Sent × Option ℕ
take_sent id pool_id [] = ([], none)
take_sent id pool_id (s ∷ slots) =
    let (after, found) = take_sent id pool_id slots in
    if same_id s.id id && (s.pool_id == pool_id)
    then (record { id = pos 0; sent_us = 0; pool_id = 0 } ∷ slots, some s.sent_us)
    else (s ∷ after, found)

-- The milliseconds since the request, at most 2 ^ 32 - 1.
pub elapsed_ms : ℕ → ℕ → ℕ
elapsed_ms sent_us now_us = min ((now_us - sent_us) / 1000) (2 ^ 32 - 1)

unfoldable pub take_response_request_ms : Responses → ℕ → ℤ → ℕ → Responses × Option ℕ
unfolding take_sent elapsed_ms
take_response_request_ms r pool_id id now_us =
    if not (ltb pool_id pool_session_max)
    then (r, none)
    else let (slots, found) = take_sent id pool_id r.slots in
      let answer = elim found as (λ x. Option ℕ) [
        | none ↦ none
        | some sent_us ↦ if sent_us == 0 then none else some (elapsed_ms sent_us now_us)
      ] in
      (record r { slots = slots }, answer)

-- `strtol` in base 10 where `long` has 32 bits, as `fast_json_parse_id` calls it: a value that is
-- out of range is the nearest one in range.
abbrev pub is_digit : ℕ → Bool
is_digit ch = leb b'0' ch && leb ch b'9'

pub read_digits : ℕ → List ℕ → ℕ
read_digits value [] = value
read_digits value (ch ∷ text) =
    let rest = read_digits (value * 10 + (ch - b'0')) text in if is_digit ch then rest else value

pub skip_space : List ℕ → List ℕ
skip_space [] = []
skip_space (ch ∷ text) =
    if (ch == b' ') || (leb 9 ch && leb ch 13) then skip_space text else ch ∷ text

pub unsigned_value : List ℕ → Option ℕ
unfolding read_digits
unsigned_value [] = none
unsigned_value (ch ∷ text) = if is_digit ch then some (read_digits 0 (ch ∷ text)) else none

pub strtol : List ℕ → Option ℤ
unfolding skip_space unsigned_value
strtol text = elim (skip_space text) [
  | [] ↦ none
  | ch ∷ rest ↦
      if ch == b'-'
      then (unsigned_value rest >>= λ n.
          some (if n == 0 then pos 0 else negsuc (min n (2 ^ 31) - 1)))
      else (unsigned_value (if ch == b'+' then rest else ch ∷ rest) >>= λ n.
          some (pos (min n (2 ^ 31 - 1))))
]

pub parse_id : List ℕ → Option ℤ
unfolding field_value strtol
parse_id line = field_value line (codes "\"id\"") >>= λ cursor. strtol cursor

-- What `fast_handle_share_response` reads and writes; `response_time_ms` has the last time of all
-- pools, then that of each pool. The counters of `g_state->SYSTEM_MODULE` and the log are left out.
pub record Client : Type 0 where
  pub shares : Waiting
  pub responses : Responses
  pub accepted : ℕ
  pub rejected : ℕ
  pub pool_accepted : List ℕ
  pub pool_rejected : List ℕ
  pub response_time_ms : ℕ
  pub pool_response_time_ms : List ℕ

abbrev pub count_up : List ℕ → ℕ → List ℕ
count_up [] i = []
count_up (n ∷ ns) zero = (n + 1) % 2 ^ 32 ∷ ns
count_up (n ∷ ns) (suc i) = n ∷ count_up ns i

pub record_answer : Client → ℕ → Responses × Option ℕ → Client
record_answer c pool_id (responses, none) = record c { responses = responses }
record_answer c pool_id (responses, some ms) = record c {
  responses = responses;
  response_time_ms = ms;
  pool_response_time_ms = set c.pool_response_time_ms pool_id ms;
}

pub record_response : Client → ℕ → ℤ → ℕ → Client
unfolding take_response_request_ms record_answer
record_response c pool_id id now_us =
    record_answer c pool_id (take_response_request_ms c.responses pool_id id now_us)

pub count_share : Client → Bool → ℕ → Client
count_share c success share_pool_id =
    if success
    then record c {
      accepted = (c.accepted + 1) % 2 ^ 32;
      pool_accepted = count_up c.pool_accepted share_pool_id;
    }
    else record c {
      rejected = (c.rejected + 1) % 2 ^ 32;
      pool_rejected = count_up c.pool_rejected share_pool_id;
    }

-- A request's id above `STRATUM_ID_EXTRANONCE_SUBSCRIBE`.
abbrev pub share_id : ℤ → Option ℕ
share_id (pos n) = if leb n 5 then none else some n
share_id (negsuc n) = none

abbrev pub has_method : List ℕ → Bool
has_method line = elim (field_value line (codes "\"method\"")) [ none ↦ false | some v ↦ true ]

-- The id and the success of a line that answers a share, if it does.
pub answer_of : List ℕ → Option (ℕ × Bool)
unfolding field_value parse_id parse_response_success
answer_of line =
    if has_method line
    then none
    else (parse_id line >>= λ message_id.
        share_id message_id >>= λ id. parse_response_success line >>= λ success. some (id, success))

pub answered : Client → ℕ → ℕ → Bool → ℕ → Waiting × Option ℕ → Client × Bool
unfolding record_response count_share
answered c pool_id id success now_us (shares, none) = (record c { shares = shares }, false)
answered c pool_id id success now_us (shares, some share_pool_id) = (
  count_share (record_response (record c { shares = shares }) pool_id (pos id) now_us) success
      share_pool_id,
  true,
)

-- `fast_handle_share_response` at the time `now_us`, with its return value.
unfoldable pub handle_share_response : Client → ℕ → List ℕ → ℕ → Client × Bool
unfolding answer_of take_share_request answered
handle_share_response c pool_id line now_us = elim (answer_of line) [
  | none ↦ (c, false)
  | some (id, success) ↦ answered c pool_id id success now_us (take_share_request c.shares id)
]
