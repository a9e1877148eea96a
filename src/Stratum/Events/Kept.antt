-- ===== src/Stratum/Events/Kept.antt =====
-- The ring of submissions in main/stratum_minimal.c keeps the last 32 of all that were recorded.
use m45_gamma_firmware.Base.{
  ℕ, zero, suc, ◌+◌, ◌-◌, ◌%◌, ◌^◌, ◌≤◌, ◌<◌, min, ◌≡◌, refl, sym, ap, ◌∙◌, subst, ◌≢◌, inl, inr,
  List, [], ◌∷◌, ◌++◌, append-nil, append_assoc, arith, ltb, ◌==◌, if◌then◌else◌, ==_iff,
  Bool-cases, length, get_or, set, drop, replicate, length-append, length-set, length-drop,
  get_or-append_left, get_or-append_right, get_or-set_self, get_or-set_ne, get_or-drop, list_ext,
}
use m45_gamma_firmware.Stratum.Events.{
  ShareEvent, ShareEvents, share_event_max, no_event, next_sequence, record_share_event,
  copy_events, get_share_events,
}

-- The ring before the first submission.
abbrev pub no_events : ShareEvents
no_events = record {
  events = replicate share_event_max no_event;
  next = 0;
  count = 0;
  sequence = 0;
}

-- Submissions recorded one after the other, with their times and difficulties.
pub record_all : ShareEvents → List (ℕ × ℕ) → ShareEvents
record_all s [] = s
record_all s ((timestamp_us, difficulty) ∷ shares) =
    record_all (record_share_event s timestamp_us difficulty) shares

-- The same submissions as one growing list: the number of the i-th is i + 1, and after 2^32 - 1 it
-- begins with 1 again.
unfoldable pub numbered : ℕ → List (ℕ × ℕ) → List ShareEvent
numbered i [] = []
numbered i ((timestamp_us, difficulty) ∷ shares) =
    record { sequence = i % (2 ^ 32 - 1) + 1; timestamp_us = timestamp_us; difficulty = difficulty }
    ∷ numbered (i + 1) shares

-- The number of the last of `i` submissions, 0 before the first one.
last_number : ℕ → ℕ
last_number zero = 0
last_number (suc i) = i % (2 ^ 32 - 1) + 1

next_sequence-last_number : (i : ℕ) → next_sequence (last_number i) ≡ i % (2 ^ 32 - 1) + 1
unfolding next_sequence last_number
next_sequence-last_number zero = ground arith
next_sequence-last_number (suc i) = ground arith

-- The ring holds the last of all events, each at its index modulo the size.
record Holds (s : ShareEvents) (all : List ShareEvent) : Type 0 where
  size : length s.events ≡ share_event_max
  next_at : s.next ≡ length all % share_event_max
  count_at : s.count ≡ min (length all) share_event_max
  slot_at :
      (k : ℕ)
      → k < length all
      → length all ≤ k + share_event_max
      → get_or s.events (k % share_event_max) no_event ≡ get_or all k no_event

no_events-Holds : Holds no_events []
no_events-Holds = record {
  size = refl;
  next_at = refl;
  count_at = refl;
  slot_at = λ k lt le. absurd (omega arith);
}

-- After a write at the place of the next event, its slot and those of the 31 before it hold.
slot-Holds :
    (s : ShareEvents) (all : List ShareEvent) (e : ShareEvent) (k : ℕ)
    → Holds s all
    → k < length all + 1
    → length all + 1 ≤ k + share_event_max
    → get_or (set s.events s.next e) (k % share_event_max) no_event
      ≡ get_or (all ++ (e ∷ [])) k no_event
slot-Holds s all e k h lt le = elim (Bool-cases (k == length all)) [
  | inl last ↦
      let here : k ≡ length all = (==_iff k (length all)).0 last in
      let place : k % share_event_max ≡ s.next = omega (arith, here, h.next_at) in
      let inside : s.next < length s.events = omega (arith, h.next_at, h.size) in
      let at_end : k ≡ length all + 0 = omega (arith, here) in
      ap (λ i. get_or (set s.events s.next e) i no_event) place
      ∙ (get_or-set_self s.events s.next e no_event inside
          ∙ sym (
              ap (λ i. get_or (all ++ (e ∷ [])) i no_event) at_end
              ∙ get_or-append_right all (e ∷ []) 0 no_event))
  | inr other ↦
      let before : k < length all = ground (arith, other, lt) in
      let apart : s.next ≢ k % share_event_max =
        λ same. omega (arith, same, h.next_at, before, le) in
      get_or-set_ne s.events s.next (k % share_event_max) e no_event apart
      ∙ (h.slot_at k before (omega (arith, le))
          ∙ sym (get_or-append_left all (e ∷ []) k no_event before))
]

record_share_event-Holds :
    (s : ShareEvents) (all : List ShareEvent) (timestamp_us difficulty : ℕ)
    → Holds s all
    → Holds (record_share_event s timestamp_us difficulty) (
        all
        ++ (record {
          sequence = next_sequence s.sequence;
          timestamp_us = timestamp_us;
          difficulty = difficulty;
        }
            ∷ []))
unfolding record_share_event
record_share_event-Holds s all timestamp_us difficulty h =
    let e : ShareEvent = record {
      sequence = next_sequence s.sequence;
      timestamp_us = timestamp_us;
      difficulty = difficulty;
    } in
    let longer : length (all ++ (e ∷ [])) ≡ length all + 1 = length-append all (e ∷ []) in
    record {
      size = length-set s.events s.next e ∙ h.size;
      next_at = omega (arith, h.next_at, longer);
      count_at = ground (arith, h.count_at, longer);
      slot_at =
          λ k lt le. slot-Holds s all e k h (omega (arith, longer, lt)) (omega (arith, longer, le));
    }

record_all-Holds :
    (s : ShareEvents) (all : List ShareEvent) (i : ℕ) (shares : List (ℕ × ℕ))
    → s.sequence ≡ last_number i
    → Holds s all
    → Holds (record_all s shares) (all ++ numbered i shares)
unfolding record_all numbered record_share_event last_number
record_all-Holds s all i [] number h = subst (Holds s) (sym (append-nil all)) h
record_all-Holds s all i ((timestamp_us, difficulty) ∷ shares) number h =
    let e : ShareEvent = record {
      sequence = i % (2 ^ 32 - 1) + 1;
      timestamp_us = timestamp_us;
      difficulty = difficulty;
    } in
    let s' : ShareEvents = record_share_event s timestamp_us difficulty in
    let numbered_next : next_sequence s.sequence ≡ i % (2 ^ 32 - 1) + 1 =
      ap next_sequence number ∙ next_sequence-last_number i in
    let after : last_number (suc i) ≡ last_number (i + 1) =
      ap last_number {x = suc i} (omega arith) in
    subst (Holds (record_all s' shares)) (append_assoc all (e ∷ []) (numbered (i + 1) shares)) (
      record_all-Holds s' (all ++ (e ∷ [])) (i + 1) shares (numbered_next ∙ after) (
        subst
          (λ q. Holds s' (
            all
            ++ (record { sequence = q; timestamp_us = timestamp_us; difficulty = difficulty }
                ∷ [])))
          numbered_next (record_share_event-Holds s all timestamp_us difficulty h)))

length-copy_events :
    (events : List ShareEvent) (first n : ℕ) → length (copy_events events first n) ≡ n
unfolding copy_events
length-copy_events events first zero = refl
length-copy_events events first (suc n) = ap suc (length-copy_events events (first + 1) n)

get_or-copy_events :
    (events : List ShareEvent) (first n i : ℕ)
    → i < n
    → get_or (copy_events events first n) i no_event
      ≡ get_or events ((first + i) % share_event_max) no_event
unfolding copy_events
get_or-copy_events events first zero i lt = absurd (omega arith)
get_or-copy_events events first (suc n) zero lt =
    let e : first % share_event_max ≡ (first + 0) % share_event_max = omega arith in
    ap (λ k. get_or events k no_event) e
get_or-copy_events events first (suc n) (suc i) lt =
    let e : (first + 1 + i) % share_event_max ≡ (first + suc i) % share_event_max = omega arith in
    get_or-copy_events events (first + 1) n i (omega arith) ∙ ap (λ k. get_or events k no_event) e

length-numbered : (i : ℕ) (shares : List (ℕ × ℕ)) → length (numbered i shares) ≡ length shares
unfolding numbered
length-numbered i [] = refl
length-numbered i ((timestamp_us, difficulty) ∷ shares) = ap suc (length-numbered (i + 1) shares)

copy_events-Holds :
    (s : ShareEvents) (all : List ShareEvent) (first count : ℕ)
    → Holds s all
    → count ≤ length all
    → count ≤ share_event_max
    → first % share_event_max ≡ (length all - count) % share_event_max
    → copy_events s.events first count ≡ drop (length all - count) all
copy_events-Holds s all first count h le few from =
    let size : length (copy_events s.events first count) ≡ count =
      length-copy_events s.events first count in
    list_ext (copy_events s.events first count) (drop (length all - count) all) no_event
      (omega (arith, size, length-drop (length all - count) all, le))
      (λ i lt.
        let inside : i < count = omega (arith, lt, size) in
        let place : (first + i) % share_event_max ≡ (length all - count + i) % share_event_max =
          omega (arith, from) in
        get_or-copy_events s.events first count i inside
        ∙ (ap (λ k. get_or s.events k no_event) place
            ∙ (h.slot_at (length all - count + i) (omega (arith, le, inside))
                  (omega (arith, le, few))
                ∙ sym (get_or-drop (length all - count) all i no_event))))

-- A ring that holds the events gives the newest of them.
get_share_events-Holds :
    (s : ShareEvents) (all : List ShareEvent) (max_events : ℕ)
    → Holds s all
    → get_share_events s max_events ≡ drop (length all - min max_events share_event_max) all
unfolding get_share_events copy_events
get_share_events-Holds s all max_events h =
    let taken : ℕ = if ltb s.count max_events then s.count else max_events in
    let first : ℕ =
      ((s.next + share_event_max - s.count) % share_event_max + s.count - taken)
      % share_event_max in
    let at_most : taken ≤ s.count = ground arith in
    let start : length all - taken ≡ length all - min max_events share_event_max =
      ground (arith, h.count_at) in
    let from : first % share_event_max ≡ (length all - taken) % share_event_max =
      omega (arith, h.count_at, h.next_at, at_most) in
    let copied : copy_events s.events first taken
        ≡ drop (length all - min max_events share_event_max) all =
      copy_events-Holds s all first taken h (omega (arith, at_most, h.count_at))
        (omega (arith, at_most, h.count_at)) from
      ∙ ap (λ n. drop n all) start in
    elim (Bool-cases (max_events == 0)) [
      | inl none_asked ↦
          let nothing : taken ≡ 0 = ground (arith, none_asked) in
          rw none_asked (ap (λ n. copy_events s.events first n) (sym nothing) ∙ copied)
      | inr asked ↦ rw asked copied
    ]

-- What is read from the ring after any submissions are the newest of them, at most 32 and as many as
-- there is room for, the oldest first; the i-th of all, from 0, has the number i mod (2^32 - 1) + 1.
pub get_share_events_lem :
    (shares : List (ℕ × ℕ)) (max_events : ℕ)
    → get_share_events (record_all no_events shares) max_events
      ≡ drop (length shares - min max_events share_event_max) (numbered 0 shares)
unfolding last_number
get_share_events_lem shares max_events =
    get_share_events-Holds (record_all no_events shares) (numbered 0 shares) max_events
      (record_all-Holds no_events [] 0 shares refl no_events-Holds)
    ∙ ap (λ n. drop (n - min max_events share_event_max) (numbered 0 shares))
        (length-numbered 0 shares)
