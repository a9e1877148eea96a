-- ===== src/LogBuffer/Readers.antt =====
-- What a reader of the log ring gets of the logged stream.
use m45_gamma_firmware.Base.{
  ℕ, zero, suc, ◌+◌, ◌-◌, ◌%◌, ◌^◌, ◌≤◌, ◌<◌, ◌≡◌, refl, sym, ap, ◌∙◌, ◌⊎◌, inl, inr, Bool, true,
  false, List, [], ◌∷◌, ◌++◌, append-nil, arith, ltb, ◌==◌, ltb→lt, Bool-cases, length, get_or,
  take, drop, length-append, length-take, length-drop, get_or-append_left, get_or-append_from,
  get_or-take, get_or-drop, list_ext,
}
use native.Mathlib.Decide.{dec_lt}
use m45_gamma_firmware.LogBuffer.{
  buffer_size, LogState, read_ring, start_since, copy_ring, copy_since, Copied,
}
use m45_gamma_firmware.LogBuffer.Stream.{Holds, Logs}

module _ (ring stream : List ℕ) (h : Holds ring stream) (from n : ℕ)
    (end : from + n ≡ length stream) (le : n ≤ buffer_size) where
  stream_byte :
      (i k : ℕ)
      → i < n
      → k ≡ (from + i) % buffer_size
      → get_or ring k 0 ≡ get_or (drop from stream) i 0
  stream_byte i k lt e =
      ap (λ j. get_or ring j 0) e
      ∙ h.reads (from + i) (omega arith) (omega arith)
      ∙ sym (get_or-drop from stream i 0)

  piece :
      (f i : ℕ)
      → f ≤ buffer_size - from % buffer_size
      → i < f
      → i < n
      → get_or (take f (drop (from % buffer_size) ring)) i 0 ≡ get_or (drop from stream) i 0
  piece f i room lt ltn =
      get_or-take f (drop (from % buffer_size) ring) i 0 lt
      ∙ get_or-drop (from % buffer_size) ring i 0
      ∙ stream_byte i (from % buffer_size + i) ltn (omega arith)

  read_one :
      n ≤ buffer_size - from % buffer_size
      → take n (drop (from % buffer_size) ring) ++ [] ≡ drop from stream
  read_one room =
      append-nil (take n (drop (from % buffer_size) ring))
      ∙ list_ext (take n (drop (from % buffer_size) ring)) (drop from stream) 0
          (omega (arith, lengths, length-drop from stream))
          (λ i lt. piece n i room (omega (arith, lengths)) (omega (arith, lengths)))
    where
      lengths : length (take n (drop (from % buffer_size) ring)) ≡ n
      lengths = omega (
        arith,
        h.size,
        length-take n (drop (from % buffer_size) ring),
        length-drop (from % buffer_size) ring,
      )

  read_two :
      (f : ℕ)
      → f ≡ buffer_size - from % buffer_size
      → f < n
      → take f (drop (from % buffer_size) ring) ++ take (n - f) ring ≡ drop from stream
  read_two f ef more =
      list_ext (front ++ take (n - f) ring) (drop from stream) 0
        (omega (
          arith,
          front_length,
          h.size,
          length-append front (take (n - f) ring),
          length-take (n - f) ring,
          length-drop from stream,
        ))
        (λ i lt. elim (dec_lt i f) [
          | yes first ↦
              get_or-append_left front (take (n - f) ring) i 0 (omega (arith, front_length))
              ∙ piece f i (omega arith) first (omega arith)
          | no second ↦
              get_or-append_from front (take (n - f) ring) i 0 (omega (arith, front_length))
              ∙ get_or-take (n - f) ring (i - length front) 0 (within i lt)
              ∙ stream_byte i (i - length front) (total i lt)
                  (omega (arith, front_length, total i lt))
        ])
    where
      front : List ℕ
      front = take f (drop (from % buffer_size) ring)

      front_length : length front ≡ f
      front_length = omega (
        arith,
        h.size,
        length-take f (drop (from % buffer_size) ring),
        length-drop (from % buffer_size) ring,
      )

      total : (i : ℕ) → i < length (front ++ take (n - f) ring) → i < n
      total i lt =
          omega
            (arith, front_length, length-append front (take (n - f) ring), length-take (n - f) ring)

      within : (i : ℕ) → i < length (front ++ take (n - f) ring) → i - length front < n - f
      within i lt = omega (arith, front_length, total i lt)

  read_ring-Holds : read_ring ring (from % buffer_size) n ≡ drop from stream
  unfolding read_ring
  read_ring-Holds = elim (Bool-cases (ltb n (buffer_size - from % buffer_size))) [
    | inl short ↦
        let stop : ltb n n ≡ false = ground arith in
        rw (short, stop) (read_one (omega (arith, ltb→lt _ _ short)))
    | inr long ↦ rw long (elim (Bool-cases (ltb (buffer_size - from % buffer_size) n)) [
      | inl more ↦ rw more (read_two (buffer_size - from % buffer_size) refl (ltb→lt _ _ more))
      | inr exact ↦
          let e : buffer_size - from % buffer_size ≡ n = ground (arith, long, exact) in
          rw (exact, e) (read_one (omega arith))
    ])
  ]

-- What a reader that asked from `since` for less than `dst_size` bytes may rely on.
pub record Reads (stream : List ℕ) (since dst_size : ℕ) (c : Copied) : Type 0 where
  pub next : c.next_seq ≡ length stream
  pub newest : c.text ≡ drop (length stream - length c.text) stream
  pub fits : length c.text < dst_size
  pub in_ring : length c.text ≤ buffer_size
  pub complete :
      c.truncated ≡ false → 0 < since ⊎ (length stream ≤ buffer_size) → c.text ≡ drop since stream

drop_all : (n : ℕ) (xs : List ℕ) → length xs ≤ n → drop n xs ≡ []
drop_all zero [] h = refl
drop_all zero (x ∷ xs) h = absurd (omega arith)
drop_all (suc n) [] h = refl
drop_all (suc n) (x ∷ xs) h = drop_all n xs (omega arith)

module _ (stream : List ℕ) (since : ℕ) (small : length stream < 2 ^ 63)
    (asked : since < 2 ^ 63) where
  -- The start of the copy loses nothing that was asked for, unless the flag says so.
  abbrev Keeps : ℕ → Bool → Type 0
  Keeps start lost =
      lost ≡ false
      → 0 < since ⊎ (length stream ≤ buffer_size)
      → (start ≡ since) ⊎ ((length stream ≤ since) × (start ≡ length stream))

  start_since_lem :
      let (start, lost) = start_since (length stream) since in
      (start ≤ length stream) × (length stream ≤ start + buffer_size) × Keeps start lost
  unfolding start_since
  start_since_lem = (ground arith, ground arith, λ kept reach. ground arith)

  module _ (ring : List ℕ) (h : Holds ring stream) (dst_size : ℕ) where
    copied_Reads :
        (from n : ℕ) (lost : Bool)
        → from + n ≡ length stream
        → n ≤ buffer_size
        → n < dst_size
        → Keeps from lost
        → Reads stream since dst_size (record {
          text = read_ring ring (from % buffer_size) n;
          next_seq = length stream;
          truncated = lost;
        })
    copied_Reads from n lost end le room keeps =
        rw (read_ring-Holds ring stream h from n end le) (record {
          next = refl;
          newest = ap (λ k. drop k stream) back;
          fits = omega (arith, length-drop from stream);
          in_ring = omega (arith, length-drop from stream);
          complete = λ kept reach. elim (keeps kept reach) [
            | inl same ↦ ap (λ k. drop k stream) same
            | inr beyond ↦ drop_all from stream (omega arith) ∙ sym (drop_all since stream beyond.0)
          ];
        })
      where
        back : from ≡ length stream - length (drop from stream)
        back = omega (arith, length-drop from stream)

    copy_ring-Reads :
        0 < dst_size → Reads stream since dst_size (copy_ring ring (length stream) since dst_size)
    unfolding copy_ring
    copy_ring-Reads room =
        let start : ℕ = (start_since (length stream) since).0 in
        let lost : Bool = (start_since (length stream) since).1 in
        let avail : ℕ = length stream - start in
        let (before, cover, keeps) = start_since_lem in
        elim (Bool-cases (ltb avail (dst_size - 1))) [
          | inl fits ↦
              let no_cut : ltb avail avail ≡ false = ground arith in
              rw (fits, no_cut)
                (copied_Reads start avail lost (omega arith) (omega arith)
                  (omega (arith, ltb→lt _ _ fits)) keeps)
          | inr tight ↦ rw tight (elim (Bool-cases (ltb (dst_size - 1) avail)) [
            | inl cut ↦ rw cut (
                copied_Reads (length stream - (dst_size - 1)) (dst_size - 1) true
                  (omega (arith, ltb→lt _ _ cut)) (omega (arith, ltb→lt _ _ cut)) (omega arith)
                  (λ kept. cc))
            | inr exact ↦
                let e : dst_size - 1 ≡ avail = ground (arith, tight, exact) in
                rw exact (
                  copied_Reads start (dst_size - 1) lost (omega arith) (omega arith) (omega arith)
                    keeps)
          ])
        ]

-- A reader gets the newest part of the logged stream and its end position, at most `dst_size - 1`
-- bytes and at most the ring. If `truncated` is false, the reader gets all of the stream from where
-- it asked to start (nothing, beyond the end), unless it asked from 0 for more than the ring holds.
pub copy_since-Logs :
    (s : LogState) (stream : List ℕ) (since dst_size : ℕ)
    → Logs s stream
    → length stream < 2 ^ 63
    → since < 2 ^ 63
    → 0 < dst_size
    → Reads stream since dst_size (copy_since s since dst_size)
unfolding copy_since
copy_since-Logs s stream since dst_size (ring, eb, es, h) small asked room =
    let some_room : (dst_size == 0) ≡ false = ground arith in
    rw (some_room, eb, es) (copy_ring-Reads stream since small asked ring h dst_size room)
