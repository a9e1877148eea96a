-- ===== src/LogBuffer/Stream.antt =====
-- The ring holds the last 16384 bytes of the stream that was logged since it was allocated.
use m45_gamma_firmware.Base.{
  ℕ, ◌+◌, ◌-◌, ◌%◌, ◌^◌, ◌≤◌, ◌<◌, ◌≡◌, refl, sym, ap, ◌∙◌, subst, ◌⊎◌, inl, inr, false, some, List,
  [], ◌∷◌, ◌++◌, append-nil, arith, ltb, ◌==◌, ltb→lt, Bool-cases, length, get_or, take, drop,
  length-append, length-take, length-drop, take_of_le, get_or-append_left, get_or-append_from,
  get_or-take, get_or-drop,
}
use native.Mathlib.Decide.{dec_lt}
use m45_gamma_firmware.Base.Arrays.{memcpy, length-memcpy, get_or-memcpy_in, get_or-memcpy_out}
use m45_gamma_firmware.LogBuffer.{buffer_size, LogState, write_ring, append_log_bytes}

-- The ring and the count of bytes against the stream.
pub record Holds (ring : List ℕ) (stream : List ℕ) : Type 0 where
  pub size : length ring ≡ buffer_size
  pub reads :
      (i : ℕ)
      → i < length stream
      → length stream ≤ i + buffer_size
      → get_or ring (i % buffer_size) 0 ≡ get_or stream i 0

abbrev pub Logs : LogState → List ℕ → Type 0
Logs s stream =
    (ring : List ℕ) × (s.buffer ≡ some ring) × (s.seq ≡ length stream) × Holds ring stream

-- A place that a copied range leaves alone.
outside : (i at n : ℕ) → ¬ ((at ≤ i) × (i < at + n)) → i < at ⊎ (at + n ≤ i)
outside i at n h = elim (dec_lt i at) [
  | yes below ↦ inl below
  | no above ↦ inr (elim (dec_lt i (at + n)) [
    | yes within ↦ absurd (h (omega arith, within))
    | no beyond ↦ omega arith
  ])
]

module _ (ring stream bytes : List ℕ) (h : Holds ring stream) (o : ℕ)
    (start : o ≡ length stream % buffer_size) where
  -- What the stream reads, for an index that the ring still covers.
  old_byte :
      (i : ℕ)
      → i < length stream
      → length stream ≤ i + buffer_size
      → get_or ring (i % buffer_size) 0 ≡ get_or (stream ++ bytes) i 0
  old_byte i lt cover = h.reads i lt cover ∙ sym (get_or-append_left stream bytes i 0 lt)

  new_byte :
      (i j : ℕ)
      → length stream ≤ i
      → j ≡ i - length stream
      → get_or bytes j 0 ≡ get_or (stream ++ bytes) i 0
  new_byte i j le e = ap (λ k. get_or bytes k 0) e ∙ sym (get_or-append_from stream bytes i 0 le)

  one_piece : o + length bytes ≤ buffer_size → Holds (memcpy ring o bytes) (stream ++ bytes)
  one_piece fits = record {
    size = length-memcpy ring o bytes (omega arith) ∙ h.size;
    reads = λ i lt cover. elim (dec_lt i (length stream)) [
      | yes old ↦
          get_or-memcpy_out ring o bytes (i % buffer_size) 0 (omega arith) (
            outside (i % buffer_size) o (length bytes)
              (λ hit. omega (arith, length-append stream bytes)))
          ∙ old_byte i old (omega (arith, length-append stream bytes))
      | no new ↦
          get_or-memcpy_in ring o bytes (i % buffer_size) 0 (omega arith)
            (omega (arith, length-append stream bytes)) (omega (arith, length-append stream bytes))
          ∙ new_byte i (i % buffer_size - o) (omega arith)
              (omega (arith, length-append stream bytes))
    ];
  }

  two_pieces :
      (f : ℕ)
      → f ≡ buffer_size - o
      → f < length bytes
      → length bytes ≤ buffer_size
      → Holds (memcpy (memcpy ring o (take f bytes)) 0 (drop f bytes)) (stream ++ bytes)
  two_pieces f ef more fits = record {
    size = length-memcpy head 0 (drop f bytes) (omega (arith, facts)) ∙ head_size;
    reads = λ i lt cover. elim (dec_lt i (length stream)) [
      | yes old ↦
          get_or-memcpy_out head 0 (drop f bytes) (i % buffer_size) 0 (omega (arith, facts)) (
            outside (i % buffer_size) 0 (length (drop f bytes))
              (λ hit. omega (arith, facts, length-append stream bytes)))
          ∙ get_or-memcpy_out ring o (take f bytes) (i % buffer_size) 0 (omega (arith, facts)) (
              outside (i % buffer_size) o (length (take f bytes))
                (λ hit. omega (arith, facts, length-append stream bytes)))
          ∙ old_byte i old (omega (arith, length-append stream bytes))
      | no new ↦ elim (dec_lt (i - length stream) f) [
        | yes first ↦
            get_or-memcpy_out head 0 (drop f bytes) (i % buffer_size) 0 (omega (arith, facts)) (
              outside (i % buffer_size) 0 (length (drop f bytes))
                (λ hit. omega (arith, facts, length-append stream bytes)))
            ∙ get_or-memcpy_in ring o (take f bytes) (i % buffer_size) 0 (omega (arith, facts))
                (omega arith) (omega (arith, facts))
            ∙ get_or-take f bytes (i % buffer_size - o) 0 (omega arith)
            ∙ new_byte i (i % buffer_size - o) (omega arith) (omega arith)
        | no second ↦
            get_or-memcpy_in head 0 (drop f bytes) (i % buffer_size) 0 (omega (arith, facts))
              (omega arith) (omega (arith, facts, length-append stream bytes))
            ∙ get_or-drop f bytes (i % buffer_size - 0) 0
            ∙ new_byte i (f + (i % buffer_size - 0)) (omega arith)
                (omega (arith, length-append stream bytes))
      ]
    ];
  }
    where
      head : List ℕ
      head = memcpy ring o (take f bytes)

      facts :
          (length (take f bytes) ≡ f)
          × (length (drop f bytes) ≡ length bytes - f)
          × (length head ≡ buffer_size)
      facts = (
        omega (arith, length-take f bytes),
        length-drop f bytes,
        length-memcpy ring o (take f bytes) (omega (arith, length-take f bytes)) ∙ h.size,
      )

      head_size : length head ≡ buffer_size
      head_size = facts.2

write_ring-Holds :
    (ring stream bytes : List ℕ)
    → Holds ring stream
    → length bytes ≤ buffer_size
    → Holds (write_ring ring (length stream % buffer_size) bytes) (stream ++ bytes)
unfolding write_ring
write_ring-Holds ring stream bytes h fits =
    let o : ℕ = length stream % buffer_size in
    let whole : take (length bytes) bytes ≡ bytes = take_of_le (length bytes) bytes (omega arith) in
    elim (Bool-cases (ltb (length bytes) (buffer_size - o))) [
      | inl short ↦
          let stop : ltb (length bytes) (length bytes) ≡ false = ground arith in
          rw (short, stop, whole)
            (one_piece ring stream bytes h o refl (omega (arith, ltb→lt _ _ short)))
      | inr long ↦ rw long (elim (Bool-cases (ltb (buffer_size - o) (length bytes))) [
        | inl more ↦
            rw more
              (two_pieces ring stream bytes h o refl (buffer_size - o) refl (ltb→lt _ _ more) fits)
        | inr exact ↦
            let e : buffer_size - o ≡ length bytes = ground (arith, long, exact) in
            rw (exact, e, whole) (one_piece ring stream bytes h o refl (omega arith))
      ])
    ]

-- Appending at most 16384 bytes to a ring that logs a stream logs the stream with them at its end,
-- as long as the 64-bit count of bytes does not wrap.
pub append_log_bytes-Logs :
    (s : LogState) (stream bytes : List ℕ)
    → Logs s stream
    → length bytes ≤ buffer_size
    → length stream + length bytes < 2 ^ 64
    → Logs (append_log_bytes s bytes) (stream ++ bytes)
unfolding append_log_bytes
append_log_bytes-Logs s stream [] logs fits small =
    subst (λ t. Logs s t) (sym (append-nil stream)) logs
append_log_bytes-Logs s stream (b ∷ bs) (ring, eb, es, h) fits small =
    let whole : ltb buffer_size (length (b ∷ bs)) ≡ false = ground arith in
    let some_bytes : (length (b ∷ bs) == 0) ≡ false = ground arith in
    rw (eb, es, whole, some_bytes)
      (
        write_ring ring (length stream % buffer_size) (b ∷ bs),
        refl,
        omega (arith, length-append stream (b ∷ bs)),
        write_ring-Holds ring stream (b ∷ bs) h fits,
      )
