-- ===== src/Payout/Reader/Consumes.antt =====
-- Reading functions that take a serialised value off the front of what is left.
use m45_gamma_firmware.Base.{ℕ, ◌^◌, ◌<◌, ◌≡◌, refl, ap, ◌∙◌, Bool, true, some, List, ◌++◌, length}
use m45_gamma_firmware.Payout.Reader.{
  M, ◌>>=◌, ◌>>◌, return, guard, read_bytes, skip_bytes, read_u64_le, read_varint,
}
use m45_gamma_firmware.Payout.Reader.Layout.{
  at, le_bytes, varint, bind_some, read_bytes-at, read_u64_le-at, read_varint-at,
}

-- `wire` puts the serialised value in front of what follows it.
pub record Consumes {A : Type 0} (m : M A) (wire : List ℕ → List ℕ) (a : A) : Type 0 where
  pub runs :
      (front rest : List ℕ)
      → (front' : List ℕ) × (m (at front (wire rest)) ≡ some (a, at front' rest))

pub Consumes-bind :
    {A B : Type 0} {m : M A} (f : A → M B) {w w' : List ℕ → List ℕ} {a : A} {b : B}
    → Consumes m w a
    → Consumes (f a) w' b
    → Consumes (m >>= f) (λ rest. w (w' rest)) b
Consumes-bind {m = m} f {w' = w'} first second = record {
  runs = λ front rest.
      let one = first.runs front (w' rest) in
      let two = second.runs (one.0) rest in (two.0, bind_some m f (one.1) ∙ two.1);
}

pub Consumes-then :
    {A B : Type 0} {m : M A} {k : M B} {w w' : List ℕ → List ℕ} {a : A} {b : B}
    → Consumes m w a
    → Consumes k w' b
    → Consumes (m >> k) (λ rest. w (w' rest)) b
Consumes-then {k = k} first second = Consumes-bind (λ _. k) first second

pub Consumes-return : {A : Type 0} (a : A) → Consumes (return a) (λ rest. rest) a
Consumes-return a = record { runs = λ front rest. (front, refl) }

pub Consumes-guard : (b : Bool) → b ≡ true → Consumes (guard b) (λ rest. rest) tt
Consumes-guard b e = record {
  runs = λ front rest. (front, ap (λ (c : Bool). guard c (at front rest)) e);
}

pub Consumes-read_bytes :
    (n : ℕ) (chunk : List ℕ)
    → length chunk ≡ n
    → Consumes (read_bytes n) (λ rest. chunk ++ rest) chunk
Consumes-read_bytes n chunk e = record {
  runs = λ front rest. (front ++ chunk, read_bytes-at n front chunk rest e);
}

pub Consumes-skip_bytes :
    (n : ℕ) (chunk : List ℕ) → length chunk ≡ n → Consumes (skip_bytes n) (λ rest. chunk ++ rest) tt
unfolding skip_bytes
Consumes-skip_bytes n chunk e = Consumes-then (Consumes-read_bytes n chunk e) (Consumes-return tt)

pub Consumes-read_u64_le :
    (v : ℕ) → v < 2 ^ 64 → Consumes read_u64_le (λ rest. le_bytes 8 v ++ rest) v
Consumes-read_u64_le v lt = record {
  runs = λ front rest. (front ++ le_bytes 8 v, read_u64_le-at v front rest lt);
}

pub Consumes-read_varint : (v : ℕ) → v < 2 ^ 64 → Consumes read_varint (λ rest. varint v ++ rest) v
Consumes-read_varint v lt = record {
  runs = λ front rest. (front ++ varint v, read_varint-at v front rest lt);
}
