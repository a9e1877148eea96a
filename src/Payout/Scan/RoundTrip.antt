-- ===== src/Payout/Scan/RoundTrip.antt =====
-- The scan of a serialised coinbase transaction finds the sums of its output values.
use m45_gamma_firmware.Base.{
  ℕ, ◌+◌, ◌%◌, ◌^◌, ◌≤◌, ◌<◌, ◌≡◌, refl, sym, ap, ◌∙◌, subst, inl, inr, Bool, true, false, ◌&&◌,
  ◌||◌, not, some, List, [], ◌∷◌, ◌++◌, append_assoc, arith, ltb, leb, ◌==◌, if◌then◌else◌,
  Bool-cases, length, get_or, All, length-append, list_eq, list_eq→eq,
}
use m45_gamma_firmware.Payout.Reader.{Reader, read_varint}
use m45_gamma_firmware.Payout.Reader.Layout.{at, varint, bind_some, read_varint-at}
use m45_gamma_firmware.Payout.Reader.Consumes.{
  Consumes, Consumes-bind, Consumes-then, Consumes-return, Consumes-guard, Consumes-read_bytes,
  Consumes-skip_bytes, Consumes-read_u64_le, Consumes-read_varint,
}
use m45_gamma_firmware.Payout.Scan.{
  read_input_count, skip_inputs, sum_outputs, scan_reader, scan_coinbase_outputs, totals,
}
use m45_gamma_firmware.Payout.Scan.Format.{
  TxIn, TxOut, input_bytes, output_bytes, value_sum, wallet_sum, InFits, OutFits, Coinbase,
  count_bytes, coinbase_bytes, CoinbaseFits,
}

not_longer : (len n : ℕ) → n ≤ len → not (ltb len n) ≡ true
not_longer len n le = ground arith

skip_inputs-Consumes :
    (len : ℕ) (is : List TxIn)
    → len < 2 ^ 64
    → All (InFits len) is
    → Consumes (skip_inputs len (length is)) (input_bytes is) tt
unfolding skip_inputs input_bytes InFits
skip_inputs-Consumes len [] lt fits = Consumes-return tt
skip_inputs-Consumes len (i ∷ is) lt (fit, fits) =
    Consumes-then (Consumes-skip_bytes 36 i.outpoint (fit.0)) (
      Consumes-bind _ (Consumes-read_varint (length i.script) (omega (arith, fit.2))) (
        Consumes-then (Consumes-guard _ (not_longer len (length i.script) (fit.2))) (
          Consumes-then (Consumes-skip_bytes (length i.script) i.script refl) (
            Consumes-then (Consumes-skip_bytes 4 i.sequence (fit.1))
              (skip_inputs-Consumes len is lt fits)))))

same_script : (s w : List ℕ) → ((length s == length w) && list_eq s w) ≡ list_eq s w
same_script s w = elim (Bool-cases (list_eq s w)) [
  | inl same ↦
      let e : (length s == length w) ≡ true = ground (arith, ap length (list_eq→eq s w same)) in
      rw (same, e) refl
  | inr other ↦
      rw other (elim (Bool-cases (length s == length w)) [ inl e ↦ rw e refl | inr e ↦ rw e refl ])
]

wallet_step :
    (o : TxOut) (wallet : List ℕ) (w rest : ℕ)
    → w < 2 ^ 64
    → (((if (length o.script == length wallet) && list_eq o.script wallet
            then (w + o.value) % 2 ^ 64
            else w)
          + rest)
        % 2 ^ 64)
      ≡ (w + ((if list_eq o.script wallet then o.value else 0) + rest)) % 2 ^ 64
wallet_step o wallet w rest lt = rw same_script (elim (Bool-cases (list_eq o.script wallet)) [
  | inl same ↦ rw same (omega arith)
  | inr other ↦ rw other (omega arith)
])

sum_outputs-Consumes :
    (wallet : List ℕ) (len : ℕ) (os : List TxOut) (t w : ℕ)
    → len < 2 ^ 64
    → t < 2 ^ 64
    → w < 2 ^ 64
    → All (OutFits len) os
    → Consumes
        (sum_outputs wallet len (length os) t w)
        (output_bytes os)
        ((t + value_sum os) % 2 ^ 64, (w + wallet_sum wallet os) % 2 ^ 64)
unfolding sum_outputs output_bytes value_sum wallet_sum OutFits
sum_outputs-Consumes wallet len [] t w lt t_lt w_lt fits =
    let t_same : (t + 0) % 2 ^ 64 ≡ t = omega arith in
    let w_same : (w + 0) % 2 ^ 64 ≡ w = omega arith in rw (t_same, w_same) (Consumes-return (t, w))
sum_outputs-Consumes wallet len (o ∷ os) t w lt t_lt w_lt (fit, fits) =
    let t' : ℕ = (t + o.value) % 2 ^ 64 in
    let w' : ℕ =
      if (length o.script == length wallet) && list_eq o.script wallet
      then (w + o.value) % 2 ^ 64
      else w in
    let w'_lt : w' < 2 ^ 64 = ground arith in
    let t_step : (t' + value_sum os) % 2 ^ 64 ≡ (t + (o.value + value_sum os)) % 2 ^ 64 =
      omega arith in
    let later : Consumes (sum_outputs wallet len (length os) t' w') (output_bytes os) (
      (t + (o.value + value_sum os)) % 2 ^ 64,
      (w + ((if list_eq o.script wallet then o.value else 0) + wallet_sum wallet os)) % 2 ^ 64,
    ) =
      subst (λ (p : ℕ × ℕ). Consumes (sum_outputs wallet len (length os) t' w') (output_bytes os) p)
        (λ k. (t_step k, wallet_step o wallet w (wallet_sum wallet os) w_lt k))
        (sum_outputs-Consumes wallet len os t' w' lt (omega arith) w'_lt fits) in
    Consumes-bind _ (Consumes-read_u64_le o.value (fit.0)) (
      Consumes-bind _ (Consumes-read_varint (length o.script) (omega (arith, fit.1))) (
        Consumes-then (Consumes-guard _ (not_longer len (length o.script) (fit.1)))
          (Consumes-bind _ (Consumes-read_bytes (length o.script) o.script refl) later)))

one_on :
    (front : List ℕ) (b : ℕ) (rest : List ℕ)
    → record { bytes = front ++ (b ∷ rest); offset = length front + 1 }
      ≡ at (front ++ (b ∷ [])) rest
unfolding at
one_on front b rest = λ k. record {
  bytes = sym (append_assoc front (b ∷ []) rest) k;
  offset = sym (length-append front (b ∷ [])) k;
}

get_or-front : (front rest : List ℕ) → get_or (front ++ (1 ∷ rest)) (length front) 0 ≡ 1
get_or-front [] rest = refl
get_or-front (b ∷ front) rest = get_or-front front rest

marker_read :
    (front : List ℕ) (n : ℕ) (rest : List ℕ)
    → n ≤ 8
    → (λ (r : Reader).
          if 0 == 0 && leb (r.offset + 1) (length r.bytes) && (get_or r.bytes r.offset 0 == 0x01)
          then read_varint (record r { offset = r.offset + 1 })
          else some (0, r))
        (at front (1 ∷ varint n ++ rest))
      ≡ some (n, at ((front ++ (1 ∷ [])) ++ varint n) rest)
unfolding at
marker_read front n rest le =
    let more : List ℕ = 1 ∷ varint n ++ rest in
    let room : leb (length front + 1) (length (front ++ more)) ≡ true =
      ground (arith, length-append front more) in
    let one : get_or (front ++ more) (length front) 0 ≡ 1 = get_or-front front (varint n ++ rest) in
    rw (room, one)
      (ap (λ (r : Reader). read_varint r) (one_on front 1 (varint n ++ rest))
        ∙ read_varint-at n (front ++ (1 ∷ [])) rest (omega arith))

read_input_count-Consumes :
    (segwit : Bool) (n : ℕ) → 0 < n → n ≤ 8 → Consumes read_input_count (count_bytes segwit n) n
unfolding read_input_count count_bytes
read_input_count-Consumes false n pos le = record {
  runs = λ front rest.
      let some_inputs : (n == 0) ≡ false = ground arith in
      (
        front ++ varint n,
        bind_some read_varint _ (read_varint-at n front rest (omega arith)) ∙ rw some_inputs refl,
      );
}
read_input_count-Consumes true n pos le = record {
  runs = λ front rest. (
    ((front ++ (0 ∷ [])) ++ (1 ∷ [])) ++ varint n,
    bind_some read_varint _ (zero_read front (1 ∷ varint n ++ rest))
        ∙ marker_read (front ++ (0 ∷ [])) n rest le,
  );
}
  where
    zero_read :
        (front more : List ℕ)
        → read_varint (at front (0 ∷ more)) ≡ some (0, at (front ++ (0 ∷ [])) more)
    zero_read front more = unfold varint in read_varint-at 0 front more (omega arith)

scan_reader-Consumes :
    (wallet : List ℕ) (c : Coinbase)
    → CoinbaseFits c
    → (r : Reader) × (scan_reader wallet
          (length (coinbase_bytes c))
          (record { bytes = coinbase_bytes c; offset = 0 })
        ≡ some
            (((0 + value_sum c.outputs) % 2 ^ 64, (0 + wallet_sum wallet c.outputs) % 2 ^ 64), r))
unfolding scan_reader coinbase_bytes CoinbaseFits at
scan_reader-Consumes wallet c (lt, version_len, ins, ins_le, outs, outs_le, ins_fit, outs_fit) =
    let len : ℕ = length (coinbase_bytes c) in
    let ins_ok : not (length c.inputs == 0 || ltb 8 (length c.inputs)) ≡ true = ground arith in
    let outs_ok : not (length c.outputs == 0 || ltb 64 (length c.outputs)) ≡ true = ground arith in
    let all = Consumes-then (Consumes-skip_bytes 4 c.version version_len) (
      Consumes-bind _ (read_input_count-Consumes c.segwit (length c.inputs) ins ins_le) (
        Consumes-then (Consumes-guard _ ins_ok) (
          Consumes-then (skip_inputs-Consumes len c.inputs lt ins_fit) (
            Consumes-bind _ (Consumes-read_varint (length c.outputs) (omega arith)) (
              Consumes-then (Consumes-guard _ outs_ok) (
                sum_outputs-Consumes wallet len c.outputs 0 0 lt (omega arith) (omega arith)
                  outs_fit)))))) in
    let run = all.runs [] c.tail in (at (run.0) c.tail, run.1)

pub wallet_sum-le : (w : List ℕ) (os : List TxOut) → wallet_sum w os ≤ value_sum os
unfolding wallet_sum value_sum
wallet_sum-le w [] = omega arith
wallet_sum-le w (o ∷ os) = elim (Bool-cases (list_eq o.script w)) [
  | inl same ↦ rw same (omega (arith, wallet_sum-le w os))
  | inr other ↦ rw other (omega (arith, wallet_sum-le w os))
]

-- A serialised coinbase of 1 to 8 inputs and 1 to 64 outputs, with or without the segwit marker,
-- whose values are below 2^64 and add up to a non-zero sum below 2^64, is scanned to the sum of
-- all its values and the sum of those whose script is the wallet's.
pub scan_coinbase_outputs_lem :
    (wallet : List ℕ) (c : Coinbase)
    → CoinbaseFits c
    → 0 < value_sum c.outputs
    → value_sum c.outputs < 2 ^ 64
    → scan_coinbase_outputs (coinbase_bytes c) wallet
      ≡ some (value_sum c.outputs, wallet_sum wallet c.outputs)
unfolding scan_coinbase_outputs
scan_coinbase_outputs_lem wallet c fits pos lt =
    let whole : (0 + value_sum c.outputs) % 2 ^ 64 ≡ value_sum c.outputs = omega arith in
    let part : (0 + wallet_sum wallet c.outputs) % 2 ^ 64 ≡ wallet_sum wallet c.outputs =
      omega (arith, wallet_sum-le wallet c.outputs) in
    let yes : ltb 0 (value_sum c.outputs) ≡ true = ground arith in
    ap totals ((scan_reader-Consumes wallet c fits).1) ∙ rw (whole, part, yes) refl
