-- ===== src/Stratum/Notify/Agree.antt =====
-- The two readers of `mining.notify` of main/stratum_minimal.c on the same message.
use m45_gamma_firmware.Base.{
  ℕ, suc, ◌+◌, ◌≡◌, refl, sym, ap, ap₂, ◌∙◌, Bool, true, false, ◌&&◌, ◌||◌, Option, none, some,
  List, [], ◌∷◌, leb, ◌==◌, if◌then◌else◌, length,
}
use m45_gamma_firmware.Stratum.Text.{◌>>=◌}
use m45_gamma_firmware.Stratum.Json.Quote.{bind_same}
use m45_gamma_firmware.Stratum.Hexes.{
  decode_hex_bytes, parse_hex_u32_text, decode_hex_alloc_limited,
}
use m45_gamma_firmware.Stratum.Notify.{
  Notify, Heap, Spans, Json, Items, text, array, boolean, no_more, item, array_size, guard,
  max_merkle_branches, max_coinbase_bytes, hash_size, decode_branches, decode_items, work_of_spans,
  parse_mining_notify_fast, parse_mining_notify,
}
use m45_gamma_firmware.Stratum.Notify.Print.{Readable, notify_line, notify_spans-notify_line}

abbrev branch_items : List (List ℕ) → Items
branch_items [] = no_more
branch_items (branch ∷ branches) = item (text branch) (branch_items branches)

-- The parameters of the message as cJSON has them.
abbrev pub params_json : Spans → Json
params_json s = array (
    item (text s.job_id) (
      item (text s.prev_block_hash) (
        item (text s.coinbase_1) (
          item (text s.coinbase_2) (
            item (array (branch_items s.branches)) (
              item (text s.version) (
                item (text s.nbits)
                  (item (text s.ntime) (item (boolean s.clean_jobs) no_more)))))))))

array_size-branch_items : (bs : List (List ℕ)) → array_size (branch_items bs) ≡ length bs
array_size-branch_items [] = refl
array_size-branch_items (b ∷ bs) = ap suc (array_size-branch_items bs)

decode_items-branch_items :
    (bs : List (List ℕ)) → decode_items (branch_items bs) ≡ decode_branches bs
unfolding decode_items decode_branches
decode_items-branch_items [] = refl
decode_items-branch_items (b ∷ bs) =
    ap (λ rest. decode_hex_bytes b hash_size >>= λ hash. rest >>= λ hashes. some (hash ∷ hashes))
      (decode_items-branch_items bs)

nothing :
    {B G H : Type 0}
    → (g : Option G) (h : Option H) → ◌≡◌ {A = Option B} none (g >>= λ u. h >>= λ x. none)
nothing none h = refl
nothing (some u) none = refl
nothing (some u) (some x) = refl

-- The checks may be made in another order, since none of them has an effect.
swap :
    {B H : Type 0}
    → (v t n : Option ℕ) (g : Option (Unit {0})) (h : Option H) (f : ℕ → ℕ → ℕ → H → Option B)
    → (v >>= λ a. t >>= λ b. n >>= λ c. g >>= λ u. h >>= λ x. f a b c x)
      ≡ (g >>= λ u. h >>= λ x. v >>= λ a. t >>= λ b. n >>= λ c. f a b c x)
swap none t n g h f = nothing g h
swap (some a) none n g h f = nothing g h
swap (some a) (some b) none g h f = nothing g h
swap (some a) (some b) (some c) g h f = refl

-- The job that all checks agree on.
abbrev job_of : Spans → List ℕ → List ℕ → List ℕ → ℕ → ℕ → ℕ → List (List ℕ) → Notify
job_of s prev coinbase_1 coinbase_2 version target ntime hashes = record {
  job_id = s.job_id;
  prev_block_hash = s.prev_block_hash;
  prev_block_hash_bin = prev;
  coinbase_1_bin = coinbase_1;
  coinbase_2_bin = coinbase_2;
  merkle_branches = hashes;
  version = version;
  target = target;
  ntime = ntime;
  clean_jobs = s.clean_jobs;
}

-- What the second reader does with the branches counted and decoded.
abbrev checked : Heap → Spans → ℕ → Option (List (List ℕ)) → Option Notify
checked heap s count hashes_of = guard heap.work >>= λ u2.
    guard (heap.job_id && heap.prev_block_hash) >>= λ u3.
    decode_hex_bytes s.prev_block_hash hash_size >>= λ prev.
    decode_hex_alloc_limited heap.coinbase_1 s.coinbase_1 max_coinbase_bytes >>= λ coinbase_1.
    decode_hex_alloc_limited heap.coinbase_2 s.coinbase_2 max_coinbase_bytes >>= λ coinbase_2.
    guard (leb (length coinbase_1 + length coinbase_2) 4032) >>= λ u4.
    guard ((count == 0) || heap.merkle_branches) >>= λ u5. hashes_of >>= λ hashes.
    parse_hex_u32_text s.version >>= λ version. parse_hex_u32_text s.nbits >>= λ target.
    parse_hex_u32_text s.ntime >>= λ ntime.
    some (job_of s prev coinbase_1 coinbase_2 version target ntime hashes)

parse_mining_notify-checked :
    (heap : Heap) (s : Spans)
    → parse_mining_notify heap (params_json s) ≡ (
        guard (leb (length s.branches) max_merkle_branches) >>= λ u.
        checked heap s (length s.branches) (decode_branches s.branches))
unfolding parse_mining_notify
parse_mining_notify-checked heap s =
    ap₂ (λ count hashes. guard (leb count max_merkle_branches) >>= λ u. checked heap s count hashes)
      (array_size-branch_items s.branches) (decode_items-branch_items s.branches)

work_of_spans-checked :
    (heap : Heap) (s : Spans)
    → work_of_spans heap s ≡ checked heap s (length s.branches) (decode_branches s.branches)
unfolding work_of_spans
work_of_spans-checked heap s = bind_same (guard heap.work) _ _ λ u2.
    bind_same (guard (heap.job_id && heap.prev_block_hash)) _ _ λ u3.
      bind_same (decode_hex_bytes s.prev_block_hash hash_size) _ _ λ prev.
        bind_same (decode_hex_alloc_limited heap.coinbase_1 s.coinbase_1 max_coinbase_bytes) _ _
          λ coinbase_1.
            bind_same (decode_hex_alloc_limited heap.coinbase_2 s.coinbase_2 max_coinbase_bytes) _ _
              λ coinbase_2.
                bind_same (guard (leb (length coinbase_1 + length coinbase_2) 4032)) _ _ λ u4.
                  swap (parse_hex_u32_text s.version) (parse_hex_u32_text s.nbits)
                    (parse_hex_u32_text s.ntime)
                    (guard ((length s.branches == 0) || heap.merkle_branches))
                    (decode_branches s.branches)
                    (λ version target ntime hashes.
                      some (job_of s prev coinbase_1 coinbase_2 version target ntime hashes))

-- Both readers of `mining.notify` give the same job, or refuse it, for each message as a pool prints
-- it whose texts need no escapes: also where a hexadecimal field is wrong or too long, where there
-- are more than 32 branches, and where memory runs out.
pub parse_mining_notify_fast_lem :
    (heap : Heap) (s : Spans)
    → Readable s
    → parse_mining_notify_fast heap (notify_line s) ≡ parse_mining_notify heap (params_json s)
unfolding parse_mining_notify_fast
parse_mining_notify_fast_lem heap s readable =
    ap (λ o. o >>= λ t. work_of_spans heap t) (notify_spans-notify_line s readable)
    ∙ (whether (leb (length s.branches) max_merkle_branches)
        ∙ sym (parse_mining_notify-checked heap s))
  where
    whether :
        (b : Bool)
        → ((if b then some s else none) >>= λ t. work_of_spans heap t)
          ≡ (guard b >>= λ u. checked heap s (length s.branches) (decode_branches s.branches))
    whether true = work_of_spans-checked heap s
    whether false = refl
