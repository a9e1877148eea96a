-- ===== src/Stratum/Notify.antt =====
-- The two readers of `mining.notify` in main/stratum_minimal.c: `parse_mining_notify_fast`, which
-- reads the line, and `parse_mining_notify`, which reads the tree that cJSON makes of it.
use m45_gamma_firmware.Base.{
  ℕ, zero, suc, ◌+◌, ◌-◌, ◌*◌, Bool, true, false, ◌&&◌, ◌||◌, Option, none, some, List, [], ◌∷◌,
  leb, ◌==◌, if◌then◌else◌, length,
}
use m45_gamma_firmware.Stratum.Text.{codes, ◌>>=◌}
use m45_gamma_firmware.Stratum.Span.{
  skip_ws, consume_char, parse_string_span, parse_bool, field_value,
}
use m45_gamma_firmware.Stratum.Hexes.{
  decode_hex_bytes, parse_hex_u32_text, decode_hex_alloc_limited,
}
pub mod Print
pub mod Agree

-- `mining_notify`; `malloc` gives no other memory than its fields use.
pub record Notify : Type 0 where
  pub job_id : List ℕ
  pub prev_block_hash : List ℕ
  pub prev_block_hash_bin : List ℕ
  pub coinbase_1_bin : List ℕ
  pub coinbase_2_bin : List ℕ
  pub merkle_branches : List (List ℕ)
  pub version : ℕ
  pub target : ℕ
  pub ntime : ℕ
  pub clean_jobs : Bool

-- Whether `malloc`, `calloc` and `strdup` succeed, for each place where a parser calls them.
pub record Heap : Type 0 where
  pub work : Bool
  pub job_id : Bool
  pub prev_block_hash : Bool
  pub coinbase_1 : Bool
  pub coinbase_2 : Bool
  pub merkle_branches : Bool

abbrev pub max_merkle_branches : ℕ
max_merkle_branches = 32

abbrev pub hash_size : ℕ
hash_size = 32

abbrev pub max_coinbase_bytes : ℕ
max_coinbase_bytes = 4096

abbrev pub max_extranonce2_len : ℕ
max_extranonce2_len = 32

-- The spans of a line.
pub record Spans : Type 0 where
  pub job_id : List ℕ
  pub prev_block_hash : List ℕ
  pub coinbase_1 : List ℕ
  pub coinbase_2 : List ℕ
  pub branches : List (List ℕ)
  pub version : List ℕ
  pub nbits : List ℕ
  pub ntime : List ℕ
  pub clean_jobs : Bool

-- A step on the cursor.
infixl 4 ◌>>>◌
abbrev pub ◌>>>◌ :
    {A : Type 0} → {B : Type 0} → Option (A × List ℕ) → (A → List ℕ → Option B) → Option B
none >>> f = none
some (a, cursor) >>> f = f a cursor

-- The `while (true)` loop, `room` being the branches that still fit.
pub branches_loop : ℕ → List ℕ → Option (List (List ℕ) × List ℕ)
unfolding parse_string_span skip_ws
branches_loop zero cursor = none
branches_loop (suc room) cursor = parse_string_span cursor >>> λ branch rest.
    elim (skip_ws rest) as (λ x. Option (List (List ℕ) × List ℕ)) [
      | [] ↦ none
      | ch ∷ after ↦
          if ch == b','
          then (branches_loop room after >>> λ branches last. some (branch ∷ branches, last))
          else if ch == b']'
          then some (branch ∷ [], after)
          else none
    ]

pub parse_branches : List ℕ → Option (List (List ℕ) × List ℕ)
unfolding branches_loop skip_ws
parse_branches cursor = elim (skip_ws cursor) [
  | [] ↦ branches_loop max_merkle_branches []
  | ch ∷ after ↦
      if ch == b']' then some ([], after) else branches_loop max_merkle_branches (ch ∷ after)
]

-- The first half of `parse_mining_notify_fast`.
pub notify_spans : List ℕ → Option Spans
unfolding field_value consume_char parse_string_span parse_branches parse_bool
notify_spans line = field_value line (codes "\"params\"") >>= λ value.
    consume_char b'[' value >>= λ c0. parse_string_span c0 >>> λ job_id c1.
    consume_char b',' c1 >>= λ c2. parse_string_span c2 >>> λ prev_block_hash c3.
    consume_char b',' c3 >>= λ c4. parse_string_span c4 >>> λ coinbase_1 c5.
    consume_char b',' c5 >>= λ c6. parse_string_span c6 >>> λ coinbase_2 c7.
    consume_char b',' c7 >>= λ c8. consume_char b'[' c8 >>= λ c9.
    parse_branches c9 >>> λ branches c10. consume_char b',' c10 >>= λ c11.
    parse_string_span c11 >>> λ version c12. consume_char b',' c12 >>= λ c13.
    parse_string_span c13 >>> λ nbits c14. consume_char b',' c14 >>= λ c15.
    parse_string_span c15 >>> λ ntime c16. consume_char b',' c16 >>= λ c17.
    parse_bool c17 >>> λ clean_jobs c18. some record {
      job_id = job_id;
      prev_block_hash = prev_block_hash;
      coinbase_1 = coinbase_1;
      coinbase_2 = coinbase_2;
      branches = branches;
      version = version;
      nbits = nbits;
      ntime = ntime;
      clean_jobs = clean_jobs;
    }

abbrev pub guard : Bool → Option (Unit {0})
guard true = some tt
guard false = none

-- The hashes of the branches.
pub decode_branches : List (List ℕ) → Option (List (List ℕ))
decode_branches [] = some []
decode_branches (branch ∷ branches) = decode_hex_bytes branch hash_size >>= λ hash.
    decode_branches branches >>= λ hashes. some (hash ∷ hashes)

-- The second half of `parse_mining_notify_fast`; the branches are checked last.
pub work_of_spans : Heap → Spans → Option Notify
unfolding decode_branches
work_of_spans heap s = guard heap.work >>= λ u0.
    guard (heap.job_id && heap.prev_block_hash) >>= λ u1.
    decode_hex_bytes s.prev_block_hash hash_size >>= λ prev.
    decode_hex_alloc_limited heap.coinbase_1 s.coinbase_1 max_coinbase_bytes >>= λ coinbase_1.
    decode_hex_alloc_limited heap.coinbase_2 s.coinbase_2 max_coinbase_bytes >>= λ coinbase_2.
    guard
      (leb (length coinbase_1 + length coinbase_2) (max_coinbase_bytes - max_extranonce2_len * 2))
    >>= λ u2. parse_hex_u32_text s.version >>= λ version. parse_hex_u32_text s.nbits >>= λ target.
        parse_hex_u32_text s.ntime >>= λ ntime.
        guard ((length s.branches == 0) || heap.merkle_branches) >>= λ u3.
        decode_branches s.branches >>= λ hashes. some record {
          job_id = s.job_id;
          prev_block_hash = s.prev_block_hash;
          prev_block_hash_bin = prev;
          coinbase_1_bin = coinbase_1;
          coinbase_2_bin = coinbase_2;
          merkle_branches = hashes;
          version = version;
          target = target;
          ntime = ntime;
          clean_jobs = s.clean_jobs;
        }

pub parse_mining_notify_fast : Heap → List ℕ → Option Notify
unfolding notify_spans work_of_spans
parse_mining_notify_fast heap line = notify_spans line >>= λ s. work_of_spans heap s

-- What cJSON makes of a value, as far as its type is asked for.
mutual
  pub data Json : Type 0 where
    text : List ℕ → Json
    array : Items → Json
    boolean : Bool → Json
    other : Json

  pub data Items : Type 0 where
    no_more : Items
    item : Json → Items → Items

abbrev pub array_size : Items → ℕ
array_size no_more = 0
array_size (item value items) = suc (array_size items)

-- `cJSON_GetArrayItem`
abbrev pub get_item : Items → ℕ → Option Json
get_item no_more i = none
get_item (item value items) zero = some value
get_item (item value items) (suc i) = get_item items i

abbrev pub text_value : Json → Option (List ℕ)
text_value (text value) = some value
text_value (array items) = none
text_value (boolean value) = none
text_value other = none

abbrev pub array_items : Json → Option Items
array_items (text value) = none
array_items (array items) = some items
array_items (boolean value) = none
array_items other = none

abbrev pub is_true : Option Json → Bool
is_true none = false
is_true (some (text value)) = false
is_true (some (array items)) = false
is_true (some (boolean value)) = value
is_true (some other) = false

abbrev pub array_string : Items → ℕ → Option (List ℕ)
array_string items i = get_item items i >>= text_value

-- The loop over the branches.
pub decode_items : Items → Option (List (List ℕ))
decode_items no_more = some []
decode_items (item value items) = text_value value >>= λ branch.
    decode_hex_bytes branch hash_size >>= λ hash.
    decode_items items >>= λ hashes. some (hash ∷ hashes)

pub parse_mining_notify : Heap → Json → Option Notify
unfolding decode_items
parse_mining_notify heap value = array_items value >>= λ params.
    guard (leb 8 (array_size params)) >>= λ u0. get_item params 4 >>= array_items >>= λ branches.
    guard (leb (array_size branches) max_merkle_branches) >>= λ u1.
    array_string params 0 >>= λ job_id. array_string params 1 >>= λ prev_block_hash.
    array_string params 2 >>= λ coinbase_1_text. array_string params 3 >>= λ coinbase_2_text.
    guard heap.work >>= λ u2. guard (heap.job_id && heap.prev_block_hash) >>= λ u3.
    decode_hex_bytes prev_block_hash hash_size >>= λ prev.
    decode_hex_alloc_limited heap.coinbase_1 coinbase_1_text max_coinbase_bytes >>= λ coinbase_1.
    decode_hex_alloc_limited heap.coinbase_2 coinbase_2_text max_coinbase_bytes >>= λ coinbase_2.
    guard
      (leb (length coinbase_1 + length coinbase_2) (max_coinbase_bytes - max_extranonce2_len * 2))
    >>= λ u4. guard ((array_size branches == 0) || heap.merkle_branches) >>= λ u5.
        decode_items branches >>= λ hashes. array_string params 5 >>= λ version_text.
        array_string params 6 >>= λ nbits_text. array_string params 7 >>= λ ntime_text.
        parse_hex_u32_text version_text >>= λ version. parse_hex_u32_text nbits_text >>= λ target.
        parse_hex_u32_text ntime_text >>= λ ntime. some record {
          job_id = job_id;
          prev_block_hash = prev_block_hash;
          prev_block_hash_bin = prev;
          coinbase_1_bin = coinbase_1;
          coinbase_2_bin = coinbase_2;
          merkle_branches = hashes;
          version = version;
          target = target;
          ntime = ntime;
          clean_jobs = is_true (get_item params (array_size params - 1));
        }
