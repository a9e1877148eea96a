-- ===== src/Stratum/Blocks.antt =====
-- The blocks that the pools work on, `stratum_note_current_block` of main/stratum_minimal.c, and the
-- settings of the pools.
use m45_gamma_firmware.Base.{
  ℕ, ◌+◌, ◌%◌, ◌^◌, Bool, false, ◌&&◌, ◌||◌, not, List, [], ◌∷◌, ltb, ◌==◌, if◌then◌else◌, length,
  get_or, set, take, list_eq,
}
pub mod Stale

abbrev pub recent_block_hashes : ℕ
recent_block_hashes = 4

-- `g_pool_block_hashes`, `g_pool_recent_block_hashes` and `g_pool_recent_block_hash_next` of a pool.
pub record PoolBlocks : Type 0 where
  pub current : List ℕ
  pub recent : List (List ℕ)
  pub next : ℕ

pub record Blocks : Type 0 where
  pub pools : List PoolBlocks
  pub current_block_seq : ℕ

pub data BlockUpdate : Type 0 where
  same : BlockUpdate
  new : BlockUpdate
  stale : BlockUpdate

abbrev pub no_blocks : PoolBlocks
no_blocks = record { current = []; recent = [] ∷ [] ∷ [] ∷ [] ∷ []; next = 0 }

-- `strlcpy` into 80 bytes.
abbrev pub copy_hash : List ℕ → List ℕ
copy_hash hash = take 79 hash

-- `strcmp(a, b) == 0`
unfoldable pub recent_block_hash : List ℕ → List (List ℕ) → Bool
recent_block_hash hash [] = false
recent_block_hash hash (old ∷ recent) =
    (not (length old == 0) && list_eq old hash) || recent_block_hash hash recent

unfoldable pub remember_previous_block : PoolBlocks → PoolBlocks
remember_previous_block p = if length p.current == 0 then p else record p {
  recent = set p.recent p.next (copy_hash p.current);
  next = (p.next + 1) % recent_block_hashes;
}

-- What the critical section does for one pool, with `new_block` and `stale_block`.
unfoldable pub note_hash : PoolBlocks → List ℕ → PoolBlocks × BlockUpdate
unfolding recent_block_hash remember_previous_block
note_hash p hash =
    if list_eq hash p.current
    then (p, same)
    else if recent_block_hash hash p.recent
    then (p, stale)
    else (record (remember_previous_block p) { current = copy_hash hash }, new)

-- `stratum_note_current_block` without the notes for the status page; a null pointer is the empty
-- hash. The first block of a pool counts as new in `g_current_block_seq` only.
unfoldable pub note_current_block : Blocks → ℕ → List ℕ → Blocks × BlockUpdate
unfolding note_hash
note_current_block b pool_id hash =
    if length hash == 0
    then (b, same)
    else let id : ℕ = if ltb pool_id 3 then pool_id else 0 in
      let p = get_or b.pools id no_blocks in
      let (p', update) = note_hash p hash in
      elim update [
        | same ↦ (b, same)
        | stale ↦ (b, stale)
        | new ↦ (
          record b {
            pools = set b.pools id p';
            current_block_seq = (b.current_block_seq + 1) % 2 ^ 32;
          },
          if length p.current == 0 then same else new,
        )
      ]
