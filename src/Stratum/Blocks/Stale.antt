-- ===== src/Stratum/Blocks/Stale.antt =====
-- Which blocks are stale in main/stratum_minimal.c.
use m45_gamma_firmware.Base.{
  ℕ, zero, suc, ◌≤◌, ◌<◌, ◌≡◌, refl, sym, ap, ◌∙◌, subst, ◌≢◌, true, false, List, [], ◌∷◌, arith,
  ◌==◌, length, set, take_of_le, list_eq, list_eq_refl,
}
use m45_gamma_firmware.Stratum.Blocks.{
  PoolBlocks, new, stale, copy_hash, recent_block_hash, remember_previous_block, note_hash,
}

recent-set :
    (hash : List ℕ) (recent : List (List ℕ)) (i : ℕ)
    → length hash ≢ 0
    → i < length recent
    → recent_block_hash hash (set recent i hash) ≡ true
unfolding recent_block_hash
recent-set hash [] i some_hash lt = absurd (omega arith)
recent-set hash (old ∷ recent) zero some_hash lt = ground (arith, list_eq_refl hash)
recent-set hash (old ∷ recent) (suc i) some_hash lt =
    ground (arith, recent-set hash recent i some_hash (omega arith))

note_hash_stale :
    (p : PoolBlocks) (hash : List ℕ)
    → list_eq hash p.current ≡ false
    → recent_block_hash hash p.recent ≡ true
    → note_hash p hash ≡ (p, stale)
unfolding note_hash
note_hash_stale p hash differ old = rw (differ, old) refl

note_hash_new :
    (p : PoolBlocks) (hash : List ℕ)
    → list_eq hash p.current ≡ false
    → recent_block_hash hash p.recent ≡ false
    → note_hash p hash ≡ (record (remember_previous_block p) { current = copy_hash hash }, new)
unfolding note_hash
note_hash_new p hash differ unknown = rw (differ, unknown) refl

remember-recent :
    (p : PoolBlocks)
    → length p.current ≢ 0
    → length p.current ≤ 79
    → (remember_previous_block p).recent ≡ set p.recent p.next p.current
unfolding remember_previous_block
remember-recent p some_block short =
    let e : (length p.current == 0) ≡ false = ground (arith, some_block) in
    rw e (ap (set p.recent p.next) (take_of_le 79 p.current short))

-- After a pool has gone from one block to another, work on the first one is stale.
pub note_hash-stale :
    (p : PoolBlocks) (hash : List ℕ)
    → length p.current ≢ 0
    → length p.current ≤ 79
    → p.next < length p.recent
    → list_eq hash p.current ≡ false
    → recent_block_hash hash p.recent ≡ false
    → list_eq p.current (copy_hash hash) ≡ false
    → note_hash (note_hash p hash).0 p.current ≡ ((note_hash p hash).0, stale)
note_hash-stale p hash some_block short room fresh unknown differ =
    let after : PoolBlocks = record (remember_previous_block p) { current = copy_hash hash } in
    let first = ap (λ r. r.0) (note_hash_new p hash fresh unknown) in
    subst (λ q. note_hash q p.current ≡ (q, stale)) (sym first)
      (note_hash_stale after p.current differ (
        ap (recent_block_hash p.current) (remember-recent p some_block short)
        ∙ recent-set p.current p.recent p.next some_block room))
