-- ===== src/Stratum/Dispatch/Sample.antt =====
-- A small notification and the work of its pool, for the tests.
use m45_gamma_firmware.Base.{
  ℕ, ◌+◌, ◌≡◌, refl, Bool, true, some, List, [], ◌∷◌, ◌++◌, arith, length, take, replicate,
  length-append, length-take,
}
use m45_gamma_firmware.Hex.Words.{turned}
use m45_gamma_firmware.Mining.Coinbase.Tree.{MerkleTree, leaf, node, tree_root, siblings}
use m45_gamma_firmware.Mining.Job.{BmJob}
use m45_gamma_firmware.Stratum.Notify.{Notify}
use m45_gamma_firmware.Stratum.Work.Task.{PoolWork, no_work}
use m45_gamma_firmware.Stratum.Dispatch.Submitted.{IsFor}

-- Stand-ins for the hash functions and the heap.
abbrev pub thirty_two : List ℕ → List ℕ
thirty_two text = take 32 (text ++ replicate 32 0)

pub length-thirty_two : (text : List ℕ) → length (thirty_two text) ≡ 32
length-thirty_two text =
    omega (arith, length-take 32 (text ++ replicate 32 0), length-append text (replicate 32 0))

abbrev pub always : ℕ → Bool
always n = true

abbrev pub small_notify : Notify
small_notify = record {
  job_id = 1 ∷ [];
  prev_block_hash = [];
  prev_block_hash_bin =
      3 ∷ 2 ∷ 1 ∷ 0 ∷ 13 ∷ 12 ∷ 11 ∷ 10 ∷ 23 ∷ 22 ∷ 21 ∷ 20 ∷ 33 ∷ 32 ∷ 31 ∷ 30 ∷ 43 ∷ 42 ∷ 41 ∷ 40
      ∷ 53 ∷ 52 ∷ 51 ∷ 50 ∷ 63 ∷ 62 ∷ 61 ∷ 60 ∷ 73 ∷ 72 ∷ 71 ∷ 70 ∷ [];
  coinbase_1_bin = 1 ∷ 2 ∷ [];
  coinbase_2_bin = 3 ∷ [];
  merkle_branches = replicate 32 9 ∷ [];
  version = 0x20000000;
  target = 0x1703a30c;
  ntime = 0x65000000;
  clean_jobs = true;
}

abbrev pub small_work : PoolWork
small_work = record no_work {
  work = some 1;
  extranonce_bin = some (0xaa ∷ []);
  extranonce_len = 1;
  extranonce_2_len = 4;
  version_mask = 0x1fffe000;
  extranonce_2 = 6;
}

abbrev pub empty_job : BmJob
empty_job = record {
  version = 0;
  prev_block_hash = [];
  merkle_root = [];
  ntime = 0;
  target = 0;
  starting_nonce = 0;
  header_prefix = [];
  ntime_hex = [];
  num_midstates = 0;
  midstate = [];
  midstate1 = [];
  midstate2 = [];
  midstate3 = [];
}

-- The block that the notification is for: a coinbase and one transaction, behind a block whose
-- hash has eight different words.
abbrev pub small_tree : MerkleTree
small_tree = node (leaf []) (leaf (replicate 32 9))

abbrev word_of : ℕ → List ℕ
word_of k = k ∷ (k + 1) ∷ (k + 2) ∷ (k + 3) ∷ []

abbrev pub small_words : List (List ℕ)
small_words =
    word_of 0
    ∷ word_of 10
    ∷ word_of 20
    ∷ word_of 30
    ∷ word_of 40
    ∷ word_of 50
    ∷ word_of 60
    ∷ word_of 70
    ∷ []

pub small_notify-IsFor : IsFor thirty_two small_tree small_words small_notify
unfolding siblings tree_root turned
small_notify-IsFor = record {
  branches = refl;
  words = record {
    eight = refl;
    four = (refl, (refl, (refl, (refl, (refl, (refl, (refl, (refl, tt))))))));
  };
  prev_hash = refl;
}
