-- ===== src/Stratum/Pools.antt =====
-- Which pools are used and with what weight: the helpers of main/stratum_minimal.c that read the
-- settings.
use m45_gamma_firmware.Base.{
  ℕ, ◌+◌, ◌-◌, ◌*◌, ◌/◌, ◌%◌, ◌^◌, Bool, false, ◌&&◌, ◌||◌, not, Option, none, some, List, [], ltb,
  leb, ◌==◌, if◌then◌else◌, length, get_or,
}
pub mod Share

abbrev pub pool_session_max : ℕ
pool_session_max = 3

abbrev pub aux_pool_id_base : ℕ
aux_pool_id_base = 1

abbrev pub pool_weight_min : ℕ
pool_weight_min = 1

abbrev pub pool_weight_max : ℕ
pool_weight_max = 99

-- The fields of `m45_aux_pool_t` and of `m45_config_t` that the helpers read; there are two other
-- pools.
pub record AuxPool : Type 0 where
  pub enabled : Bool
  pub host : List ℕ
  pub port : ℕ
  pub user : List ℕ
  pub share_percent : ℕ

pub record PoolConfig : Type 0 where
  pub multi_pool_enabled : Bool
  pub pool_host : List ℕ
  pub pool_port : ℕ
  pub pool_user : List ℕ
  pub pool_difficulty_auto : Bool
  pub aux_pools : List AuxPool

abbrev pub no_aux : AuxPool
no_aux = record { enabled = false; host = []; port = 0; user = []; share_percent = 0 }

abbrev pub is_set : List ℕ → Bool
is_set text = not (length text == 0)

unfoldable pub pool_id_valid : ℕ → Bool
pool_id_valid pool_id = ltb pool_id pool_session_max

unfoldable pub pool_id_is_aux : ℕ → Bool
pool_id_is_aux pool_id = leb aux_pool_id_base pool_id && ltb pool_id pool_session_max

abbrev pub aux_pool : PoolConfig → ℕ → AuxPool
aux_pool config pool_id = get_or config.aux_pools (pool_id - aux_pool_id_base) no_aux

pub aux_pool_configured : Option PoolConfig → ℕ → Bool
unfolding pool_id_is_aux
aux_pool_configured none pool_id = false
aux_pool_configured (some config) pool_id =
    let aux = aux_pool config pool_id in
    config.multi_pool_enabled
    && pool_id_is_aux pool_id
    && aux.enabled
    && is_set aux.host
    && ltb 0 aux.port
    && (is_set aux.user || is_set config.pool_user)
    && leb pool_weight_min aux.share_percent
    && leb aux.share_percent pool_weight_max

pub pool_session_configured : Option PoolConfig → ℕ → Bool
unfolding aux_pool_configured
pool_session_configured none pool_id = false
pool_session_configured (some config) pool_id =
    if pool_id == 0
    then not config.multi_pool_enabled && is_set config.pool_host && ltb 0 config.pool_port
    else aux_pool_configured (some config) pool_id

pub pool_status_configured : Option PoolConfig → ℕ → Bool
unfolding pool_session_configured pool_id_is_aux
pool_status_configured none pool_id = false
pool_status_configured (some config) pool_id =
    if pool_id == 0
    then pool_session_configured (some config) pool_id
    else let aux = aux_pool config pool_id in
      config.multi_pool_enabled && pool_id_is_aux pool_id && is_set aux.host && ltb 0 aux.port

-- The weight of a pool that is configured, with which the loop of `configured_pool_share_percent`
-- and `configured_pool_weight` count.
abbrev pub aux_weight : PoolConfig → ℕ → ℕ
aux_weight config pool_id =
    if aux_pool_configured (some config) pool_id then (aux_pool config pool_id).share_percent else 0

pub configured_pool_share_percent : Option PoolConfig → ℕ → ℕ
unfolding aux_pool_configured
configured_pool_share_percent none pool_id = if pool_id == 0 then 100 else 0
configured_pool_share_percent (some config) pool_id =
    if not config.multi_pool_enabled
    then (if pool_id == 0 then 100 else 0)
    else let total_weight = (aux_weight config 1 + aux_weight config 2) % 2 ^ 16 in
      let pool_weight =
        if pool_id == 1
        then aux_weight config 1
        else if pool_id == 2
        then aux_weight config 2
        else 0 in
      if (pool_weight == 0) || (total_weight == 0)
      then 0
      else let share = (pool_weight * 100 + total_weight / 2) / total_weight in
        if share == 0 then 1 else if ltb 100 share then 100 else share

pub configured_pool_weight : ℕ → Option PoolConfig → ℕ
unfolding aux_pool_configured pool_id_is_aux
configured_pool_weight pool_id none = if pool_id == 0 then pool_weight_max else 0
configured_pool_weight pool_id (some config) =
    if pool_id == 0
    then (if config.multi_pool_enabled then 0 else pool_weight_max)
    else if not config.multi_pool_enabled
    then 0
    else if not (pool_id_is_aux pool_id)
    then 0
    else aux_weight config pool_id

pub scale_suggested_difficulty_for_share : ℕ → ℕ → ℕ
scale_suggested_difficulty_for_share difficulty share_percent =
    if leb 100 share_percent
    then difficulty
    else let scaled = (difficulty * share_percent + 50) / 100 in
      if ltb scaled 1 then 1 else if ltb (2 ^ 16 - 1) scaled then 2 ^ 16 - 1 else scaled

-- `configured_suggested_difficulty_for_pool`, with the base difficulty.
pub suggested_difficulty_for_pool : ℕ → Option PoolConfig → ℕ → ℕ
unfolding scale_suggested_difficulty_for_share configured_pool_share_percent pool_id_valid
suggested_difficulty_for_pool base_difficulty none pool_id = base_difficulty
suggested_difficulty_for_pool base_difficulty (some config) pool_id =
    if not config.multi_pool_enabled
      || not config.pool_difficulty_auto
      || not (pool_id_valid pool_id)
    then base_difficulty
    else scale_suggested_difficulty_for_share base_difficulty
        (configured_pool_share_percent (some config) pool_id)
