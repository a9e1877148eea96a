-- ===== src/Stratum/Pools/Share.antt =====
-- The shares and weights of the pools in main/stratum_minimal.c.
use m45_gamma_firmware.Base.{ℕ, ◌≤◌, ◌<◌, ◌≡◌, ◌≢◌, ◌↔◌, true, false, some, arith, length}
use m45_gamma_firmware.Stratum.Pools.{
  PoolConfig, pool_id_is_aux, aux_weight, aux_pool_configured, configured_pool_weight,
  pool_session_configured, pool_weight_max,
}

-- The weight of one of the other pools.
aux_weight_lem :
    (config : PoolConfig) (pool_id : ℕ)
    → ((aux_weight config pool_id ≤ pool_weight_max)
        × (aux_pool_configured (some config) pool_id ≡ false → aux_weight config pool_id ≡ 0))
      × (aux_pool_configured (some config) pool_id ≡ true
          → ((config.multi_pool_enabled ≡ true) × (pool_id_is_aux pool_id ≡ true))
            × (aux_weight config pool_id ≢ 0))
unfolding aux_pool_configured
aux_weight_lem config pool_id = ground arith

-- The weight of a pool is at most 99, and not 0 exactly where the session of the pool is configured,
-- in each mode, if the host and the port of the first pool are set.
pub configured_pool_weight_lem :
    (config : PoolConfig) (pool_id : ℕ)
    → length config.pool_host ≢ 0
    → 0 < config.pool_port
    → (configured_pool_weight pool_id (some config) ≤ pool_weight_max)
      × ((configured_pool_weight pool_id (some config) ≢ 0)
          ↔ (pool_session_configured (some config) pool_id ≡ true))
unfolding configured_pool_weight pool_session_configured
configured_pool_weight_lem config pool_id host port = ground (arith, aux_weight_lem config pool_id)
