-- ===== src/Session/Config/Laws.antt =====
-- shared.ts: the numbers that are read from the environment stay in range.
use enterprise_crm.Common.{◌≤◌, ◌≡◌, true, arith}
use enterprise_crm.Http.{
  JsNumber, finite, pos, negsuc, ℤ, math_clamp, is_integer, is_positive, Server,
}
use enterprise_crm.Session.Config.{timeout_of, get_backend_timeout_ms, get_refresh_token_max_age}

math_clamp_bounds : (z : ℤ) → (1000 ≤ math_clamp 1000 60000 z) × (math_clamp 1000 60000 z ≤ 60000)
unfolding math_clamp
math_clamp_bounds (pos n) = omega arith
math_clamp_bounds (negsuc n) = omega arith

timeout_of_bounds : (x : JsNumber) → (1000 ≤ timeout_of x) × (timeout_of x ≤ 60000)
unfolding timeout_of
timeout_of_bounds (finite negative n d) = math_clamp_bounds _
timeout_of_bounds _ = omega arith

-- Whatever number the environment holds, none at all included, the abort timer of a call of the
-- back end is set to between one second and one minute.
pub get_backend_timeout_ms_bounds :
    (server : Server)
    → (1000 ≤ get_backend_timeout_ms server) × (get_backend_timeout_ms server ≤ 60000)
unfolding get_backend_timeout_ms
get_backend_timeout_ms_bounds server = timeout_of_bounds server.backend_api_timeout_ms

-- Whatever number the environment holds, the refresh cookie's age is a positive integer.
pub get_refresh_token_max_age_positive :
    (server : Server)
    → (is_integer (get_refresh_token_max_age server) ≡ true)
      × (is_positive (get_refresh_token_max_age server) ≡ true)
unfolding get_refresh_token_max_age
get_refresh_token_max_age_positive server = ground arith
