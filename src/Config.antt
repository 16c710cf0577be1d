-- ===== src/Config.antt =====
-- app/core/config.py: the settings that the environment gives, and the check that refuses an open CORS
-- policy in production.
pub mod Origins
use Prim.Native.Char.{Char, code}
use text.Mathlib.TextBridge.{to_list, of_list}
use farm_link.Common.{
  ℕ, Bool, true, false, not, String, str_eq, Option, List, [], ◌∷◌, ◌++◌, map, select, split_on,
  ◌==◌, leb, ◌&&◌, ◌||◌, if◌then◌else◌,
}
use farm_link.Session.{Result, ok, err, value_error}

pub record Settings : Type 0 where
  pub app_name : String
  pub environment : String
  pub api_v1_prefix : String
  pub database_url : String
  pub redis_url : String
  pub jwt_secret : String
  pub jwt_algorithm : String
  pub jwt_expire_minutes : ℕ
  pub rate_limit_requests : ℕ
  pub rate_limit_window_seconds : ℕ
  pub auth_rate_limit_requests : ℕ
  pub auth_rate_limit_window_seconds : ℕ
  pub pool_cache_ttl_seconds : ℕ
  pub sweep_order_max_age_hours : ℕ
  pub sweep_interval_minutes : ℕ
  pub disable_scheduler : Bool
  pub cors_allowed_origins : String
  pub paystack_secret_key : String
  pub paystack_public_key : String
  pub paystack_webhook_ip_allowlist : Bool
  pub admin_bootstrap_email : Option String
  pub admin_bootstrap_password : Option String
  pub firestore_project_id : Option String
  pub firestore_credentials_path : Option String

-- The characters that `str.strip` takes off: those of `str.isspace`.
unfoldable pub is_space : Char → Bool
is_space c =
    let n = code c in
    (leb 9 n && leb n 13)
    || (leb 28 n && leb n 32)
    || n == 0x85
    || n == 0xa0
    || n == 0x1680
    || (leb 0x2000 n && leb n 0x200a)
    || n == 0x2028
    || n == 0x2029
    || n == 0x202f
    || n == 0x205f
    || n == 0x3000

abbrev pub is_comma : Char → Bool
is_comma c = code c == 44

-- `text.lstrip()` and `text.rstrip()`
unfoldable pub strip_left : List Char → List Char
strip_left [] = []
strip_left (c ∷ text) = if is_space c then strip_left text else c ∷ text

abbrev pub keep_or_drop : Char → List Char → List Char
keep_or_drop c [] = if is_space c then [] else c ∷ []
keep_or_drop c (d ∷ text) = c ∷ d ∷ text

unfoldable pub strip_right : List Char → List Char
strip_right [] = []
strip_right (c ∷ text) = keep_or_drop c (strip_right text)

unfoldable pub strip : List Char → List Char
unfolding strip_left strip_right
strip text = strip_right (strip_left text)

abbrev pub not_empty : List Char → Bool
not_empty [] = false
not_empty (c ∷ text) = true

-- `[o.strip() for o in text.split(",") if o.strip()]`
unfoldable pub origins_of : List Char → List (List Char)
unfolding strip
origins_of text = select not_empty (map strip (split_on is_comma text))

-- `Settings.cors_origins_list`
unfoldable pub cors_origins_list : Settings → List String
unfolding origins_of
cors_origins_list settings = map of_list (origins_of (to_list settings.cors_allowed_origins))

-- `Settings.is_production`
unfoldable pub is_production : Settings → Bool
is_production settings = str_eq settings.environment "production"

-- `"*" in origins`
unfoldable pub has_wildcard : List String → Bool
has_wildcard [] = false
has_wildcard (origin ∷ origins) = str_eq origin "*" || has_wildcard origins

abbrev pub is_empty : List String → Bool
is_empty [] = true
is_empty (origin ∷ origins) = false

-- `_forbid_wildcard_cors_in_production`
unfoldable pub forbid_wildcard_cors_in_production : Settings → Result Settings
unfolding is_production has_wildcard cors_origins_list
forbid_wildcard_cors_in_production settings =
    if is_production settings
    then (let origins = cors_origins_list settings in
        if is_empty origins || has_wildcard origins then err value_error else ok settings)
    else ok settings
