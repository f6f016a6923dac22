-- ===== src/KeyAgent/Database.antt =====
-- The local cache's database: SQLite behind libgda. The statements of the source are operations of
-- a parameter, over the outside world `W`; a failing statement returns `false` or `none` (NULL).
use skc_library.Base.{ℕ, Bool, Option, List, Str}
use skc_library.Types.{ℤ, Call}

-- A row of `SELECT id, stm_label, swk, session_id, swk_type FROM sessions`; `swk` is `none` where
-- the column holds no blob.
pub record SessionRow : Type 0 where
  pub id : ℤ
  pub label : Str
  pub swk : Option (List ℕ)
  pub session_id : Str
  pub swk_type : Str

-- A row of `SELECT id, session_id, key_type, sealed_data, url FROM keys`.
pub record KeyRow : Type 0 where
  pub cache_id : ℤ
  pub session_id : Str
  pub key_type : ℕ
  pub sealed_data : List ℕ
  pub url : Str

pub data CacheTable : Type 0 where
  keys key_attributes key_policy_attributes : CacheTable

pub record Gda (W : Type 0) : Type 0 where
  pub select_sessions : Call W (Option (List SessionRow))
  pub select_session : Str → Call W (Option (List SessionRow))
  pub insert_session : Str → List ℕ → Str → Str → Call W Bool
  pub select_keys : Call W (Option (List KeyRow))
  pub select_key : Str → Call W (Option (List KeyRow))
  pub insert_key : Str → List ℕ → Str → ℕ → Call W Bool
  pub select_key_attribute : ℤ → Str → Call W (Option (List (List ℕ)))
  pub insert_key_attribute : ℤ → Str → List ℕ → Call W Bool
  -- `DELETE FROM table WHERE id = …`, with the column that refers to the key.
  pub delete_key_rows : CacheTable → ℤ → W → W
