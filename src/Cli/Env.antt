-- ===== src/Cli/Env.antt =====
-- cmd/gyzor/main.go: the environment's defaults.
use gyzor.Prelude.{ℕ, Bool, ◌||◌, [], Option, none, some, Bytes, bytes_eq, codes, if◌then◌else◌}
use gyzor.Prelude.Int.{ℤ, pos}
use gyzor.Go.Case.{to_lower}
use gyzor.Go.Numbers.{Parsed, atoi}

-- `os.Getenv`, and the rest of the operating system that the defaults come from.
pub record Env : Type 0 where
  pub getenv : Bytes → Bytes
  -- `os.UserHomeDir`; `none` is its error
  pub user_home : Option Bytes
  -- `filepath.Join`
  pub join_path : Bytes → Bytes → Bytes
  -- `time.ParseDuration`; `none` is its error
  pub parse_duration : Bytes → Option ℤ
  -- `runtime.NumCPU`
  pub cpus : ℕ
  -- `unicode.ToLower`
  pub lower : ℕ → ℕ

unfoldable pub number_or : Parsed → ℤ → ℤ
number_or p def = elim (p.failed) [ none ↦ p.value | some e ↦ def ]

unfoldable pub duration_or : Option ℤ → ℤ → ℤ
duration_or none def = def
duration_or (some d) def = d

module _ (env : Env) where
  -- `envStr`
  unfoldable pub env_str : Bytes → Bytes → Bytes
  env_str key def = let v = env.getenv key in if bytes_eq v [] then def else v

  -- `envIntOr`
  unfoldable pub env_int_or : Bytes → ℤ → ℤ
  env_int_or key def =
      let v = env.getenv key in if bytes_eq v [] then def else number_or (atoi v) def

  -- `envInt`
  unfoldable pub env_int : Bytes → ℤ
  env_int key =
      let v = env.getenv key in if bytes_eq v [] then pos 0 else number_or (atoi v) (pos 0)

  -- `envDur`
  unfoldable pub env_dur : Bytes → ℤ → ℤ
  env_dur key def =
      let v = env.getenv key in
      if bytes_eq v [] then def else duration_or (env.parse_duration v) def

  -- `envBool`
  unfoldable pub env_bool : Bytes → Bool
  env_bool key =
      let v = to_lower env.lower (env.getenv key) in
      bytes_eq v (codes "1")
      || bytes_eq v (codes "true")
      || bytes_eq v (codes "yes")
      || bytes_eq v (codes "on")

  unfoldable pub home_or : Option Bytes → Bytes
  home_or none = codes ".pyzor"
  home_or (some h) = env.join_path h (codes ".pyzor")

  -- `defaultHome`
  unfoldable pub default_home : Bytes
  default_home =
      let h = env.getenv (codes "PYZOR_HOME") in if bytes_eq h [] then home_or env.user_home else h
