-- ===== src/Settings/Startup.antt =====
-- When the server has a configuration.
use polyglot_commerce.Prelude.{
  ◌≡◌, refl, String, ◌⧺◌, Bool, true, false, Option, none, some, if◌then◌else◌,
}
use polyglot_commerce.Errors.{internal}
use polyglot_commerce.Store.{Result, ok, err}
use polyglot_commerce.Settings.{
  Variables, Parsers, Config, db_config_from_env, jwt_config_from_env, config_from_env,
}

abbrev is_set : Option String → Bool
is_set none = false
is_set (some s) = true

-- What is missing of the two variables that have no default, the database first.
abbrev pub missing : Variables → Option String
missing env =
    if is_set (env "DATABASE_URL")
    then (if is_set (env "JWT_ACCESS_SECRET") then none else some "JWT_ACCESS_SECRET")
    else some "DATABASE_URL"

abbrev pub Starts : Variables → Option String → Result Config → Type 0
Starts env none r =
    (c : Config) × (r ≡ ok c)
    × (env "DATABASE_URL" ≡ some c.db.url)
    × (env "JWT_ACCESS_SECRET" ≡ some c.jwt.access_secret)
Starts env (some key) r = r ≡ err (internal ("missing required env var: " ⧺ key))

-- The server has a configuration exactly where the database's URL and the access secret are set,
-- and takes both as they are; else the error names the first that is missing. This is so whatever the
-- other variables hold: one that cannot be parsed, such as PORT=abc, is no error.
pub config_from_env_lem :
    (ps : Parsers) (env : Variables) → Starts env (missing env) (config_from_env ps env)
unfolding config_from_env db_config_from_env jwt_config_from_env
config_from_env_lem ps env = branch (env "DATABASE_URL") refl (env "JWT_ACCESS_SECRET") refl
  where
    branch :
        (url : Option String)
        → env "DATABASE_URL" ≡ url
        → (secret : Option String) → env "JWT_ACCESS_SECRET" ≡ secret
        → Starts env (missing env) (config_from_env ps env)
    branch none e secret k = rw e refl
    branch (some url) e none k = rw (e, k) refl
    branch (some url) e (some secret) k = rw (e, k) (_, refl, e, k)
