-- ===== src/Tests/Settings.antt =====
-- An environment with a database and without the access secret.
use polyglot_commerce.Prelude.{str_eq, none, some, if◌then◌else◌}
use polyglot_commerce.Settings.{Variables, Parsers, config_from_env}
use polyglot_commerce.Settings.Startup.{missing, Starts, config_from_env_lem}

abbrev pub ps : Parsers
ps = record {
  parse_u16 = λ s. none;
  parse_u32 = λ s. none;
  parse_u64 = λ s. none;
  parse_i64 = λ s. none;
  to_lowercase = λ s. s;
}

abbrev only_database : Variables
only_database key = if str_eq key "DATABASE_URL" then some "postgres://db" else none

config_from_env_lem_example :
    Starts only_database (missing only_database) (config_from_env ps only_database)
config_from_env_lem_example = config_from_env_lem ps only_database
