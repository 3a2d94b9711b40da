-- ===== src/Config.antt =====
-- appconfig.rs: how a value of the environment is read. The parser of a decimal integer of the type,
-- on the trimmed text, is the standard library's.
use warp_socks.Prelude.{ℕ, Option, none, some, ◌==◌, if◌then◌else◌}

pub sanitize_positive_int : Option ℕ → ℕ → ℕ
sanitize_positive_int none fallback = fallback
sanitize_positive_int (some v) fallback = if v == 0 then fallback else v

pub sanitize_nonnegative_int : Option ℕ → ℕ → ℕ
sanitize_nonnegative_int none fallback = fallback
sanitize_nonnegative_int (some v) fallback = v

pub sanitize_port : Option ℕ → ℕ → ℕ
sanitize_port none fallback = fallback
sanitize_port (some port) fallback = if port == 0 then fallback else port
