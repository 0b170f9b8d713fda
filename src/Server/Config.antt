-- ===== src/Server/Config.antt =====
-- The configuration of a server, src/server/config.rs and src/server/mod.rs, and the modes of
-- src/server/recv_mode.rs. A duration is a number of milliseconds.
use minihttp.Base.{ℕ, Bool, true, false, Option, leb, ltb}

pub record Config : Type 0 where
  pub inflight_request_limit : ℕ
  pub inflight_request_prealloc : ℕ
  pub first_byte_timeout : ℕ
  pub keep_alive_timeout : ℕ
  pub headers_timeout : ℕ
  pub input_body_byte_timeout : ℕ
  pub input_body_whole_timeout : ℕ
  pub output_body_byte_timeout : ℕ
  pub output_body_whole_timeout : ℕ

-- `Config::new`
abbrev pub new_config : Config
new_config = record {
  inflight_request_limit = 2;
  inflight_request_prealloc = 0;
  first_byte_timeout = 5000;
  keep_alive_timeout = 90000;
  headers_timeout = 10000;
  input_body_byte_timeout = 15000;
  input_body_whole_timeout = 3600000;
  output_body_byte_timeout = 15000;
  output_body_whole_timeout = 3600000;
}

pub data Mode : Type 0 where
  buffered_upfront progressive : ℕ → Mode
  hijack : Mode

pub record RecvMode : Type 0 where
  pub mode : Mode
  pub timeout : Option ℕ

abbrev pub is_hijack : Mode → Bool
is_hijack hijack = true
is_hijack _ = false

abbrev pub is_progressive : Mode → Bool
is_progressive (progressive x) = true
is_progressive _ = false

-- `matches!(mode, Progressive(x) if x <= bytes)` and `matches!(mode, Progressive(x) if x > bytes)`
abbrev pub wants_at_most : Mode → ℕ → Bool
wants_at_most (progressive x) bytes = leb x bytes
wants_at_most _ bytes = false

abbrev pub wants_more_than : Mode → ℕ → Bool
wants_more_than (progressive x) bytes = ltb bytes x
wants_more_than _ bytes = false
