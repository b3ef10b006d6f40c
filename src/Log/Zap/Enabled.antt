-- ===== src/Log/Zap/Enabled.antt =====
-- A logger writes a message if and only if its own level is at least the message's.
use go_clarinet.Base.{ℕ, ◌≡◌, refl, Bool, true, false, Option, none, some, Bytes, leb}
use go_clarinet.Log.{Level, trace, debug, info, warn, error, value, at_least}
use go_clarinet.Log.Zap.{
  ZapLevel, debug_level, info_level, warn_level, error_level, ZapLogger, new_zap_logger,
  log_message,
}

-- zap's order of its levels.
abbrev pub severity : ZapLevel → ℕ
severity debug_level = 0
severity info_level = 1
severity warn_level = 2
severity error_level = 3

abbrev pub is_written : Option (ZapLevel × Bytes) → Bool
is_written none = false
is_written (some line) = true

made : Level → ZapLogger
made trace = record { zap_logger = debug_level; level = trace }
made debug = record { zap_logger = debug_level; level = debug }
made info = record { zap_logger = info_level; level = info }
made warn = record { zap_logger = warn_level; level = warn }
made error = record { zap_logger = error_level; level = error }

module _ (enabled : ZapLevel → ZapLevel → Bool)
    (filters : (own of : ZapLevel) → enabled own of ≡ leb (severity own) (severity of)) where
  writes :
      (level of : Level) (msg : Bytes)
      → is_written (log_message enabled of (made level) msg) ≡ at_least level of
  unfolding log_message at_least value made
  writes trace trace msg = rw (filters debug_level debug_level) refl
  writes trace debug msg = rw (filters debug_level debug_level) refl
  writes trace info msg = rw (filters debug_level info_level) refl
  writes trace warn msg = rw (filters debug_level warn_level) refl
  writes trace error msg = rw (filters debug_level error_level) refl
  writes debug trace msg = refl
  writes debug debug msg = rw (filters debug_level debug_level) refl
  writes debug info msg = rw (filters debug_level info_level) refl
  writes debug warn msg = rw (filters debug_level warn_level) refl
  writes debug error msg = rw (filters debug_level error_level) refl
  writes info trace msg = refl
  writes info debug msg = rw (filters info_level debug_level) refl
  writes info info msg = rw (filters info_level info_level) refl
  writes info warn msg = rw (filters info_level warn_level) refl
  writes info error msg = rw (filters info_level error_level) refl
  writes warn trace msg = refl
  writes warn debug msg = rw (filters warn_level debug_level) refl
  writes warn info msg = rw (filters warn_level info_level) refl
  writes warn warn msg = rw (filters warn_level warn_level) refl
  writes warn error msg = rw (filters warn_level error_level) refl
  writes error trace msg = refl
  writes error debug msg = rw (filters error_level debug_level) refl
  writes error info msg = rw (filters error_level info_level) refl
  writes error warn msg = rw (filters error_level warn_level) refl
  writes error error msg = rw (filters error_level error_level) refl

  -- A logger is made for every level, if zap makes its own, and writes a message if and only if the
  -- level of the logger is at least that of the message. zap writes what its own level lets through.
  pub log_message-at_least :
      (level of : Level) (msg : Bytes)
      → (l : ZapLogger) × (new_zap_logger true (some level) ≡ some l)
        × (is_written (log_message enabled of l msg) ≡ at_least level of)
  unfolding new_zap_logger made
  log_message-at_least trace of msg = (made trace, refl, writes trace of msg)
  log_message-at_least debug of msg = (made debug, refl, writes debug of msg)
  log_message-at_least info of msg = (made info, refl, writes info of msg)
  log_message-at_least warn of msg = (made warn, refl, writes warn of msg)
  log_message-at_least error of msg = (made error, refl, writes error of msg)
