-- ===== src/Log/Zap.antt =====
-- starterimpl/zap/zap.go: the logger over zap. Which messages a zap logger of a level writes is zap's.
pub mod Enabled
use go_clarinet.Base.{Bool, true, false, Option, none, some, Bytes, codes, ◌∷◌, ◌++◌, if◌then◌else◌}
use go_clarinet.Log.{Level, trace, debug, info, warn, error, at_least, level_text}

-- The levels of zapcore that the source uses.
pub data ZapLevel : Type 0 where
  debug_level info_level warn_level error_level : ZapLevel

-- A nil level is not recognized.
unfoldable pub to_zap_level : Option Level → Option ZapLevel
to_zap_level none = none
to_zap_level (some trace) = some debug_level
to_zap_level (some debug) = some debug_level
to_zap_level (some info) = some info_level
to_zap_level (some warn) = some warn_level
to_zap_level (some error) = some error_level

-- `zap_logger` is zap's own logger, by its level.
pub record ZapLogger : Type 0 where
  pub zap_logger : ZapLevel
  pub level : Level

built : Bool → Level → Option ZapLevel → Option ZapLogger
built builds level none = none
built builds level (some zap_level) =
    if builds then some (record { zap_logger = zap_level; level = level }) else none

-- `builds`: whether `config.Build` returns no error.
unfoldable pub new_zap_logger : Bool → Option Level → Option ZapLogger
unfolding built to_zap_level
new_zap_logger builds none = none
new_zap_logger builds (some level) = built builds level (to_zap_level (some level))

module _ (enabled : ZapLevel → ZapLevel → Bool) where
  -- zap's `Debugf` and its like: a line at a level, or nothing.
  write_at : ZapLevel → ZapLogger → Bytes → Option (ZapLevel × Bytes)
  write_at zap_level l msg = if enabled l.zap_logger zap_level then some (zap_level, msg) else none

  -- The five methods, by the level in their name, for a message that is formatted.
  unfoldable pub log_message : Level → ZapLogger → Bytes → Option (ZapLevel × Bytes)
  unfolding write_at
  log_message trace l msg =
      if at_least l.level trace
      then write_at debug_level l (level_text trace ++ b'\t' ∷ msg)
      else none
  log_message debug l msg = write_at debug_level l msg
  log_message info l msg = write_at info_level l msg
  log_message warn l msg = write_at warn_level l msg
  log_message error l msg = write_at error_level l msg
