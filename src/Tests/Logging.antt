-- ===== src/Tests/Logging.antt =====
-- Levels and their names, and a logger.
use go_clarinet.Base.{◌≡◌, refl, Bool, true, false, [], some, codes, leb, ◌∷◌}
use go_clarinet.Log.{debug, info, warn, to_lower, parse_level}
use go_clarinet.Log.Zap.{ZapLevel, info_level, log_message}
use go_clarinet.Log.Zap.Enabled.{severity, is_written}

parse_mixed : parse_level (codes "wArN") ≡ some warn
unfolding parse_level to_lower
parse_mixed = refl

-- With the dotted capital I, U+0130, for its first letter.
parse_dotted : parse_level (196 ∷ 176 ∷ codes "NFO") ≡ some info
unfolding parse_level to_lower
parse_dotted = refl

abbrev by_severity : ZapLevel → ZapLevel → Bool
by_severity own of = leb (severity own) (severity of)

-- A logger of the level INFO writes a warning and no debug message.
writes_warning :
    is_written (log_message by_severity warn (record { zap_logger = info_level; level = info }) [])
    ≡ true
unfolding log_message
writes_warning = refl

skips_debug :
    is_written (log_message by_severity debug (record { zap_logger = info_level; level = info }) [])
    ≡ false
unfolding log_message
skips_debug = refl
