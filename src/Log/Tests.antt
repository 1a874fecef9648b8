-- ===== src/Log/Tests.antt =====
-- The macros of src/log.rs at small messages.
use pgnats.Common.{◌≡◌, refl, none, some}
use pgnats.Text.{text}
use pgnats.Log.{warning, log, report_warn, report_log}

warn_in_context :
    report_warn (some (text "db")) (text "late")
    ≡ record { level = warning; message = text "[PGNATS(db)]: late" }
unfolding report_warn
warn_in_context = refl

log_alone : report_log none (text "END") ≡ record { level = log; message = text "[PGNATS]: END" }
unfolding report_log
log_alone = refl
