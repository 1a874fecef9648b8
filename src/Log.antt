-- ===== src/Log.antt =====
-- src/log.rs: what the macros report to Postgres. A message is the text that `format!` makes.
mod Tests
use pgnats.Common.{
  ℕ, ◌≡◌, refl, ap, ◌∙◌, Option, none, some, List, [], ◌∷◌, ◌++◌, append_assoc, arith,
}
use pgnats.Text.{Text, text}
use pgnats.Text.Split.{split_once, split_once_lem, Free}

pub data PgLogLevel : Type 0 where
  debug2 info log warning error : PgLogLevel

-- The level and the text that `ereport!` is given; the code is `ERRCODE_SUCCESSFUL_COMPLETION`.
pub record Report : Type 0 where
  pub level : PgLogLevel
  pub message : Text

unfoldable pub prefix : Option Text → Text
prefix none = text "[PGNATS]: "
prefix (some context) = text "[PGNATS(" ++ context ++ text ")]: "

unfoldable pub report : Option Text → PgLogLevel → Text → Report
unfolding prefix
report context level message = record { level = level; message = prefix context ++ message }

-- The macros, each with and without a context.
unfoldable pub report_info : Option Text → Text → Report
unfolding report
report_info context message = report context info message

unfoldable pub report_log : Option Text → Text → Report
unfolding report
report_log context message = report context log message

unfoldable pub report_warn : Option Text → Text → Report
unfolding report
report_warn context message = report context warning message

unfoldable pub report_error : Option Text → Text → Report
unfolding report
report_error context message = report context error message

unfoldable pub report_debug : Option Text → Text → Report
unfolding report
report_debug context message = report context debug2 message

-- A context without a closing parenthesis can be read back from what was reported, and so can the
-- message behind it.
pub split_once-report :
    (context message : Text) (level : PgLogLevel)
    → Free b')' context
    → split_once b')' (report (some context) level message).message
      ≡ some (text "[PGNATS(" ++ context, text "]: " ++ message)
unfolding report prefix
split_once-report context message level free =
    ap (λ rest. split_once b')' (text "[PGNATS(" ++ rest))
      (append_assoc context (text ")]: ") message)
    ∙ split_once_lem b')' (text "[PGNATS(" ++ context) (text "]: " ++ message) (
      omega arith,
      (
        omega arith,
        (
          omega arith,
          (omega arith, (omega arith, (omega arith, (omega arith, (omega arith, free))))),
        ),
      ),
    )
