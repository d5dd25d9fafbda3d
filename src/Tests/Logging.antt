-- ===== src/Tests/Logging.antt =====
-- A statement of the logger.
use tv_cast.Prelude.{◌≡◌, [], ◌∷◌, codes, ok}
use tv_cast.Logger.{LogLevel, get_label}
use tv_cast.Logger.Statement.{statement, statement-cases}

statement-cases_example :
    statement LogLevel.info LogLevel.warning (codes "a" ∷ codes "b" ∷ []) (codes "x")
    ≡ ok (codes "x[WARN] ab\n")
unfolding get_label
statement-cases_example =
    statement-cases LogLevel.info LogLevel.warning (codes "a" ∷ codes "b" ∷ []) (codes "x")
