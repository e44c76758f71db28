-- ===== src/Tests/Logger.antt =====
-- An exception that is made before there is a logger.
use yaaf.Common.{◌≡◌, none, some, [], ◌∷◌, ◌++◌}
use yaaf.Strings.Tokens.{joined}
use yaaf.Logger.{LoggerManager, debug, console_logger, Codepos, create_and_log}
use yaaf.Logger.Laws.{report, reported, create_and_log_lem}
use yaaf.Tests.Data.{child_name}

abbrev nobody : LoggerManager
nobody = record { logger_instance = none; verbosity = debug; lines = [] }

abbrev somewhere : Codepos
somewhere = record { file = child_name; line = 12; func = child_name }

create_and_log_lem_example :
    ((create_and_log [] somewhere (child_name ∷ child_name ∷ []) nobody).0
      ≡ joined (child_name ∷ child_name ∷ []))
    × ((create_and_log [] somewhere (child_name ∷ child_name ∷ []) nobody).1.logger_instance
        ≡ some console_logger)
    × ((create_and_log [] somewhere (child_name ∷ child_name ∷ []) nobody).1.lines
        ≡ reported console_logger debug
            (report [] somewhere (joined (child_name ∷ child_name ∷ [])))
          ++ [])
    × ((create_and_log [] somewhere (child_name ∷ child_name ∷ []) nobody).1.verbosity ≡ debug)
create_and_log_lem_example = create_and_log_lem [] somewhere (child_name ∷ child_name ∷ []) nobody
