-- ===== src/Logger/Laws.antt =====
-- libyaaf/utils/logger.cpp and libyaaf/utils/exception.h: what is written.
use yaaf.Common.{
  ℕ, ◌≡◌, ◌∙◌, refl, sym, ap, Option, none, some, List, [], ◌∷◌, ◌++◌, Str, arith, Option-cases,
  inl, inr, append-nil, append_assoc,
}
use yaaf.Context.Add.{to_string}
use yaaf.Strings.{args_to_string, append_each, args_as_string}
use yaaf.Strings.Tokens.{joined}
use yaaf.Logger.{
  fatal, Verbose, verbose, debug, quiet, Line, err, passed, LoggerManager, AbstractLogger,
  console_logger, quiet_logger, user_logger, instance_of, variadic_message, logger_message,
  console_message, console_line, Codepos, codepos_to_string, logged_text, create_and_log,
}

-- The logger that is there, or else the console's.
abbrev pub or_console : Option AbstractLogger → AbstractLogger
or_console none = console_logger
or_console (some l) = l

-- "FATAL ERROR. The Exception will be thrown! FILE line: LINE function: FUNCTION", the end of the line,
-- " Message: WHAT", and the backtrace.
abbrev pub report : Str → Codepos → Str → Str
report trace pos what = joined (
    (b'F' ∷ b'A' ∷ b'T' ∷ b'A' ∷ b'L' ∷ b' ' ∷ b'E' ∷ b'R' ∷ b'R' ∷ b'O' ∷ b'R' ∷ b'.' ∷ b' ' ∷ b'T'
      ∷ b'h' ∷ b'e' ∷ b' ' ∷ b'E' ∷ b'x' ∷ b'c' ∷ b'e' ∷ b'p' ∷ b't' ∷ b'i' ∷ b'o' ∷ b'n' ∷ b' '
      ∷ b'w' ∷ b'i' ∷ b'l' ∷ b'l' ∷ b' ' ∷ b'b' ∷ b'e' ∷ b' ' ∷ b't' ∷ b'h' ∷ b'r' ∷ b'o' ∷ b'w'
      ∷ b'n' ∷ b'!' ∷ b' ' ∷ [])
    ∷ pos.file
    ∷ (b' ' ∷ b'l' ∷ b'i' ∷ b'n' ∷ b'e' ∷ b':' ∷ b' ' ∷ [])
    ∷ to_string pos.line
    ∷ (b' ' ∷ b'f' ∷ b'u' ∷ b'n' ∷ b'c' ∷ b't' ∷ b'i' ∷ b'o' ∷ b'n' ∷ b':' ∷ b' ' ∷ [])
    ∷ pos.func
    ∷ (10 ∷ [])
    ∷ (b' ' ∷ b'M' ∷ b'e' ∷ b's' ∷ b's' ∷ b'a' ∷ b'g' ∷ b'e' ∷ b':' ∷ b' ' ∷ [])
    ∷ what
    ∷ trace
    ∷ [])

-- What a logger does with a fatal message: the console's writes one line to `cerr`, behind "[err] ", unless
-- the verbosity is quiet; the quiet one nothing; another one gets the message.
abbrev pub reported : AbstractLogger → Verbose → Str → List Line
reported console_logger verbose text =
    err ((b'[' ∷ b'e' ∷ b'r' ∷ b'r' ∷ b']' ∷ b' ' ∷ []) ++ text) ∷ []
reported console_logger debug text =
    err ((b'[' ∷ b'e' ∷ b'r' ∷ b'r' ∷ b']' ∷ b' ' ∷ []) ++ text) ∷ []
reported console_logger quiet text = []
reported quiet_logger v text = []
reported (user_logger n) v text = passed n fatal text ∷ []

append_each-joined :
    (result : Str) (args : List Str) → append_each result args ≡ result ++ joined args
unfolding append_each
append_each-joined result [] = sym (append-nil result)
append_each-joined result (v ∷ args) =
    append_each-joined (result ++ v) args ∙ append_assoc result v (joined args)

args_as_string-same : (args : List Str) (n : ℕ) → (args_as_string n args).0 ≡ args
unfolding args_as_string
args_as_string-same [] n = refl
args_as_string-same (s ∷ args) n = ap (◌∷◌ s) (args_as_string-same args _)

args_to_string-joined : (args : List Str) → args_to_string args ≡ joined args
unfolding args_to_string
args_to_string-joined args =
    append_each-joined [] (args_as_string 0 args).0 ∙ ap joined (args_as_string-same args 0)

logger_message-reported :
    (l : AbstractLogger) (v : Verbose) (text : Str)
    → logger_message l v fatal text ≡ reported l v text
unfolding logger_message console_message console_line
logger_message-reported console_logger verbose text = refl
logger_message-reported console_logger debug text = refl
logger_message-reported console_logger quiet text = refl
logger_message-reported quiet_logger v text = refl
logger_message-reported (user_logger n) v text = refl

logged_text-report :
    (trace : Str) (pos : Codepos) (what : Str) → logged_text trace pos what ≡ report trace pos what
unfolding logged_text codepos_to_string
logged_text-report trace pos what = simp (append_assoc, append-nil)

-- The exception that `create_and_log` makes carries the arguments' texts one behind another. One fatal
-- message with the position, this text and the backtrace goes to the logger, which is the console's if
-- there was none, and is there afterwards. The console's writes it to `cerr` unless the verbosity is quiet,
-- the quiet one drops it, another one gets it; lines of before and the verbosity stay.
pub create_and_log_lem :
    (trace : Str) (pos : Codepos) (args : List Str) (m : LoggerManager)
    → let (what, t) = create_and_log trace pos args m in
      let l = or_console m.logger_instance in
      (what ≡ joined args)
      × (t.logger_instance ≡ some l)
      × (t.lines ≡ reported l m.verbosity (report trace pos (joined args)) ++ m.lines)
      × (t.verbosity ≡ m.verbosity)
unfolding create_and_log variadic_message instance_of
create_and_log_lem trace pos args m =
    let text = logged_text trace pos (args_to_string args) in
    let one = args_to_string-joined (text ∷ []) ∙ append-nil text in
    let is : text ≡ report trace pos (joined args) =
      logged_text-report trace pos (args_to_string args)
      ∙ ap (report trace pos) (args_to_string-joined args) in
    elim (Option-cases m.logger_instance) [
      | inl missing ↦ (
        args_to_string-joined args,
        ground arith,
        ground (arith, missing, one, is, logger_message-reported console_logger m.verbosity text),
        ground arith,
      )
      | inr (l, there) ↦ (
        args_to_string-joined args,
        ground arith,
        ground (arith, there, one, is, logger_message-reported l m.verbosity text),
        ground arith,
      )
    ]
