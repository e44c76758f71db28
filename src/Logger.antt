-- ===== src/Logger.antt =====
-- libyaaf/utils/logger.h and logger.cpp: the log; libyaaf/utils/exception.h: exceptions that are logged
-- when they are made. The locks around a message are those of Async/Locker.
pub mod Laws
use yaaf.Common.{ℕ, Bool, false, true, if◌then◌else◌, Option, none, some, List, [], ◌∷◌, ◌++◌, Str}
use yaaf.Strings.{args_to_string}
use yaaf.Context.Add.{to_string}

pub data MessageKind : Type 0 where
  message info warn fatal : MessageKind

-- `enum class verbose`.
pub data Verbose : Type 0 where
  verbose debug quiet : Verbose

-- The two loggers of the framework, and others by their number.
pub data AbstractLogger : Type 0 where
  console_logger quiet_logger : AbstractLogger
  user_logger : ℕ → AbstractLogger

-- A line on `cout`, one on `cerr`, and a message to a logger of somebody else.
pub data Line : Type 0 where
  out err : Str → Line
  passed : ℕ → MessageKind → Str → Line

-- `_instance` with its `_logger`, `verbose`, and what was written so far, newest first.
pub record LoggerManager : Type 0 where
  pub logger_instance : Option AbstractLogger
  pub verbosity : Verbose
  pub lines : List Line

-- "[err] ", "[wrn] ", "[inf] " and "[dbg] "
tag : ℕ → ℕ → ℕ → Str
tag a b c = b'[' ∷ a ∷ b ∷ c ∷ b']' ∷ b' ' ∷ []

-- The `switch` of `console_logger::message`.
unfoldable pub console_line : Verbose → MessageKind → Str → List Line
unfolding tag
console_line v fatal msg = err (tag b'e' b'r' b'r' ++ msg) ∷ []
console_line v warn msg = out (tag b'w' b'r' b'n' ++ msg) ∷ []
console_line v info msg = out (tag b'i' b'n' b'f' ++ msg) ∷ []
console_line debug message msg = out (tag b'd' b'b' b'g' ++ msg) ∷ []
console_line verbose message msg = []
console_line quiet message msg = []

unfoldable pub console_message : Verbose → MessageKind → Str → List Line
unfolding console_line
console_message quiet kind msg = []
console_message verbose kind msg = console_line verbose kind msg
console_message debug kind msg = console_line debug kind msg

-- The virtual `message`.
unfoldable pub logger_message : AbstractLogger → Verbose → MessageKind → Str → List Line
unfolding console_message
logger_message console_logger v kind msg = console_message v kind msg
logger_message quiet_logger v kind msg = []
logger_message (user_logger n) v kind msg = passed n kind msg ∷ []

-- `logger_manager::start`, which keeps a logger that is there.
unfoldable pub start : AbstractLogger → LoggerManager → LoggerManager
start l m = elim m.logger_instance [ none ↦ record m { logger_instance = some l } | some old ↦ m ]

unfoldable pub stop : LoggerManager → LoggerManager
stop m = record m { logger_instance = none }

-- `instance`, which makes a console logger if there is none.
unfoldable pub instance_of : LoggerManager → AbstractLogger × LoggerManager
instance_of m = elim m.logger_instance [
  | none ↦ (console_logger, record m { logger_instance = some console_logger })
  | some l ↦ (l, m)
]

-- `logger`, `logger_info`, `logger_warn` and `logger_fatal`, by their kinds.
unfoldable pub variadic_message : MessageKind → List Str → LoggerManager → LoggerManager
unfolding instance_of logger_message args_to_string
variadic_message kind args m =
    let (l, m') = instance_of m in
    record m' { lines = logger_message l m'.verbosity kind (args_to_string args) ++ m'.lines }

-- `codepos`.
pub record Codepos : Type 0 where
  pub file : Str
  pub line : ℕ
  pub func : Str

-- " line: ", " function: " and the end of the line
line_text : Str
line_text = b' ' ∷ b'l' ∷ b'i' ∷ b'n' ∷ b'e' ∷ b':' ∷ b' ' ∷ []

function_text : Str
function_text = b' ' ∷ b'f' ∷ b'u' ∷ b'n' ∷ b'c' ∷ b't' ∷ b'i' ∷ b'o' ∷ b'n' ∷ b':' ∷ b' ' ∷ []

unfoldable pub codepos_to_string : Codepos → Str
unfolding line_text function_text to_string
codepos_to_string p =
    p.file ++ (line_text ++ (to_string p.line ++ (function_text ++ (p.func ++ (10 ∷ [])))))

-- " Message: "
message_text : Str
message_text = b' ' ∷ b'M' ∷ b'e' ∷ b's' ∷ b's' ∷ b'a' ∷ b'g' ∷ b'e' ∷ b':' ∷ b' ' ∷ []

-- "FATAL ERROR. The Exception will be thrown! "
fatal_text : Str
fatal_text =
    b'F' ∷ b'A' ∷ b'T' ∷ b'A' ∷ b'L' ∷ b' ' ∷ b'E' ∷ b'R' ∷ b'R' ∷ b'O' ∷ b'R' ∷ b'.' ∷ b' ' ∷ b'T'
    ∷ b'h' ∷ b'e' ∷ b' ' ∷ b'E' ∷ b'x' ∷ b'c' ∷ b'e' ∷ b'p' ∷ b't' ∷ b'i' ∷ b'o' ∷ b'n' ∷ b' '
    ∷ b'w' ∷ b'i' ∷ b'l' ∷ b'l' ∷ b' ' ∷ b'b' ∷ b'e' ∷ b' ' ∷ b't' ∷ b'h' ∷ b'r' ∷ b'o' ∷ b'w'
    ∷ b'n' ∷ b'!' ∷ b' ' ∷ []

-- What `create_and_log` writes; `trace` is what the system's backtrace adds, nothing but on Unix.
unfoldable pub logged_text : Str → Codepos → Str → Str
unfolding fatal_text codepos_to_string message_text
logged_text trace pos expanded_message =
    (fatal_text ++ (codepos_to_string pos ++ (message_text ++ expanded_message))) ++ trace

-- `exception::create_and_log`: the exception's message, and the log.
unfoldable pub create_and_log : Str → Codepos → List Str → LoggerManager → Str × LoggerManager
unfolding logged_text variadic_message args_to_string
create_and_log trace pos args m =
    let expanded_message = args_to_string args in
    (expanded_message, variadic_message fatal (logged_text trace pos expanded_message ∷ []) m)
