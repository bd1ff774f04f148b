-- ===== src/Daemon/Log.antt =====
-- The log of the process and its end: `init_logging_sink`, `signal_handler` and `main` of
-- server/daemon/main.cpp. Which files can be opened for the log, the frames of a backtrace and the
-- run of the server are parameters; the columns before a message are left out.
use p4ls.Prelude.{
  ℕ, ◌≡◌, refl, Bool, true, false, ◌&&◌, ◌||◌, Option, none, some, List, [], ◌∷◌, ◌++◌, Bytes,
  codes, drop, get_elem?, ◌==◌, if◌then◌else◌, Option-cases, inl, inr, arith,
}
use mathlib.Core.Option
use p4ls.Prelude.Decimal.{to_string}
use p4ls.Daemon.{Settings, version, starts, initial_settings, debug, is_logged, arguments}
use p4ls.Daemon.Arguments.{options, has, arguments-is_logged}

-- The sink: the limit of its filter, whether its stream is a file and can be written, and the messages
-- that are written.
pub record Sink : Type 0 where
  pub severity_limit : Option ℕ
  pub to_file : Bool
  pub is_open : Bool
  pub written : List Bytes

init_logging_sink : (Bytes → Bool) → Option Bytes → Option ℕ → Sink
init_logging_sink opens none limit = record {
  severity_limit = limit;
  to_file = false;
  is_open = true;
  written = [];
}
init_logging_sink opens (some name) limit = record {
  severity_limit = limit;
  to_file = true;
  is_open = opens name;
  written = [];
}

-- `BOOST_LOG(logger)`, whose messages have the level `debug`.
unfoldable pub log : Bytes → Sink → Sink
log message sink =
    if is_logged sink.severity_limit debug && sink.is_open
    then record sink { written = sink.written ++ message ∷ [] }
    else sink

log_all : List Bytes → Sink → Sink
log_all [] sink = sink
log_all (m ∷ ms) sink = log_all ms (log m sink)

-- `close` of the file, where there is one.
unfoldable pub close : Sink → Sink
close sink = if sink.to_file then record sink { is_open = false } else sink

abbrev pub signals : List Bytes
signals =
    codes "NONE"
    ∷ codes "SIGHUP"
    ∷ codes "SIGINT"
    ∷ codes "SIGQUIT"
    ∷ codes "SIGILL"
    ∷ codes "SIGTRAP"
    ∷ codes "SIGABRT"
    ∷ codes "SIGEMT"
    ∷ codes "SIGFPE"
    ∷ codes "SIGKILL"
    ∷ codes "SIGBUS"
    ∷ codes "SIGSEGV"
    ∷ codes "SIGSYS"
    ∷ codes "SIGPIPE"
    ∷ codes "SIGALRM"
    ∷ codes "SIGTERM"
    ∷ codes "SIGURG"
    ∷ codes "SIGSTOP"
    ∷ codes "SIGTSTP"
    ∷ codes "SIGCONT"
    ∷ codes "SIGCHLD"
    ∷ codes "SIGTTIN"
    ∷ codes "SIGTTOU"
    ∷ codes "SIGIO"
    ∷ codes "SIGZCPU"
    ∷ codes "SIGXFSZ"
    ∷ codes "SIGVTALRM"
    ∷ codes "SIGPROF"
    ∷ codes "SIGWINCH"
    ∷ codes "SIGINFO"
    ∷ codes "SIGUSR1"
    ∷ codes "SIGUSR2"
    ∷ []

-- A backtrace: its size, and the names of its frames if there is memory for them.
pub record Backtrace : Type 0 where
  pub size : ℕ
  pub strings : Option (List Bytes)

-- The frames but for the handler's own, or that there are none.
log_backtrace : Backtrace → Sink → Sink
log_backtrace trace sink =
    let framed : Sink = elim trace.strings [
      | none ↦ sink
      | some frames ↦ log_all (drop 1 frames) sink
    ] in
    if trace.size == 0 then log (codes "backtrace failed") framed else framed

-- The log and the exit status; none where the table has no entry, and no result is defined.
pub signal_handler : ℕ → ℕ → Backtrace → ℕ → Sink → Option (Sink × ℕ)
signal_handler sigsegv sigbus trace signo sink =
    let ended : Option Sink =
      if sink.to_file
      then elim (get_elem? signals signo) [
        | none ↦ none
        | some name ↦ some (
            close
              (log (codes "TERMINATED " ++ name ++ codes "(" ++ to_string signo ++ codes ")") sink))
      ]
      else some sink in
    elim ended [
      | none ↦ none
      | some s ↦ some (if signo == sigsegv || signo == sigbus then log_backtrace trace s else s, 0)
    ]

-- `main` over the arguments: the exit status, and the log where a server was started.
module _ (contents : Bytes → Option Bytes) (opens : Bytes → Bool) (run : Settings → ℕ) where
  abbrev started : Settings → Sink
  started s = log (codes "STARTED") (init_logging_sink opens s.log_file_stream s.log_severity_limit)

  main : List Bytes → ℕ × Option Sink
  main args = elim (arguments contents args initial_settings) [
    | version ↦ (0, none)
    | starts s ↦ (run s, some (close (started s)))
  ]

log_closed : (ms : List Bytes) (sink : Sink) → sink.is_open ≡ false → log_all ms sink ≡ sink
unfolding log_all log
log_closed [] sink c = refl
log_closed (m ∷ ms) sink c = let rest = log_closed ms sink c in ground (arith, c, rest)

log_backtrace-closed :
    (trace : Backtrace) (sink : Sink) → sink.is_open ≡ false → log_backtrace trace sink ≡ sink
unfolding log_backtrace log
log_backtrace-closed trace sink c = elim (Option-cases trace.strings) [
  | inl e ↦ ground (arith, e, c)
  | inr (frames, e) ↦ let same = log_closed (drop 1 frames) sink c in ground (arith, e, c, same)
]

-- What the handler leaves of a log that goes to a file.
abbrev pub terminated : Bytes → ℕ → Sink → Sink
terminated name signo sink =
    close (log (codes "TERMINATED " ++ name ++ codes "(" ++ to_string signo ++ codes ")") sink)

terminated-closed :
    (name : Bytes) (signo : ℕ) (sink : Sink)
    → sink.to_file ≡ true
    → (terminated name signo sink).is_open ≡ false
unfolding close log
terminated-closed name signo sink f = ground (arith, f)

-- With a log in a file the process ends with status 0, and the last message, if it is written at all,
-- tells the signal: whatever the backtrace is, nothing of it is written, since the file is closed
-- before. Only a signal beyond the table has no defined result.
pub signal_handler-terminated :
    (sigsegv sigbus signo : ℕ) (trace : Backtrace) (sink : Sink)
    → sink.to_file ≡ true
    → signal_handler sigsegv sigbus trace signo sink
      ≡ Option.map (λ (name : Bytes). (terminated name signo sink, 0)) (get_elem? signals signo)
unfolding signal_handler
signal_handler-terminated sigsegv sigbus signo trace sink f =
    elim (Option-cases (get_elem? signals signo)) [
      | inl e ↦ ground (arith, f, e)
      | inr (name, e) ↦
          let s = terminated name signo sink in
          let closed : s.is_open ≡ false = terminated-closed name signo sink f in
          let same = log_backtrace-closed trace s closed in ground (arith, f, e, same)
    ]

module _ (contents : Bytes → Option Bytes) (opens : Bytes → Bool) (run : Settings → ℕ) where
  -- Can the log be written?
  abbrev can_write : Option Bytes → Bool
  can_write none = true
  can_write (some name) = opens name

  started-written :
      (s : Settings)
      → (close (started contents opens run s)).written ≡ (
          if is_logged s.log_severity_limit debug && can_write s.log_file_stream
          then codes "STARTED" ∷ []
          else [])
  unfolding close log init_logging_sink
  started-written s = elim (Option-cases s.log_file_stream) [
    | inl e ↦ ground (arith, e)
    | inr (name, e) ↦ ground (arith, e)
  ]

  -- Where a server starts, the process ends with its status, and the log, if it can be written, tells
  -- the start exactly when `-d` is among the options.
  main-log :
      (args : List Bytes) (s : Settings)
      → arguments contents args initial_settings ≡ starts s
      → (sink : Sink) × (main contents opens run args ≡ (run s, some sink))
        × (sink.written ≡ (
            if has (codes "-d") (options args) && can_write s.log_file_stream
            then codes "STARTED" ∷ []
            else []))
  unfolding main
  main-log args s h =
      let limit = arguments-is_logged contents args debug s h in
      let written = started-written s in
      (close (started contents opens run s), rw (h, main) refl, ground (arith, written, limit))
