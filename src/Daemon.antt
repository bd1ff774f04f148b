-- ===== src/Daemon.antt =====
-- The arguments of the server's process: `main` of server/daemon/main.cpp up to the start of the
-- server, and which messages its log takes. The files that exist are a parameter.
pub mod Arguments
pub mod Input
pub mod Log
use p4ls.Prelude.{
  ℕ, Bool, true, false, not, Option, none, some, List, [], ◌∷◌, ◌++◌, Bytes, codes, leb, equal,
  if◌then◌else◌,
}
use p4ls.Transport.{InputStream}

-- `std::ifstream ifs`: the file that it is open on, and its failbit.
pub record Ifstream : Type 0 where
  pub opened : Option Bytes
  pub failed : Bool

-- The variables of `main`; `from_file`: `input` refers to `ifs` and no longer to `std::cin`.
pub record Settings : Type 0 where
  pub log_severity_limit : Option ℕ
  pub from_file : Bool
  pub ifs : Ifstream
  pub log_file_stream : Option Bytes

abbrev pub initial_settings : Settings
initial_settings = record {
  log_severity_limit = none;
  from_file = false;
  ifs = record { opened = none; failed = false };
  log_file_stream = none;
}

-- The syslog levels `error` and `debug`.
abbrev pub error : ℕ
error = 3

abbrev pub debug : ℕ
debug = 7

-- What the loop ends in: the version is printed and `main` returns 0, or the server starts.
pub data Start : Type 0 where
  version : Start
  starts : Settings → Start

-- The filter of `init_logging_sink`: is a message of this severity written?
unfoldable pub is_logged : Option ℕ → ℕ → Bool
is_logged (some limit) severity = leb severity limit
is_logged none severity = leb severity error

-- The content of a file that can be opened.
module _ (contents : Bytes → Option Bytes) where
  -- `ifs.open`: on a stream that is open it fails and leaves the stream as it is but for its failbit.
  unfoldable pub open_file : Bytes → Ifstream → Ifstream
  open_file name ifs =
      let opened : Ifstream = elim (contents name) [
        | none ↦ record ifs { failed = true }
        | some text ↦ record { opened = some name; failed = false }
      ] in
      elim ifs.opened [ none ↦ opened | some other ↦ record ifs { failed = true } ]

  -- The loop over the arguments.
  unfoldable pub arguments : List Bytes → Settings → Start
  unfolding open_file
  arguments [] s = starts s
  arguments (a ∷ []) s =
      if equal a (codes "-v")
      then version
      else if equal a (codes "-d")
      then starts (record s { log_severity_limit = some debug })
      else starts s
  arguments (a ∷ b ∷ rest) s =
      let debugged = arguments (b ∷ rest) (record s { log_severity_limit = some debug }) in
      let read = arguments rest (record s { from_file = true; ifs = open_file b s.ifs }) in
      let logged = arguments rest (record s { log_file_stream = some b }) in
      let on = arguments (b ∷ rest) s in
      if equal a (codes "-v")
      then version
      else if equal a (codes "-d")
      then debugged
      else if equal a (codes "-i")
      then read
      else if equal a (codes "-l")
      then logged
      else on

  -- The stream that the server is given: the file, as its stream stands, or `stdin` where there is
  -- no file. `errno` is zero when a process starts.
  unfoldable pub input_stream : Bytes → Settings → InputStream
  input_stream stdin s =
      let text : Bytes = elim s.ifs.opened [
        | none ↦ []
        | some name ↦ elim (contents name) [ none ↦ [] | some text ↦ text ]
      ] in
      if s.from_file
      then record { rest = text; good = not s.ifs.failed; eintr = false }
      else record { rest = stdin; good = true; eintr = false }
