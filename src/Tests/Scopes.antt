-- ===== src/Tests/Scopes.antt =====
-- Contexts that are made current one in the other, and the end of a process by a signal.
use p4ls.Prelude.{ℕ, All, ◌==◌, if◌then◌else◌, ◌≡◌, refl, true, none, some, [], ◌∷◌, codes}
use p4ls.Prelude.Int.{pos}
use p4ls.Context
use p4ls.Context.{Anything, int_value, stream_value, request_id, request_output_stream}
use p4ls.Context.Types.{Kind, int_kind, stream_kind, kind_of, Compiles, CastsWell, run-CastsWell}
use p4ls.Context.Scopes.{Block, run, run-lexical}
use p4ls.Daemon.{debug}
use p4ls.Daemon.Log.{Sink, Backtrace, terminated, signal_handler, signal_handler-terminated}
use Block.{finish, read, with_value, with_anonymous}

-- The inner block hides the outer value of the key while it lasts.
abbrev program : Block
program =
    with_value 1 (int_value (pos 7))
      (read 1 (with_value 1 (int_value (pos 8)) (read 1 finish) (read 1 finish)))
      (with_anonymous (stream_value 0) (read 2 finish) finish)

run-lexical_example : run (λ v. 2) program [] ≡ (
  (1, some (int_value (pos 7)))
      ∷ (1, some (int_value (pos 8)))
      ∷ (1, some (int_value (pos 7)))
      ∷ (2, some (stream_value 0))
      ∷ [],
  [],
)
unfolding Context.get_value
run-lexical_example = run-lexical (λ v. 2) program [] (λ key. none) (λ key. refl)

abbrev kind : ℕ → Kind
kind key = if key == 2 then stream_kind else int_kind

abbrev key_of_type : Anything → ℕ
key_of_type (int_value n) = 3
key_of_type (stream_value s) = 2

key_of_type-kind : (value : Anything) → kind (key_of_type value) ≡ kind_of value
unfolding kind_of
key_of_type-kind (int_value n) = refl
key_of_type-kind (stream_value s) = refl

compiles : Compiles kind program
unfolding kind_of
compiles = (refl, (refl, tt, tt), (tt, tt))

run-CastsWell_example : All (CastsWell kind) (run key_of_type program []).0
run-CastsWell_example = run-CastsWell kind key_of_type program [] key_of_type-kind compiles tt

abbrev log_file : Sink
log_file = record { severity_limit = some debug; to_file = true; is_open = true; written = [] }

abbrev frames : Backtrace
frames = record { size = 2; strings = some (codes "handler" ∷ codes "main" ∷ []) }

signal_handler-terminated_example :
    signal_handler 11 7 frames 11 log_file ≡ some (terminated (codes "SIGSEGV") 11 log_file, 0)
signal_handler-terminated_example = signal_handler-terminated 11 7 11 frames log_file refl
