-- ===== src/Daemon/Input.antt =====
-- What the server reads when the process has been given two files.
use p4ls.Prelude.{
  ◌≡◌, refl, sym, ap, ◌∙◌, true, false, Option, some, List, [], ◌∷◌, Bytes, codes, equal, arith,
}
use p4ls.Json.{Json}
use p4ls.Dispatcher.{Thread}
use p4ls.Server.{Server}
use p4ls.Server.Commands.{Environment}
use p4ls.Transport.Loop.{Running, Step, Steps}
use p4ls.Daemon.{Settings, initial_settings, debug, starts, open_file, arguments, input_stream}
use Step.{posts, skips, works}
use Steps.{stays, then_step}

module _ (contents : Bytes → Option Bytes) where
  still_failed :
      (args : List Bytes) (s s' : Settings) (name : Bytes)
      → s.from_file ≡ true
      → s.ifs ≡ record { opened = some name; failed = true }
      → arguments contents args s ≡ starts s'
      → (s'.from_file ≡ true) × (s'.ifs.failed ≡ true)
  unfolding arguments open_file
  still_failed [] s s' name f i h = ground arith
  still_failed (a ∷ []) s s' name f i h = ground arith
  still_failed (a ∷ b ∷ rest) s s' name f i h =
      let debugged =
        still_failed (b ∷ rest) (record s { log_severity_limit = some debug }) s' name f i in
      let read =
        still_failed rest (record s { from_file = true; ifs = open_file contents b s.ifs }) s' name
          refl (ground (arith, i)) in
      let logged = still_failed rest (record s { log_file_stream = some b }) s' name f i in
      let on = still_failed (b ∷ rest) s s' name f i in ground (arith, debugged, read, logged, on)

  two_inputs :
      (name other : Bytes) (rest : List Bytes) (text : Bytes)
      → contents name ≡ some text
      → arguments contents (codes "-i" ∷ name ∷ codes "-i" ∷ other ∷ rest) initial_settings
        ≡ arguments contents rest (record initial_settings {
          from_file = true;
          ifs = record { opened = some name; failed = true };
        })
  unfolding arguments open_file equal
  two_inputs name other rest text c = ground (arith, c)

  second_input_failed :
      (name other : Bytes) (rest : List Bytes) (text stdin : Bytes) (s : Settings)
      → contents name ≡ some text
      → arguments contents (codes "-i" ∷ name ∷ codes "-i" ∷ other ∷ rest) initial_settings
        ≡ starts s
      → (input_stream contents stdin s).good ≡ false
  unfolding input_stream
  second_input_failed name other rest text stdin s c h =
      let second : Settings = record initial_settings {
        from_file = true;
        ifs = record { opened = some name; failed = true };
      } in
      let skipped : arguments contents rest second ≡ starts s =
        sym (two_inputs name other rest text c) ∙ h in
      let failed = still_failed rest second s name refl refl skipped in ground (arith, failed)

-- A stream that has failed gives no message, and an empty queue no work.
stopped-Step :
    (j : Json) (env : Environment j) {r s : Running}
    → r.stream.good ≡ false
    → r.queue ≡ []
    → Step j env r s
    → s ≡ r
stopped-Step j env f q (posts r content s on good e) = absurd (ground (arith, f, good))
stopped-Step j env f q (skips r s on good e) = absurd (ground (arith, f, good))
stopped-Step j env f q (works r content rest t e c) = absurd (ground (arith, q, e))

stopped-Steps :
    (j : Json) (env : Environment j) {r s : Running}
    → r.stream.good ≡ false
    → r.queue ≡ []
    → Steps j env r s
    → s ≡ r
stopped-Steps j env f q (stays _) = refl
stopped-Steps j env f q (then_step steps step) =
    let before = stopped-Steps j env f q steps in
    stopped-Step j env (ap (λ (r : Running). r.stream.good) before ∙ f)
      (ap (λ (r : Running). r.queue) before ∙ q) step
    ∙ before

module _ (contents : Bytes → Option Bytes) (j : Json) (env : Environment j) where
  -- A second `-i` loses the input: behind one that has opened its file the stream fails, whatever
  -- file it names and whatever arguments follow, and a server that starts then handles no message:
  -- its two threads never leave the state in which they begin.
  pub second_input-stays :
      (name other : Bytes) (rest : List Bytes) (text stdin : Bytes) (s : Settings)
      (worker : Thread Server) (r : Running)
      → contents name ≡ some text
      → arguments contents (codes "-i" ∷ name ∷ codes "-i" ∷ other ∷ rest) initial_settings
        ≡ starts s
      → Steps j env
          (record { stream = input_stream contents stdin s; queue = []; worker = worker })
          r
      → r ≡ record { stream = input_stream contents stdin s; queue = []; worker = worker }
  second_input-stays name other rest text stdin s worker r c h steps =
      stopped-Steps j env (second_input_failed contents name other rest text stdin s c h) refl steps
