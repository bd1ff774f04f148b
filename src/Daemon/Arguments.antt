-- ===== src/Daemon/Arguments.antt =====
-- What the arguments of the process come to: the version, and the level of the log.
use p4ls.Prelude.{
  ℕ, ◌≡◌, refl, sym, ap, subst, ◌∙◌, ◌↔◌, Bool, true, false, ◌||◌, Option, some, List, [], ◌∷◌,
  Bytes, codes, equal, equal_iff, leb, if◌then◌else◌, Bool-cases, inl, inr, arith,
}
use p4ls.Daemon.{
  Settings, initial_settings, error, debug, version, starts, is_logged, open_file, arguments,
}

-- The arguments that are read as options: not the ones behind `-i` and `-l`.
unfoldable pub options : List Bytes → List Bytes
options [] = []
options (a ∷ []) = a ∷ []
options (a ∷ b ∷ rest) =
    let behind = options rest in
    let next = options (b ∷ rest) in
    if equal a (codes "-i") || equal a (codes "-l") then a ∷ behind else a ∷ next

unfoldable pub has : Bytes → List Bytes → Bool
has name [] = false
has name (a ∷ rest) = equal a name || has name rest

-- No two options are the same text.
debug_only :
    (a : Bytes)
    → equal a (codes "-d") ≡ true
    → (equal a (codes "-i") || equal a (codes "-l")) ≡ false
unfolding equal
debug_only a h =
    subst (λ a. (equal a (codes "-i") || equal a (codes "-l")) ≡ false)
      (sym ((equal_iff a (codes "-d")).0 h)) refl

debug_has :
    (a b : Bytes) (rest : List Bytes)
    → equal a (codes "-d") ≡ true
    → has (codes "-d") (options (a ∷ b ∷ rest)) ≡ true
unfolding options has
debug_has a b rest d = ground (arith, d, debug_only a d)

both : (b : Bool) → (if b then some debug else some debug) ≡ some debug
both true = refl
both false = refl

module _ (contents : Bytes → Option Bytes) where
  -- The version is printed, and no server starts, exactly when `-v` is among the options.
  arguments-version_iff :
      (args : List Bytes) (s : Settings)
      → (arguments contents args s ≡ version) ↔ (has (codes "-v") (options args) ≡ true)
  unfolding arguments options has
  arguments-version_iff [] s = ground arith
  arguments-version_iff (a ∷ []) s = ground arith
  arguments-version_iff (a ∷ b ∷ rest) s =
      let debugged =
        arguments-version_iff (b ∷ rest) (record s { log_severity_limit = some debug }) in
      let read =
        arguments-version_iff rest
          (record s { from_file = true; ifs = open_file contents b s.ifs }) in
      let logged = arguments-version_iff rest (record s { log_file_stream = some b }) in
      let on = arguments-version_iff (b ∷ rest) s in
      ground (arith, debugged, read, logged, on, debug_only a)

  debug_step :
      (a b : Bytes) (rest : List Bytes) (s s' : Settings)
      → equal a (codes "-d") ≡ true
      → arguments contents (a ∷ b ∷ rest) s ≡ starts s'
      → arguments contents (b ∷ rest) (record s { log_severity_limit = some debug }) ≡ starts s'
  unfolding arguments
  debug_step a b rest s s' d h = ground (arith, d, h)

  limit_of :
      (args : List Bytes) (s s' : Settings)
      → arguments contents args s ≡ starts s'
      → s'.log_severity_limit
        ≡ (if has (codes "-d") (options args) then some debug else s.log_severity_limit)
  unfolding arguments options has
  limit_of [] s s' h = ground arith
  limit_of (a ∷ []) s s' h = ground arith
  limit_of (a ∷ b ∷ rest) s s' h = elim (Bool-cases (equal a (codes "-d"))) [
    | inl d ↦
        limit_of (b ∷ rest) (record s { log_severity_limit = some debug }) s'
          (debug_step a b rest s s' d h)
        ∙ both (has (codes "-d") (options (b ∷ rest)))
        ∙ sym (
            ap (λ (h : Bool). if h then some debug else s.log_severity_limit)
              (debug_has a b rest d))
    | inr d ↦ elim (Bool-cases (equal a (codes "-i"))) [
      | inl i ↦
          let read =
            limit_of rest (record s { from_file = true; ifs = open_file contents b s.ifs }) s' in
          ground (arith, d, i)
      | inr i ↦ elim (Bool-cases (equal a (codes "-l"))) [
        | inl l ↦
            let logged = limit_of rest (record s { log_file_stream = some b }) s' in
            ground (arith, d, i, l)
        | inr l ↦ let on = limit_of (b ∷ rest) s s' in ground (arith, d, i, l)
      ]
    ]
  ]

  -- When the server starts, its log takes the messages of every level if `-d` is among the options,
  -- and those of the level of errors or above if it is not.
  pub arguments-is_logged :
      (args : List Bytes) (severity : ℕ) (s : Settings)
      → arguments contents args initial_settings ≡ starts s
      → is_logged s.log_severity_limit severity
        ≡ leb severity (if has (codes "-d") (options args) then debug else error)
  unfolding is_logged
  arguments-is_logged args severity s h = ground (arith, limit_of args initial_settings s h)
