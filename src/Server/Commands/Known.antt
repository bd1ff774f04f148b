-- ===== src/Server/Commands/Known.antt =====
-- The commands that are known for documents: `find_command_for_path` of server/lsp/lsp_server.cpp.
use p4ls.Prelude.{
  ℕ, zero, suc, ◌<◌, ◌≡◌, ◌≢◌, refl, ap, subst, true, Option, none, some, List, [], ◌∷◌, Bytes,
  codes, lookup, emplace, lookup-emplace, Bool-cases, Option-cases, inl, inr, ◌⊎◌, length, arith,
}
use p4ls.Json.{Json}
use p4ls.Json.Decode.{Decode, ok, refused, fault, ◌>>=◌, member, string}
use p4ls.Server.Commands.{
  Environment, first_token, find_std_include, the_command, add_commands, load, search_parents,
  returned, find_command_for_path,
}

bind-ok :
    {A : Type 0} {B : Type 0} (m : Decode A) (f : A → Decode B) (b : B)
    → (m >>= f) ≡ ok b
    → (a : A) × (m ≡ ok a) × (f a ≡ ok b)
bind-ok (ok a) f b e = (a, refl, e)
bind-ok refused f b e = ground arith
bind-ok fault f b e = ground arith

-- Each command that was known is known, and is the same.
abbrev pub Keeps : List (Bytes × Bytes) → List (Bytes × Bytes) → Type 0
Keeps before after = (k v : Bytes) → lookup k before ≡ some v → lookup k after ≡ some v

emplace-Keeps : (k v : Bytes) (m : List (Bytes × Bytes)) → Keeps m (emplace k v m)
emplace-Keeps k v m j w h = ground (arith, lookup-emplace k j v m, h)

module _ (j : Json) (env : Environment j) where
  open j use {Value}

  add_commands-Keeps :
      (std_include : Bytes) (its : List Value) (commands known : List (Bytes × Bytes))
      → add_commands j env std_include its commands ≡ ok known
      → Keeps commands known
  unfolding add_commands
  add_commands-Keeps std_include [] commands known e =
      let same : commands ≡ known = ground (arith, e) in subst (Keeps commands) same (λ k v h. h)
  add_commands-Keeps std_include (it ∷ its) commands known e =
      let (f, _, e1) = bind-ok (member j it (codes "file")) _ known e in
      let (the_file, _, e2) = bind-ok (string j f) _ known e1 in
      let (c, _, e3) = bind-ok (member j it (codes "command")) _ known e2 in
      let (command, _, e4) = bind-ok (string j c) _ known e3 in
      let (new, _, e5) = bind-ok (the_command j env std_include command) _ known e4 in
      λ k v h.
        add_commands-Keeps std_include its (emplace the_file new commands) known e5 k v
          (emplace-Keeps the_file new commands k v h)

  -- What a search gives: the commands that were known and perhaps more, and as its answer the one
  -- that is then known for the file, or nothing if none is.
  abbrev Found : Bytes → List (Bytes × Bytes) → Bytes × List (Bytes × Bytes) → Type 0
  Found file before (answer, after) =
      Keeps before after × (answer ≡ elim (lookup file after) [ none ↦ [] | some found ↦ found ])

  nothing-Found :
      (file : Bytes) (commands : List (Bytes × Bytes)) (r : Bytes × List (Bytes × Bytes))
      → lookup file commands ≡ none
      → ok ([], commands) ≡ ok r
      → Found file commands r
  nothing-Found file commands r n e =
      let same : ([], commands) ≡ r = ground (arith, e) in
      subst (Found file commands) same ((λ k v h. h), ground (arith, n))

  answer-Found :
      (file : Bytes) (commands known : List (Bytes × Bytes)) (r : Bytes × List (Bytes × Bytes))
      → Keeps commands known
      → ok (elim (lookup file known) [ none ↦ [] | some found ↦ found ], known) ≡ ok r
      → Found file commands r
  answer-Found file commands known r keeps e =
      let same : (elim (lookup file known) [ none ↦ [] | some found ↦ found ], known) ≡ r =
        ground (arith, e) in
      subst (Found file commands) same (keeps, refl)

  entries-Found :
      (file : Bytes) (entries : Option (List Value)) (commands : List (Bytes × Bytes))
      (r : Bytes × List (Bytes × Bytes))
      → lookup file commands ≡ none
      → elim entries [
        | none ↦ ok ([], commands)
        | some [] ↦ fault
        | some (e ∷ es) ↦ (do
          c ← member j e (codes "command")
          command ← string j c
          compiler ← first_token j env command
          known ← add_commands j env (find_std_include j env compiler) (e ∷ es) commands
          ok (elim (lookup file known) [ none ↦ [] | some found ↦ found ], known))
      ]
        ≡ ok r
      → Found file commands r
  entries-Found file none commands r n e = nothing-Found file commands r n e
  entries-Found file (some []) commands r n e = ground (arith, e)
  entries-Found file (some (x ∷ xs)) commands r n e =
      let (c, _, e1) = bind-ok (member j x (codes "command")) _ r e in
      let (command, _, e2) = bind-ok (string j c) _ r e1 in
      let (compiler, _, e3) = bind-ok (first_token j env command) _ r e2 in
      let std_include = find_std_include j env compiler in
      let (known, added, e4) = bind-ok (add_commands j env std_include (x ∷ xs) commands) _ r e3 in
      answer-Found file commands known r
        (add_commands-Keeps std_include (x ∷ xs) commands known added) e4

  load-Found :
      (file path : Bytes) (commands : List (Bytes × Bytes)) (r : Bytes × List (Bytes × Bytes))
      → lookup file commands ≡ none
      → load j env file path commands ≡ ok r
      → Found file commands r
  unfolding load
  load-Found file path commands r n e =
      entries-Found file (elim (env.read_json path) [ none ↦ none | some v ↦ j.get_array v ])
        commands r n e

  search_parents-Found :
      (fuel : ℕ) (file path : Bytes) (commands : List (Bytes × Bytes))
      (r : Bytes × List (Bytes × Bytes))
      → lookup file commands ≡ none
      → search_parents j env fuel file path commands ≡ some (ok r)
      → Found file commands r
  unfolding search_parents
  search_parents-Found zero file path commands r n e = absurd (ground (arith, e))
  search_parents-Found (suc fuel) file path commands r n e =
      let above = env.parent_path path in
      let there = env.join above (codes "compile_commands.json") in
      elim (Bool-cases (env.has_parent_path path)) [
        | inl up ↦ elim (Bool-cases (env.exists there)) [
          | inl found ↦ load-Found file there commands r n (ground (arith, e, up, found))
          | inr absent ↦
              search_parents-Found fuel file above commands r n (ground (arith, e, up, absent))
        ]
        | inr top ↦ nothing-Found file commands r n (ground (arith, e, top))
      ]

  returned-ok :
      (d : Option (Decode (Bytes × List (Bytes × Bytes)))) (r : Bytes × List (Bytes × Bytes))
      → returned j env d ≡ ok r
      → d ≡ some (ok r)
  returned-ok none r e = absurd (ground (arith, e))
  returned-ok (some d) r e = ap some e

  -- A search for a command that returns keeps each command that was known, as it was. If one was known
  -- for the file, it is the answer and the known commands stay as they were; in any case the
  -- answer is the command that is known for the file behind the search, or nothing if none is.
  pub find_command_for_path-Found :
      (file : Bytes) (commands : List (Bytes × Bytes)) (r : Bytes × List (Bytes × Bytes))
      → find_command_for_path j env file commands ≡ ok r
      → Keeps commands r.1
        × ((lookup file commands ≡ none) ⊎ ((lookup file commands ≡ some r.0) × (r.1 ≡ commands)))
        × (r.0 ≡ elim (lookup file r.1) [ none ↦ [] | some found ↦ found ])
  unfolding find_command_for_path
  find_command_for_path-Found file commands r e = elim (Option-cases (lookup file commands)) [
    | inl n ↦
        let (keeps, answer) =
          search_parents-Found (suc (length file)) file file commands r n
            (returned-ok _ r (ground (arith, e, n))) in
        (keeps, inl n, answer)
    | inr (c, h) ↦
        let same : (c, commands) ≡ r = ground (arith, e, h) in
        subst
          (λ (r : Bytes × List (Bytes × Bytes)).
            Keeps commands r.1
            × ((lookup file commands ≡ none)
                ⊎ ((lookup file commands ≡ some r.0) × (r.1 ≡ commands)))
            × (r.0 ≡ elim (lookup file r.1) [ none ↦ [] | some found ↦ found ]))
          same ((λ k v h. h), inr (h, refl), ground (arith, h))
  ]

  -- Where the parent of a path is a shorter path, the search through the parents of a path ends: with
  -- any fuel above the length of the path it has a result, and any other such fuel gives the same.
  pub search_parents-ends :
      ((path : Bytes)
        → env.has_parent_path path ≡ true
        → length (env.parent_path path) < length path)
      → (n m : ℕ) (file path : Bytes) (commands : List (Bytes × Bytes)) → length path < n
      → length path < m
      → (search_parents j env n file path commands ≢ none)
        × (search_parents j env n file path commands ≡ search_parents j env m file path commands)
  unfolding search_parents
  search_parents-ends shorter zero m file path commands h k = absurd (omega (arith, h))
  search_parents-ends shorter (suc n) zero file path commands h k = absurd (omega (arith, k))
  search_parents-ends shorter (suc n) (suc m) file path commands h k =
      elim (Bool-cases (env.has_parent_path path)) [
        | inl up ↦
            let less = shorter path up in
            let (some_result, same) =
              search_parents-ends shorter n m file (env.parent_path path) commands
                (omega (arith, less, h)) (omega (arith, less, k)) in
            ((λ e. ground (arith, up, some_result, e)), ground (arith, up, same))
        | inr top ↦ ((λ e. ground (arith, top, e)), ground (arith, top))
      ]
