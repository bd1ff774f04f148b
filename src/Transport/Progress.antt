-- ===== src/Transport/Progress.antt =====
-- The two threads can always finish: `run` and the worker of server/lsp/lsp_server.cpp.
use p4ls.Prelude.{
  Bool, ◌≡◌, refl, sym, subst, true, false, some, List, [], ◌∷◌, ◌++◌, append-nil, append_assoc,
  Bytes, inl, inr, Option-cases, arith,
}
use p4ls.Json.{Json}
use p4ls.Dispatcher.{Thread, call}
use p4ls.Server.{Server}
use p4ls.Server.Commands.{Environment}
use p4ls.Server.Handlers.{server_dispatcher}
use p4ls.Transport.Framing.{read_message-frame}
use p4ls.Transport.Loop.{
  Running, Step, Steps, call_all, frames, Sendable, InOrder, Steps-InOrder, Sendable-unread,
}
use Step.{posts, works}
use Steps.{stays, then_step}

module _ (j : Json) (env : Environment j) (eintr : Bool) where
  Steps-trans : {r s u : Running} → Steps j env r s → Steps j env s u → Steps j env r u
  Steps-trans before (stays _) = before
  Steps-trans before (then_step steps step) = then_step (Steps-trans before steps) step

  abbrev state : List Bytes → List Bytes → Thread Server → Running
  state unread queue worker = record {
    stream = record { rest = frames unread; good = true; eintr = eintr };
    queue = queue;
    worker = worker;
  }

  post_all :
      (unread queue : List Bytes) (worker : Thread Server)
      → Sendable unread
      → worker.object.is_done ≡ false
      → Steps j env (state unread queue worker) (state [] (queue ++ unread) worker)
  post_all [] queue worker small on =
      subst (λ q. Steps j env (state [] queue worker) (state [] q worker)) (sym (append-nil queue))
        (stays _)
  post_all (c ∷ cs) queue worker small on =
      let first =
        posts (state (c ∷ cs) queue worker) c
          (record { rest = frames cs; good = true; eintr = eintr }) on refl
          (read_message-frame eintr c (frames cs) small.0.0 small.0.1) in
      Steps-trans (then_step (stays _) first) (
        subst (λ q. Steps j env (state cs (queue ++ c ∷ []) worker) (state [] q worker))
          (append_assoc queue (c ∷ []) cs) (post_all cs (queue ++ c ∷ []) worker small.1 on))

  work_all :
      (queue : List Bytes) (r : Running) (final : Thread Server)
      → r.queue ≡ queue
      → call_all j env queue r.worker ≡ some final
      → Steps j env r (record r { queue = []; worker = final })
  unfolding call_all
  work_all [] r final e done =
      let same : r.worker ≡ final = ground (arith, done) in
      subst (λ w. Steps j env r (record r { queue = []; worker = w })) same
        (subst (λ q. Steps j env r (record r { queue = q })) e (stays r))
  work_all (c ∷ cs) r final e done =
      elim (Option-cases (call j Server (server_dispatcher j env) c r.worker)) [
        | inl stops ↦ absurd (ground arith)
        | inr (t, goes) ↦
            let next : Running = record r { queue = cs; worker = t } in
            Steps-trans (then_step (stays r) (works r c cs t e goes))
              (work_all cs next final refl (ground (arith, goes, done)))
      ]

  call_all-rest :
      (handled rest : List Bytes) (start middle final : Thread Server)
      → call_all j env handled start ≡ some middle
      → call_all j env (handled ++ rest) start ≡ some final
      → call_all j env rest middle ≡ some final
  unfolding call_all
  call_all-rest [] rest start middle final e f = ground (arith, e, f)
  call_all-rest (c ∷ handled) rest start middle final e f =
      elim (Option-cases (call j Server (server_dispatcher j env) c start)) [
        | inl stops ↦ absurd (ground arith)
        | inr (t, goes) ↦ ground (arith, goes, call_all-rest handled rest t middle final)
      ]

  -- Wherever the two threads have got to on a stream of framed contents of one byte to 2^30 bytes,
  -- while the worker has not handled `exit` and every message can be handled in turn, some further
  -- steps read the whole input, empty the queue, and leave the worker with all messages handled.
  pub Steps-finish :
      (contents : List Bytes) (start final : Thread Server) (r : Running)
      → Sendable contents
      → call_all j env contents start ≡ some final
      → Steps j env
          (record {
            stream = record { rest = frames contents; good = true; eintr = eintr };
            queue = [];
            worker = start;
          })
          r
      → r.worker.object.is_done ≡ false
      → Steps j env r (record {
        stream = record { rest = []; good = true; eintr = eintr };
        queue = [];
        worker = final;
      })
  Steps-finish contents start final r small all steps on =
      let o : InOrder j env eintr contents start r =
        Steps-InOrder j env eintr contents start r small steps in
      let ordered = subst Sendable o.order small in
      let left =
        call_all-rest o.handled (r.queue ++ o.unread) start r.worker final o.does
          (subst (λ cs. call_all j env cs start ≡ some final) o.order all) in
      let posted =
        post_all o.unread r.queue r.worker
          (Sendable-unread j env eintr o.handled r.queue o.unread ordered) on in
      let from_here : Steps j env r (state [] (r.queue ++ o.unread) r.worker) =
        subst (λ s. Steps j env (record r { stream = s }) (state [] (r.queue ++ o.unread) r.worker))
          (sym o.at) posted in
      Steps-trans from_here
        (work_all (r.queue ++ o.unread) (state [] (r.queue ++ o.unread) r.worker) final refl left)
