-- ===== src/Transport/Loop.antt =====
-- server/lsp/lsp_server.cpp, `run`, and the worker thread of the constructor: the main thread reads
-- messages and posts them; the worker takes them from the queue of Boost.Asio, first in, first out.
use p4ls.Prelude.{
  Bool, ◌≤◌, ◌<◌, ◌^◌, ◌≡◌, refl, sym, ◌∙◌, ap, true, false, Option, none, some, List, [], ◌∷◌,
  ◌++◌, Bytes, length, All, append_assoc, inl, inr, ◌⊎◌, Option-cases, subst, arith,
}
use p4ls.Json.{Json}
use p4ls.Dispatcher.{Thread, call, frame}
use p4ls.Server.{Server}
use p4ls.Server.Commands.{Environment}
use p4ls.Server.Handlers.{server_dispatcher}
use p4ls.Transport.{InputStream, message, nothing, undefined_behaviour, read_message}
use p4ls.Transport.Framing.{read_message-frame, empty_line_undefined}

pub record Running : Type 0 where
  pub stream : InputStream
  pub queue : List Bytes
  pub worker : Thread Server

module _ (j : Json) (env : Environment j) where
  -- One round of the loop of `run`, or one handler on the worker. The flag `_is_done` is the
  -- worker's object's.
  pub data Step : Running → Running → Type 0 where
    posts :
        (r : Running) (content : Bytes) (s : InputStream)
        → r.worker.object.is_done ≡ false
        → r.stream.good ≡ true
        → read_message r.stream ≡ message content s
        → Step r (record r { stream = s; queue = r.queue ++ content ∷ [] })
    skips :
        (r : Running) (s : InputStream)
        → r.worker.object.is_done ≡ false
        → r.stream.good ≡ true
        → read_message r.stream ≡ nothing s
        → Step r (record r { stream = s })
    works :
        (r : Running) (content : Bytes) (rest : List Bytes) (t : Thread Server)
        → r.queue ≡ content ∷ rest
        → call j Server (server_dispatcher j env) content r.worker ≡ some t
        → Step r (record r { queue = rest; worker = t })

  pub data Steps : Running → Running → Type 0 where
    stays : (r : Running) → Steps r r
    then_step : {r s u : Running} → Steps r s → Step s u → Steps r u

  -- The messages handled one after the other, in order.
  unfoldable pub call_all : List Bytes → Thread Server → Option (Thread Server)
  call_all [] t = some t
  call_all (c ∷ cs) t = elim (call j Server (server_dispatcher j env) c t) [
    | none ↦ none
    | some t' ↦ call_all cs t'
  ]

  call_all-append :
      (done : List Bytes) (c : Bytes) (t u v : Thread Server)
      → call_all done t ≡ some u
      → call j Server (server_dispatcher j env) c u ≡ some v
      → call_all (done ++ c ∷ []) t ≡ some v
  unfolding call_all
  call_all-append [] c t u v e f = ground arith
  call_all-append (d ∷ done) c t u v e f =
      elim (Option-cases (call j Server (server_dispatcher j env) d t)) [
        | inl stops ↦ absurd (ground arith)
        | inr (t', goes) ↦ ground (arith, call_all-append done c t' u v)
      ]

-- A stream of framed messages.
abbrev pub frames : List Bytes → Bytes
frames [] = []
frames (c ∷ cs) = frame c ++ frames cs

-- Contents that the reader takes: neither empty nor over 2^30 bytes.
abbrev pub Sendable : List Bytes → Type 0
Sendable = All (λ c. (0 < length c) × (length c ≤ 2 ^ 30))

module _ (j : Json) (env : Environment j) (eintr : Bool) where
  -- The contents are those handled, those in the queue and those not yet read, in this order.
  pub record InOrder (contents : List Bytes) (start : Thread Server) (r : Running) : Type 0 where
    pub handled : List Bytes
    pub unread : List Bytes
    pub order : contents ≡ handled ++ (r.queue ++ unread)
    pub does : call_all j env handled start ≡ some r.worker
    pub at : r.stream ≡ record { rest = frames unread; good = true; eintr = eintr }

  pub Sendable-unread :
      (handled queue unread : List Bytes)
      → Sendable (handled ++ (queue ++ unread))
      → Sendable unread
  Sendable-unread [] [] unread h = h
  Sendable-unread [] (q ∷ queue) unread h = Sendable-unread [] queue unread h.1
  Sendable-unread (d ∷ handled) queue unread h = Sendable-unread handled queue unread h.1

  -- What the reader finds in a stream of messages.
  next_message :
      (unread : List Bytes)
      → Sendable unread
      → ((unread ≡ [])
          × (read_message (record { rest = frames unread; good = true; eintr = eintr })
              ≡ undefined_behaviour))
        ⊎ ((c : Bytes) × (cs : List Bytes) × (unread ≡ c ∷ cs)
            × (read_message (record { rest = frames unread; good = true; eintr = eintr })
                ≡ message c (record { rest = frames cs; good = true; eintr = eintr })))
  next_message [] h = inl (refl, (empty_line_undefined [] eintr).0)
  next_message (c ∷ cs) h = inr (c, cs, refl, read_message-frame eintr c (frames cs) h.0.0 h.0.1)

  Step-InOrder :
      (contents : List Bytes) (start : Thread Server) {r s : Running}
      → Sendable contents
      → InOrder contents start r
      → Step j env r s
      → InOrder contents start s
  Step-InOrder contents start small o (works r content rest t q e) = record {
    handled = o.handled ++ content ∷ [];
    unread = o.unread;
    order =
        o.order
        ∙ ap (λ x. o.handled ++ (x ++ o.unread)) q
        ∙ sym (append_assoc o.handled (content ∷ []) (rest ++ o.unread));
    does = call_all-append j env o.handled content start r.worker t o.does e;
    at = o.at;
  }
  Step-InOrder contents start small o (skips r s d g e) =
      elim (next_message o.unread
        (Sendable-unread o.handled r.queue o.unread (subst Sendable o.order small))) [
          | inl (none_left, undefined) ↦ absurd (cc (e, ap read_message o.at, undefined))
          | inr (c, cs, found, reads) ↦ absurd (cc (e, ap read_message o.at, reads))
        ]
  Step-InOrder contents start small o (posts r content s d g e) =
      elim (next_message o.unread
        (Sendable-unread o.handled r.queue o.unread (subst Sendable o.order small))) [
          | inl (none_left, undefined) ↦ absurd (cc (e, ap read_message o.at, undefined))
          | inr (c, cs, found, reads) ↦
              let same : message content s
                  ≡ message c (record { rest = frames cs; good = true; eintr = eintr }) =
                sym e ∙ (ap read_message o.at ∙ reads) in
              record {
                handled = o.handled;
                unread = cs;
                order =
                    o.order
                    ∙ ap (λ x. o.handled ++ (r.queue ++ x)) found
                    ∙ ap (λ x. o.handled ++ (r.queue ++ (x ∷ cs))) (sym (ground arith))
                    ∙ ap (λ x. o.handled ++ x) (sym (append_assoc r.queue (content ∷ []) cs));
                does = o.does;
                at = ground arith;
              }
        ]

  -- From a stream of framed contents of one byte to 2^30 bytes and an empty queue, wherever the main
  -- thread and the worker have got to, the messages of the input are those
  -- handled, those posted and those not yet read, in the order of the input; the worker's state is
  -- what handling the first of these in order gives, and nothing of a message is lost from the
  -- stream.
  pub Steps-InOrder :
      (contents : List Bytes) (start : Thread Server) (r : Running)
      → Sendable contents
      → Steps j env
          (record {
            stream = record { rest = frames contents; good = true; eintr = eintr };
            queue = [];
            worker = start;
          })
          r
      → InOrder contents start r
  unfolding call_all
  Steps-InOrder contents start r small steps = go steps
    where
      go :
          {r : Running}
          → Steps j env
              (record {
                stream = record { rest = frames contents; good = true; eintr = eintr };
                queue = [];
                worker = start;
              })
              r
          → InOrder contents start r
      go (stays _) = record {
        handled = [];
        unread = contents;
        order = refl;
        does = refl;
        at = refl;
      }
      go (then_step steps step) = Step-InOrder contents start small (go steps) step
