-- ===== src/Document/Actor/Calls.antt =====
-- The calls that the runtime makes of a document actor:
-- samod-core/src/actors/document/document_actor.rs, its public operations that change it.
use samod.Prelude.{
  ℕ, Option, none, some, List, [], ◌∷◌, ◌≡◌, subst, list_eq, nat_eq, ◌==◌, Bool-cases, inl, inr,
  if_both, if◌then◌else◌,
}
use samod.Prelude.Lists.{All}
use samod.Prelude.Map.{Map}
use samod.Prelude.Result.{ok, err}
use samod.Prelude.Panic.{◌>>=◌, some_cancel, bind_some}
use samod.Network.{ConnectionId, PeerId, UnixTimestamp}
use samod.Messages.{DocMessage, HubToDocMsg}
use samod.Hub.Results.{SpawnArgs}
use samod.Document.Io.{IoResult, DocumentIoResult}
use samod.Document.Library.{Automerge}
use samod.Document.Results
use samod.Document.Results.{DocActorResult}
use samod.Document.Peer.{PeerDocConnection}
use samod.Document.Peer.Buffer.{Waits, Waits-Kept}
use samod.Document.Actor.{
  DocumentActor, Turn, ActorInput, handle_doc_message, io_complete, tick, from_hub, is_stopped,
  is_document_ready,
}
use samod.Document.Actor.Sync.{add_connection}
use samod.Document.Actor.Step.{step}
use samod.Document.Actor.Input.{
  handle_input, handle_message, handle_io_complete, with_document, connect_all, first_message,
  initial_actor, new_actor, changed_heads, stopped_result,
}
use samod.Document.Actor.Frame.{Kept}
use samod.Document.Actor.Keep.{AllPeers}
use samod.Document.Actor.Upkeep.{handle_input-Kept, add_connection-Kept, step-Kept}
use samod.Document.Actor.Access.{policies, IsAllowed}
use samod.Document.Actor.Silence.{handle_input-IsAllowed}

-- A message from the hub, a result of a task, or a change of the document.
pub data Call (am : Automerge) : Type 0 where
  message : HubToDocMsg → Call am
  completion : IoResult DocumentIoResult → Call am
  modification : (am.Doc → am.Doc) → Call am

module _ {am : Automerge} where
  -- A call at a time, with the counter of task identifiers; a refused modification changes nothing.
  unfoldable pub call : Call am → UnixTimestamp → ℕ → DocumentActor am → Option (Turn am)
  call (message msg) now n a = handle_message now msg n a
  call (completion result) now n a = handle_io_complete now result n a
  call (modification f) now n a = elim (with_document now f n a) [
    | ok turn ↦ turn
    | err error ↦ some (a, Results.new n)
  ]

  unfoldable pub run_calls :
      List (Call am × UnixTimestamp × ℕ) → DocumentActor am → Option (DocumentActor am)
  run_calls [] a = some a
  run_calls ((c, now, n) ∷ calls) a = call c now n a >>= λ turn. run_calls calls turn.0

  -- What holds of a turn that changes nothing and of every turn that handles an input holds of
  -- what `unless_stopped` does of a call.
  pub stopped_or_handled :
      (Q : Turn am → Type 0) (input : ActorInput) (now : UnixTimestamp) (n : ℕ)
      (a : DocumentActor am) (turn : Turn am)
      → Q (a, stopped_result n)
      → (handle_input now input (a, Results.new n) ≡ some turn → Q turn)
      → (if is_stopped a
          then some (a, stopped_result n)
          else handle_input now input (a, Results.new n))
        ≡ some turn
      → Q turn
  stopped_or_handled Q input now n a turn stays moves e = elim (Bool-cases (is_stopped a)) [
    | inl stopped ↦ subst Q (some_cancel (rw stopped at e)) stays
    | inr going ↦ moves (rw going at e)
  ]

  -- A modification is refused, or it is a tick over the changed document, to whose result at most
  -- an event of the change is added.
  pub refused_or_handled :
      (Q : Turn am → Type 0) (f : am.Doc → am.Doc) (now : UnixTimestamp) (n : ℕ)
      (a : DocumentActor am) (turn : Turn am)
      → Q (a, Results.new n)
      → ((t : Turn am)
          → handle_input now tick (record a { doc = f a.doc }, Results.new n) ≡ some t
          → Q (changed_heads (am.get_heads a.doc) (am.get_heads (f a.doc)) t))
      → call (modification f) now n a ≡ some turn
      → Q turn
  unfolding call with_document
  refused_or_handled Q f now n a turn stays moves e = elim (Bool-cases (is_document_ready a)) [
    | inr refused ↦ subst Q (some_cancel (rw (refused, call, with_document) at e)) stays
    | inl ready ↦
        (let (t, g, same) =
            bind_some (handle_input now tick (record a { doc = f a.doc }, Results.new n))
              (λ t. some (changed_heads (am.get_heads a.doc) (am.get_heads (f a.doc)) t)) turn
              (rw (ready, call, with_document) at e) in
          subst Q (some_cancel same) (moves t g))
  ]

module _ {am : Automerge} {P : PeerDocConnection am → Type 0} (kept : Kept P) where
  call-Kept :
      (c : Call am) (now : UnixTimestamp) (n : ℕ) (a : DocumentActor am) (turn : Turn am)
      → call c now n a ≡ some turn
      → AllPeers P a
      → AllPeers P turn.0
  unfolding call handle_message handle_io_complete
  call-Kept (message msg) now n a turn e h =
      stopped_or_handled (λ t. AllPeers P t.0) (from_hub msg) now n a turn h
        (λ f. handle_input-Kept kept now (from_hub msg) (a, Results.new n) turn f h) e
  call-Kept (completion result) now n a turn e h =
      stopped_or_handled (λ t. AllPeers P t.0) (io_complete result) now n a turn h
        (λ f. handle_input-Kept kept now (io_complete result) (a, Results.new n) turn f h) e
  call-Kept (modification f) now n a turn e h =
      refused_or_handled (λ t. AllPeers P t.0) f now n a turn h
        (λ t g. handle_input-Kept kept now tick (record a { doc = f a.doc }, Results.new n) t g h) e

  run_calls-Kept :
      (calls : List (Call am × UnixTimestamp × ℕ)) (a a' : DocumentActor am)
      → run_calls calls a ≡ some a'
      → AllPeers P a
      → AllPeers P a'
  unfolding run_calls
  run_calls-Kept [] a a' e h = subst (AllPeers P) (some_cancel e) h
  run_calls-Kept ((c, now, n) ∷ calls) a a' e h =
      let (turn, f, g) = bind_some (call c now n a) (λ turn. run_calls calls turn.0) a' e in
      run_calls-Kept calls turn.0 a' g (call-Kept c now n a turn f h)

  first_message-Kept :
      (now : UnixTimestamp) (id : ConnectionId) (msg : Option DocMessage) (turn turn' : Turn am)
      → first_message now id msg turn ≡ some turn'
      → AllPeers P turn.0
      → AllPeers P turn'.0
  first_message-Kept now id none turn turn' e h = subst (λ t. AllPeers P t.0) (some_cancel e) h
  first_message-Kept now id (some msg) turn turn' e h =
      handle_input-Kept kept now (handle_doc_message id msg now) turn turn' e h

  connect_all-Kept :
      (now : UnixTimestamp) (connections : Map ConnectionId (PeerId × Option DocMessage))
      (turn turn' : Turn am)
      → connect_all now connections turn ≡ some turn'
      → AllPeers P turn.0
      → AllPeers P turn'.0
  connect_all-Kept now [] turn turn' e h = subst (λ t. AllPeers P t.0) (some_cancel e) h
  connect_all-Kept now ((id, (peer_id, msg)) ∷ connections) (a, out) turn' e h =
      let (a', f, g) =
        bind_some (add_connection id peer_id a)
          (λ a'. first_message now id msg (a', out) >>= connect_all now connections) turn' e in
      let (t, f', g') =
        bind_some (first_message now id msg (a', out)) (connect_all now connections) turn' g in
      connect_all-Kept now connections t turn' g' (
        first_message-Kept now id msg (a', out) t f' (add_connection-Kept kept id peer_id a a' f h))

  new_actor-Kept :
      (now : UnixTimestamp) (args : SpawnArgs am.Doc) (n : ℕ) (turn : Turn am)
      → new_actor now args n ≡ some turn
      → AllPeers P turn.0
  unfolding new_actor
  new_actor-Kept now args n turn e =
      let start : Turn am = (initial_actor args, Results.new n) in
      let (t, f, g) =
        bind_some (connect_all now args.initial_connections start) (λ t. some (step now t)) turn
          e in
      subst (λ (t' : Turn am). AllPeers P t'.0) (some_cancel g)
        (step-Kept kept now t (connect_all-Kept now args.initial_connections start t f tt))

module _ {am : Automerge} where
  -- A document actor, from its creation and through any calls, never has more than 64 sync messages
  -- in the buffer of a connection, nor more than 16 MiB of them unless there is just one, and none in
  -- the buffer of a connection whose sharing is decided. What is held back until the document is
  -- loaded is in no such buffer and is not bounded.
  pub run_calls-Waits :
      (now : UnixTimestamp) (args : SpawnArgs am.Doc) (n : ℕ) (turn : Turn am)
      (calls : List (Call am × UnixTimestamp × ℕ)) (a : DocumentActor am)
      → new_actor now args n ≡ some turn
      → run_calls calls turn.0 ≡ some a
      → AllPeers Waits a
  run_calls-Waits now args n turn calls a e f =
      run_calls-Kept Waits-Kept calls turn.0 a f (new_actor-Kept Waits-Kept now args n turn e)

  changed-IsAllowed :
      (old new : List ℕ) (t : Turn am)
      → All (IsAllowed (policies t.0.peer_connections)) t.1.outgoing_messages
      → let r : Turn am = changed_heads old new t in
        All (IsAllowed (policies r.0.peer_connections)) r.1.outgoing_messages
  changed-IsAllowed old new (a, out) h =
      if_both
        (λ (o : DocActorResult). All (IsAllowed (policies a.peer_connections)) o.outgoing_messages)
        (old == new) h h

  -- After any call of a document actor that does not panic, each message with the document's data in
  -- its result is for a connection whose sharing is decided, in the state that the call leaves, and
  -- that may read.
  pub call-IsAllowed :
      (c : Call am) (now : UnixTimestamp) (n : ℕ) (a : DocumentActor am) (turn : Turn am)
      → call c now n a ≡ some turn
      → All (IsAllowed (policies turn.0.peer_connections)) turn.1.outgoing_messages
  unfolding call handle_message handle_io_complete
  call-IsAllowed (message msg) now n a turn e =
      stopped_or_handled
        (λ t. All (IsAllowed (policies t.0.peer_connections)) t.1.outgoing_messages) (from_hub msg)
        now n a turn tt
        (λ f. handle_input-IsAllowed now (from_hub msg) (a, Results.new n) turn f tt) e
  call-IsAllowed (completion result) now n a turn e =
      stopped_or_handled
        (λ t. All (IsAllowed (policies t.0.peer_connections)) t.1.outgoing_messages)
        (io_complete result) now n a turn tt
        (λ f. handle_input-IsAllowed now (io_complete result) (a, Results.new n) turn f tt) e
  call-IsAllowed (modification f) now n a turn e =
      refused_or_handled
        (λ t. All (IsAllowed (policies t.0.peer_connections)) t.1.outgoing_messages) f now n a turn
        tt
        (λ t g.
          changed-IsAllowed (am.get_heads a.doc) (am.get_heads (f a.doc)) t
            (handle_input-IsAllowed now tick (record a { doc = f a.doc }, Results.new n) t g tt))
        e
