-- ===== src/Document/Actor/Silence.antt =====
-- The inputs of a document actor say nothing of a document's data before the step:
-- samod-core/src/actors/document/document_actor.rs.
use samod.Document.Actor.{ActorInput, Turn}
use samod.Document.Actor.Access.{note_message-messages, IsAllowed, policies}
use samod.Document.Actor.Input.{and_step, handle_input, process}
use samod.Document.Library.{Automerge}
use samod.Document.Results.{DocActorResult}
use samod.Network.{UnixTimestamp}
use samod.Prelude.{Bool, false, list_eq, nat_eq, some, subst, sym, true, ◌≡◌}
use samod.Prelude.Lists.{All, All-mono, All-snoc}
use samod.Prelude.Panic.{bind_some, some_cancel}
use samod.Document.Actor.Disclosure.{IsDataless, step-IsAllowed, dataless-IsAllowed}
use samod.Document.Actor.Process.{Steady, process-Steady}

-- Nothing in the result carries a document's data.
abbrev pub IsSilent : DocActorResult → Type 0
IsSilent out = All IsDataless out.outgoing_messages

pub IsSilent-Steady : Steady IsSilent
IsSilent-Steady = record {
  pushed = λ out msg p h. All-snoc IsDataless out.outgoing_messages h p;
  noted = λ id direction bytes out h.
      subst (All IsDataless) (sym (note_message-messages id direction bytes out)) h;
  changed = λ out heads h. h;
  emitted = λ out msg h. h;
}

module _ {am : Automerge} where
  and_step-IsAllowed :
      (now : UnixTimestamp) (r : Bool × Turn am)
      → IsSilent r.1.1
      → let t : Turn am = and_step now r in
        All (IsAllowed (policies t.0.peer_connections)) t.1.outgoing_messages
  and_step-IsAllowed now (true, turn) h = step-IsAllowed now turn h
  and_step-IsAllowed now (false, turn) h =
      All-mono IsDataless (IsAllowed (policies turn.0.peer_connections))
        (dataless-IsAllowed (policies turn.0.peer_connections)) turn.1.outgoing_messages h

  pub handle_input-IsAllowed :
      (now : UnixTimestamp) (input : ActorInput) (turn turn' : Turn am)
      → handle_input now input turn ≡ some turn'
      → IsSilent turn.1
      → All (IsAllowed (policies turn'.0.peer_connections)) turn'.1.outgoing_messages
  unfolding handle_input
  handle_input-IsAllowed now input turn turn' e h =
      let (r, f, g) = bind_some (process now input turn) (λ r. some (and_step now r)) turn' e in
      subst (λ (t : Turn am). All (IsAllowed (policies t.0.peer_connections)) t.1.outgoing_messages)
        (some_cancel g)
        (and_step-IsAllowed now r (process-Steady IsSilent-Steady now input turn r f h))
