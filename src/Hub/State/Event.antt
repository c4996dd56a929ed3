-- ===== src/Hub/State/Event.antt =====
-- The hub's event loop: `handle_event` of samod-core/src/actors/hub/state.rs around the arms of
-- hub/state's Input.
use samod.Prelude.{ℕ, String, Bool, true, false, Option, none, some, List, [], ◌∷◌, ◌++◌, nat_eq}
use samod.Prelude.Lists.{length, is_empty}
use samod.Prelude.Map.{Map, get}
use samod.Prelude.Panic.{◌>>=◌}
use samod.Network.{
  ConnectionId, DocumentActorId, DocumentId, CommandId, PeerId, UnixTimestamp, ConnectionInfo,
  state_changed,
}
use samod.Messages.{new_connection, DocSearchPhase, DocSearch}
use samod.Hub.Results.{HubResults, CommandResult, emit_connection_event, send_to_doc_actor}
use samod.Hub.Searches.{pop_state_updates}
use samod.Hub.Pending.{pop_completed_commands}
use samod.Hub.State.{
  State, Turn, RunState, stopping, stopped, closed_connections, pending_dialer_urls,
}
use samod.Hub.State.Subscriptions.{ensure_connections, pop_new_connection_info}
use samod.Hub.State.Dialing.{lose_connections}
use samod.Hub.State.Input.{HubInput, Rng, handle_input, is_running, complete}

-- `HubEventPayload`: a send or a disconnect is done, or an input.
pub data HubEvent (A : Type 0) : Type 0 where
  io_complete : HubEvent A
  input : HubInput A → HubEvent A

abbrev news_of :
    State → List String → Map DocumentActorId DocSearchPhase → List (DocumentId × DocSearch)
news_of s urls [] = []
news_of s urls ((actor_id, phase) ∷ rest) = elim (get actor_id s.actors) [
  | none ↦ news_of s urls rest
  | some actor ↦
      (actor.document_id, record { phase = phase; pending_connections = urls })
      ∷ news_of s urls rest
]

abbrev pub settled : RunState → Bool → RunState
settled stopping true = stopped
settled state no_actors = state

abbrev pub is_stopped : RunState → Bool
is_stopped stopped = true
is_stopped _ = false

module _ {A : Type 0} where
  abbrev pub handle_payload : Rng → UnixTimestamp → HubEvent A → Turn A → Option (Turn A)
  handle_payload rng now io_complete turn = some turn
  handle_payload rng now (input i) turn = handle_input rng now i turn

  abbrev pub announce : List (DocumentActorId × ConnectionId × PeerId) → HubResults A → HubResults A
  announce [] out = out
  announce ((actor_id, conn_id, peer_id) ∷ rest) out =
      announce rest (send_to_doc_actor out actor_id (new_connection conn_id peer_id))

  -- Every connection is connected to every document, while the hub runs.
  unfoldable pub connect_documents : Turn A → Option (Turn A)
  connect_documents (s, out) = elim (is_running s.run_state) [
    | false ↦ some (s, out)
    | true ↦ ensure_connections s >>= λ (s', todo). some (s', announce todo out)
  ]

  abbrev pub emit_infos : State → Map ConnectionId ConnectionInfo → HubResults A → HubResults A
  emit_infos s [] out = out
  emit_infos s ((conn_id, info) ∷ rest) out = elim (get conn_id s.connections) [
    | none ↦ emit_infos s rest out
    | some conn ↦
        emit_infos s rest (emit_connection_event out (state_changed conn_id conn.owner info))
  ]

  abbrev pub complete_all : List (CommandId × CommandResult) → HubResults A → HubResults A
  complete_all [] out = out
  complete_all ((command_id, result) ∷ rest) out =
      complete_all rest (complete command_id result out)

  unfoldable pub emit_search_state_updates : Turn A → Turn A
  emit_search_state_updates (s, out) =
      let (searches, updates) = pop_state_updates s.actors s.dialers s.searches in
      let s' = record s { searches = searches } in
      (
        s',
        record out {
          search_state_updates =
              out.search_state_updates ++ news_of s' (pending_dialer_urls s') updates;
        },
      )

  -- The reports at the end of an event.
  unfoldable pub report_news : Turn A → Turn A
  unfolding emit_search_state_updates
  report_news (s, out) =
      let (s₁, infos) = pop_new_connection_info s in
      let out₁ = emit_infos s₁ infos out in
      let (pending, done) = pop_completed_commands s₁.pending_commands in
      emit_search_state_updates (record s₁ { pending_commands = pending }, complete_all done out₁)

  unfoldable pub finish : ℕ → ℕ → Turn A → Turn A
  finish conns docs (s, out) =
      let s' = record s { run_state = settled s.run_state (is_empty s.actors) } in
      (
        s',
        record out {
          stopped = is_stopped s'.run_state;
          connections_count = conns;
          documents_count = docs;
        },
      )

  -- `for conn_id in self.closed_connections()`
  unfoldable pub drop_closed : Rng → UnixTimestamp → Turn A → Turn A
  drop_closed rng now turn = lose_connections rng.jitter now (closed_connections turn.0) turn

  unfoldable pub handle_event : Rng → UnixTimestamp → HubEvent A → Turn A → Option (Turn A)
  unfolding handle_input drop_closed connect_documents report_news finish
  handle_event rng now event (s, out) = elim (is_stopped s.run_state) [
    | true ↦ some (s, record out { stopped = true })
    | false ↦ handle_payload rng now event (s, out) >>= λ turn₁.
        connect_documents (drop_closed rng now turn₁) >>= λ turn₂.
        some (
          finish (length turn₂.0.connections) (length turn₂.0.document_to_actor)
            (report_news turn₂))
  ]
