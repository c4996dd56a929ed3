-- ===== src/Hub/State/Tests.antt =====
-- The hub on concrete input: a hub with one document and one connection, and a new hub.
use samod.Prelude.{ℕ, ◌≤◌, ◌≡◌, refl, true, none, some, List, [], ◌∷◌, ◌++◌, map, nat_eq, string_eq}
use samod.Prelude.Lists.{is_empty, contains}
use samod.Prelude.Map.{get, values}
use samod.Network.{dialer, DocumentActorId, UnixTimestamp}
use samod.Messages.{DocMessage, sync_msg, SyncMessage, loading, terminate}
use samod.Ephemera.{EphemeralSession}
use samod.Ephemera
use samod.Hub.Connection.{Connection, established}
use samod.Hub.Results.{HubResults, no_results}
use samod.Hub.Searches.{ActorInfo}
use samod.Hub.State.{
  established_peers, peers_among, State, Turn, Counters, new, stopping, find_actor_for_document,
}
use samod.Hub.State.Input.{HubInput, Command, Rng}
use samod.Hub.State.Event.{HubEvent, input, handle_event, settled}
use samod.Hub.State.Upkeep.{rank}
use samod.Hub.State.Totality.{handle_event-total}
use samod.Hub.State.Documents.{deliver}
use samod.Hub.State.Delivery.{Delivered, deliver-Delivered}
use samod.Hub.State.Open.{AllOpen, handle_event-AllOpen}
use samod.Hub.State.Runs.{handle_event-rises}
use samod.Hub.State.Shutdown.{handle_event-stop, actor_ids}
use samod.Hub.Queries.{is_connected_to, connections, connected_in, connected_views_agree}
use samod.Hub.State.Reach.{run_events, FreshDraws, run_events-one_actor}

abbrev counters : Counters
counters = record { connection = 0; dialer = 0; listener = 0; actor = 0 }

abbrev first : State
first = new "store" "alice" (Ephemera.new "session") counters

abbrev rng : Rng
rng = record { document_id = 77; jitter = λ id delay. delay }

abbrev Script : Type 0
Script = List (Rng × UnixTimestamp × HubEvent ℕ)

abbrev talking : Connection
talking = record {
  id = 0;
  owner = dialer 0;
  local_peer_id = "alice";
  expected_peer_id = none;
  local_metadata = none;
  phase = established (record {
    remote_peer_id = "bob";
    remote_metadata = none;
    protocol_version = "1";
    established_at = 3;
    document_subscriptions = [];
  });
  created_at = 2;
  last_received = none;
  last_sent = none;
  dirty = true;
}

-- A hub with a document, its actor, and a connection that talks to "bob".
abbrev busy : State
busy = record first {
  actors = (3, record { actor_id = 3; document_id = 5; search_phase = loading }) ∷ [];
  document_to_actor = (5, 3) ∷ [];
  connections = (0, talking) ∷ [];
}

abbrev search : HubEvent ℕ
search = input (HubInput.command 4 (Command.search_for_doc 6))

abbrev out : HubResults ℕ
out = no_results ℕ

handle_event-total_example : (turn : Turn ℕ) × (handle_event rng 5 search (busy, out) ≡ some turn)
handle_event-total_example = handle_event-total rng 5 search busy out

handle_event-rises_example :
    (turn : Turn ℕ) × (handle_event rng 5 search (busy, out) ≡ some turn)
    × (rank busy.run_state ≤ rank turn.0.run_state)
handle_event-rises_example = handle_event-rises rng 5 search busy out

handle_event-stop_example :
    (turn : Turn ℕ) × (handle_event rng 9 (input HubInput.stop) (busy, out) ≡ some turn)
    × (turn.0.connections ≡ [])
    × (turn.0.dialers ≡ [])
    × (turn.0.listeners ≡ [])
    × (turn.0.run_state ≡ settled stopping (is_empty busy.actors))
    × (turn.1.actor_messages ≡ out.actor_messages ++ map (λ id. (id, terminate)) (actor_ids busy))
handle_event-stop_example = handle_event-stop rng 9 busy out refl

abbrev short : Script
short = (rng, 4, input (HubInput.command 3 (Command.create_document 9))) ∷ []

short-FreshDraws : FreshDraws short first
unfolding find_actor_for_document get
short-FreshDraws = (refl, λ turn e. tt)

run_events-one_actor_example :
    (s : State) × (run_events short first ≡ some s)
    × ((a b : DocumentActorId) (x y : ActorInfo)
        → get a s.actors ≡ some x
        → get b s.actors ≡ some y
        → x.document_id ≡ y.document_id
        → a ≡ b)
run_events-one_actor_example =
    run_events-one_actor "store" "alice" (Ephemera.new "session") counters short short-FreshDraws

abbrev wanted : DocMessage
wanted = sync_msg (SyncMessage.request (1 ∷ []))

busy-talking : get 0 busy.connections ≡ some talking
unfolding get
busy-talking = refl

deliver-Delivered_example :
    (turn : Turn ℕ) × (deliver 8 0 "alice" 6 wanted (busy, out) ≡ some turn)
    × Delivered 8 0 "bob" 6 wanted (busy, out) turn
deliver-Delivered_example = deliver-Delivered 8 0 "bob" 6 wanted busy out talking busy-talking refl

handle_event-AllOpen_example :
    (turn : Turn ℕ) × (handle_event rng 5 search (busy, out) ≡ some turn)
    × AllOpen turn.0.connections
handle_event-AllOpen_example = handle_event-AllOpen rng 5 search busy out refl

connected_views_agree_example :
    (is_connected_to "bob" busy ≡ contains (values (established_peers busy)) "bob")
    × (established_peers busy ≡ connected_in (connections busy))
connected_views_agree_example = connected_views_agree "bob" busy

busy-bob : (is_connected_to "bob" busy ≡ true) × (established_peers busy ≡ (0, "bob") ∷ [])
unfolding is_connected_to peers_among get
busy-bob = (refl, refl)
