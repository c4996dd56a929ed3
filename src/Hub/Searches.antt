-- ===== src/Hub/Searches.antt =====
-- Which searches have news: samod-core/src/actors/hub/state/searches.rs, with
-- hub/state/actor_info.rs and the equality of the phases and statuses that it compares.
use samod.Prelude.{
  ℕ, Bool, true, false, not, ◌&&◌, ◌||◌, Option, none, some, [], ◌∷◌, ◌==◌, nat_eq, if◌then◌else◌,
}
use samod.Prelude.Lists.{length}
use samod.Prelude.Map.{Map, get, insert}
use samod.Network.{DialerId, DocumentActorId, DocumentId}
use samod.Messages.{
  PeerRequestState, blocked_by_policy, requested, unavailable, syncing, available, DocSearchPhase,
  loading, searching, ready,
}
use samod.Dialer.{
  DialerState, DialerStatus, need_transport, transport_pending, connected, waiting_to_retry, failed,
}

pub record ActorInfo : Type 0 where
  pub actor_id : DocumentActorId
  pub document_id : DocumentId
  pub search_phase : DocSearchPhase

abbrev pub new_with_id : DocumentActorId → DocumentId → ActorInfo
new_with_id actor_id document_id = record {
  actor_id = actor_id;
  document_id = document_id;
  search_phase = loading;
}

abbrev same_status : DialerStatus → DialerStatus → Bool
same_status need_transport need_transport = true
same_status transport_pending transport_pending = true
same_status (connected a) (connected b) = a == b
same_status (waiting_to_retry a) (waiting_to_retry b) = a == b
same_status failed failed = true
same_status _ _ = false

abbrev same_request : PeerRequestState → PeerRequestState → Bool
same_request blocked_by_policy blocked_by_policy = true
same_request requested requested = true
same_request unavailable unavailable = true
same_request syncing syncing = true
same_request available available = true
same_request _ _ = false

-- `HashMap`'s equality: as many entries, and each of one under its key in the other.
module _ {V : Type 0} (same : V → V → Bool) where
  abbrev found_as : V → Option V → Bool
  found_as v none = false
  found_as v (some w) = same v w

  abbrev all_found : Map ℕ V → Map ℕ V → Bool
  all_found [] n = true
  all_found ((k, v) ∷ m) n = found_as v (get k n) && all_found m n

  unfoldable pub same_map : Map ℕ V → Map ℕ V → Bool
  same_map m n = length m == length n && all_found m n

unfoldable pub same_phase : DocSearchPhase → DocSearchPhase → Bool
unfolding same_map
same_phase loading loading = true
same_phase (searching m) (searching n) = same_map same_request m n
same_phase ready ready = true
same_phase _ _ = false

pub record Searches : Type 0 where
  pub phases : Map DocumentActorId DocSearchPhase
  pub last_dialers : Map DialerId DialerStatus

abbrev pub new : Searches
new = record { phases = []; last_dialers = [] }

abbrev pub add_search : DocumentActorId → DocSearchPhase → Searches → Searches
add_search actor phase s = record s { phases = insert actor phase s.phases }

abbrev statuses : Map DialerId DialerState → Map DialerId DialerStatus
statuses [] = []
statuses ((id, d) ∷ rest) = (id, d.status) ∷ statuses rest

abbrev was_phase : Option DocSearchPhase → DocSearchPhase → Bool
was_phase none phase = false
was_phase (some last) phase = same_phase last phase

-- The loop over the actors: the phases to remember, and the news.
unfoldable pub phase_news :
    Bool
    → Map DocumentActorId ActorInfo
    → Map DocumentActorId DocSearchPhase
    → Map DocumentActorId DocSearchPhase × Map DocumentActorId DocSearchPhase
phase_news dialers_changed [] phases = (phases, [])
phase_news dialers_changed ((actor_id, actor) ∷ rest) phases =
    let old = was_phase (get actor_id phases) actor.search_phase in
    let (phases', news) =
      phase_news dialers_changed rest (insert actor_id actor.search_phase phases) in
    (phases', (if not old || dialers_changed then (actor_id, actor.search_phase) ∷ news else news))

unfoldable pub pop_state_updates :
    Map DocumentActorId ActorInfo
    → Map DialerId DialerState
    → Searches
    → Searches × Map DocumentActorId DocSearchPhase
unfolding phase_news same_map same_phase
pop_state_updates actors dialers s =
    let new_dialer_state = statuses dialers in
    let dialers_changed = not (same_map same_status s.last_dialers new_dialer_state) in
    let (phases, news) = phase_news dialers_changed actors s.phases in
    (record { phases = phases; last_dialers = new_dialer_state }, news)
