-- ===== src/Hub/State/Reach.antt =====
-- What holds in every state that the hub of samod-core/src/actors/hub/state.rs reaches.
use samod.Prelude.{◌≡◌, refl, Option, some, List, [], ◌∷◌, arith, nat_eq}
use samod.Prelude.Map.{get, get-empty}
use samod.Prelude.Panic.{◌>>=◌}
use samod.Network.{DocumentActorId, PeerId, StorageId, UnixTimestamp}
use samod.Ephemera.{EphemeralSession}
use samod.Hub.Results.{no_results}
use samod.Hub.Searches.{ActorInfo}
use samod.Hub.State.{State, Turn, Counters, new}
use samod.Hub.State.Input.{Rng}
use samod.Hub.State.Event.{HubEvent, handle_event}
use samod.Hub.State.Registry.{Registered, Registered-unique}
use samod.Hub.State.Upkeep.{FreshDraw}
use samod.Hub.State.Runs.{handle_event-Registered}

module _ {A : Type 0} where
  abbrev pub handle_one : Rng × UnixTimestamp × HubEvent A → State → Option (Turn A)
  handle_one (rng, now, event) s = handle_event rng now event (s, no_results A)

  -- The caller hands the hub one event after the other.
  unfoldable pub run_events : List (Rng × UnixTimestamp × HubEvent A) → State → Option State
  run_events [] s = some s
  run_events (e ∷ events) s = handle_one e s >>= λ turn. run_events events turn.0

  -- No event draws the identifier of a document that has an actor then.
  abbrev pub FreshDraws : List (Rng × UnixTimestamp × HubEvent A) → State → Type 0
  FreshDraws [] s = Unit
  FreshDraws (e ∷ events) s =
      FreshDraw e.0 s × ((turn : Turn A) → handle_one e s ≡ some turn → FreshDraws events turn.0)

  run_events-Registered :
      (events : List (Rng × UnixTimestamp × HubEvent A)) (s : State)
      → Registered s
      → FreshDraws events s
      → (s' : State) × (run_events events s ≡ some s') × Registered s'
  unfolding run_events
  run_events-Registered [] s h fresh = (s, refl, h)
  run_events-Registered ((rng, now, event) ∷ events) s h fresh =
      let (turn, e, h') = handle_event-Registered rng now event s (no_results A) fresh.0 h in
      let (s', e', h'') = run_events-Registered events turn.0 h' (fresh.1 turn e) in
      (s', rw e e', h'')

  -- From its first state the hub handles any sequence of events without a panic, and if no event
  -- draws the identifier of a document that has an actor then, two live actors never stand for the
  -- same document in the state reached.
  pub run_events-one_actor :
      (storage_id : StorageId) (peer_id : PeerId) (session : EphemeralSession) (counters : Counters)
      (events : List (Rng × UnixTimestamp × HubEvent A))
      → FreshDraws events (new storage_id peer_id session counters)
      → (s : State) × (run_events events (new storage_id peer_id session counters) ≡ some s)
        × ((a b : DocumentActorId) (x y : ActorInfo)
            → get a s.actors ≡ some x
            → get b s.actors ≡ some y
            → x.document_id ≡ y.document_id
            → a ≡ b)
  run_events-one_actor storage_id peer_id session counters events fresh =
      let first = new storage_id peer_id session counters in
      let (s, e, h) =
        run_events-Registered events first
          (λ a info f. ground (arith, f, get-empty {V = ActorInfo} a)) fresh in
      (s, e, λ a b x y f g same. Registered-unique s a b x y h f g same)
