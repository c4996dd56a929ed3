-- ===== src/Document/Tests/Sharing.antt =====
-- The questions of a document actor about a new peer, on concrete input.
use samod.Prelude.{true, List, [], ◌∷◌, map, nat_eq, string_eq, list_eq, pair_eq}
use samod.Network.{DocumentId, PeerId}
use samod.Share.{ShareConfig, share_all}
use samod.Document.Load
use samod.Document.Actor.{Turn}
use samod.Document.Actor.Calls.{Call, call}
use samod.Document.Tests.{toy, or_initial, born}
use samod.Messages.{HubToDocMsg}
use samod.Runtime.Policies.Calls.{asked}
use samod.Runtime.DocActor.{Channels, DocActorInner, Sent, handle_results, new_inner, put_actor}
use samod.Runtime.DocActor.Steps.{Step, mine, other}

abbrev channels : Channels
channels = record { io = true; core = true; listens = λ l. true }

-- The actor is spawned with bob's connection.
abbrev spawned : List Sent × DocActorInner toy
spawned = handle_results channels born.1 (new_inner 9 4 born.0)

abbrev arrival : Call toy
arrival = Call.message (HubToDocMsg.new_connection 1 "carol")

abbrev arrived : Turn toy
arrived = or_initial (call arrival 2 5 born.0)

abbrev met : List Sent × DocActorInner toy
met = handle_results channels arrived.1 (put_actor spawned.1 arrived.0)

abbrev all_shared : DocumentId → PeerId → List ShareConfig
all_shared doc_id peer_id = share_all ∷ []

abbrev first_steps : List Step
first_steps = other (asked 7 8 "dave" 3) ∷ map mine spawned.0
