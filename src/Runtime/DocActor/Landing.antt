-- ===== src/Runtime/DocActor/Landing.antt =====
-- No question about a peer's sharing is lost between a document actor and the sharing decisions:
-- samod/src/doc_actor_inner.rs and samod/src/io_loop.rs.
use samod.Prelude.{ℕ, false, some, List, ◌++◌, ◌≡◌, nat_eq, string_eq, pair_eq}
use samod.Network.{UnixTimestamp}
use samod.Document.Library.{Automerge}
use samod.Document.Actor.{Turn}
use samod.Document.Actor.Calls.{Call, call}
use samod.Hub.Results.{SpawnArgs}
use samod.Document.Actor.Input.{new_actor}
use samod.Runtime.Policies.{Policies}
use samod.Runtime.DocActor.{Channels, DocActorInner, new_inner, handle_results, put_actor}
use samod.Runtime.DocActor.Steps.{Step, sent_of, AllLeavePeers}

-- A document actor from its creation, what its calls give being handled until it stops, and the
-- steps of the io loop in which what it sends is taken up in order among other calls, which leave
-- its peers alone.
pub data Lives {am : Automerge} (ch : Channels) (args : SpawnArgs am.Doc)
    : List Step → DocActorInner am → Type 0 where
  is_born :
      (now : UnixTimestamp) (n : ℕ) (turn : Turn am) (steps : List Step)
      → new_actor now args n ≡ some turn
      → turn.1.stopped ≡ false
      → sent_of steps
        ≡ (handle_results ch turn.1 (new_inner args.document_id args.actor_id turn.0)).0
      → AllLeavePeers args.actor_id steps
      → Lives ch args steps
          (handle_results ch turn.1 (new_inner args.document_id args.actor_id turn.0)).1
  goes_on :
      (before : List Step) (inner : DocActorInner am) (c : Call am) (now : UnixTimestamp) (n : ℕ)
      (turn : Turn am) (steps : List Step)
      → Lives ch args before inner
      → call c now n inner.actor ≡ some turn
      → turn.1.stopped ≡ false
      → sent_of steps ≡ (handle_results ch turn.1 (put_actor inner turn.0)).0
      → AllLeavePeers inner.actor_id steps
      → Lives ch args (before ++ steps) (handle_results ch turn.1 (put_actor inner turn.0)).1
