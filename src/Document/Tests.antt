-- ===== src/Document/Tests.antt =====
-- A document actor on concrete input, with a library whose documents are the sets of their changes.
mod Sharing
use samod.Prelude.{
  ℕ, String, Bool, true, false, not, Option, none, some, List, [], ◌∷◌, ◌++◌, ◌≡◌, refl, ap, nat_eq,
  list_eq, option_beq, if◌then◌else◌, arith, map, ◌↔◌, ◌≢◌, inl, inr, Bool-cases, list_beq,
  string_eq, ◌⊎◌,
}
use samod.Prelude.Lists.{contains, filter, length, take, All}
use samod.Prelude.Map.{Map, get, insert, remove}
use samod.Prelude.Show.{show_u32}
use samod.Share.{share_all, publish}
use samod.Messages.{SyncMessage, send_sync_message}
use samod.Hub.Results.{SpawnArgs}
use samod.Hub.State.{RunState}
use samod.Document.Io.{StorageResult, DocumentIoResult, StorageTask, new_task}
use samod.Document.Library.{Automerge}
use samod.Document.Results
use samod.Document.OnDisk.{save_new_changes, mark_put_complete, task_complete}
use samod.Prelude.Panic.{◌>>=◌}
use samod.Document.Load
use samod.Document.Load.{Load, LoadComplete, new as new_load, handle_result, take_complete}
use samod.Document.Load.Complete.{begun, is_taken, load_either_order}
use samod.Document.Peer.{
  PeerDocConnection, generate_upto, new as new_peer_doc, ready,
  generate_sync_messages as generate_for_peer, set_share_config, receive_sync_message,
  prepare_request,
}
use samod.Document.Phases.{receive_ready, generate_ready}
use samod.Document.Actor.{DocumentActor, Turn, ActorInput}
use samod.Document.Actor.Calls.{Call, call, run_calls, call-IsAllowed, run_calls-Waits}
use samod.Document.Actor.Access.{policies, IsAllowed}
use samod.Document.Actor.Keep.{AllPeers}
use samod.Document.Actor.Panics.{is_unexpected, handle_input_panics_iff}
use samod.Document.Actor.Stop.{complete_puts, HasStopped, complete_puts-HasStopped}
use samod.Document.OnDisk.Runs.{
  Op, found_on_disk, saved, completed, Trace, start, run, TaskOk, IsWritten, step as step_on_disk,
}
use samod.Document.OnDisk.Deletions.{run_deletes-IsSuperceded}
use samod.Document.Peer.Buffer.{Waits}
use samod.Document.Request.{
  Request, new as new_request, Peer, requesting, awaiting_share_policy, decide_peer,
  share_policy_changed, outcome, peer_states,
}
use samod.Document.Request.Messages.{receive_message, generate_messages}
use samod.Document.Request.Asking.{AsksUnder, decide_peer-AsksUnder}
use samod.Document.Actor.Input.{
  initial_actor, new_actor, handle_message, handle_io_complete, handle_input, process,
}
use samod.Document.Actor.Step.{
  step, enqueue_share_policy_checks, generate_sync_messages, generate_each,
}
use samod.Document.Actor.Sync.{
  add_connection, remove_connection, apply_share_policy, handle_load, handle_sync_message,
}

-- Changes that one of the lists has and the other has not come last.
abbrev merge : List ℕ → List ℕ → List ℕ
merge d [] = d
merge d (c ∷ cs) = if contains d c then merge d cs else merge (d ++ c ∷ []) cs

abbrev without : List ℕ → List ℕ → List ℕ
without known d = filter (λ c. not (contains known c)) d

abbrev SyncState : Type 0
SyncState = Option (List ℕ) × Option (List ℕ)

abbrev next_message : List ℕ → SyncState → Option (List ℕ) × SyncState
next_message d (sent, theirs) =
    if option_beq sent (some d) then (none, (sent, theirs)) else (some d, (some d, theirs))

abbrev list_text : List ℕ → String
list_text d = show_u32 (length d)

-- The heads last sent and theirs are the state; a message is the sender's changes.
abbrev pub toy : Automerge
toy = record {
  Doc = List ℕ;
  Change = ℕ;
  SyncState = SyncState;
  Message = List ℕ;
  new_doc = [];
  get_heads = λ d. d;
  get_changes = λ d heads. without heads d;
  has_change = contains;
  save = λ d. d;
  load_incremental = λ chunk d. merge d chunk;
  change_text = show_u32;
  raw_bytes = λ c. c ∷ [];
  new_state = (none, none);
  new_read_only = (none, none);
  set_read_only = λ read_only s. s;
  set_last_sent_heads = λ heads s. (some heads, s.1);
  shared_heads = λ s. [];
  state_their_heads = λ s. s.1;
  is_peer_read_only = λ s. false;
  receive = λ msg d s. (true, merge d msg, (s.0, some msg));
  generate = next_message;
  message_heads = λ msg. msg;
  decode = λ bytes. some bytes;
  encode = λ msg. msg;
  document_text = show_u32;
  compaction_text = list_text;
}

abbrev pub args : SpawnArgs (List ℕ)
args = record {
  local_peer_id = "alice";
  actor_id = 4;
  document_id = 9;
  initial_content = none;
  initial_connections = (0, ("bob", none)) ∷ [];
}

abbrev pub or_initial : Option (Turn toy) → Turn toy
or_initial none = (initial_actor args, Results.new 0)
or_initial (some turn) = turn

abbrev is_there : {A : Type 0} → Option A → Bool
is_there none = false
is_there (some x) = true

pub or_initial-some : (o : Option (Turn toy)) → is_there o ≡ true → o ≡ some (or_initial o)
or_initial-some none h = ground (arith, h)
or_initial-some (some turn) h = refl

abbrev pub born : Turn toy
born = or_initial (new_actor 1 args 0)

-- The policy is decided, and the load finds nothing.
abbrev answers : List (Call toy × ℕ × ℕ)
answers =
    (
      Call.completion
          (record { task_id = 0; payload = DocumentIoResult.check_share_policy share_all }),
      2,
      3,
    )
    ∷ (
      Call.completion (record {
        task_id = 1;
        payload = DocumentIoResult.storage (StorageResult.load_range []);
      }),
      3,
      3,
    )
    ∷ (
      Call.completion (record {
        task_id = 2;
        payload = DocumentIoResult.storage (StorageResult.load_range []);
      }),
      4,
      3,
    )
    ∷ []

abbrev or_born : Option (DocumentActor toy) → DocumentActor toy
or_born none = born.0
or_born (some a) = a

or_born-some : (o : Option (DocumentActor toy)) → is_there o ≡ true → o ≡ some (or_born o)
or_born-some none h = ground (arith, h)
or_born-some (some a) h = refl

abbrev last_answer : Call toy
last_answer =
    Call.completion
      (record { task_id = 2; payload = DocumentIoResult.storage (StorageResult.load_range []) })

abbrev waiting : DocumentActor toy
waiting = or_born (run_calls (take 2 answers) born.0)

abbrev asking : DocumentActor toy
asking = or_born (run_calls answers born.0)

-- Bob is asked for the document once nothing is found.
abbrev asked : Turn toy
asked = or_initial (call last_answer 4 3 waiting)

asked_test : take 1 asked.1.outgoing_messages ≡ send_sync_message 0 9 (SyncMessage.request []) ∷ []
unfolding new_actor step enqueue_share_policy_checks generate_sync_messages generate_each
    save_new_changes Load.step insert get remove add_connection call run_calls handle_message
    handle_io_complete handle_input process apply_share_policy set_share_config share_policy_changed
    handle_load handle_sync_message receive_message receive_sync_message receive_ready
    generate_ready generate_messages generate_upto prepare_request outcome peer_states Load.has_task
    Load.handle_result Load.take_complete mark_put_complete task_complete remove_connection
asked_test = refl

call-IsAllowed_example :
    All (IsAllowed (policies asked.0.peer_connections)) asked.1.outgoing_messages
unfolding new_actor step enqueue_share_policy_checks generate_sync_messages generate_each
    save_new_changes Load.step insert get remove add_connection call run_calls handle_message
    handle_io_complete handle_input process apply_share_policy set_share_config share_policy_changed
    handle_load handle_sync_message receive_message receive_sync_message receive_ready
    generate_ready generate_messages generate_upto prepare_request outcome peer_states Load.has_task
    Load.handle_result Load.take_complete mark_put_complete task_complete remove_connection
call-IsAllowed_example =
    call-IsAllowed last_answer 4 3 waiting asked
      (or_initial-some (call last_answer 4 3 waiting) refl)

run_calls-Waits_example : AllPeers Waits asking
unfolding new_actor step enqueue_share_policy_checks generate_sync_messages generate_each
    save_new_changes Load.step insert get remove add_connection call run_calls handle_message
    handle_io_complete handle_input process apply_share_policy set_share_config share_policy_changed
    handle_load handle_sync_message receive_message receive_sync_message receive_ready
    generate_ready generate_messages generate_upto prepare_request outcome peer_states Load.has_task
    Load.handle_result Load.take_complete mark_put_complete task_complete remove_connection
run_calls-Waits_example =
    run_calls-Waits 1 args 0 born answers asking (or_initial-some (new_actor 1 args 0) refl)
      (or_born-some (run_calls answers born.0) refl)

handle_input_panics_iff_example :
    (handle_input 5 (ActorInput.new_connection 0 "bob") (asking, Results.new 3) ≡ none)
    ↔ (is_unexpected (ActorInput.new_connection 0 "bob") asking ≡ true)
handle_input_panics_iff_example =
    handle_input_panics_iff 5 (ActorInput.new_connection 0 "bob") (asking, Results.new 3)

abbrev two_puts : Map ℕ (List String)
two_puts = (7, "9" ∷ "incremental" ∷ "1" ∷ []) ∷ (8, "9" ∷ "incremental" ∷ "2" ∷ []) ∷ []

abbrev leaving : DocumentActor toy
leaving = record asking {
  run_state = RunState.stopping;
  on_disk_state = record asking.on_disk_state { running_puts = two_puts };
}

complete_puts-HasStopped_example :
    (turn : Turn toy) × (complete_puts 6 two_puts (leaving, Results.new 9) ≡ some turn)
    × HasStopped turn
unfolding new_actor step enqueue_share_policy_checks generate_sync_messages generate_each
    save_new_changes Load.step insert get remove add_connection call run_calls handle_message
    handle_io_complete handle_input process apply_share_policy set_share_config share_policy_changed
    handle_load handle_sync_message receive_message receive_sync_message receive_ready
    generate_ready generate_messages generate_upto prepare_request outcome peer_states Load.has_task
    Load.handle_result Load.take_complete mark_put_complete task_complete remove_connection
complete_puts-HasStopped_example =
    complete_puts-HasStopped 6 two_puts (leaving, Results.new 9) (refl, (refl, tt))
      (refl, refl, (refl, (refl, (refl, tt))))

abbrev eleven_keys : List (List String)
eleven_keys =
    map (λ n. "9" ∷ "incremental" ∷ show_u32 n ∷ [])
      (1 ∷ 2 ∷ 3 ∷ 4 ∷ 5 ∷ 6 ∷ 7 ∷ 8 ∷ 9 ∷ 10 ∷ 11 ∷ [])

-- Eleven chunks are found, and compacted; when the snapshot is there they are deleted.
abbrev compaction : List (Op toy)
compaction =
    found_on_disk eleven_keys
    ∷ saved 9 (1 ∷ 2 ∷ [])
    ∷ completed 0 StorageResult.put
    ∷ saved 9 (1 ∷ 2 ∷ [])
    ∷ []

abbrev or_start : Option Trace → Trace
or_start none = start (Results.new 0)
or_start (some t) = t

abbrev compacted : Trace
compacted = or_start (run toy compaction (start (Results.new 0)))

compacted_test : length compacted.out.io_tasks ≡ 12
unfolding run step_on_disk save_new_changes task_complete mark_put_complete insert get remove
    show_u32
compacted_test = refl

run_deletes-IsSuperceded_example :
    All (TaskOk compacted.finished) compacted.out.io_tasks
    × All (IsWritten compacted.out.io_tasks) compacted.finished
unfolding run step_on_disk save_new_changes task_complete mark_put_complete insert get remove
    show_u32
run_deletes-IsSuperceded_example =
    run_deletes-IsSuperceded toy compaction (Results.new 0) compacted refl refl

abbrev bob : PeerDocConnection toy
bob = record (new_peer_doc toy "bob" 0) { share_policy = ready share_all }

abbrev search : Request
search = new_request 9 (bob ∷ [])

abbrev undecided : Peer
undecided = record { state = requesting awaiting_share_policy; policy_pending = true }

decide_peer-AsksUnder_example :
    AsksUnder (some publish) (decide_peer none publish undecided).state
    × ((decide_peer none publish undecided).policy_pending ≡ false)
    × ((decide_peer none publish undecided).state ≢ requesting awaiting_share_policy)
decide_peer-AsksUnder_example =
    decide_peer-AsksUnder none publish undecided (λ e. ground (arith, e))

load_either_order_example :
    let l = begun show_u32 5 9 in
    let both : Option LoadComplete × Load =
      (some (record { snapshots = []; incrementals = (("9" ∷ []), (1 ∷ [])) ∷ [] }), new_load 9) in
    ((Load.step show_u32 5 (Load.begin (new_load 9))).0
      ≡ new_task 5 (StorageTask.load_range ("9" ∷ "snapshot" ∷ []))
        ∷ new_task 6 (StorageTask.load_range ("9" ∷ "incremental" ∷ []))
        ∷ [])
    × ((Load.has_task 7 l ≡ true) ↔ ((◌≡◌ {A = ℕ} 5 7) ⊎ (◌≡◌ {A = ℕ} 6 7)))
    × (is_taken (handle_result 7 (StorageResult.load_range []) l) ≡ Load.has_task 7 l)
    × ((handle_result 5 (StorageResult.load_range []) l >>= λ l'.
          handle_result 6 (StorageResult.load_range ((("9" ∷ []), (1 ∷ [])) ∷ [])) l' >>= λ l''.
          some (take_complete l''))
        ≡ some both)
    × ((handle_result 6 (StorageResult.load_range ((("9" ∷ []), (1 ∷ [])) ∷ [])) l >>= λ l'.
          handle_result 5 (StorageResult.load_range []) l' >>= λ l''. some (take_complete l''))
        ≡ some both)
unfolding show_u32
load_either_order_example =
    load_either_order show_u32 5 9 [] ((("9" ∷ []), (1 ∷ [])) ∷ []) 7 [] (omega arith)
