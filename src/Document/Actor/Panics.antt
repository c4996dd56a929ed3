-- ===== src/Document/Actor/Panics.antt =====
-- When a document actor panics: samod-core/src/actors/document/document_actor.rs, with load.rs and
-- on_disk_state.rs.
use samod.Prelude.{
  Bool, true, false, not, Option, none, some, ◌≡◌, ◌↔◌, refl, sym, ◌∙◌, nat_eq, arith, ◌==◌,
  Bool-cases, Option-cases, inl, inr, if◌then◌else◌,
}
use samod.Prelude.Map.{get, contains_key}
use samod.Prelude.Panic.{◌>>=◌}
use samod.Network.{DocumentId, IoTaskId, UnixTimestamp}
use samod.Document.Io.{StorageResult, DocumentIoResult}
use samod.Document.Library.{Automerge}
use samod.Document.OnDisk
use samod.Document.OnDisk.{OnDiskState, task_complete}
use samod.Document.Load
use samod.Document.Load.{Load, LoadState, after_result, handle_result}
use samod.Document.Actor.{
  DocumentActor, Turn, ActorInput, new_connection, io_complete, update_share_policy, terminate,
  handle_doc_message, connection_closed, tick,
}
use samod.Document.Actor.Sync.{add_connection}
use samod.Document.Actor.Input.{
  process, process_io, handle_input, complete_storage, after_io, and_step,
}

abbrev is_range : StorageResult → Bool
is_range (StorageResult.load_range values) = true
is_range _ = false

-- A put or a delete of this identifier is running, as the result says.
abbrev is_running : IoTaskId → StorageResult → OnDiskState → Bool
is_running id StorageResult.put s = contains_key id s.running_puts
is_running id StorageResult.delete s = contains_key id s.running_deletes
is_running id result s = false

module _ {am : Automerge} where
  -- The load waits for this task, and it is a range; or it is a put or a delete that is running.
  abbrev pub is_awaited : IoTaskId → StorageResult → DocumentActor am → Bool
  is_awaited id result a =
      if Load.has_task id a.load_state
      then is_range result
      else is_running id result a.on_disk_state

  abbrev is_misplaced : IoTaskId → DocumentIoResult → DocumentActor am → Bool
  is_misplaced id (DocumentIoResult.storage result) a = not (is_awaited id result a)
  is_misplaced id (DocumentIoResult.check_share_policy config) a = false

  -- A connection that is there already, or a result that nothing awaits.
  abbrev pub is_unexpected : ActorInput → DocumentActor am → Bool
  is_unexpected (new_connection id peer_id) a = contains_key id a.peer_connections
  is_unexpected (io_complete result) a = is_misplaced result.task_id result.payload a
  is_unexpected input a = false

-- Whether there is a result.
abbrev is_there : {A : Type 0} → Option A → Bool
is_there none = false
is_there (some x) = true

bind-there :
    {A B : Type 0} (o : Option A) (f : A → B) → is_there (o >>= λ a. some (f a)) ≡ is_there o
bind-there none f = refl
bind-there (some a) f = refl

after_result-there :
    (id : IoTaskId) (result : StorageResult) (state : LoadState) (doc_id : DocumentId)
    → Load.has_task id (record { doc_id = doc_id; state = state }) ≡ true
    → is_there (after_result id result state) ≡ is_range result
unfolding Load.has_task
after_result-there id (StorageResult.load_range values)
      (Load.waiting_for_results s i snapshots incrementals) doc_id h =
    elim (Bool-cases (id == s)) [
      | inl first ↦ ground (arith, first)
      | inr other ↦ elim (Bool-cases (id == i)) [
        | inl second ↦ ground (arith, other, second)
        | inr neither ↦ ground (
          arith,
          h,
          other,
          neither,
          nat_eq.same_iff s id,
          nat_eq.same_iff id s,
          nat_eq.same_iff i id,
          nat_eq.same_iff id i,
        )
      ]
    ]
after_result-there id (StorageResult.load_range values) Load.idle doc_id h = ground (arith, h)
after_result-there id (StorageResult.load_range values) Load.initial doc_id h = ground (arith, h)
after_result-there id (StorageResult.load_range values) (Load.complete snapshots incrementals)
      doc_id h =
    ground (arith, h)
after_result-there id (StorageResult.load value) state doc_id h = refl
after_result-there id StorageResult.put state doc_id h = refl
after_result-there id StorageResult.delete state doc_id h = refl

handle_result-there :
    (id : IoTaskId) (result : StorageResult) (l : Load)
    → Load.has_task id l ≡ true
    → is_there (handle_result id result l) ≡ is_range result
unfolding handle_result
handle_result-there id result l h =
    bind-there (after_result id result l.state) (λ state. record l { state = state })
    ∙ after_result-there id result l.state l.doc_id h

task_complete-there :
    (id : IoTaskId) (result : StorageResult) (s : OnDiskState)
    → is_there (task_complete id result s) ≡ is_running id result s
unfolding task_complete
task_complete-there id StorageResult.put s = elim (Option-cases (get id s.running_puts)) [
  | inl absent ↦ ground (arith, absent)
  | inr (key, found) ↦ ground (arith, found)
]
task_complete-there id StorageResult.delete s = elim (Option-cases (get id s.running_deletes)) [
  | inl absent ↦ ground (arith, absent)
  | inr (key, found) ↦ ground (arith, found)
]
task_complete-there id (StorageResult.load value) s = refl
task_complete-there id (StorageResult.load_range values) s = refl

-- A task that is not its own is none of a put or a delete that runs.
running-has_task :
    (id : IoTaskId) (result : StorageResult) (s : OnDiskState)
    → OnDisk.has_task id s ≡ false
    → is_running id result s ≡ false
running-has_task id StorageResult.put s h = ground (arith, h)
running-has_task id StorageResult.delete s h = ground (arith, h)
running-has_task id (StorageResult.load value) s h = refl
running-has_task id (StorageResult.load_range values) s h = refl

none_iff : {A : Type 0} (o : Option A) (b : Bool) → is_there o ≡ not b → (o ≡ none) ↔ (b ≡ true)
none_iff none true h = ground arith
none_iff none false h = ground (arith, h)
none_iff (some x) true h = ground (arith, h)
none_iff (some x) false h = ground arith

module _ {am : Automerge} where
  complete_storage-there :
      (id : IoTaskId) (result : StorageResult) (turn : Turn am)
      → is_there (complete_storage id result turn) ≡ is_awaited id result turn.0
  complete_storage-there id result (a, out) = elim (Bool-cases (Load.has_task id a.load_state)) [
    | inl loads ↦ rw loads (
        bind-there (handle_result id result a.load_state) (with_load (a, out))
        ∙ handle_result-there id result a.load_state loads)
    | inr other ↦ elim (Bool-cases (OnDisk.has_task id a.on_disk_state)) [
      | inl has ↦
          rw (other, has)
            (bind-there (task_complete id result a.on_disk_state) (with_disk (a, out))
              ∙ task_complete-there id result a.on_disk_state)
      | inr unknown ↦ rw (other, unknown) (sym (running-has_task id result a.on_disk_state unknown))
    ]
  ]
    where
      with_load : Turn am → Load → Turn am
      with_load (b, o) load = (record b { load_state = load }, o)

      with_disk : Turn am → OnDiskState → Turn am
      with_disk (b, o) on_disk = (record b { on_disk_state = on_disk }, o)

  process_io-there :
      (now : UnixTimestamp) (id : IoTaskId) (result : DocumentIoResult) (turn : Turn am)
      → is_there (process_io now id result turn) ≡ not (is_misplaced id result turn.0)
  process_io-there now id (DocumentIoResult.storage result) turn =
      bind-there (complete_storage id result turn) (λ t. (true, after_io now t))
      ∙ complete_storage-there id result turn
      ∙ ground arith
  process_io-there now id (DocumentIoResult.check_share_policy config) turn = refl

  process-there :
      (now : UnixTimestamp) (input : ActorInput) (turn : Turn am)
      → is_there (process now input turn) ≡ not (is_unexpected input turn.0)
  unfolding process add_connection
  process-there now (new_connection id peer_id) turn =
      elim (Bool-cases (contains_key id turn.0.peer_connections)) [
        | inl there ↦ rw there refl
        | inr fresh ↦ rw fresh refl
      ]
  process-there now (io_complete result) turn =
      process_io-there now result.task_id result.payload turn
  process-there now (update_share_policy peer_id config) turn = refl
  process-there now terminate turn = refl
  process-there now (handle_doc_message id msg at) turn = refl
  process-there now (connection_closed id) turn = refl
  process-there now tick turn = refl

  -- A document actor panics at exactly the inputs that are unexpected: a new connection that it has
  -- already, and a result of the storage that neither its load nor what it has on disk awaits, or
  -- that is not of the kind awaited.
  pub handle_input_panics_iff :
      (now : UnixTimestamp) (input : ActorInput) (turn : Turn am)
      → (handle_input now input turn ≡ none) ↔ (is_unexpected input turn.0 ≡ true)
  unfolding handle_input
  handle_input_panics_iff now input turn =
      none_iff (handle_input now input turn) (is_unexpected input turn.0)
        (bind-there (process now input turn) (and_step now) ∙ process-there now input turn)
