-- ===== src/Document/Actor/Stop.antt =====
-- How a document actor stops: samod-core/src/actors/document/document_actor.rs, `step`, with
-- on_disk_state.rs.
use samod.Prelude.{
  true, false, Option, none, some, [], ◌∷◌, ◌≡◌, refl, ap, ◌∙◌, nat_eq, arith, Option-cases, inl,
  inr,
}
use samod.Prelude.Lists.{All}
use samod.Prelude.Map.{Map, keys, get, remove, remove_absent}
use samod.Prelude.Panic.{◌>>=◌}
use samod.Network.{IoTaskId, UnixTimestamp}
use samod.Storage.{StorageKey}
use samod.Hub.State.{RunState}
use samod.Document.Io.{IoResult, StorageResult, DocumentIoResult}
use samod.Document.Library.{Automerge}
use samod.Document.Results.{DocActorResult}
use samod.Document.OnDisk
use samod.Document.OnDisk.{OnDiskState, mark_put_complete, task_complete, superceded}
use samod.Document.Load
use samod.Document.Load.{Load, take_complete}
use samod.Document.Actor.{DocumentActor, Turn, io_complete, tick}
use samod.Document.Actor.Step.{step, step_stopping}
use samod.Document.Actor.Input.{process, handle_input, complete_storage}

abbrev put_done : IoTaskId → IoResult DocumentIoResult
put_done id = record { task_id = id; payload = DocumentIoResult.storage StorageResult.put }

-- The puts are completed in the order of the map, and then there is a tick.
abbrev pub complete_puts :
    {am : Automerge} → UnixTimestamp → Map IoTaskId StorageKey → Turn am → Option (Turn am)
complete_puts now [] turn = handle_input now tick turn
complete_puts now ((id, key) ∷ puts) turn =
    handle_input now (io_complete (put_done id)) turn >>= complete_puts now puts

-- No identifier stands twice.
abbrev pub AreApart : Map IoTaskId StorageKey → Type 0
AreApart [] = Unit
AreApart ((id, key) ∷ puts) = (get id puts ≡ none) × AreApart puts

-- The load has nothing to hand over, and waits for none of the puts.
abbrev pub LeavesPuts : Load → Map IoTaskId StorageKey → Type 0
LeavesPuts load puts =
    (take_complete load ≡ (none, load)) × All (λ id. Load.has_task id load ≡ false) (keys puts)

mark_put_complete-puts :
    (id : IoTaskId) (key : StorageKey) (s : OnDiskState)
    → (mark_put_complete id key s).running_puts ≡ s.running_puts
unfolding mark_put_complete
mark_put_complete-puts id key s = elim (Option-cases (superceded id s)) [
  | inl other ↦ rw other refl
  | inr (supercedes, own) ↦ rw own refl
]

-- The put that comes first is the one that is taken out.
take_first :
    (id : IoTaskId) (key : StorageKey) (puts : Map IoTaskId StorageKey)
    → get id puts ≡ none
    → (get id ((id, key) ∷ puts) ≡ some key) × (remove id ((id, key) ∷ puts) ≡ puts)
unfolding get remove
take_first id key puts fresh = (
  ground (arith, nat_eq.same_iff id id),
  ground (arith, nat_eq.same_iff id id, remove_absent id puts fresh),
)

module _ {am : Automerge} where
  -- An actor that is stopping, with these puts running.
  abbrev pub IsStopping : Map IoTaskId StorageKey → DocumentActor am → Type 0
  IsStopping puts a =
      (a.run_state ≡ RunState.stopping)
      × (a.on_disk_state.running_puts ≡ puts)
      × LeavesPuts a.load_state puts

  abbrev pub HasStopped : Turn am → Type 0
  HasStopped (a, out) = (a.run_state ≡ RunState.stopped) × (out.stopped ≡ true)

  -- The actor when the put is complete.
  abbrev written : IoTaskId → StorageKey → DocumentActor am → DocumentActor am
  written id key a =
      let s = a.on_disk_state in
      record a {
        on_disk_state =
            mark_put_complete id key (record s { running_puts = remove id s.running_puts });
      }

  storage_done :
      (id : IoTaskId) (key : StorageKey) (turn : Turn am)
      → Load.has_task id turn.0.load_state ≡ false
      → get id turn.0.on_disk_state.running_puts ≡ some key
      → complete_storage id StorageResult.put turn ≡ some (written id key turn.0, turn.1)
  unfolding task_complete
  storage_done id key (a, out) no_load found =
      let has : OnDisk.has_task id a.on_disk_state ≡ true = ground (arith, found) in
      let done : task_complete id StorageResult.put a.on_disk_state
          ≡ some (written id key a).on_disk_state =
        rw found refl in
      rw (no_load, has, done) refl

  put_done-handled :
      (now : UnixTimestamp) (id : IoTaskId) (key : StorageKey) (turn : Turn am)
      → turn.0.run_state ≡ RunState.stopping
      → take_complete turn.0.load_state ≡ (none, turn.0.load_state)
      → Load.has_task id turn.0.load_state ≡ false
      → get id turn.0.on_disk_state.running_puts ≡ some key
      → handle_input now (io_complete (put_done id)) turn
        ≡ some (step_stopping (written id key turn.0, turn.1))
  unfolding handle_input process step
  put_done-handled now id key turn stopping no_result no_load found =
      rw (storage_done id key turn no_load found, no_result, stopping) refl

  -- With no put left the step stops the actor; with some it waits.
  stopping_step :
      (id : IoTaskId) (key : StorageKey) (puts : Map IoTaskId StorageKey) (turn : Turn am)
      → AreApart ((id, key) ∷ puts)
      → IsStopping ((id, key) ∷ puts) turn.0
      → (written id key turn.0).on_disk_state.running_puts ≡ puts
  stopping_step id key puts (a, out) apart (stopping, same, quiet) =
      let s = a.on_disk_state in
      mark_put_complete-puts id key (record s { running_puts = remove id s.running_puts })
      ∙ ap (remove id) same
      ∙ (take_first id key puts apart.0).1

  stopped_tick :
      (now : UnixTimestamp) (turn : Turn am)
      → HasStopped turn
      → handle_input now tick turn ≡ some turn
  unfolding handle_input process step
  stopped_tick now turn (stopped, said) = rw stopped refl

  flushed_step :
      (a : DocumentActor am) (out : DocActorResult)
      → a.on_disk_state.running_puts ≡ []
      → HasStopped (step_stopping (a, out))
  flushed_step a out none_left = rw none_left (refl, refl)

  busy_step :
      (a : DocumentActor am) (out : DocActorResult) (id : IoTaskId) (key : StorageKey)
      (puts : Map IoTaskId StorageKey)
      → a.on_disk_state.running_puts ≡ (id, key) ∷ puts
      → step_stopping (a, out) ≡ (a, out)
  busy_step a out id key puts left = rw left refl

  found_first :
      (id : IoTaskId) (key : StorageKey) (puts : Map IoTaskId StorageKey) (a : DocumentActor am)
      → AreApart ((id, key) ∷ puts)
      → a.on_disk_state.running_puts ≡ (id, key) ∷ puts
      → get id a.on_disk_state.running_puts ≡ some key
  found_first id key puts a apart same = ap (get id) same ∙ (take_first id key puts apart.0).0

  -- A document actor that is stopping stops once its running puts have completed, if its load awaits
  -- none of their tasks: their completions, in the order of the map, and one tick are handled without a panic, and leave it
  -- stopped, having said so.
  pub complete_puts-HasStopped :
      (now : UnixTimestamp) (puts : Map IoTaskId StorageKey) (turn : Turn am)
      → AreApart puts
      → IsStopping puts turn.0
      → (turn' : Turn am) × (complete_puts now puts turn ≡ some turn') × HasStopped turn'
  unfolding handle_input process step
  complete_puts-HasStopped now [] (a, out) apart (stopping, same, quiet) =
      (step_stopping (a, out), rw stopping refl, flushed_step a out same)
  complete_puts-HasStopped now ((id, key) ∷ []) (a, out) apart
        (stopping, same, (no_result, no_loads)) =
      let next : Turn am = step_stopping (written id key a, out) in
      let stopped =
        flushed_step (written id key a) out
          (stopping_step id key [] (a, out) apart (stopping, same, (no_result, no_loads))) in
      (
        next,
        ap (λ o. o >>= complete_puts now [])
              (put_done-handled now id key (a, out) stopping no_result no_loads.0
                (found_first id key [] a apart same))
            ∙ stopped_tick now next stopped,
        stopped,
      )
  complete_puts-HasStopped now ((id, key) ∷ (i, k) ∷ puts) (a, out) apart
        (stopping, same, (no_result, no_loads)) =
      let rest : Map IoTaskId StorageKey = (i, k) ∷ puts in
      let left = stopping_step id key rest (a, out) apart (stopping, same, (no_result, no_loads)) in
      let (turn', e, stopped) =
        complete_puts-HasStopped now ((i, k) ∷ puts) (written id key a, out) apart.1
          (stopping, left, (no_result, no_loads.1)) in
      (
        turn',
        ap (λ o. o >>= complete_puts now rest)
              (put_done-handled now id key (a, out) stopping no_result no_loads.0
                (found_first id key rest a apart same))
            ∙ ap (complete_puts now rest) (busy_step (written id key a) out i k puts left)
            ∙ e,
        stopped,
      )
