-- ===== src/Loader/Boot.antt =====
-- A repository is loaded from a storage: `load_hub` of samod/src/lib.rs around the loader of
-- samod-core/src/loader.rs.
use samod.Prelude.{
  ℕ, zero, suc, String, true, Option, none, some, List, [], ◌∷◌, ◌++◌, ◌≡◌, refl, sym, ap, ◌∙◌,
  ◌==◌, nat_eq, string_eq, list_eq, inl, inr, arith, Option-cases,
}
use samod.Prelude.Panic.{◌>>=◌}
use samod.Network.{Bytes, PeerId, StorageId}
use samod.Storage.{storage_id_path}
use samod.Hub.State.{State}
use samod.Document.Io.{StorageTask, StorageResult, IoTask}
use samod.Runtime.Storage.{Storage, IsLawful, dispatch_storage_task}
use samod.Loader.{
  SamodLoader, LoaderState, need_io, loaded, Draws, new, step, provide_io_result, read_id,
  loading_storage_id, storage_id_loaded, putting_storage_id, done, hub_of,
}

own_task : (task_id : ℕ) → (task_id == task_id) ≡ true
own_task task_id = (nat_eq.same_iff task_id task_id).1 refl

provide-load :
    (task_id : ℕ) (peer_id : PeerId) (value : Option Bytes)
    → provide_io_result
        (record { task_id = task_id; payload = StorageResult.load value })
        (record { local_peer_id = peer_id; state = loading_storage_id task_id })
      ≡ some (record { local_peer_id = peer_id; state = storage_id_loaded value })
unfolding provide_io_result
provide-load task_id peer_id value = ground (arith, own_task task_id)

provide-put :
    (task_id : ℕ) (peer_id : PeerId) (id : StorageId)
    → provide_io_result
        (record { task_id = task_id; payload = StorageResult.put })
        (record { local_peer_id = peer_id; state = putting_storage_id task_id id })
      ≡ some (record { local_peer_id = peer_id; state = done id })
unfolding provide_io_result
provide-put task_id peer_id id = ground (arith, own_task task_id)

module _ (from_utf8 : Bytes → Option String) (as_bytes : String → Bytes) (S : Storage) where
  -- The task that was begun first completes first.
  abbrev complete_one :
      (SamodLoader → List (IoTask StorageTask) → S.Contents → Option (State × S.Contents))
      → SamodLoader
      → List (IoTask StorageTask)
      → S.Contents
      → Option (State × S.Contents)
  complete_one more l [] s = none
  complete_one more l (task ∷ running) s =
      let (result, s') = dispatch_storage_task S task.action s in
      provide_io_result (record { task_id = task.task_id; payload = result }) l >>= λ l'.
      more l' running s'

  abbrev go_on :
      (SamodLoader → List (IoTask StorageTask) → S.Contents → Option (State × S.Contents))
      → List (IoTask StorageTask)
      → S.Contents
      → LoaderState × SamodLoader
      → Option (State × S.Contents)
  go_on more running s (need_io items, l) = complete_one more l (running ++ items) s
  go_on more running s (loaded hub, l) = some (hub, s)

  -- The loop; each turn draws what it needs. `none` is a panic, a wait for no task, or one turn too
  -- many.
  unfoldable pub load_hub :
      ℕ
      → (ℕ → Draws)
      → SamodLoader
      → List (IoTask StorageTask)
      → S.Contents
      → Option (State × S.Contents)
  load_hub zero draws l running s = none
  load_hub (suc n) draws l running s =
      go_on (load_hub n draws) running s (step from_utf8 as_bytes (draws n) l)

  -- The storage identifier that is there.
  abbrev pub stored_id : S.Contents → Option StorageId
  stored_id s = read_id from_utf8 as_bytes (S.load storage_id_path s)

  -- A repository whose storage has a readable identifier is loaded with it, and its storage is
  -- left as it is.
  pub load_hub-stored :
      (n : ℕ) (draws : ℕ → Draws) (peer_id : PeerId) (s : S.Contents) (id : StorageId)
      → stored_id s ≡ some id
      → (hub : State) × (load_hub (suc (suc n)) draws (new peer_id) [] s ≡ some (hub, s))
        × (hub.storage_id ≡ id)
  unfolding load_hub step
  load_hub-stored n draws peer_id s id e = (
    hub_of (new peer_id) (draws n) id,
    rw (provide-load (draws (suc n)).task_id peer_id (S.load storage_id_path s), e) refl,
    refl,
  )

  pub load_hub-fresh :
      (n : ℕ) (draws : ℕ → Draws) (peer_id : PeerId) (s : S.Contents)
      → stored_id s ≡ none
      → (hub : State) × (load_hub (suc (suc (suc n))) draws (new peer_id) [] s
          ≡ some (hub, S.put storage_id_path (as_bytes (draws (suc n)).storage_id) s))
        × (hub.storage_id ≡ (draws (suc n)).storage_id)
  unfolding load_hub step
  load_hub-fresh n draws peer_id s e = (
    hub_of (new peer_id) (draws n) (draws (suc n)).storage_id,
    rw
        (
          provide-load (draws (suc (suc n))).task_id peer_id (S.load storage_id_path s),
          e,
          provide-put (draws (suc n)).task_id peer_id (draws (suc n)).storage_id,
        )
        refl,
    refl,
  )

  -- What a boot leaves: the repository's identifier is the one in its storage.
  abbrev Boots : ℕ → (ℕ → Draws) → PeerId → S.Contents → State → S.Contents → Type 0
  Boots n draws peer_id s hub s' =
      load_hub (suc (suc (suc n))) draws (new peer_id) [] s ≡ some (hub, s')

  load_hub-Boots :
      (n : ℕ) (draws : ℕ → Draws) (peer_id : PeerId) (s : S.Contents)
      → IsLawful S
      → from_utf8 (as_bytes (draws (suc n)).storage_id) ≡ some (draws (suc n)).storage_id
      → (hub : State) × ((s' : S.Contents) × (Boots n draws peer_id s hub s')
          × (stored_id s' ≡ some hub.storage_id))
  load_hub-Boots n draws peer_id s lawful utf8 = elim (Option-cases (stored_id s)) [
    | inl fresh ↦
        (let (hub, e, same) = load_hub-fresh n draws peer_id s fresh in
          let id = (draws (suc n)).storage_id in
          (
            hub,
            (
              S.put storage_id_path (as_bytes id) s,
              e,
              rw (lawful.load-put storage_id_path storage_id_path (as_bytes id) s)
                  (utf8 ∙ ap some (sym same)),
            ),
          ))
    | inr (id, there) ↦
        (let (hub, e, same) = load_hub-stored (suc n) draws peer_id s id there in
          (hub, (s, e, there ∙ ap some (sym same))))
  ]

  -- A repository is loaded from any lawful storage, in at most three turns, and when it is loaded
  -- again from the storage as it was left, it has the same storage identifier, whatever is drawn
  -- then, if the text of the identifier first drawn is read back from its bytes.
  pub load_hub-again :
      (n : ℕ) (draws later : ℕ → Draws) (peer_id : PeerId) (s : S.Contents)
      → IsLawful S
      → from_utf8 (as_bytes (draws (suc n)).storage_id) ≡ some (draws (suc n)).storage_id
      → (hub : State) × ((s' : S.Contents) × ((hub' : State) × (Boots n draws peer_id s hub s')
            × (Boots n later peer_id s' hub' s')
            × (hub'.storage_id ≡ hub.storage_id)))
  load_hub-again n draws later peer_id s lawful utf8 =
      let (hub, (s', e, there)) = load_hub-Boots n draws peer_id s lawful utf8 in
      let (hub', f, same) = load_hub-stored (suc n) later peer_id s' hub.storage_id there in
      (hub, (s', (hub', e, f, same)))
