-- ===== src/Document/OnDisk/Saves.antt =====
-- What a save keeps, and which deletes it issues: samod-core/src/actors/document/on_disk_state.rs.
use samod.Prelude.{
  true, Bool, ◌++◌, ◌==◌, arith, if_both, false, some, List, [], ◌∷◌, ◌⊎◌, ◌≡◌, refl, subst, inl,
  inr, nat_eq, string_eq, list_eq, Bool-cases,
}
use samod.Prelude.Lists.{All, All-snoc, any, contains, set_remove_gone}
use samod.Prelude.Panic.{some_cancel}
use samod.Network.{DocumentId}
use samod.Storage.{StorageKey}
use samod.Document.Library.{Automerge}
use samod.Document.OnDisk.{
  Compaction, Turn, track_put, track_delete, change_key, snapshot_key, drain_deletions, put_changes,
  start_compaction, put_new, is_compacting, eligible_for_compaction, saved_heads,
}
use samod.Document.OnDisk.Runs.{Finished, IsSuperceded, TaskOk, writes}
use samod.Document.Io.{IoTask, DocumentIoTask, StorageTask, new_task}
use samod.Network.{IoTaskId, Bytes}

-- The tasks of a turn stay issued.
abbrev pub Grows : Turn → Turn → Type 0
Grows turn turn' =
    (p : IoTask DocumentIoTask → Bool)
    → any p turn.1.io_tasks ≡ true
    → any p turn'.1.io_tasks ≡ true

any-snoc :
    (p : IoTask DocumentIoTask → Bool) (xs : List (IoTask DocumentIoTask))
    (x : IoTask DocumentIoTask)
    → any p xs ≡ true
    → any p (xs ++ x ∷ []) ≡ true
any-snoc p [] x h = ground (arith, h)
any-snoc p (y ∷ xs) x h = ground (arith, h, any-snoc p xs x)

writes_own :
    (id : IoTaskId) (key : StorageKey) (value : Bytes)
    → writes id key (new_task id (DocumentIoTask.storage (StorageTask.put key value))) ≡ true
writes_own id key value =
    let same_key : (key == key) ≡ true = (list_eq.same_iff key key).1 refl in
    ground (arith, nat_eq.same_iff id id, same_key)

any-last :
    (p : IoTask DocumentIoTask → Bool) (xs : List (IoTask DocumentIoTask))
    (x : IoTask DocumentIoTask)
    → p x ≡ true
    → any p (xs ++ x ∷ []) ≡ true
any-last p [] x h = ground (arith, h)
any-last p (y ∷ xs) x h = ground (arith, any-last p xs x h)

pub drain-Grows :
    (deletions : List StorageKey) (turn : Turn) → Grows turn (drain_deletions deletions turn)
drain-Grows [] turn p h = h
drain-Grows (deletion ∷ deletions) turn p h =
    drain-Grows deletions (track_delete deletion turn) p (any-snoc p turn.1.io_tasks _ h)

-- A turn that deletes nothing.
abbrev Quiet : List Finished → Turn → Turn → Type 0
Quiet finished (s, out) (s', out') =
    (s'.deletions ≡ s.deletions)
    × (All (TaskOk finished) out.io_tasks → All (TaskOk finished) out'.io_tasks)

module _ (am : Automerge) where
  put_changes-Quiet :
      (finished : List Finished) (doc_id : DocumentId) (changes : List am.Change) (turn : Turn)
      → Quiet finished turn (put_changes am doc_id changes turn)
        × ((put_changes am doc_id changes turn).0.compaction ≡ turn.0.compaction)
  put_changes-Quiet finished doc_id [] turn = ((refl, λ h. h), refl)
  put_changes-Quiet finished doc_id (change ∷ changes) turn =
      let next : Turn = track_put (change_key am doc_id change) (am.raw_bytes change) turn in
      let ((same, ok), compaction) = put_changes-Quiet finished doc_id changes next in
      ((same, λ h. ok (All-snoc (TaskOk finished) turn.1.io_tasks h tt)), compaction)

  put_changes-Grows :
      (doc_id : DocumentId) (changes : List am.Change) (turn : Turn)
      → Grows turn (put_changes am doc_id changes turn)
  put_changes-Grows doc_id [] turn p h = h
  put_changes-Grows doc_id (change ∷ changes) turn p h =
      put_changes-Grows doc_id changes
        (track_put (change_key am doc_id change) (am.raw_bytes change) turn) p
        (any-snoc p turn.1.io_tasks _ h)

  pub put_new-Grows :
      (doc_id : DocumentId) (doc : am.Doc) (turn : Turn) → Grows turn (put_new am doc_id doc turn)
  put_new-Grows doc_id doc turn p h =
      let changes = am.get_changes doc (saved_heads turn.0.last_saved_heads) in
      if_both Q (is_compacting am turn.0) (put_changes-Grows doc_id changes turn p h) (
        if_both Q (eligible_for_compaction am changes turn.0) (any-snoc p turn.1.io_tasks _ h)
          (put_changes-Grows doc_id changes turn p h))
    where
      Q : Turn → Type 0
      Q t = any p t.1.io_tasks ≡ true

  -- A save begins no compaction but one that spares its own snapshot and puts it.
  abbrev pub Spares : DocumentId → am.Doc → Turn → Turn → Type 0
  Spares doc_id doc (s, out) (s', out') =
      (s'.compaction ≡ s.compaction)
      ⊎ ((is_compacting am s ≡ false)
          × (any (writes out.next_task_id (snapshot_key am doc_id doc)) out'.io_tasks ≡ true)
          × ((c : Compaction)
              → s'.compaction ≡ some c
              → (contains c.supercedes (snapshot_key am doc_id doc) ≡ false)
                × (c.task ≡ out.next_task_id)))

  pub put_new-Quiet :
      (finished : List Finished) (doc_id : DocumentId) (doc : am.Doc) (turn : Turn)
      → Quiet finished turn (put_new am doc_id doc turn)
        × Spares doc_id doc turn (put_new am doc_id doc turn)
  put_new-Quiet finished doc_id doc turn = elim (Bool-cases (is_compacting am turn.0)) [
    | inl h ↦ let (quiet, same) = incremental in rw h (quiet, inl same)
    | inr h ↦ elim (Bool-cases (eligible_for_compaction am changes turn.0)) [
      | inl e ↦
          rw (h, e)
            (
              (refl, λ ok. All-snoc (TaskOk finished) turn.1.io_tasks ok tt),
              inr (refl, put_snapshot, spared),
            )
      | inr e ↦ let (quiet, same) = incremental in rw (h, e) (quiet, inl same)
    ]
  ]
    where
      changes : List am.Change
      changes = am.get_changes doc (saved_heads turn.0.last_saved_heads)

      incremental :
          Quiet finished turn (put_changes am doc_id changes turn)
          × ((put_changes am doc_id changes turn).0.compaction ≡ turn.0.compaction)
      incremental = put_changes-Quiet finished doc_id changes turn

      put_snapshot :
          any
            (writes turn.1.next_task_id (snapshot_key am doc_id doc))
            (start_compaction am doc_id doc turn).1.io_tasks
          ≡ true
      put_snapshot =
          any-last (writes turn.1.next_task_id (snapshot_key am doc_id doc)) turn.1.io_tasks _
            (writes_own turn.1.next_task_id (snapshot_key am doc_id doc) (am.save doc))

      spared :
          (c : Compaction)
          → (start_compaction am doc_id doc turn).0.compaction ≡ some c
          → (contains c.supercedes (snapshot_key am doc_id doc) ≡ false)
            × (c.task ≡ turn.1.next_task_id)
      spared c e =
          subst
            (λ c'.
              (contains c'.supercedes (snapshot_key am doc_id doc) ≡ false)
              × (c'.task ≡ turn.1.next_task_id))
            (some_cancel e) (set_remove_gone (snapshot_key am doc_id doc) turn.0.on_disk, refl)

pub drain-Ok :
    (finished : List Finished) (deletions : List StorageKey) (turn : Turn)
    → All (IsSuperceded finished) deletions
    → All (TaskOk finished) turn.1.io_tasks
    → ((drain_deletions deletions turn).0.deletions ≡ [])
      × ((drain_deletions deletions turn).0.compaction ≡ turn.0.compaction)
      × All (TaskOk finished) (drain_deletions deletions turn).1.io_tasks
drain-Ok finished [] turn h ok = (refl, refl, ok)
drain-Ok finished (deletion ∷ deletions) turn h ok =
    drain-Ok finished deletions (track_delete deletion turn) h.1
      (All-snoc (TaskOk finished) turn.1.io_tasks ok h.0)
