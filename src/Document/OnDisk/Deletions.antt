-- ===== src/Document/OnDisk/Deletions.antt =====
-- Which keys are deleted from the storage, over any run of a document's on-disk state:
-- samod-core/src/actors/document/on_disk_state.rs.
use samod.Prelude.{
  true, false, ◌||◌, ◌⊎◌, none, refl, some, List, [], ◌∷◌, ◌≡◌, subst, sym, ◌∙◌, ap, inl, inr,
  arith, ◌==◌, nat_eq, string_eq, list_eq, Bool-cases, Option-cases,
}
use samod.Prelude.Lists.{
  All, All-contains, any, contains, contains-set_insert, All-mono, set_insert,
}
use samod.Prelude.Map.{get, remove}
use samod.Prelude.Panic.{◌>>=◌, some_cancel}
use samod.Network.{DocumentId, IoTaskId}
use samod.Storage.{StorageKey}
use samod.Document.Io.{StorageTask, StorageResult, DocumentIoTask}
use samod.Document.Library.{Automerge}
use samod.Document.Results.{DocActorResult}
use samod.Document.OnDisk.{
  Compaction, extend, superceded, mark_put_complete, mark_delete_complete, task_complete, Turn,
  put_new, snapshot_key, save_new_changes, drain_deletions,
}
use samod.Document.OnDisk.Runs.{
  Finished, IsWritten, writes, IsSuperceded, ActionOk, TaskOk, Trace, start, noted, Op,
  found_on_disk, saved, completed, after_save, step, run,
}
use samod.Document.OnDisk.Saves.{Spares, put_new-Quiet, put_new-Grows, drain-Ok, drain-Grows}

pub record Inv (t : Trace) : Type 0 where
  pub apart :
      (c : Compaction)
      → t.state.compaction ≡ some c
      → (contains c.supercedes t.snapshot ≡ false) × (c.task ≡ t.writing)
  pub begun :
      (c : Compaction)
      → t.state.compaction ≡ some c
      → any (writes t.writing t.snapshot) t.out.io_tasks ≡ true
  pub written : All (IsWritten t.out.io_tasks) t.finished
  pub pending : (k : StorageKey) → contains t.state.deletions k ≡ true → IsSuperceded t.finished k
  pub issued : All (TaskOk t.finished) t.out.io_tasks

contains-extend :
    (set keys : List StorageKey) (k : StorageKey)
    → contains (extend set keys) k ≡ (contains set k || contains keys k)
contains-extend set [] k = ground arith
contains-extend set (key ∷ keys) k =
    ground (arith, contains-extend (set_insert key set) keys k, contains-set_insert key k set)

-- A key that a set gains when a compaction is finished is superseded by it.
gained-IsSuperceded :
    (task_id : IoTaskId) (snapshot : StorageKey) (supercedes : List StorageKey)
    (finished : List Finished) (key : StorageKey)
    → contains supercedes snapshot ≡ false
    → contains supercedes key ≡ true
    → IsSuperceded ((task_id, snapshot, supercedes) ∷ finished) key
gained-IsSuperceded task_id snapshot supercedes finished key apart gained =
    elim (Bool-cases (snapshot == key)) [
      | inl same ↦
          ground (
            arith,
            apart,
            gained,
            ap (contains supercedes) ((list_eq.same_iff snapshot key).0 same),
          )
      | inr other ↦ ground (arith, other, gained)
    ]

IsSuperceded-more :
    (f : Finished) (finished : List Finished) (key : StorageKey)
    → IsSuperceded finished key
    → IsSuperceded (f ∷ finished) key
IsSuperceded-more f finished key h = ground (arith, h)

ActionOk-more :
    (f : Finished) (finished : List Finished) (action : DocumentIoTask)
    → ActionOk finished action
    → ActionOk (f ∷ finished) action
ActionOk-more f finished (DocumentIoTask.storage (StorageTask.delete key)) h =
    IsSuperceded-more f finished key h
ActionOk-more f finished (DocumentIoTask.storage (StorageTask.put key value)) h = tt
ActionOk-more f finished (DocumentIoTask.storage (StorageTask.load key)) h = tt
ActionOk-more f finished (DocumentIoTask.storage (StorageTask.load_range prefix)) h = tt
ActionOk-more f finished (DocumentIoTask.check_share_policy peer_id) h = tt

module _ (am : Automerge) where
  apart_after :
      (doc_id : DocumentId) (doc : am.Doc) (t : Trace)
      → Inv t
      → Spares am doc_id doc (t.state, t.out) (put_new am doc_id doc (t.state, t.out))
      → (c : Compaction) → (put_new am doc_id doc (t.state, t.out)).0.compaction ≡ some c
      → (contains c.supercedes (after_save am doc_id doc t).snapshot ≡ false)
        × (c.task ≡ (after_save am doc_id doc t).writing)
  apart_after doc_id doc t h (inl same) c e = elim (Option-cases t.state.compaction) [
    | inl idle ↦ ground (arith, idle, same, e)
    | inr (c', busy) ↦ rw busy (h.apart c (sym same ∙ e))
  ]
  apart_after doc_id doc t h (inr (idle, put, spared)) c e = rw idle (spared c e)

  begun_after :
      (doc_id : DocumentId) (doc : am.Doc) (t : Trace)
      → Inv t
      → Spares am doc_id doc (t.state, t.out) (put_new am doc_id doc (t.state, t.out))
      → (c : Compaction) → (put_new am doc_id doc (t.state, t.out)).0.compaction ≡ some c
      → let t' = after_save am doc_id doc t in
        any (writes t'.writing t'.snapshot) (put_new am doc_id doc (t.state, t.out)).1.io_tasks
        ≡ true
  begun_after doc_id doc t h (inl same) c e = elim (Option-cases t.state.compaction) [
    | inl idle ↦ ground (arith, idle, same, e)
    | inr (c', busy) ↦
        (let kept : writes t'.writing t'.snapshot ≡ writes t.writing t.snapshot = rw busy refl in
          subst (λ p. any p (put_new am doc_id doc (t.state, t.out)).1.io_tasks ≡ true) (sym kept)
            (put_new-Grows am doc_id doc (t.state, t.out) (writes t.writing t.snapshot)
              (h.begun c (sym same ∙ e))))
  ]
    where
      t' : Trace
      t' = after_save am doc_id doc t
  begun_after doc_id doc t h (inr (idle, put, spared)) c e =
      subst (λ p. any p (put_new am doc_id doc (t.state, t.out)).1.io_tasks ≡ true) (sym kept) put
    where
      kept :
          writes (after_save am doc_id doc t).writing (after_save am doc_id doc t).snapshot
          ≡ writes t.out.next_task_id (snapshot_key am doc_id doc)
      kept = rw idle refl

  after_save-Inv :
      (doc_id : DocumentId) (doc : am.Doc) (t : Trace) → Inv t → Inv (after_save am doc_id doc t)
  unfolding save_new_changes
  after_save-Inv doc_id doc t h =
      let turn : Turn = put_new am doc_id doc (t.state, t.out) in
      let ((same, ok), spares) = put_new-Quiet am t.finished doc_id doc (t.state, t.out) in
      let all : All (IsSuperceded t.finished) turn.0.deletions =
        All-contains (IsSuperceded t.finished) turn.0.deletions (
          subst (λ ds. (k : StorageKey) → contains ds k ≡ true → IsSuperceded t.finished k)
            (sym same) h.pending) in
      let (none_left, kept, ok') = drain-Ok t.finished turn.0.deletions turn all (ok h.issued) in
      record {
        apart = λ c e. apart_after doc_id doc t h spares c (sym kept ∙ e);
        begun = λ c e.
            drain-Grows turn.0.deletions turn _
              (begun_after doc_id doc t h spares c (sym kept ∙ e));
        written =
            All-mono (IsWritten t.out.io_tasks)
              (IsWritten (drain_deletions turn.0.deletions turn).1.io_tasks)
              (λ f g.
                drain-Grows turn.0.deletions turn _
                  (put_new-Grows am doc_id doc (t.state, t.out) _ g))
              t.finished h.written;
        pending = λ k m. ground (arith, none_left, m);
        issued = ok';
      }

  -- What the state takes to be superseded is what the compaction supersedes whose snapshot the task
  -- has written.
  finishes :
      (task_id : IoTaskId) (t : Trace)
      → Inv t
      → ((superceded task_id t.state ≡ none) × (noted task_id t ≡ t.finished))
        ⊎ ((supercedes : List StorageKey) × (superceded task_id t.state ≡ some supercedes)
            × (noted task_id t ≡ (t.writing, t.snapshot, supercedes) ∷ t.finished)
            × (contains supercedes t.snapshot ≡ false)
            × IsWritten t.out.io_tasks (t.writing, t.snapshot, supercedes))
  finishes task_id t h = elim (Option-cases t.state.compaction) [
    | inl idle ↦ inl (rw idle refl, rw idle refl)
    | inr (c, busy) ↦
        (let (spared, same) = h.apart c busy in
          elim (Bool-cases (c.task == task_id)) [
            | inl own ↦ inr (
              c.supercedes,
              rw (busy, own) refl,
              rw (busy, (sym (ap (λ id. id == task_id) same) ∙ own)) refl,
              spared,
              h.begun c busy,
            )
            | inr other ↦ inl (
              rw (busy, other) refl,
              rw (busy, (sym (ap (λ id. id == task_id) same) ∙ other)) refl,
            )
          ])
  ]

  -- The put of a task is complete, where the compaction is to be finished or not.
  put_complete-Inv :
      (task_id : IoTaskId) (key : StorageKey) (t : Trace)
      → Inv t
      → Inv (record t {
        state =
            mark_put_complete task_id key
              (record t.state { running_puts = remove task_id t.state.running_puts });
        finished = noted task_id t;
      })
  unfolding mark_put_complete
  put_complete-Inv task_id key t h = elim (finishes task_id t h) [
    | inl (other, same) ↦
        rw (other, same)
          (record {
            apart = h.apart;
            begun = h.begun;
            written = h.written;
            pending = h.pending;
            issued = h.issued;
          })
    | inr (supercedes, own, now, spared, put) ↦
        rw (own, now)
          (record {
            apart = λ c e. ground (arith, e);
            begun = λ c e. ground (arith, e);
            written = (put, h.written);
            pending = λ k m. elim (Bool-cases (contains supercedes k)) [
              | inl gained ↦
                  gained-IsSuperceded t.writing t.snapshot supercedes t.finished k spared gained
              | inr old ↦
                  IsSuperceded-more (t.writing, t.snapshot, supercedes) t.finished k
                    (h.pending k
                      (ground (arith, old, m, contains-extend t.state.deletions supercedes k)))
            ];
            issued =
                All-mono (TaskOk t.finished)
                  (TaskOk ((t.writing, t.snapshot, supercedes) ∷ t.finished))
                  (λ task. ActionOk-more (t.writing, t.snapshot, supercedes) t.finished task.action)
                  t.out.io_tasks h.issued;
          })
  ]

  completed-Inv :
      (task_id : IoTaskId) (result : StorageResult) (t t' : Trace)
      → Inv t
      → step am (completed task_id result) t ≡ some t'
      → Inv t'
  unfolding step task_complete
  completed-Inv task_id StorageResult.put t t' h e =
      elim (Option-cases (get task_id t.state.running_puts)) [
        | inl absent ↦ ground (arith, absent, e)
        | inr (key, found) ↦ subst Inv (ground (arith, found, e)) (put_complete-Inv task_id key t h)
      ]
  completed-Inv task_id StorageResult.delete t t' h e =
      elim (Option-cases (get task_id t.state.running_deletes)) [
        | inl absent ↦ ground (arith, absent, e)
        | inr (key, found) ↦
            (let next : Trace = record t {
              state =
                  mark_delete_complete key
                    (record t.state { running_deletes = remove task_id t.state.running_deletes });
            } in
              subst Inv {x = next} (ground (arith, found, e)) (record {
                apart = h.apart;
                begun = h.begun;
                written = h.written;
                pending = h.pending;
                issued = h.issued;
              }))
      ]
  completed-Inv task_id (StorageResult.load value) t t' h e = ground (arith, e)
  completed-Inv task_id (StorageResult.load_range values) t t' h e = ground (arith, e)

  step-Inv : (op : Op am) (t t' : Trace) → Inv t → step am op t ≡ some t' → Inv t'
  unfolding step
  step-Inv (found_on_disk contents) t t' h e = subst Inv (some_cancel e) (record {
    apart = h.apart;
    begun = h.begun;
    written = h.written;
    pending = h.pending;
    issued = h.issued;
  })
  step-Inv (saved doc_id doc) t t' h e = subst Inv (some_cancel e) (after_save-Inv doc_id doc t h)
  step-Inv (completed task_id result) t t' h e = completed-Inv task_id result t t' h e

  run-Inv : (ops : List (Op am)) (t t' : Trace) → Inv t → run am ops t ≡ some t' → Inv t'
  unfolding run
  run-Inv [] t t' h e = subst Inv (some_cancel e) h
  run-Inv (op ∷ ops) t t' h e = elim (Option-cases (step am op t)) [
    | inl panics ↦ ground (arith, panics, e)
    | inr (next, f) ↦
        run-Inv ops next t' (step-Inv op t next h f) (sym (ap (λ o. o >>= run am ops) f) ∙ e)
  ]

  -- In any run of a document's on-disk state from its start, every delete that is issued is for a
  -- key that a compaction supersedes whose snapshot has another key and has been written: the task
  -- that writes it, the next in turn when the compaction was begun, was issued as a put of the
  -- snapshot's key, and has been completed as a put.
  pub run_deletes-IsSuperceded :
      (ops : List (Op am)) (out : DocActorResult) (t : Trace)
      → out.io_tasks ≡ []
      → run am ops (start out) ≡ some t
      → All (TaskOk t.finished) t.out.io_tasks × All (IsWritten t.out.io_tasks) t.finished
  run_deletes-IsSuperceded ops out t fresh e =
      let inv : Inv t =
        run-Inv ops (start out) t
          (record {
            apart = λ c f. ground (arith, f);
            begun = λ c f. ground (arith, f);
            written = tt;
            pending = λ k f. ground (arith, f);
            issued = rw fresh tt;
          })
          e in
      (inv.issued, inv.written)
