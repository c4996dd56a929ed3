-- ===== src/Document/Load/Complete.antt =====
-- A load completes with what both its tasks have read: samod-core/src/actors/document/load.rs.
use samod.Prelude.{
  ℕ, ◌<◌, ◌^◌, String, Bool, true, false, ◌||◌, Option, none, some, [], ◌∷◌, ◌≡◌, refl, sym, nat_eq,
  arith, ◌≢◌, ◌==◌, ◌↔◌, ◌⊎◌, inl, inr, Bool-cases,
}
use samod.Prelude.Panic.{◌>>=◌}
use samod.Network.{DocumentId, IoTaskId}
use samod.Document.Io.{StorageTask, StorageResult, new_task, next_id}
use samod.Document.Load.{
  Chunks, Load, waiting_for_results, LoadComplete, new, begin, step, has_task, handle_result,
  take_complete,
}

-- The load of a document after its first step, where the counter stands at `n`.
abbrev pub begun : (DocumentId → String) → ℕ → DocumentId → Load
begun document_text n doc_id = (step document_text n (begin (new doc_id))).2

moves : (n : ℕ) → n < 2 ^ 64 → next_id n ≢ n
moves n h e = omega (arith, h, e)

either_task :
    (n m task_id : IoTaskId)
    → ((n == task_id || m == task_id) ≡ true) ↔ ((n ≡ task_id) ⊎ (m ≡ task_id))
either_task n m task_id = (
  λ h. elim (Bool-cases (n == task_id)) [
    | inl same ↦ inl ((nat_eq.same_iff n task_id).0 same)
    | inr other ↦ inr ((nat_eq.same_iff m task_id).0 (ground (arith, h, other)))
  ],
  λ h. ground (arith, h, nat_eq.same_iff n task_id, nat_eq.same_iff m task_id),
)

abbrev pub is_taken : Option Load → Bool
is_taken none = false
is_taken (some l) = true

taken-awaited :
    (doc_id : DocumentId) (n m task_id : IoTaskId) (values : Chunks)
    → let l : Load = record { doc_id = doc_id; state = waiting_for_results n m none none } in
      is_taken (handle_result task_id (StorageResult.load_range values) l) ≡ has_task task_id l
unfolding handle_result has_task
taken-awaited doc_id n m task_id values = ground (
  arith,
  nat_eq.same_iff task_id n,
  nat_eq.same_iff task_id m,
  nat_eq.same_iff n task_id,
  nat_eq.same_iff m task_id,
)

handed_over :
    (doc_id : DocumentId) (n m : IoTaskId) (snapshots incrementals : Chunks)
    → n ≢ m
    → let l : Load = record { doc_id = doc_id; state = waiting_for_results n m none none } in
      let both : Option LoadComplete × Load =
        (some (record { snapshots = snapshots; incrementals = incrementals }), new doc_id) in
      ((handle_result n (StorageResult.load_range snapshots) l >>= λ l'.
      handle_result m (StorageResult.load_range incrementals) l' >>= λ l''.
      some (take_complete l''))
        ≡ some both)
      × ((handle_result m (StorageResult.load_range incrementals) l >>= λ l'.
            handle_result n (StorageResult.load_range snapshots) l' >>= λ l''.
            some (take_complete l''))
          ≡ some both)
unfolding handle_result take_complete
handed_over doc_id n m snapshots incrementals apart = (
  ground (arith, apart, nat_eq.same_iff n n, nat_eq.same_iff m m, nat_eq.same_iff m n),
  ground (arith, apart, nat_eq.same_iff n n, nat_eq.same_iff m m, nat_eq.same_iff m n),
)

-- A load that begins dispatches just two tasks, which read everything under the document's
-- snapshot and incremental prefixes; these are the tasks that it awaits, and it takes what is read
-- for one of these and panics at the like for any other task. In either order of their completion,
-- once both have completed it hands over what each has read, and awaits nothing more. The counter
-- is below 2^64.
pub load_either_order :
    (document_text : DocumentId → String) (n : ℕ) (doc_id : DocumentId)
    (snapshots incrementals : Chunks) (task_id : IoTaskId) (values : Chunks)
    → n < 2 ^ 64
    → let l = begun document_text n doc_id in
      let both : Option LoadComplete × Load =
        (some (record { snapshots = snapshots; incrementals = incrementals }), new doc_id) in
      ((step document_text n (begin (new doc_id))).0
        ≡ new_task n (StorageTask.load_range (document_text doc_id ∷ "snapshot" ∷ []))
          ∷ new_task
              (next_id n)
              (StorageTask.load_range (document_text doc_id ∷ "incremental" ∷ []))
          ∷ [])
      × ((has_task task_id l ≡ true) ↔ ((n ≡ task_id) ⊎ (next_id n ≡ task_id)))
      × (is_taken (handle_result task_id (StorageResult.load_range values) l) ≡ has_task task_id l)
      × ((handle_result n (StorageResult.load_range snapshots) l >>= λ l'.
            handle_result (next_id n) (StorageResult.load_range incrementals) l' >>= λ l''.
            some (take_complete l''))
          ≡ some both)
      × ((handle_result (next_id n) (StorageResult.load_range incrementals) l >>= λ l'.
            handle_result n (StorageResult.load_range snapshots) l' >>= λ l''.
            some (take_complete l''))
          ≡ some both)
unfolding step has_task
load_either_order document_text n doc_id snapshots incrementals task_id values h =
    let (one_way, other_way) =
      handed_over doc_id n (next_id n) snapshots incrementals (λ e. moves n h (sym e)) in
    (
      refl,
      either_task n (next_id n) task_id,
      taken-awaited doc_id n (next_id n) task_id values,
      one_way,
      other_way,
    )
