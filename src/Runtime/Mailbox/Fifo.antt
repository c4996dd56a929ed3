-- ===== src/Runtime/Mailbox/Fifo.antt =====
-- The mailbox is a queue: samod/src/doc_runner/threadpool.rs.
use samod.Prelude.{
  zero, suc, true, false, List, [], ◌∷◌, ◌++◌, ◌≡◌, ◌≢◌, refl, sym, ap, ◌∙◌, subst, ◌⊎◌, inl, inr,
  arith,
}
use samod.Prelude.Lists.{append_assoc}
use samod.Runtime.Mailbox.{
  Runner, at_loop, handling, World, idle, batch_size, dispatch, run_turn, Step, dispatches, runs,
}

-- The queue that the mailbox stands for: what is to be handled, in order, and what was.
abbrev pub Queue : Type 0 → Type 0
Queue Task = List Task × List Task

module _ {Task : Type 0} where
  -- What a runner has in hand.
  abbrev in_hand : Runner Task → List Task
  in_hand (at_loop n) = []
  in_hand (handling task n) = task ∷ []

  abbrev all_in_hand : List (Runner Task) → List Task
  all_in_hand [] = []
  all_in_hand (r ∷ runners) = in_hand r ++ all_in_hand runners

  abbrev pub queue : World Task → Queue Task
  queue w = (all_in_hand w.runners ++ w.mailbox.tasks, w.handled)

  -- What a step does to the queue: a dispatched task joins it at the end; a runner that handles a
  -- task handles the first; another turn of a runner leaves the queue as it is.
  abbrev pub Ran : Runner Task → Queue Task → Queue Task → Type 0
  Ran (at_loop n) q q' = q' ≡ q
  Ran (handling task n) q q' =
      (waiting : List Task) × (q ≡ (task ∷ waiting, q.1)) × (q' ≡ (waiting, q.1 ++ task ∷ []))

  abbrev pub QueueStep : (w w' : World Task) → Step w w' → Type 0
  QueueStep w w' (dispatches task) = queue w' ≡ ((queue w).0 ++ task ∷ [], (queue w).1)
  QueueStep w w' (runs before r after e) = Ran r (queue w) (queue w')

  -- One runner while the mailbox is running, and otherwise none and no task.
  abbrev pub Idle : World Task → Type 0
  Idle w = (w.mailbox.running ≡ false) × (w.runners ≡ []) × (w.mailbox.tasks ≡ [])

  abbrev pub Busy : World Task → Type 0
  Busy w = (w.mailbox.running ≡ true) × ((r : Runner Task) × (w.runners ≡ r ∷ []))

  abbrev pub IsSound : World Task → Type 0
  IsSound w = Idle w ⊎ Busy w

  -- The runner of a list of one.
  only_runner :
      (before : List (Runner Task)) (r : Runner Task) (after : List (Runner Task))
      (own : Runner Task)
      → own ∷ [] ≡ before ++ r ∷ after
      → (before ≡ []) × (after ≡ [])
  only_runner [] r [] own e = (refl, refl)
  only_runner [] r (x ∷ after) own e = ground (arith, e)
  only_runner (x ∷ []) r after own e = ground (arith, e)
  only_runner (x ∷ y ∷ before) r after own e = ground (arith, e)

  no_runner :
      (before : List (Runner Task)) (r : Runner Task) (after : List (Runner Task))
      → [] ≢ before ++ r ∷ after
  no_runner [] r after e = ground (arith, e)
  no_runner (x ∷ before) r after e = ground (arith, e)

  -- What a turn of the only runner leaves, and what the queue sees of it.
  abbrev Seen : Runner Task → World Task → World Task → Type 0
  Seen r w w' = IsSound w' × Ran r (queue w) (queue w')

  alone :
      (r : Runner Task) (tasks handled : List Task)
      → let w : World Task = record {
        mailbox = record { tasks = tasks; running = true };
        runners = r ∷ [];
        handled = handled;
      } in
        Seen r w (run_turn [] r [] w)
  unfolding run_turn
  alone (at_loop zero) tasks handled = (inr (refl, (at_loop batch_size, refl)), refl)
  alone (at_loop (suc n)) [] handled = (inl (refl, refl, refl), refl)
  alone (at_loop (suc n)) (task ∷ tasks) handled = (inr (refl, (handling task n, refl)), refl)
  alone (handling task n) tasks handled = (inr (refl, (at_loop n, refl)), (tasks, refl, refl))

  solo :
      (w : World Task) (r : Runner Task)
      → w.mailbox.running ≡ true
      → w.runners ≡ r ∷ []
      → Seen r w (run_turn [] r [] w)
  solo w r running one =
      let v : World Task = record {
        mailbox = record { tasks = w.mailbox.tasks; running = true };
        runners = r ∷ [];
        handled = w.handled;
      } in
      subst (λ u. Seen r u (run_turn [] r [] u)) {x = v} (ground (arith, running, one))
        (alone r w.mailbox.tasks w.handled)

  -- A step of a sound world leads to a sound one, and does to the queue what it says.
  pub Step-Seen : (w w' : World Task) → IsSound w → (s : Step w w') → IsSound w' × QueueStep w w' s
  unfolding dispatch
  Step-Seen w w' (inl (stopped, none_runs, empty)) (dispatches task) =
      rw (stopped, none_runs, empty) (inr (refl, (at_loop batch_size, refl)), refl)
  Step-Seen w w' (inr (running, (own, one))) (dispatches task) =
      rw (running, one)
        (
          inr (refl, (own, refl)),
          ap (λ waiting. (waiting, w.handled))
              (sym (append_assoc (all_in_hand (own ∷ [])) w.mailbox.tasks (task ∷ []))),
        )
  Step-Seen w w' (inl (stopped, none_runs, empty)) (runs before r after e) =
      absurd (no_runner before r after (sym none_runs ∙ e))
  Step-Seen w w' (inr (running, (own, one))) (runs before r after e) =
      let (nothing_before, nothing_after) = only_runner before r after own (sym one ∙ e) in
      let alone_runs : w.runners ≡ r ∷ [] = e ∙ cc (nothing_before, nothing_after) in
      rw (nothing_before, nothing_after) (solo w r running alone_runs)

  pub data Reaches : World Task → Type 0 where
    begins : Reaches (idle Task)
    goes : (w w' : World Task) → Reaches w → Step w w' → Reaches w'

  -- In every reachable state the mailbox is idle, with no runner and no task, or busy with exactly one
  -- runner, so no task is stranded; a dispatch puts its task at the end of the queue, a runner that
  -- handles a task handles the first of the queue, and any other turn of a runner changes nothing of
  -- the queue.
  pub Reaches-Fifo :
      (w w' : World Task) → Reaches w → (s : Step w w') → IsSound w × QueueStep w w' s
  Reaches-Fifo w w' r s = (Reaches-IsSound w r, (Step-Seen w w' (Reaches-IsSound w r) s).1)
    where
      Reaches-IsSound : (v : World Task) → Reaches v → IsSound v
      Reaches-IsSound v begins = inl (refl, refl, refl)
      Reaches-IsSound v (goes u v' t step) = (Step-Seen u v' (Reaches-IsSound u t) step).0
