-- ===== src/Runtime/Policies/Slots.antt =====
-- Writing a slot of the sharing decisions: samod/src/io_loop/share_policy.rs.
use samod.Prelude.{
  Bool, true, false, none, some, List, [], ◌∷◌, ◌++◌, ◌==◌, ◌≡◌, ◌⊎◌, refl, sym, ap, ◌∙◌, subst,
  inl, inr, arith, map, nat_eq, string_eq, pair_eq, Bool-cases, Option-cases,
}
use samod.Prelude.Lists.{contains}
use samod.Prelude.Map.{get, insert, retain, get-insert, get-retain}
use samod.Prelude.Panic.{some_cancel}
use samod.Network.{DocumentActorId, IoTaskId, PeerId}
use samod.Share.{ShareConfig, config_eq}
use samod.Runtime.Task.{ActorTask, answer}
use samod.Runtime.Policies.{Subscription, Pair, Policies, activate, activate_all}
use samod.Runtime.Policies.Calls.{Log, last_told, tell}

pub contains-snoc :
    (xs : List IoTaskId) (x y : IoTaskId) → contains xs x ≡ true → contains (xs ++ y ∷ []) x ≡ true
contains-snoc [] x y h = ground (arith, h)
contains-snoc (z ∷ xs) x y h = ground (arith, contains-snoc xs x y)

pub same_pair : (pair : Pair) → (pair == pair) ≡ true
same_pair pair = (pair_eq.same_iff pair pair).1 refl

module _ {F : Type 0} where
  -- A subscription without a decision is waited for by the check that began it; the decision of
  -- another is what its actor was told last, and no check waits.
  abbrev pub IsCurrent : Log F → Pair → Subscription → Type 0
  IsCurrent log pair s =
      ((s.latest ≡ none) × (contains s.waiting s.id ≡ true))
      ⊎ ((config : ShareConfig) × (s.latest ≡ some config)
          × (last_told pair log ≡ some config)
          × (s.waiting ≡ []))

  abbrev pub AllCurrent : Policies → Log F → Type 0
  AllCurrent ps log =
      (pair : Pair) (s : Subscription) → get pair ps ≡ some (some s) → IsCurrent log pair s

  -- Telling one pair leaves what the others were told.
  last_told-tell :
      (pair other : Pair) (tasks : List (ActorTask F)) (log : Log F)
      → (other == pair) ≡ false
      → last_told pair (tell other tasks log) ≡ last_told pair log
  last_told-tell pair other [] log h = refl
  last_told-tell pair other (task ∷ tasks) log h =
      last_told-tell pair other tasks ((other, task) ∷ log) h ∙ rw h

  -- The same answer to some checks, if there are any.
  pub last_told-answers :
      (pair : Pair) (config : ShareConfig) (tasks : List IoTaskId) (log : Log F)
      → last_told pair log ≡ some config
      → last_told pair (tell pair (map (λ task. answer task config) tasks) log) ≡ some config
  last_told-answers pair config [] log h = h
  last_told-answers pair config (task ∷ tasks) log h =
      last_told-answers pair config tasks ((pair, answer task config) ∷ log)
        (rw (same_pair pair) refl)

  -- What was told to one pair concerns no other.
  elsewhere :
      (pair other : Pair) (tasks : List (ActorTask F)) (log : Log F) (s : Subscription)
      → (pair == other) ≡ false
      → IsCurrent log other s
      → IsCurrent (tell pair tasks log) other s
  elsewhere pair other tasks log s differs (inl waits) = inl waits
  elsewhere pair other tasks log s differs (inr (config, a, told, b)) =
      inr (config, a, last_told-tell other pair tasks log differs ∙ told, b)

  -- One slot is written and its pair told something.
  pub write-AllCurrent :
      (pair : Pair) (s : Subscription) (tasks : List (ActorTask F)) (ps : Policies) (log : Log F)
      → AllCurrent ps log
      → IsCurrent (tell pair tasks log) pair s
      → AllCurrent (insert pair (some s) ps) (tell pair tasks log)
  write-AllCurrent pair s tasks ps log all own other t e = elim (Bool-cases (pair == other)) [
    | inl same ↦
        subst (λ q. IsCurrent (tell pair tasks log) q t) ((pair_eq.same_iff pair other).0 same)
          (subst (IsCurrent (tell pair tasks log) pair)
            (some_cancel (some_cancel (sym (rw same at (get-insert pair other (some s) ps)) ∙ e)))
            own)
    | inr differs ↦
        elsewhere pair other tasks log t differs
          (all other t (sym (rw differs at (get-insert pair other (some s) ps)) ∙ e))
  ]

  -- A pair is told something that leaves its subscription current.
  pub tell-AllCurrent :
      (pair : Pair) (s : Subscription) (tasks : List (ActorTask F)) (ps : Policies) (log : Log F)
      → AllCurrent ps log
      → get pair ps ≡ some (some s)
      → IsCurrent (tell pair tasks log) pair s
      → AllCurrent ps (tell pair tasks log)
  tell-AllCurrent pair s tasks ps log all there own other t e = elim (Bool-cases (pair == other)) [
    | inl same ↦
        (let p : pair ≡ other = (pair_eq.same_iff pair other).0 same in
          subst (λ q. IsCurrent (tell pair tasks log) q t) p
            (subst (IsCurrent (tell pair tasks log) pair)
              (some_cancel (some_cancel (sym there ∙ ap (λ q. get q ps) p ∙ e))) own))
    | inr differs ↦ elsewhere pair other tasks log t differs (all other t e)
  ]

  -- A slot that is made or dropped is no subscription.
  activate-AllCurrent :
      (pair : Pair) (ps : Policies) (log : Log F)
      → AllCurrent ps log
      → AllCurrent (activate pair ps) log
  activate-AllCurrent pair ps log all = elim (Option-cases (get pair ps)) [
    | inl absent ↦
        rw (absent, activate)
          (λ other t e. elim (Bool-cases (pair == other)) [
            | inl same ↦ ground (arith, e, same, get-insert pair other none ps)
            | inr differs ↦ all other t (sym (rw differs at (get-insert pair other none ps)) ∙ e)
          ])
    | inr (slot, there) ↦ rw (there, activate) all
  ]

  pub activate_all-AllCurrent :
      (actor_id : DocumentActorId) (peers : List PeerId) (ps : Policies) (log : Log F)
      → AllCurrent ps log
      → AllCurrent (activate_all actor_id peers ps) log
  activate_all-AllCurrent actor_id [] ps log all = all
  activate_all-AllCurrent actor_id (peer ∷ peers) ps log all =
      activate_all-AllCurrent actor_id peers (activate (actor_id, peer) ps) log
        (activate-AllCurrent (actor_id, peer) ps log all)

  pub retain-AllCurrent :
      (keep : Pair → Bool) (ps : Policies) (log : Log F)
      → AllCurrent ps log
      → AllCurrent (retain keep ps) log
  retain-AllCurrent keep ps log all pair s e =
      all pair s (ground (arith, e, get-retain keep pair ps))
