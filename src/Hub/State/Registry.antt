-- ===== src/Hub/State/Registry.antt =====
-- The registry of document actors: `actors` and `document_to_actor` of
-- samod-core/src/actors/hub/state.rs agree, whatever the hub does.
use samod.Prelude.{
  ◌≡◌, refl, ap, sym, ◌∙◌, inl, inr, false, Option, none, some, arith, nat_eq, ◌==◌, string_eq,
  Bool-cases,
}
use samod.Prelude.Map.{get, insert, get-insert}
use samod.Prelude.Panic.{◌>>=◌}
use samod.Network.{DocumentActorId, DocumentId}
use samod.Hub.Searches.{ActorInfo, new_with_id}
use samod.Hub.State.{State, add_document_actor, find_actor_for_document}
use samod.Hub.State.Frame.{Frame}

-- Each live actor stands under its own identifier, and its document leads to it.
abbrev pub Registered : State → Type 0
Registered s =
    (a : DocumentActorId) (info : ActorInfo)
    → get a s.actors ≡ some info
    → (info.actor_id ≡ a) × (get info.document_id s.document_to_actor ≡ some a)

-- Two live actors never stand for the same document.
pub Registered-unique :
    (s : State) (a b : DocumentActorId) (x y : ActorInfo)
    → Registered s
    → get a s.actors ≡ some x
    → get b s.actors ≡ some y
    → x.document_id ≡ y.document_id
    → a ≡ b
Registered-unique s a b x y h e f same = ground (arith, (h a x e).1, (h b y f).1, same)

-- What every handler does to the registry and to the run state.
pub record Kept (s s' : State) : Type 0 where
  pub registered : Registered s → Registered s'
  pub run_state : s'.run_state ≡ s.run_state

abbrev pub Kept-refl : (s : State) → Kept s s
Kept-refl s = record { registered = λ h. h; run_state = refl }

pub Kept-trans : (a b c : State) → Kept a b → Kept b c → Kept a c
Kept-trans a b c f g = record {
  registered = λ h. g.registered (f.registered h);
  run_state = g.run_state ∙ f.run_state;
}

pub Frame-Kept : (s s' : State) → Frame s s' → Kept s s'
Frame-Kept s s' f = record {
  registered = λ h a info e. (
    (h a info (ap (get a) (sym f.same_actors) ∙ e)).0,
    ap (get info.document_id) f.same_documents ∙ (h a info (ap (get a) (sym f.same_actors) ∙ e)).1,
  );
  run_state = f.same_run_state;
}

-- A property of what code returns, if it does not panic.
abbrev pub After : {B : Type 0} → (B → Type 0) → Option B → Type 0
After P none = Unit
After P (some b) = P b

pub bind-After :
    {B C : Type 0} (P : C → Type 0) (o : Option B) (f : B → Option C)
    → ((b : B) → After P (f b))
    → After P (o >>= f)
bind-After P none f h = tt
bind-After P (some b) f h = h b

pub After-mono :
    {B : Type 0} (P Q : B → Type 0) (o : Option B) → ((b : B) → P b → Q b) → After P o → After Q o
After-mono P Q none f h = tt
After-mono P Q (some b) f h = f b h

pub bind-After_if :
    {B C : Type 0} (Q : B → Type 0) (P : C → Type 0) (o : Option B) (f : B → Option C)
    → After Q o
    → ((b : B) → Q b → After P (f b))
    → After P (o >>= f)
bind-After_if Q P none f q h = tt
bind-After_if Q P (some b) f q h = h b q

insert-Registered :
    (a b : DocumentActorId) (d : DocumentId) (info : ActorInfo) (s : State)
    → find_actor_for_document d s ≡ none
    → Registered s
    → (a == b) ≡ false
    → get b s.actors ≡ some info
    → (info.actor_id ≡ b) × (get info.document_id (insert d a s.document_to_actor) ≡ some b)
unfolding find_actor_for_document
insert-Registered a b d info s free h k e = elim (Bool-cases (d == info.document_id)) [
  | inl same ↦ ground (arith, free, e, (h b info e).1, nat_eq.same_iff d info.document_id)
  | inr other ↦ (
    (h b info e).0,
    ground (arith, (h b info e).1, get-insert d info.document_id a s.document_to_actor, other),
  )
]

pub add_document_actor-Registered :
    (a : DocumentActorId) (d : DocumentId) (s : State)
    → find_actor_for_document d s ≡ none
    → Registered s
    → Registered (add_document_actor a d s)
unfolding add_document_actor find_actor_for_document
add_document_actor-Registered a d s free h b info e = elim (Bool-cases (a == b)) [
  | inl k ↦ ground (
    arith,
    e,
    nat_eq.same_iff a b,
    nat_eq.same_iff d d,
    get-insert a b (new_with_id a d) s.actors,
    get-insert d info.document_id a s.document_to_actor,
  )
  | inr k ↦
      insert-Registered a b d info s free h k
        (ground (arith, e, get-insert a b (new_with_id a d) s.actors))
]
