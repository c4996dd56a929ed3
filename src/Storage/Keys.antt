-- ===== src/Storage/Keys.antt =====
-- Prefixes and the validity of keys: samod-core/src/storage_key.rs.
use Prim.Native.Char.{code}
use Prim.Native.String.{[] as empty, ◌∷◌ as cons}
use samod.Prelude.{
  ◌≢◌, nat_eq, Bool, suc, ◌+◌, ◌<◌, ◌&&◌, ◌≤◌, String, ◌≡◌, refl, ap, sym, ◌∙◌, ◌↔◌, inl, inr, true,
  false, some, [], ◌∷◌, ◌++◌, arith, string_eq, ltb, Bool-cases,
}
use samod.Prelude.Lists.{length, length-append, take, All}
use samod.Prelude.Result.{Result, ok, err, ◌>>=◌}
use samod.Storage.{
  StorageKey, InvalidStorageKey, has_slash, is_invalid, from_parts, agree, is_prefix_of,
  onelevel_deeper,
}

-- `key` continues `prefix` with `more`.
abbrev pub Continues : StorageKey → StorageKey → Type 0
Continues prefix key = (more : StorageKey) × (key ≡ prefix ++ more)

agree-Continues :
    (prefix key : StorageKey)
    → length prefix ≤ length key
    → agree prefix key ≡ true
    → Continues prefix key
agree-Continues [] key h e = (key, refl)
agree-Continues (p ∷ prefix) [] h e = absurd (omega (arith, h))
agree-Continues (p ∷ prefix) (k ∷ key) h e =
    let (more, f) = agree-Continues prefix key (omega (arith, h)) (ground (arith, e)) in
    (more, ground (arith, f, e, string_eq.same_iff p k))

agree-append : (prefix more : StorageKey) → agree prefix (prefix ++ more) ≡ true
agree-append [] more = refl
agree-append (p ∷ prefix) more = ground (arith, agree-append prefix more, string_eq.same_iff p p)

prefix-Continues : (prefix key : StorageKey) → is_prefix_of prefix key ≡ true → Continues prefix key
unfolding is_prefix_of
prefix-Continues prefix key e = elim (Bool-cases (ltb (length key) (length prefix))) [
  | inl h ↦ ground (arith, h, e)
  | inr h ↦ agree-Continues prefix key (ground (arith, h)) (ground (arith, h, e))
]

append-prefix : (prefix more : StorageKey) → is_prefix_of prefix (prefix ++ more) ≡ true
unfolding is_prefix_of
append-prefix prefix more = ground (arith, agree-append prefix more, length-append prefix more)

-- One key is a prefix of another exactly when the other continues it.
is_prefix_of_iff :
    (prefix key : StorageKey) → (is_prefix_of prefix key ≡ true) ↔ Continues prefix key
is_prefix_of_iff prefix key = (
  prefix-Continues prefix key,
  λ (more, e). ap (is_prefix_of prefix) e ∙ append-prefix prefix more,
)

take-append_suc :
    (prefix : StorageKey) (x : String) (more : StorageKey)
    → take (suc (length prefix)) (prefix ++ x ∷ more) ≡ prefix ++ x ∷ []
take-append_suc [] x more = refl
take-append_suc (p ∷ prefix) x more = ap (λ key. p ∷ key) (take-append_suc prefix x more)

take-append :
    (prefix : StorageKey) (x : String) (more : StorageKey)
    → take (length prefix + 1) (prefix ++ x ∷ more) ≡ prefix ++ x ∷ []
take-append prefix x more =
    let same : length prefix + 1 ≡ suc (length prefix) = omega arith in
    ap (λ n. take n (prefix ++ x ∷ more)) same ∙ take-append_suc prefix x more

-- `level` is `prefix` with the one component of `key` that follows it.
abbrev pub Deeper : StorageKey → StorageKey → StorageKey → Type 0
Deeper key prefix level =
    (x : String) × (more : StorageKey) × (key ≡ prefix ++ x ∷ more) × (level ≡ prefix ++ x ∷ [])

take-Deeper :
    (key prefix level more : StorageKey)
    → key ≡ prefix ++ more
    → length prefix < length key
    → take (length prefix + 1) key ≡ level
    → Deeper key prefix level
take-Deeper key prefix level [] e h t =
    absurd (omega (arith, h, ap length e, length-append prefix []))
take-Deeper key prefix level (x ∷ more) e h t =
    (x, more, e, sym t ∙ ap (take (length prefix + 1)) e ∙ take-append prefix x more)

onelevel_deeper-append :
    (prefix : StorageKey) (x : String) (more : StorageKey)
    → onelevel_deeper (prefix ++ x ∷ more) prefix ≡ some (prefix ++ x ∷ [])
unfolding onelevel_deeper
onelevel_deeper-append prefix x more = ground (
  arith,
  append-prefix prefix (x ∷ more),
  length-append prefix (x ∷ more),
  take-append prefix x more,
)

-- `onelevel_deeper` gives the prefix with the one component of the key that follows it, and
-- nothing where the key does not continue the prefix by a component.
pub onelevel_deeper_iff :
    (key prefix level : StorageKey)
    → (onelevel_deeper key prefix ≡ some level) ↔ Deeper key prefix level
unfolding onelevel_deeper
onelevel_deeper_iff key prefix level = (forth, back)
  where
    forth : onelevel_deeper key prefix ≡ some level → Deeper key prefix level
    forth e = elim (Bool-cases (is_prefix_of prefix key && ltb (length prefix) (length key))) [
      | inl h ↦
          (let (more, f) = prefix-Continues prefix key (ground (arith, h)) in
            take-Deeper key prefix level more f (ground (arith, h)) (ground (arith, h, e)))
      | inr h ↦ ground (arith, h, e)
    ]

    back : Deeper key prefix level → onelevel_deeper key prefix ≡ some level
    back (x, more, e, f) =
        ap (λ k. onelevel_deeper k prefix) e
        ∙ onelevel_deeper-append prefix x more
        ∙ ap some (sym f)

-- No character is a slash, whose code is 47.
abbrev pub NoSlash : String → Type 0
NoSlash empty = Unit
NoSlash (cons c rest) = (code c ≢ 47) × NoSlash rest

abbrev pub IsValid : String → Type 0
IsValid part = (part ≢ "") × NoSlash part

has_slash-NoSlash : (s : String) → (has_slash s ≡ false) ↔ NoSlash s
has_slash-NoSlash empty = (λ h. tt, λ h. refl)
has_slash-NoSlash (cons c rest) = (
  λ h. (
    λ e. ground (arith, h, nat_eq.same_iff (code c) 47, e),
    (has_slash-NoSlash rest).0 (ground (arith, h)),
  ),
  λ (other, h). ground (arith, other, nat_eq.same_iff (code c) 47, (has_slash-NoSlash rest).1 h),
)

abbrev is_blank : String → Bool
is_blank empty = true
is_blank (cons c rest) = false

is_invalid-IsValid : (part : String) → (is_invalid part ≡ false) ↔ IsValid part
is_invalid-IsValid empty = (λ h. ground (arith, h), λ (some_text, h). absurd (some_text refl))
is_invalid-IsValid (cons c rest) = (
  λ h. (λ e. ground (arith, ap is_blank e), (has_slash-NoSlash (cons c rest)).0 h),
  λ (some_text, h). (has_slash-NoSlash (cons c rest)).1 h,
)

from_rest :
    (part : String) (parts key : StorageKey) (r : Result InvalidStorageKey StorageKey)
    → ((rest : StorageKey) → r ≡ ok rest → (rest ≡ parts) × All IsValid parts)
    → IsValid part
    → (r >>= λ rest. ok (part ∷ rest)) ≡ ok key
    → (key ≡ part ∷ parts) × All IsValid (part ∷ parts)
from_rest part parts key (ok rest) h valid f =
    let (same, all) = h rest refl in (ground (arith, f, same), (valid, all))
from_rest part parts key (err x) h valid f = ground (arith, f)

from_parts-All :
    (parts key : StorageKey) → from_parts parts ≡ ok key → (key ≡ parts) × All IsValid parts
unfolding from_parts
from_parts-All [] key e = (ground (arith, e), tt)
from_parts-All (part ∷ parts) key e = elim (Bool-cases (is_invalid part)) [
  | inl h ↦ ground (arith, h, e)
  | inr h ↦
      from_rest part parts key (from_parts parts) (from_parts-All parts)
        ((is_invalid-IsValid part).0 h) (ground (arith, h, e))
]

from_parts-valid : (parts : StorageKey) → All IsValid parts → from_parts parts ≡ ok parts
unfolding from_parts
from_parts-valid [] h = refl
from_parts-valid (part ∷ parts) h =
    ground (arith, (is_invalid-IsValid part).1 h.0, from_parts-valid parts h.1)

-- `from_parts` succeeds exactly when no part is empty or has a character with the code of a slash,
-- and then the key has the parts as they are.
pub from_parts_iff :
    (parts key : StorageKey) → (from_parts parts ≡ ok key) ↔ ((key ≡ parts) × All IsValid parts)
from_parts_iff parts key =
    (from_parts-All parts key, λ (same, valid). from_parts-valid parts valid ∙ ap ok (sym same))
