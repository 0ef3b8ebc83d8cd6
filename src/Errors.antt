-- ===== src/Errors.antt =====
-- errors.go and OutboxNotFoundError of outbox.go: the error taxonomy. A sentinel is matched as
-- `errors.Is` does, along `Unwrap`. The texts of `fmt`'s verbs %q, %d and %v are parameters.
use Prim.Native.String
use hmntsk.Prelude.{
  ◌≡◌, refl, ◌⊎◌, inl, inr, ◌==◌, String, Bool, true, false, ◌||◌, List, [], ◌∷◌, ℤ, if◌then◌else◌,
}
use hmntsk.Operation.{Operation, operation_name}
use hmntsk.Status.{Status, status_name, unset, same}

pub data Sentinel : Type 0 where
  conflict illegal_transition not_found validation unregistered_type : Sentinel
  unauthorized group_resolution configuration : Sentinel

pub record Issue : Type 0 where
  pub pointer : String
  pub detail : String

-- `foreign` is an error of code that is not under src: a directory, a driver, a handler.
pub data Error : Type 0 where
  conflict_error : String → ℤ → ℤ → Error
  transition_error : String → Operation → Status → Status → Error
  not_found_error : String → Error
  outbox_not_found_error : String → Error
  validation_error : String → List Issue → Error
  unregistered_type_error : String → Error
  authorization_error : String → String → Operation → String → Error
  group_resolution_error : String → List String → Error → Error
  configuration_error : String → Error
  foreign : String → Error

pub data Result {ℓ} (A : Type ℓ) : Type ℓ where
  ok : A → Result A
  err : Error → Result A

-- To split on a result and keep the equation.
pub Result-cases {ℓ} :
    {A : Type ℓ} (r : Result A) → ((a : A) × (r ≡ ok a)) ⊎ ((e : Error) × (r ≡ err e))
Result-cases (ok a) = inl (a, refl)
Result-cases (err e) = inr (e, refl)

pub ok-injective {ℓ} : {A : Type ℓ} {a b : A} → ok a ≡ ok b → a ≡ b
ok-injective h = cc

-- What Go writes `if err != nil { return err }` after each call.
infixl 5 ◌>>◌ ◌>>=◌
abbrev pub ◌>>=◌ {ℓ ℓ'} : {X : Type ℓ} {Y : Type ℓ'} → Result X → (X → Result Y) → Result Y
err failure >>= next = err failure
ok value >>= next = next value

abbrev pub ◌>>◌ {ℓ} : {Y : Type ℓ} → Result (Unit {0}) → Result Y → Result Y
check >> rest = check >>= λ u. rest

-- A chain that succeeds, taken apart.
pub >>=-eq-ok {ℓ ℓ'} :
    {X : Type ℓ} {Y : Type ℓ'} (first : Result X) (next : X → Result Y) {y : Y}
    → (first >>= next) ≡ ok y
    → (x : X) × (first ≡ ok x) × (next x ≡ ok y)
>>=-eq-ok (err failure) next h = cc
>>=-eq-ok (ok value) next h = (value, refl, h)

-- The sentinels that nest: an illegal transition is a conflict, an unknown type a validation error.
abbrev pub is_conflict : Sentinel → Bool
is_conflict conflict = true
is_conflict _ = false

abbrev pub is_illegal_transition : Sentinel → Bool
is_illegal_transition illegal_transition = true
is_illegal_transition s = is_conflict s

abbrev pub is_not_found : Sentinel → Bool
is_not_found not_found = true
is_not_found _ = false

abbrev pub is_validation : Sentinel → Bool
is_validation validation = true
is_validation _ = false

abbrev pub is_unregistered_type : Sentinel → Bool
is_unregistered_type unregistered_type = true
is_unregistered_type s = is_validation s

abbrev pub is_unauthorized : Sentinel → Bool
is_unauthorized unauthorized = true
is_unauthorized _ = false

abbrev pub is_group_resolution : Sentinel → Bool
is_group_resolution group_resolution = true
is_group_resolution _ = false

abbrev pub is_configuration : Sentinel → Bool
is_configuration configuration = true
is_configuration _ = false

-- errors.Is(e, s); the errors that `foreign` stands for match no sentinel.
unfoldable pub matches : Error → Sentinel → Bool
matches (conflict_error id expected current) s = is_conflict s
matches (transition_error id op from to) s = is_illegal_transition s
matches (not_found_error id) s = is_not_found s
matches (outbox_not_found_error id) s = is_not_found s
matches (validation_error subject issues) s = is_validation s
matches (unregistered_type_error name) s = is_unregistered_type s
matches (authorization_error id actor op reason) s = is_unauthorized s
matches (group_resolution_error actor groups cause) s = is_group_resolution s || matches cause s
matches (configuration_error detail) s = is_configuration s
matches (foreign text) s = false

-- %q, %d and %v of `fmt`.
pub record Formatter : Type 0 where
  pub quote : String → String
  pub decimal : ℤ → String
  pub items : List String → String

infixr 65 ◌<>◌
abbrev pub ◌<>◌ : String → String → String
s <> t = String.◌++◌ s t

issue_text : Issue → String
issue_text i = if i.pointer == "" then i.detail else i.pointer <> ": " <> i.detail

join_issues : List Issue → String
unfolding issue_text
join_issues [] = ""
join_issues (i ∷ []) = issue_text i
join_issues (i ∷ j ∷ rest) = issue_text i <> "; " <> join_issues (j ∷ rest)

validation_text : String → List Issue → String
unfolding join_issues
validation_text subject [] = "hmntsk: " <> subject <> " is not valid"
validation_text subject (i ∷ rest) =
    "hmntsk: " <> subject <> " is not valid: " <> join_issues (i ∷ rest)

-- The `Error` methods.
unfoldable pub message : Formatter → Error → String
unfolding validation_text
message f (conflict_error id expected current) =
    "hmntsk: conflict on task "
    <> id
    <> ": expected version "
    <> f.decimal expected
    <> ", current version "
    <> f.decimal current
message f (transition_error id op from to) =
    if same to unset
    then "hmntsk: "
      <> operation_name op
      <> " is not legal on task "
      <> id
      <> " in state "
      <> status_name from
    else "hmntsk: "
      <> operation_name op
      <> " cannot move task "
      <> id
      <> " from "
      <> status_name from
      <> " to "
      <> status_name to
message f (not_found_error id) = "hmntsk: task " <> id <> " not found"
message f (outbox_not_found_error id) = "hmntsk: outbox entry " <> id <> " not found"
message f (validation_error subject issues) =
    validation_text (if subject == "" then "value" else subject) issues
message f (unregistered_type_error name) =
    "hmntsk: task type " <> f.quote name <> " is not registered"
message f (authorization_error id actor op reason) =
    "hmntsk: "
    <> operation_name op
    <> " refused on task "
    <> id
    <> " for actor "
    <> f.quote actor
    <> ": "
    <> (if reason == "" then "actor is not permitted" else reason)
message f (group_resolution_error actor groups cause) =
    "hmntsk: resolving groups "
    <> f.items groups
    <> " for actor "
    <> f.quote actor
    <> ": "
    <> message f cause
message f (configuration_error detail) = "hmntsk: invalid configuration: " <> detail
message f (foreign text) = text
