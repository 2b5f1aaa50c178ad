-- ===== src/Error.antt =====
-- error.rs: the errors that the modelled code raises, and `Result` with its `?`. A text that the
-- program builds by `format!` is a constructor with the values that the format shows. `panic`
-- stands for a panic of the thread.
use Prim.Native.Nat.{ℕ}
use agent_teams_mcp.Base.{Text, ◌≡◌, refl, Option, none, some}

-- The `reason` of `InvalidName`.
pub data NameFault : Type 0 where
  empty_name has_separator only_dots : NameFault
  too_long : (bytes max : ℕ) → NameFault
  bad_start : (first : ℕ) → NameFault
  bad_characters : (preview : Text) → NameFault

-- The text of `Other`.
pub data Message : Type 0 where
  missing_team_id dispatch_without_recipient : Message
  room_not_found : (team_id : Text) → Message
  send_to_self : (sender : Text) → Message
  not_visible : (message_id recipient : Text) → Message
  reply_to_not_found reply_target_not_found thread_not_found : (id : Text) → Message
  reply_outside_room : (reply_to team_id room_id : Text) → Message
  no_thread_to_inherit : (reply_to : Text) → Message
  thread_mismatch : (explicit inherited : Text) → Message
  thread_bound_elsewhere : (thread_id room_id team_id : Text) → Message
  member_exists : (name team_id : Text) → Message

pub data Error : Type 0 where
  team_not_found : (name : Text) → Error
  member_not_found : (team member : Text) → Error
  member_already_exists : (team member : Text) → Error
  task_not_found : (team id : Text) → Error
  invalid_status_transition : (from to : Text) → Error
  cycle_detected : (from to : Text) → Error
  invalid_name : (name : Text) (reason : NameFault) → Error
  io json : Error
  other : (message : Message) → Error

pub data Result {ℓ} (A : Type ℓ) : Type ℓ where
  ok : A → Result A
  err : Error → Result A
  panic : Result A

-- The operator `?`, for a step that gives a value and for a check that gives none.
module _ {ℓ κ} {A : Type ℓ} {B : Type κ} where
  infixl 5 ◌>>=◌
  abbrev pub ◌>>=◌ : Result A → (A → Result B) → Result B
  ◌>>=◌ r next = elim r [ panic ↦ panic | err e ↦ err e | ok a ↦ next a ]

  -- What follows a `?` has run only if the step before it succeeded.
  pub ran_both :
      (r : Result A) {next : A → Result B} {b : B}
      → (r >>= next) ≡ ok b
      → (a : A) × (r ≡ ok a) × (next a ≡ ok b)
  ran_both panic e = cc
  ran_both (err _) e = cc
  ran_both (ok a) e = (a, refl, e)

infixl 5 ◌>>◌
abbrev pub ◌>>◌ {κ} : {B : Type κ} → Result (Unit {0}) → Result B → Result B
◌>>◌ check next = check >>= λ done. next

-- `ok_or_else`.
abbrev pub ok_or {ℓ} : {A : Type ℓ} → Option A → Error → Result A
ok_or found e = elim found [ some a ↦ ok a | none ↦ err e ]

-- The operator `?` where the step before it may also have changed a state.
module _ {ℓ κ} {A : Type ℓ} {B : Type κ} {S : Type 0} where
  abbrev pub proceed : Result A × S → (A → S → Result B × S) → Result B × S
  proceed (ok a, s) next = next a s
  proceed (err e, s) next = (err e, s)
  proceed (panic, s) next = (panic, s)

  pub proceeded :
      (r : Result A × S) {next : A → S → Result B × S} {b : B} {s' : S}
      → proceed r next ≡ (ok b, s')
      → (a : A) × (s : S) × (r ≡ (ok a, s)) × (next a s ≡ (ok b, s'))
  proceeded (ok a, s) h = (a, s, refl, h)
  proceeded (err e, s) h = cc
  proceeded (panic, s) h = cc

  -- What follows a check of values.
  pub checked :
      (r : Result A) (s : S) (next : A → S → Result B × S) {b : B} {s' : S}
      → proceed (r, s) next ≡ (ok b, s')
      → (a : A) × (r ≡ ok a) × (next a s ≡ (ok b, s'))
  checked (ok a) s next h = (a, refl, h)
  checked (err e) s next h = cc
  checked panic s next h = cc
