-- ===== src/TeamMode/Inbox/Shown.antt =====
-- Which messages an inbox shows, as which items and in which order, apart from how the code finds them.

use agent_teams_mcp.Base.{
  Text, text_le, ◌==◌, ==_iff, ◌↔◌, ◌⊎◌, inl, inr, ◌<◌, ◌||◌, none, all, contains, Bool-cases, ltb,
  ◌≡◌, refl, ap, ℕ, Bool, true, false, Option, some, List, [], ◌∷◌, arith, IsSorted, if◌then◌else◌,
}
use agent_teams_mcp.TeamMode.Message.{Message, MessageReceipt}
use agent_teams_mcp.TeamMode.Transcript.{in_thread}
use agent_teams_mcp.TeamMode.Inbox.{
  InboxStatus, unread, read, acked, InboxItem, is_listed, item_of, has_receipt, inbox_status,
  earlier, item_le,
}

-- The name is one of the list.
abbrev pub IsAmong : Text → List Text → Type 0
IsAmong name [] = ⊥
IsAmong name (x ∷ xs) = (x ≡ name) ⊎ IsAmong name xs

-- One of the receipts is the actor's.
abbrev pub IsSigned : Text → List MessageReceipt → Type 0
IsSigned actor [] = ⊥
IsSigned actor (r ∷ rs) = (r.actor ≡ actor) ⊎ IsSigned actor rs

abbrev pub StandsIn : Option Text → Message → Type 0
StandsIn none m = Unit
StandsIn (some thread) m = m.thread_id ≡ some thread

abbrev pub IsAddressed : Text → Option Text → Message → Type 0
IsAddressed recipient thread m = IsAmong recipient m.effective_recipients × StandsIn thread m

-- The item that shows a message: acknowledged if the recipient has a receipt for that, else read if
-- it has a receipt for that, else unread.
pub record Shows (recipient : Text) (m : Message) (i : InboxItem) : Type 0 where
  id : i.message_id ≡ m.id
  whose : i.recipient ≡ recipient
  time : i.created_at ≡ m.created_at
  is_acked : (i.status ≡ acked) ↔ IsSigned recipient m.acked_by
  is_read : (i.status ≡ read) ↔ (¬ IsSigned recipient m.acked_by × IsSigned recipient m.read_by)
  is_unread :
      (i.status ≡ unread) ↔ (¬ IsSigned recipient m.acked_by × ¬ IsSigned recipient m.read_by)

-- The item is not later than any of the others: of two at one time, the ids decide.
abbrev pub NotAfter : InboxItem → List InboxItem → Type 0
NotAfter i [] = Unit
NotAfter i (j ∷ js) =
    ((i.created_at < j.created_at)
      ⊎ (i.created_at ≡ j.created_at) × (text_le i.message_id j.message_id ≡ true))
    × NotAfter i js

abbrev pub InOrder : List InboxItem → Type 0
InOrder [] = Unit
InOrder (i ∷ is) = NotAfter i is × InOrder is

or_iff :
    {P Q : Type 0} (p q : Bool) → ((p ≡ true) ↔ P) → ((q ≡ true) ↔ Q) → ((p || q) ≡ true) ↔ (P ⊎ Q)
or_iff true q hp hq = (λ h. inl (hp.0 refl), λ h. refl)
or_iff false q hp hq =
    (λ h. inr (hq.0 h), λ h. elim h [ inl x ↦ (let e = hp.1 x in cc) | inr y ↦ hq.1 y ])

contains_iff : (name : Text) (xs : List Text) → (contains name xs ≡ true) ↔ IsAmong name xs
unfolding contains
contains_iff name [] = (λ h. cc, λ h. absurd h)
contains_iff name (x ∷ xs) =
    or_iff (x == name) (contains name xs) (==_iff x name) (contains_iff name xs)

has_receipt_iff :
    (actor : Text) (rs : List MessageReceipt) → (has_receipt actor rs ≡ true) ↔ IsSigned actor rs
unfolding has_receipt
has_receipt_iff actor [] = (λ h. cc, λ h. absurd h)
has_receipt_iff actor (r ∷ rs) =
    or_iff (r.actor == actor) (has_receipt actor rs) (==_iff r.actor actor)
      (has_receipt_iff actor rs)

thread_iff :
    (thread : Text) (o : Option Text)
    → (elim o [ none ↦ false | some t ↦ t == thread ] ≡ true) ↔ (o ≡ some thread)
thread_iff thread none = (λ h. cc, λ h. cc)
thread_iff thread (some t) =
    (λ h. ap (λ x. some x) ((==_iff t thread).0 h), λ h. (==_iff t thread).1 (cc))

pub is_listed_iff :
    (recipient : Text) (thread : Option Text) (m : Message)
    → (is_listed recipient thread m ≡ true) ↔ IsAddressed recipient thread m
unfolding is_listed in_thread
is_listed_iff recipient none m =
    let there = contains_iff recipient m.effective_recipients in
    (λ h. (there.0 h, tt), λ h. there.1 h.0)
is_listed_iff recipient (some thread) m =
    let there = contains_iff recipient m.effective_recipients in
    let stands = thread_iff thread m.thread_id in
    (
      λ h. (there.0 (ground arith), stands.0 (ground arith)),
      λ h. let a = there.1 h.0 in let b = stands.1 h.1 in ground arith,
    )

-- A status that two tests decide.
status_of :
    {P Q : Type 0} (p q : Bool)
    → ((p ≡ true) ↔ P)
    → ((q ≡ true) ↔ Q)
    → let s : InboxStatus = if p then acked else if q then read else unread in
      ((s ≡ acked) ↔ P) × ((s ≡ read) ↔ (¬ P × Q)) × ((s ≡ unread) ↔ (¬ P × ¬ Q))
status_of true q hp hq = (
  (λ _. hp.0 refl, λ _. refl),
  (λ h. cc, λ h. absurd (h.0 (hp.0 refl))),
  (λ h. cc, λ h. absurd (h.0 (hp.0 refl))),
)
status_of false true hp hq = (
  (λ h. cc, λ h. let e = hp.1 h in cc),
  (λ _. (λ x. let e = hp.1 x in cc, hq.0 refl), λ _. refl),
  (λ h. cc, λ h. absurd (h.1 (hq.0 refl))),
)
status_of false false hp hq = (
  (λ h. cc, λ h. let e = hp.1 h in cc),
  (λ h. cc, λ h. let e = hq.1 h.1 in cc),
  (λ _. (λ x. let e = hp.1 x in cc, λ x. let e = hq.1 x in cc), λ _. refl),
)

pub item_of-Shows : (recipient : Text) (m : Message) → Shows recipient m (item_of recipient m)
unfolding item_of inbox_status
item_of-Shows recipient m =
    let s =
      status_of (has_receipt recipient m.acked_by) (has_receipt recipient m.read_by)
        (has_receipt_iff recipient m.acked_by) (has_receipt_iff recipient m.read_by) in
    record { id = refl; whose = refl; time = refl; is_acked = s.0; is_read = s.1; is_unread = s.2 }

earlier_lem :
    (at at' : ℕ) (id id' : Text)
    → earlier at id at' id' ≡ true
    → (at < at') ⊎ (at ≡ at') × (text_le id id' ≡ true)
unfolding earlier
earlier_lem at at' id id' h = elim (Bool-cases (ltb at at')) [
  | inl before ↦ inl (ground (arith, before))
  | inr not_before ↦ inr (ground (arith, not_before), ground (arith, not_before))
]

item_le-NotAfter : (i : InboxItem) (js : List InboxItem) → all (item_le i) js ≡ true → NotAfter i js
unfolding item_le
item_le-NotAfter i [] h = tt
item_le-NotAfter i (j ∷ js) h = (
  earlier_lem i.created_at j.created_at i.message_id j.message_id (ground arith),
  item_le-NotAfter i js (ground arith),
)

pub IsSorted-InOrder : (is : List InboxItem) → IsSorted item_le is → InOrder is
IsSorted-InOrder [] h = tt
IsSorted-InOrder (i ∷ is) h = (item_le-NotAfter i is h.0, IsSorted-InOrder is h.1)
