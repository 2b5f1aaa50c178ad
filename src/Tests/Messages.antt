-- ===== src/Tests/Messages.antt =====
-- A concrete encoding of transcript entries, and sample transcripts.
use agent_teams_mcp.Base.{Text, text, ◌≡◌, refl, ℕ, zero, suc, Option, none, some, List, [], ◌∷◌}
use agent_teams_mcp.TeamMode.Message.{
  MessageKind, VisibilityRule, AudiencePolicy, VisibilityReason, VisibilityResolution, DropReason,
  DeliveryDrop, MessageReceipt, DeliveryStatus, Message,
}
use agent_teams_mcp.TeamMode.Lines.{LineSerde}
use agent_teams_mcp.TeamMode.Transcript.{TranscriptEntry, message, deleted}
use agent_teams_mcp.Tests.Coding.{
  Coding, nat_coding, pair_coding, copy_coding, list_coding, option_coding, line_serde_of,
}
use agent_teams_mcp.Tests.Samples.{text_coding}

abbrev Tagged : Type 0
Tagged = ℕ × List Text

abbrev pub first : List Text → Text
first [] = []
first (x ∷ _) = x

pub tagged_coding : Coding Tagged
unfolding text_coding
tagged_coding = pair_coding nat_coding (list_coding text_coding)

pub kind_to : MessageKind → Tagged
kind_to MessageKind.dispatch = (0, [])
kind_to MessageKind.discussion = (1, [])
kind_to MessageKind.reply = (2, [])
kind_to MessageKind.system = (3, [])
kind_to MessageKind.notice = (4, [])
kind_to MessageKind.status = (5, [])

pub kind_of : ℕ → List Text → MessageKind
kind_of zero xs = MessageKind.dispatch
kind_of (suc zero) xs = MessageKind.discussion
kind_of (suc (suc zero)) xs = MessageKind.reply
kind_of (suc (suc (suc zero))) xs = MessageKind.system
kind_of (suc (suc (suc (suc zero)))) xs = MessageKind.notice
kind_of _ xs = MessageKind.status

pub kind_from : Tagged → MessageKind
unfolding kind_of
kind_from (n, xs) = kind_of n xs

pub kind_same : (x : MessageKind) → kind_from (kind_to x) ≡ x
unfolding kind_from kind_to kind_of
kind_same MessageKind.dispatch = refl
kind_same MessageKind.discussion = refl
kind_same MessageKind.reply = refl
kind_same MessageKind.system = refl
kind_same MessageKind.notice = refl
kind_same MessageKind.status = refl

pub kind_coding : Coding MessageKind
unfolding tagged_coding kind_from kind_to
kind_coding = copy_coding tagged_coding kind_to kind_from kind_same

pub rule_to : VisibilityRule → Tagged
rule_to VisibilityRule.public = (0, [])
rule_to VisibilityRule.team = (1, [])
rule_to VisibilityRule.user = (2, [])
rule_to VisibilityRule.lead = (3, [])
rule_to (VisibilityRule.member x) = (4, x ∷ [])
rule_to (VisibilityRule.handle x) = (5, x ∷ [])
rule_to (VisibilityRule.role x) = (6, x ∷ [])
rule_to (VisibilityRule.members xs) = (7, xs)
rule_to (VisibilityRule.handles xs) = (8, xs)
rule_to (VisibilityRule.roles xs) = (9, xs)

pub rule_of : ℕ → List Text → VisibilityRule
rule_of zero xs = VisibilityRule.public
rule_of (suc zero) xs = VisibilityRule.team
rule_of (suc (suc zero)) xs = VisibilityRule.user
rule_of (suc (suc (suc zero))) xs = VisibilityRule.lead
rule_of (suc (suc (suc (suc zero)))) xs = VisibilityRule.member (first xs)
rule_of (suc (suc (suc (suc (suc zero))))) xs = VisibilityRule.handle (first xs)
rule_of (suc (suc (suc (suc (suc (suc zero)))))) xs = VisibilityRule.role (first xs)
rule_of (suc (suc (suc (suc (suc (suc (suc zero))))))) xs = VisibilityRule.members xs
rule_of (suc (suc (suc (suc (suc (suc (suc (suc zero)))))))) xs = VisibilityRule.handles xs
rule_of _ xs = VisibilityRule.roles xs

pub rule_from : Tagged → VisibilityRule
unfolding rule_of
rule_from (n, xs) = rule_of n xs

pub rule_same : (x : VisibilityRule) → rule_from (rule_to x) ≡ x
unfolding rule_from rule_to rule_of
rule_same VisibilityRule.public = refl
rule_same VisibilityRule.team = refl
rule_same VisibilityRule.user = refl
rule_same VisibilityRule.lead = refl
rule_same (VisibilityRule.member x) = refl
rule_same (VisibilityRule.handle x) = refl
rule_same (VisibilityRule.role x) = refl
rule_same (VisibilityRule.members xs) = refl
rule_same (VisibilityRule.handles xs) = refl
rule_same (VisibilityRule.roles xs) = refl

pub rule_coding : Coding VisibilityRule
unfolding tagged_coding rule_from rule_to
rule_coding = copy_coding tagged_coding rule_to rule_from rule_same

pub policy_to : AudiencePolicy → Tagged
policy_to AudiencePolicy.public = (0, [])
policy_to AudiencePolicy.team = (1, [])
policy_to AudiencePolicy.direct = (2, [])
policy_to AudiencePolicy.mentions = (3, [])
policy_to (AudiencePolicy.handles xs) = (4, xs)
policy_to (AudiencePolicy.roles xs) = (5, xs)
policy_to (AudiencePolicy.members xs) = (6, xs)
policy_to (AudiencePolicy.custom x) = (7, x ∷ [])

pub policy_of : ℕ → List Text → AudiencePolicy
policy_of zero xs = AudiencePolicy.public
policy_of (suc zero) xs = AudiencePolicy.team
policy_of (suc (suc zero)) xs = AudiencePolicy.direct
policy_of (suc (suc (suc zero))) xs = AudiencePolicy.mentions
policy_of (suc (suc (suc (suc zero)))) xs = AudiencePolicy.handles xs
policy_of (suc (suc (suc (suc (suc zero))))) xs = AudiencePolicy.roles xs
policy_of (suc (suc (suc (suc (suc (suc zero)))))) xs = AudiencePolicy.members xs
policy_of _ xs = AudiencePolicy.custom (first xs)

pub policy_from : Tagged → AudiencePolicy
unfolding policy_of
policy_from (n, xs) = policy_of n xs

pub policy_same : (x : AudiencePolicy) → policy_from (policy_to x) ≡ x
unfolding policy_from policy_to policy_of
policy_same AudiencePolicy.public = refl
policy_same AudiencePolicy.team = refl
policy_same AudiencePolicy.direct = refl
policy_same AudiencePolicy.mentions = refl
policy_same (AudiencePolicy.handles xs) = refl
policy_same (AudiencePolicy.roles xs) = refl
policy_same (AudiencePolicy.members xs) = refl
policy_same (AudiencePolicy.custom x) = refl

pub policy_coding : Coding AudiencePolicy
unfolding tagged_coding policy_from policy_to
policy_coding = copy_coding tagged_coding policy_to policy_from policy_same

pub reason_to : VisibilityReason → Tagged
reason_to VisibilityReason.explicit_mention = (0, [])
reason_to VisibilityReason.team_wide = (1, [])
reason_to VisibilityReason.direct_recipient = (2, [])
reason_to VisibilityReason.role_match = (3, [])
reason_to VisibilityReason.handle_match = (4, [])
reason_to VisibilityReason.user_visible = (5, [])
reason_to VisibilityReason.lead_visible = (6, [])
reason_to VisibilityReason.thread_visible = (7, [])
reason_to (VisibilityReason.custom x) = (8, x ∷ [])

pub reason_of : ℕ → List Text → VisibilityReason
reason_of zero xs = VisibilityReason.explicit_mention
reason_of (suc zero) xs = VisibilityReason.team_wide
reason_of (suc (suc zero)) xs = VisibilityReason.direct_recipient
reason_of (suc (suc (suc zero))) xs = VisibilityReason.role_match
reason_of (suc (suc (suc (suc zero)))) xs = VisibilityReason.handle_match
reason_of (suc (suc (suc (suc (suc zero))))) xs = VisibilityReason.user_visible
reason_of (suc (suc (suc (suc (suc (suc zero)))))) xs = VisibilityReason.lead_visible
reason_of (suc (suc (suc (suc (suc (suc (suc zero))))))) xs = VisibilityReason.thread_visible
reason_of _ xs = VisibilityReason.custom (first xs)

pub reason_from : Tagged → VisibilityReason
unfolding reason_of
reason_from (n, xs) = reason_of n xs

pub reason_same : (x : VisibilityReason) → reason_from (reason_to x) ≡ x
unfolding reason_from reason_to reason_of
reason_same VisibilityReason.explicit_mention = refl
reason_same VisibilityReason.team_wide = refl
reason_same VisibilityReason.direct_recipient = refl
reason_same VisibilityReason.role_match = refl
reason_same VisibilityReason.handle_match = refl
reason_same VisibilityReason.user_visible = refl
reason_same VisibilityReason.lead_visible = refl
reason_same VisibilityReason.thread_visible = refl
reason_same (VisibilityReason.custom x) = refl

pub reason_coding : Coding VisibilityReason
unfolding tagged_coding reason_from reason_to
reason_coding = copy_coding tagged_coding reason_to reason_from reason_same

pub drop_to : DropReason → Tagged
drop_to DropReason.hidden_by_visibility = (0, [])
drop_to DropReason.not_mentioned = (1, [])
drop_to DropReason.removed_member = (2, [])
drop_to DropReason.unknown_recipient = (3, [])
drop_to DropReason.expired = (4, [])
drop_to DropReason.already_delivered = (5, [])
drop_to (DropReason.custom x) = (6, x ∷ [])

pub drop_of : ℕ → List Text → DropReason
drop_of zero xs = DropReason.hidden_by_visibility
drop_of (suc zero) xs = DropReason.not_mentioned
drop_of (suc (suc zero)) xs = DropReason.removed_member
drop_of (suc (suc (suc zero))) xs = DropReason.unknown_recipient
drop_of (suc (suc (suc (suc zero)))) xs = DropReason.expired
drop_of (suc (suc (suc (suc (suc zero))))) xs = DropReason.already_delivered
drop_of _ xs = DropReason.custom (first xs)

pub drop_from : Tagged → DropReason
unfolding drop_of
drop_from (n, xs) = drop_of n xs

pub drop_same : (x : DropReason) → drop_from (drop_to x) ≡ x
unfolding drop_from drop_to drop_of
drop_same DropReason.hidden_by_visibility = refl
drop_same DropReason.not_mentioned = refl
drop_same DropReason.removed_member = refl
drop_same DropReason.unknown_recipient = refl
drop_same DropReason.expired = refl
drop_same DropReason.already_delivered = refl
drop_same (DropReason.custom x) = refl

pub drop_coding : Coding DropReason
unfolding tagged_coding drop_from drop_to
drop_coding = copy_coding tagged_coding drop_to drop_from drop_same

pub delivery_to : DeliveryStatus → Tagged
delivery_to DeliveryStatus.draft = (0, [])
delivery_to DeliveryStatus.pending = (1, [])
delivery_to DeliveryStatus.delivered = (2, [])
delivery_to DeliveryStatus.partial = (3, [])
delivery_to DeliveryStatus.failed = (4, [])
delivery_to DeliveryStatus.expired = (5, [])

pub delivery_of : ℕ → List Text → DeliveryStatus
delivery_of zero xs = DeliveryStatus.draft
delivery_of (suc zero) xs = DeliveryStatus.pending
delivery_of (suc (suc zero)) xs = DeliveryStatus.delivered
delivery_of (suc (suc (suc zero))) xs = DeliveryStatus.partial
delivery_of (suc (suc (suc (suc zero)))) xs = DeliveryStatus.failed
delivery_of _ xs = DeliveryStatus.expired

pub delivery_from : Tagged → DeliveryStatus
unfolding delivery_of
delivery_from (n, xs) = delivery_of n xs

pub delivery_same : (x : DeliveryStatus) → delivery_from (delivery_to x) ≡ x
unfolding delivery_from delivery_to delivery_of
delivery_same DeliveryStatus.draft = refl
delivery_same DeliveryStatus.pending = refl
delivery_same DeliveryStatus.delivered = refl
delivery_same DeliveryStatus.partial = refl
delivery_same DeliveryStatus.failed = refl
delivery_same DeliveryStatus.expired = refl

pub delivery_coding : Coding DeliveryStatus
unfolding tagged_coding delivery_from delivery_to
delivery_coding = copy_coding tagged_coding delivery_to delivery_from delivery_same

pub receipt_coding : Coding MessageReceipt
unfolding text_coding
receipt_coding =
    copy_coding (pair_coding text_coding nat_coding) (λ r. (r.actor, r.at))
      (λ p. record { actor = p.0; at = p.1 }) (λ r. refl)

pub dropped_coding : Coding DeliveryDrop
unfolding text_coding drop_coding
dropped_coding =
    copy_coding (pair_coding text_coding drop_coding) (λ d. (d.recipient, d.reason))
      (λ p. record { recipient = p.0; reason = p.1 }) (λ d. refl)

pub resolution_coding : Coding VisibilityResolution
unfolding policy_coding reason_coding
resolution_coding =
    copy_coding (pair_coding policy_coding (list_coding reason_coding)) (λ r. (r.policy, r.reasons))
      (λ p. record { policy = p.0; reasons = p.1 }) (λ r. refl)

abbrev pub Head : Type 0
Head = Text × (Text × (Option Text × (Option Text × (Option Text × (Text × MessageKind)))))

pub head_coding : Coding Head
unfolding kind_coding text_coding
head_coding = pair_coding text_coding (
    pair_coding text_coding (
      pair_coding (option_coding text_coding) (
        pair_coding (option_coding text_coding)
          (pair_coding (option_coding text_coding) (pair_coding text_coding kind_coding)))))

abbrev pub Middle : Type 0
Middle =
    Option Text
    × (Text
        × (List Text
            × (List VisibilityRule
                × (Option AudiencePolicy × (Option VisibilityResolution × List Text)))))

pub middle_coding : Coding Middle
unfolding policy_coding resolution_coding rule_coding text_coding
middle_coding = pair_coding (option_coding text_coding) (
    pair_coding text_coding (
      pair_coding (list_coding text_coding) (
        pair_coding (list_coding rule_coding) (
          pair_coding (option_coding policy_coding)
            (pair_coding (option_coding resolution_coding) (list_coding text_coding))))))

abbrev pub Tail : Type 0
Tail =
    List Text
    × (List DeliveryDrop
        × (List MessageReceipt × (List MessageReceipt × (DeliveryStatus × (ℕ × Option ℕ)))))

pub tail_coding : Coding Tail
unfolding delivery_coding dropped_coding receipt_coding text_coding
tail_coding = pair_coding (list_coding text_coding) (
    pair_coding (list_coding dropped_coding) (
      pair_coding (list_coding receipt_coding) (
        pair_coding (list_coding receipt_coding)
          (pair_coding delivery_coding (pair_coding nat_coding (option_coding nat_coding))))))

pub parts_of : Message → Head × (Middle × Tail)
parts_of m = (
  (m.id, (m.room_id, (m.team_id, (m.thread_id, (m.reply_to, (m.sender, m.kind)))))),
  (
    (
      m.subject,
      (
        m.body,
        (
          m.mentions,
          (
            m.visibility,
            (m.audience_policy, (m.effective_visibility_reason, m.effective_recipients)),
          ),
        ),
      ),
    ),
    (
      m.delivered_to,
      (m.dropped_for, (m.read_by, (m.acked_by, (m.delivery_status, (m.created_at, m.expires_at))))),
    ),
  ),
)

pub message_of : Head × (Middle × Tail) → Message
message_of p = record {
  id = p.0.0;
  room_id = p.0.1.0;
  team_id = p.0.1.1.0;
  thread_id = p.0.1.1.1.0;
  reply_to = p.0.1.1.1.1.0;
  sender = p.0.1.1.1.1.1.0;
  kind = p.0.1.1.1.1.1.1;
  subject = p.1.0.0;
  body = p.1.0.1.0;
  mentions = p.1.0.1.1.0;
  visibility = p.1.0.1.1.1.0;
  audience_policy = p.1.0.1.1.1.1.0;
  effective_visibility_reason = p.1.0.1.1.1.1.1.0;
  effective_recipients = p.1.0.1.1.1.1.1.1;
  delivered_to = p.1.1.0;
  dropped_for = p.1.1.1.0;
  read_by = p.1.1.1.1.0;
  acked_by = p.1.1.1.1.1.0;
  delivery_status = p.1.1.1.1.1.1.0;
  created_at = p.1.1.1.1.1.1.1.0;
  expires_at = p.1.1.1.1.1.1.1.1;
}

pub message_same : (m : Message) → message_of (parts_of m) ≡ m
unfolding message_of parts_of
message_same m = refl

pub message_coding : Coding Message
unfolding head_coding middle_coding tail_coding parts_of message_of
message_coding =
    copy_coding (pair_coding head_coding (pair_coding middle_coding tail_coding)) parts_of
      message_of message_same

-- An entry is a list of its message or a list of its deletion.
abbrev Entry : Type 0
Entry = List Message × List (Text × ℕ)

pub entry_to : TranscriptEntry → Entry
entry_to (message m) = (m ∷ [], [])
entry_to (deleted id at) = ([], (id, at) ∷ [])

pub entry_from : Entry → TranscriptEntry
entry_from (m ∷ _, _) = message m
entry_from ([], (id, at) ∷ _) = deleted id at
entry_from ([], []) = deleted [] 0

pub entry_same : (e : TranscriptEntry) → entry_from (entry_to e) ≡ e
unfolding entry_from entry_to
entry_same (message m) = refl
entry_same (deleted id at) = refl

pub entry_coding : Coding TranscriptEntry
unfolding entry_from entry_to text_coding message_coding
entry_coding =
    copy_coding
      (pair_coding (list_coding message_coding) (list_coding (pair_coding text_coding nat_coding)))
      entry_to entry_from entry_same

unfoldable pub entry_serde : LineSerde TranscriptEntry
unfolding entry_coding line_serde_of nat_coding pair_coding copy_coding list_coding option_coding
entry_serde = line_serde_of entry_coding

abbrev pub note : Text → ℕ → Message
note id at = record {
  id = id;
  room_id = text "main";
  team_id = some (text "t");
  thread_id = some (text "th");
  reply_to = none;
  sender = text "lead";
  kind = MessageKind.dispatch;
  subject = none;
  body = text "go";
  mentions = [];
  visibility = VisibilityRule.team ∷ [];
  audience_policy = some AudiencePolicy.direct;
  effective_visibility_reason = none;
  effective_recipients = text "w" ∷ [];
  delivered_to = [];
  dropped_for = [];
  read_by = [];
  acked_by = [];
  delivery_status = DeliveryStatus.pending;
  created_at = at;
  expires_at = none;
}
