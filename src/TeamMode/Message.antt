-- ===== src/TeamMode/Message.antt =====
-- team_mode/domain/message.rs. A time is the number of its instant.
use agent_teams_mcp.Base.{Text, ℕ, Option, List}

pub data MessageKind : Type 0 where
  dispatch discussion reply system notice status : MessageKind

pub data VisibilityRule : Type 0 where
  public team user lead : VisibilityRule
  member handle role : Text → VisibilityRule
  members handles roles : List Text → VisibilityRule

pub data AudiencePolicy : Type 0 where
  public team direct mentions : AudiencePolicy
  handles roles members : List Text → AudiencePolicy
  custom : Text → AudiencePolicy

pub data VisibilityReason : Type 0 where
  explicit_mention team_wide direct_recipient role_match handle_match : VisibilityReason
  user_visible lead_visible thread_visible : VisibilityReason
  custom : Text → VisibilityReason

pub record VisibilityResolution : Type 0 where
  pub policy : AudiencePolicy
  pub reasons : List VisibilityReason

pub data DropReason : Type 0 where
  hidden_by_visibility not_mentioned removed_member unknown_recipient expired : DropReason
  already_delivered : DropReason
  custom : Text → DropReason

pub record DeliveryDrop : Type 0 where
  pub recipient : Text
  pub reason : DropReason

pub record MessageReceipt : Type 0 where
  pub actor : Text
  pub at : ℕ

pub data DeliveryStatus : Type 0 where
  draft pending delivered partial failed expired : DeliveryStatus

pub record Message : Type 0 where
  pub id : Text
  pub room_id : Text
  pub team_id : Option Text
  pub thread_id : Option Text
  pub reply_to : Option Text
  pub sender : Text
  pub kind : MessageKind
  pub subject : Option Text
  pub body : Text
  pub mentions : List Text
  pub visibility : List VisibilityRule
  pub audience_policy : Option AudiencePolicy
  pub effective_visibility_reason : Option VisibilityResolution
  pub effective_recipients : List Text
  pub delivered_to : List Text
  pub dropped_for : List DeliveryDrop
  pub read_by : List MessageReceipt
  pub acked_by : List MessageReceipt
  pub delivery_status : DeliveryStatus
  pub created_at : ℕ
  pub expires_at : Option ℕ
