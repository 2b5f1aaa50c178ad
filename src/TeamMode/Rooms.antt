-- ===== src/TeamMode/Rooms.antt =====
-- team_mode/domain/room.rs, team_mode/storage/room_store.rs and team_mode/service/room_service.rs:
-- the one room of each team, in a file of its own.
pub mod Main
use agent_teams_mcp.Base.{
  Text, text, Option, none, some, List, [], ◌∷◌, lookup, insert, remove, Serde,
}
use agent_teams_mcp.Error.{json, Result, ok, err, panic, ◌>>=◌, ◌>>◌, proceed}
use agent_teams_mcp.Names.{validate_name}
use agent_teams_mcp.TeamMode.Transcript.{validate_opt}

pub data RoomKind : Type 0 where
  main custom : RoomKind

pub data RoomStatus : Type 0 where
  active archived : RoomStatus

pub record Room : Type 0 where
  pub id : Text
  pub team_id : Option Text
  pub kind : RoomKind
  pub status : RoomStatus

-- The texts of the files by team.
abbrev pub RoomFiles : Type 0
RoomFiles = List (Text × Text)

unfoldable pub main_room : Text → Room
main_room team_id = record {
  id = text "main";
  team_id = some team_id;
  kind = main;
  status = active;
}

module _ (serde : Serde Room) where
  unfoldable pub save_room : Text → Room → RoomFiles → Result (Unit {0}) × RoomFiles
  save_room team_id room files =
      proceed ((do validate_name team_id; validate_opt room.team_id), files)
        (λ _ s. (ok tt, insert team_id (serde.encode room) s))

  unfoldable pub get_room : Text → RoomFiles → Result (Option Room)
  get_room team_id files = do
    validate_name team_id
    elim (lookup team_id files) [
      | none ↦ ok none
      | some t ↦ elim (serde.decode t) [ none ↦ err json | some room ↦ ok (some room) ]
    ]

  unfoldable pub delete_room : Text → RoomFiles → Result (Unit {0}) × RoomFiles
  delete_room team_id files =
      proceed (validate_name team_id, files) (λ _ s. (ok tt, remove team_id s))

  -- `save` of the service, which checks the name before the store does.
  unfoldable pub save_checked : Text → Room → RoomFiles → Result (Unit {0}) × RoomFiles
  unfolding save_room
  save_checked team_id room files =
      proceed (validate_name team_id, files) (λ _ s. save_room team_id room s)

  -- What follows the reading of the room.
  unfoldable pub keep_or_make : Text → Option Room → RoomFiles → Result Room × RoomFiles
  unfolding save_room main_room
  keep_or_make team_id (some existing) files = (ok existing, files)
  keep_or_make team_id none files =
      proceed (save_room team_id (main_room team_id) files) (λ _ s. (ok (main_room team_id), s))

  unfoldable pub ensure_main_room : Text → RoomFiles → Result Room × RoomFiles
  unfolding get_room keep_or_make
  ensure_main_room team_id files =
      proceed ((do validate_name team_id; get_room team_id files), files) (keep_or_make team_id)
