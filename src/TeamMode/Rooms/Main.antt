-- ===== src/TeamMode/Rooms/Main.antt =====
-- Making sure of the room of a team.
use agent_teams_mcp.Base.{
  Text, ==_refl, ◌≡◌, refl, ◌∙◌, Option, none, some, lookup, insert, lookup-insert, Serde, arith,
}
use agent_teams_mcp.Error.{ok}
use agent_teams_mcp.Names.{validate_name}
use agent_teams_mcp.TeamMode.Transcript.{validate_opt}
use agent_teams_mcp.TeamMode.Rooms.{
  Room, RoomFiles, main_room, save_room, get_room, keep_or_make, ensure_main_room,
}

module _ (serde : Serde Room) (team : Text) (valid : validate_name team ≡ ok tt) where
  get_room-save_room :
      (room : Room) (files : RoomFiles)
      → validate_opt room.team_id ≡ ok tt
      → get_room serde team (save_room serde team room files).1 ≡ ok (some room)
  unfolding get_room save_room
  get_room-save_room room files h =
      let there : lookup team (insert team (serde.encode room) files) ≡ some (serde.encode room) =
        lookup-insert team team (serde.encode room) files ∙ rw (==_refl team) refl in
      ground (arith, valid, h, there, serde.decode-encode room)

  ensure_main_room-there :
      (room : Room) (files : RoomFiles)
      → get_room serde team files ≡ ok (some room)
      → ensure_main_room serde team files ≡ (ok room, files)
  unfolding ensure_main_room keep_or_make
  ensure_main_room-there room files h = ground (arith, valid, h)

  ensure_main_room-absent :
      (files : RoomFiles)
      → get_room serde team files ≡ ok none
      → ensure_main_room serde team files
        ≡ (ok (main_room team), (save_room serde team (main_room team) files).1)
  unfolding ensure_main_room keep_or_make save_room main_room validate_opt
  ensure_main_room-absent files h = ground (arith, valid, h)

  -- Where the file of the room can be read or is missing, the room is there afterwards, and doing it
  -- again gives the same room and changes nothing.
  pub ensure_main_room-again :
      (files : RoomFiles) (found : Option Room)
      → get_room serde team files ≡ ok found
      → (room : Room) × (files' : RoomFiles) × (ensure_main_room serde team files
          ≡ (ok room, files'))
        × (get_room serde team files' ≡ ok (some room))
        × (ensure_main_room serde team files' ≡ (ok room, files'))
  unfolding main_room validate_opt
  ensure_main_room-again files (some room) h =
      let same = ensure_main_room-there room files h in (room, files, same, h, same)
  ensure_main_room-again files none h =
      let files' = (save_room serde team (main_room team) files).1 in
      let back = get_room-save_room (main_room team) files valid in
      (
        main_room team,
        files',
        ensure_main_room-absent files h,
        back,
        ensure_main_room-there (main_room team) files' back,
      )
