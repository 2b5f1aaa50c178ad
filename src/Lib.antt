-- ===== src/Lib.antt =====
-- A model of the parts of agent-teams that decide things: tasks and their dependencies,
-- names, messages and inboxes, and the files in which they are kept.
--
-- Errors (src/error.rs, `Error.antt`) are values: `ok`, `err` with the error, or `panic`.
-- Names (src/util/mod.rs, `Names.antt`): `validate_name` and `validate_slug_name`.
-- Ids (src/util/id_gen.rs, `Decimal.antt` and `Task/Manager.antt`): decimal `u64`, `next_task_id`.
-- Tasks: `Task/Model.antt` has the records and the status machine of src/models/task.rs,
-- `Task/Manager.antt` the operations of `FileTaskManager` in src/task/mod.rs on the directory of one
-- team, and `Task/Graph.antt` the `DependencyGraph` of src/task/graph.rs; below it
-- `Task/Graph/Sort.antt` is `topological_sort` and `Task/Graph/Levels.antt` is `compute_levels`.
--
-- Team Mode: `TeamMode/Message.antt` has the records of src/team_mode/domain/message.rs,
-- `TeamMode/Lines.antt` text by lines, `TeamMode/Transcript.antt` the operations of `MessageStore`
-- in src/team_mode/storage/message_store.rs on the file of one team, and `TeamMode/Inbox.antt` the
-- views and receipts of src/team_mode/storage/projection_store.rs and
-- src/team_mode/service/inbox_service.rs, which use the transcript through `list` and `update`.
-- `TeamMode/Mentions.antt`, `TeamMode/Threading.antt` and `TeamMode/Routing.antt` are
-- src/team_mode/service/message_service.rs: mentions, threads, recipients and sending, which uses
-- the transcript through `get`, `list_by_thread` and `save`, and the other stores through the
-- record `Stores`; `to_lowercase`, the notifier and the queue of the lead are parameters.
-- `TeamMode/Member.antt` and `TeamMode/Members.antt` are src/team_mode/domain/member.rs and
-- src/team_mode/storage/member_store.rs: the members of the teams, one file for each team. There
-- the lock is held for the writing alone, so a change is two steps, its plan from the file that was
-- read and the saving. `TeamMode/MemberService.antt` is src/team_mode/service/member_service.rs and
-- says what the service of messages reads from the members' files. `TeamMode/Pending.antt` is the
-- appending to the queue of the lead in src/team_mode/service/lead_pending.rs, and
-- `TeamMode/Pending/Migration.antt` the migration of the older queue there.
-- `TeamMode/Rooms.antt` is the room of a team, in src/team_mode/domain/room.rs,
-- src/team_mode/storage/room_store.rs and src/team_mode/service/room_service.rs.
-- Votes: `Consensus.antt` is src/consensus/mod.rs; the arithmetic of `f32` and the order of a hash
-- map are the parameter `Weights`.
-- Tokens: `Tokens.antt` is the counts and the cutting of summaries in src/models/token.rs.
-- `Tests.antt` has the theorems at concrete inputs and runs of the model.
--
-- A directory is a list of file names and texts, a transcript an optional content. The files that are
-- replaced as a whole hold text. A transcript or a queue is appended to, so its content may also hold
-- bytes that are part of no character: a number from 0x110000 on stands for such a byte, and reading
-- the file then fails (`is_utf8`). The queues of the lead are found by team, for teams that are plain
-- names, each with a directory of its own.
--
-- serde_json is a parameter: `Serde`, of which the model uses that a written value is read back;
-- `TaskSerde` for tasks, where a metadata of `null` is read as none; and `LineSerde` for the files of
-- lines, where a written value is also one line of characters with nothing to trim. The metadata of a
-- task holds values that are read as they were written, which leaves out some floating-point numbers.
-- A time is a number, and the present time an argument. Every operation of the manager holds the directory's
-- lock, so it is one step; failures of the file system and of the lock are not modelled. A hash map
-- or set is a list without repetition. Its order is that of insertion, on which no theorem depends,
-- or where the program goes through it to make another (`active_members_by_name`) an argument.
-- The cycle search runs on fuel, one more than the edges of the graph and the first task; its
-- theorem shows that the fuel suffices. The sort of the graph runs on fuel too, one more than the
-- tasks of the graph, and its theorem shows the same.
--
-- Not modelled: the renderings and the critical path of the graph, the store of teams, the services
-- of teams and threads, checkpoints and the prices of tokens; and the backends, the servers and the
-- user interfaces, which are input and output.
mod Base
pub mod Error
pub mod Names
pub mod Decimal
pub mod Consensus
pub mod Task
pub mod TeamMode
pub mod Tokens
mod Tests
