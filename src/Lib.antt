-- ===== src/Lib.antt =====
-- Verification of SSH-Hunt, a hacking game played over SSH: the virtual file system of a session,
-- the shell that reads its command lines, and the shared world of the players.
--
-- The parts, and where they stand. Paths are from the root of the repository.
--   Vfs      ssh-hunt/crates/vfs/src/lib.rs. `Vfs` with each of its methods, under their own names:
--            paths in Vfs/Path, the reading methods in Vfs/Read, the writing ones in Vfs/Write,
--            `glob_to_regex` in Vfs/Glob. Vfs/Valid is about the tree of directories.
--   Shell    ssh-hunt/crates/shell/src/lib.rs. `tokenize` in Shell/Tokens, `parse_line` in
--            Shell/Parser, `ShellEngine::execute` and `execute_pipeline` in Shell/Engine. The
--            engine works on a `Vfs`, which commands and redirections change.
--   World    ssh-hunt/crates/world/src/lib.rs, with the records of
--            ssh-hunt/crates/protocol/src/lib.rs. The state in World/State; `create_listing`,
--            `place_bid` and `buyout` in World/Auction; `claim_daily_reward` in World/Daily;
--            `start_duel` and `duel_action` in World/Duel; `mode_switch` in World/NetCity;
--            `complete_mission` and `deliver_npc_mail` in World/Missions; the other methods on
--            missions in World/Missions/Access, with the command `submit` of
--            ssh-hunt/crates/ssh_hunt_server/src/main.rs, which calls two of them; `login`, keys
--            and the settings of a player in World/Accounts; the duels with characters in
--            World/NpcDuel, whose turn is in World/NpcDuel/Turn; the leaderboard, the snapshots, the
--            chat and the history in World/Board; the mailbox in World/Mail; `WorldService::new` and
--            the tables it starts with in World/Seeds.
--   Server   ssh-hunt/crates/ssh_hunt_server/src/builtins.rs. The commands on files, `echo` and a few
--            more in Server/Commands, as the registry of `default_registry`, where `others` stands
--            for the registered commands that are not modelled; what they do with arguments and lines
--            in Server/Words, and the conditions of `test` in Server/Conditions.
--   Base     shared types and lemmas: texts, results, methods, maps, sets, machine integers.
-- The Tests module of each part runs it at concrete inputs.
--
-- A method on `&mut self` that returns a `Result` is a function from the state to the result and
-- the state it leaves, also after an error (Base/Actions). A text is the list of its code points.
-- A `BTreeMap` is an association list in the order of its keys, a `HashMap` one in the order of
-- insertion, which shows only where a sort leaves ties and in the log of `validate_mission`. The
-- world's methods hold its lock throughout, so each is one step, but for `mode_switch`, which
-- takes it three times with nothing in between here. Wallets are `i64` and integrity points
-- `i32`, with their wrap-around (Base/Machine). The loops of the source are structural recursion
-- on the list they walk; `eval_test_expr`, which calls itself on parts of its arguments, takes
-- fuel, and one more than their number is enough.
--
-- Arguments stand for what the code calls: `now` for the clock, `fresh` for a new identifier,
-- `roll` for the generator, `stored` for the answer of the database, `registry` for the commands
-- that are registered with the shell, `luck` and `pick` for the generator in a duel with a
-- character, `upper` for `to_uppercase`, `first` for the order of a hash set, `hash` for SHA-256
-- and `is_pubkey` for the regular expression of a public key. An `f32` is its 32 bits, and its
-- arithmetic is a parameter (Float32). A panic is an error that stops the method. The regex crate
-- is a parameter of `find` and `glob`. An instant is in nanoseconds since 1970.
--
-- Not modelled: `style_bonus`, which rounds floating-point products; the script engine
-- (ssh-hunt/crates/scripts), which is the rhai crate; the display (ssh-hunt/crates/ui); the other
-- built-in commands, of which `ls` formats dates and `grep`, `find`, `sed` and `awk` call the regex
-- crate; the sessions of the server and the administration tool, which handle SSH, tasks and the
-- database.
pub mod Base
pub mod Server
pub mod Shell
pub mod Vfs
pub mod World
