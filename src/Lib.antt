-- ===== src/Lib.antt =====
-- MorenoCore: a model of parts of an authentication and world server for the 3.3.5a client.
--
-- The server reads frames from a client, decrypts their headers, and gives each packet to a handler
-- of the session, which reads the packet with a buffer, changes the session and what the sessions
-- share, and sends packets that it builds with a buffer. The parts that are modelled:
--
-- Common: the Boolean tests of numbers, lists by index, and the bits of numbers.
--
-- Protocol.Buffer is pkg/protocol/buffer.go. A `Buffer` is the bytes and the position of the Go
-- struct; a method that writes gives the new buffer, a method that reads is of type `M`, which
-- gives a value, an error or a panic with the buffer left behind. write_u8, read_u8 and so on are
-- WriteU8, ReadU8; `read` is the private method `read`, and Read. Bytes and unsigned words are
-- numbers, written modulo their size; a signed word is an `ℤ`. A buffer's length and the sums of
-- lengths are Go `int`s, so statements about them ask for a length below int_limit = 2^63. Reads
-- has the way in which reads follow one another, Words the words and texts, PackedGuid the packed
-- guids, Safety the reads of any bytes. The loop of ReadPackedGUID is guid_loop, on the number of
-- rounds left.
--
-- Protocol.Frame is pkg/protocol/world.go: encode_server_frame is EncodeServerFrame,
-- decode_client_frame_header is DecodeClientFrameHeader, read_client_frame is ReadClientFrame with
-- the helpers of its later parts, read_header, read_decrypted, read_parsed and read_payload. A
-- stream is the list of bytes that the reader still gives, read_full is io.ReadFull on it; the
-- function that decrypts is a parameter. Server and Client have the frames of each side.
--
-- Protocol.Mask is the UpdateMask of pkg/protocol/updates.go; the receiver may be nil, and then is
-- `none`. Protocol.Packets has the builders of pkg/protocol/threat.go, item.go and chat.go.
-- Protocol.Spells has the target of a spell and the packets of a cast of pkg/protocol/spells.go; a
-- float is the word of its bits there. Protocol.Auras has the packets about auras of the same file;
-- a client's reader, for the round trip, is in Updates.
--
-- World.Wsg is engine/world/battleground_wsg.go with teamForRace of engine/world/characters.go and
-- the guids of engine/world/gameobjects.go. `State` is wsgBattlegroundState less its lock: the lock
-- makes each handler one step. A handler gives the new state and the list of what it does besides,
-- in order. FlagUse has the four cases of handleWSGFlagUse, Events handleWSGPlayerDeath,
-- handleWSGPlayerLeave, the timers, which may fire at any time after their start, and `step`, one
-- event. Invariant and Captures have what holds over all events.
--
-- World.Diminishing is engine/world/diminishing.go: a session's array of diminishingReturn is a
-- list, the time is an argument. Groups has the switches on spells and mechanics as lists of cases.
-- The product of the duration with a float32 is computed on numbers: 24 bits of the duration are
-- kept, rounded to even. Levels and Durations have the levels over hits and the length of a spell.
--
-- World.Trade is engine/world/trade.go with findSessionByGUID of engine/world/chat.go. The sessions
-- are a function from their numbers; a pointer to a session is its number, so that the two partners
-- share their sessions as in the code. Packets has sendTradeStatus, sendTradeStatusExtended and
-- notifyTradeUpdate, Slots findFreeSlotsForTrade, Complete completeTrade, Handlers and Answers the
-- handlers, and `step` one packet of any session. Rows of the database, the order in which Go goes
-- through a map and the distance test are the fields of an `Environment` that each packet may have
-- anew; writes to the database and packets that are sent are the effects of a `World`. Frames,
-- Partners, Requests, Exchange and Deals say what each handler leaves of links and players; Money,
-- Wraps, Places, Total and Offers have the theorems. `none` of a step is a panic of the exchange's loops.
-- The handlers of the code run in one goroutine per session with no lock on a trade: the model
-- takes each as one step.
--
-- World.Ab is engine/world/battleground_ab.go. `State` is abBattlegroundState less its lock; the
-- guids of spawned objects come from the server's counter, which a handler takes and gives back.
-- Banners has handleABBannerUse, completeABNodeCapture and what they call, one definition per case
-- of the switch; Resources has TickResources, whose two loops run on fuel. A round takes an
-- interval of at least one millisecond off the accumulated time, so that one round more than there
-- are milliseconds is enough; a negative time makes no round. Awards and Yields compare the
-- loops with a division. The times are int64, held as words of 64 bits in World.Clock. Reached has `step`, one
-- event of a match: a player uses a banner, the timer of a node fires that has been started and not
-- stopped, or time passes. Bases, Contests and Control say what a step does to the nodes and the
-- counts, Matches what holds over a match. The time between the loss of the lock and the test of a
-- stopped timer is not modelled.
--
-- World.Eots is engine/world/battleground_eots.go. `State` is eotsBattlegroundState less its lock;
-- a timer is whether there is one. Flag has the uses of the flag, captureEOTSFlag, dropEOTSFlag
-- with the functions of the two timers, and the handlers of a death and of a player who leaves;
-- Towers has the use of a banner and handleEOTSGameObjectUse; Resources has TickEOTSResources,
-- whose loops run on one round of fuel more than there are milliseconds, which is enough since a
-- round takes 1000 of them; the times are those of World.Clock. Events has `step`, in which a timer may run at any time, also after it
-- has been stopped. Scores, Boards and Flags say what an event does to the resources, the towers
-- and the flag, Matches and Captures what holds over a match. Timers follows the timer of the flag's return, which
-- the state does not tell since the field stays set after the timer has run, and Returns what holds
-- of it. Rounds takes the loops to those of
-- Arathi Basin, and Yields compares them with a division.
--
-- World.Queue is engine/world/battleground.go: the two places of a session in the queues, in the
-- order of the Go array, the handlers that fill and empty them, and the packets. The time is an
-- argument. Slots looks at the places through `view`, in which an entry that has ended is nothing.
--
-- World.Groups is engine/world/group.go with findSessionByGUID. The sessions are a function from
-- guids and the groups one from their numbers, so that a member's session is found as in the code.
-- Joining has the invitations and handleGroupAccept, Leaving the uninvite handlers,
-- handleGroupDisband and the end of a session, Ranks the leader, the loot, the assistants and the
-- subgroups, Calls the marks, the assignments, pings, ready checks and rolls, Looter whose turn it
-- is to loot, with updateLooter. `Names` has the comparison and the search by name, of which the
-- standard library's folding of letters is a part. Sessions has `step`, one command of a session, a
-- session that starts or one that ends; a session starts in no group, so that loadPlayerGroup, which
-- reads a saved group from the database, is not modelled, and it ends only when it names none. Stores, Ends, Joins,
-- Membership, Orders and Marks have the lemmas about the two maps, Gaps what the handlers do not
-- test. Packets are taken as they are sent, with the group they describe.
--
-- World.Absorption is engine/world/absorption.go: the shields of a player or a creature are a list,
-- of which `shields` and `sort` make the list that the loop goes through, use_all; the active auras
-- change in that list. A player's mana is an argument, `none` where there is no player. Amounts has
-- the sums.
--
-- All recursion is structural: on the bytes, on the number of rounds of a loop with a fixed count,
-- on the slots of a bag, on the shields, on the members of a group and on the places of a queue;
-- the loop of updateLooter is on the number of rounds left. Only the loops of TickResources and
-- TickEOTSResources use fuel.
--
-- Tests has concrete runs and each theorem at a concrete input.
--
-- Not modelled: sockets, goroutines and logs, the database and its drivers, the Lua bindings, the
-- cryptography, the generated opcodes, the extractors of tools/, and the rest of engine/world,
-- whose handlers are mostly SQL statements or geometry on floats.
pub mod Common
pub mod Protocol
pub mod World
pub mod Tests
