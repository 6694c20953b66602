-- ===== src/Lib.antt =====
-- The Forgotten Server, a game server in C++: the parts of its source under src/ that carry state
-- and rules of their own, as definitions that run, with theorems about them.
--
-- A client connects (src/connection.cpp), is counted by the connection limit (src/ban.cpp), sends
-- messages that the transport decrypts (src/protocol.cpp, src/networkmessage.cpp), and waits in
-- the login queue while the server is full (src/waitlist.cpp). Timed work of the server goes
-- through the scheduler to the dispatcher (src/scheduler.cpp, src/tasks.cpp), which runs it one
-- task after the other. Once in the game a player is sent the part of the map that it sees
-- (src/protocolgame.cpp). It may form a party with others (src/party.cpp, with the request
-- handlers of src/game.cpp), trade an item with another player (src/game.cpp) and talk in channels
-- (src/chat.cpp). What a part needs of another is an argument of its definitions: the login queue
-- takes the time, the settings and the number of players online; the parties take what the game
-- knows of the players.
--
--   Prelude: names of the libraries that all parts share, Boolean tests, list helpers, and numbers
--     of 16, 32 and 64 bits with their wrap-around.
--   WaitList: src/waitlist.h, src/waitlist.cpp. `client_login`, `get_client_slot`, `find_client`,
--     `cleanup_list` are the functions of these names in camel case. Both lists are lists; an
--     iterator is the list that it belongs to with a position in it. Erasing through the other list
--     is undefined in C++ and is an outcome of its own.
--   Ban: `Ban::acceptConnection` of src/ban.cpp. The map by address is an association list.
--   Network.Message: src/networkmessage.h, src/networkmessage.cpp. The buffer is a function from
--     offsets to bytes, so that each read and write says which offsets it touches.
--   Network.Xtea: the rounds of the cipher in src/protocol.cpp on one block, as 32 structural
--     steps.
--   Network.Protocol: the headers of src/outputmessage.h, the loops, `onSendMessage` and
--     `onRecvMessage` of src/protocol.cpp, and `Connection::parseHeader` of src/connection.cpp. The
--     loops run on fuel, the length of the message and one more; each step advances by at least one
--     byte, so it is enough, as the round trip shows.
--   Party: src/party.h, src/party.cpp, the handlers of src/game.cpp for the requests of clients
--     about parties, and the invitations that src/player.cpp keeps. Objects live in a store,
--     `World`; a pointer is the number of its object, and a new party takes the next number. What
--     the scripts answer is an argument, which stands for any answer.
--   Scheduler: src/scheduler.h, src/scheduler.cpp, src/tasks.h, src/tasks.cpp. Each region under a
--     lock is one step, and so is each test of a thread's state outside a lock and each task that is
--     run; a `Place` says where a thread stands between its steps, and `run` takes the steps of both
--     threads and of the callers in the order in which they happen. The priority queue is a sorted
--     list; its `top()` while it is empty, which the source calls when a shutdown has come between,
--     is a place of its own.
--   Progress: the skills, the mana, the experience and the training while offline of
--     src/player.cpp and src/player.h. The requirements, which the vocations of src/vocation.h
--     compute in floating point, and the answers of scripts are arguments. The loops run on fuel:
--     the points to gain and one more, the total experience and one more, or the level; each round
--     takes at least one of these, so it is enough, as the theorems show. The products of 64 bits
--     are exact for levels below 500000.
--   FileFormat: src/fileloader.h, src/fileloader.cpp. A file is a list of bytes and the nodes are
--     a tree; a node keeps the offsets of its properties, as in the source. The `type` that
--     `getChildNode` and `getNextNode` return by reference goes in and comes out. The fuel is twice
--     the length of the file and two more.
--   Container: src/container.h, src/container.cpp, with the weights and counts of src/item.cpp.
--     Items and containers live in a store. The update of weights goes from a container to the one
--     around it on fuel; a fuel above the depth of the container is enough, where the depth is any
--     ranking in which each container stands deeper than the one around it.
--   WildcardTree: src/wildcardtree.h, src/wildcardtree.cpp. The nodes and their children are a
--     mutual data type; a change of a node in place is a new tree with the node put back along its
--     path, so that the recursion stands for the source's pointer and for its stack.
--   OnlinePlayers: the maps of players of src/game.cpp and their search by name, with the wildcard
--     tree. `tolower` of the C library is an argument; the theorem takes it to leave its own results
--     alone.
--   Trade: the requests on trades of src/game.cpp (`playerRequestTrade`, `playerAcceptTrade`,
--     `playerCloseTrade`, and what they call), and the events of src/player.cpp that close a trade.
--     Players and items are numbers; `Trades` holds the state, the partner and the item of each
--     player and the map `tradeItems`; `Env` holds what the map, the scripts and the moves of items
--     answer. The state TRADE_TRANSFER is set and left within one request.
--   MapView: the description of the map that a client is sent, `GetMapDescription`,
--     `GetFloorDescription`, `GetTileDescription`, `AddCreature`, `checkCreatureAsKnown` and
--     `canSee` of src/protocolgame.cpp, with `addItem` of src/networkmessage.cpp and
--     `canSeeCreature` of src/player.cpp. The functions that describe give the calls of `addByte`,
--     `add` and `addString` that they make, in their order, and the message of Network.Message gets
--     these, so a call for which it has no room is lost as in the source. MapView.Encoding is the
--     format as a function into bytes, and MapView.Format and MapView.Written compare the two. The
--     set of known creatures is a list in the order in which the hash set goes through it, and where
--     a new id comes to stand is an argument. MapView.Reading is a client that reads the
--     description, written after the protocol.
--   Chat: src/chat.cpp, src/chat.h, with the requests of src/game.cpp on channels. The four maps
--     are functions from keys; a pointer to a channel is its map with its key. Users are known by
--     the ids of players, invitations and owners by guids, which `guid_of` gives. Each login gives a
--     new id, the guid stays; which players are online is part of the state of Chat.Runs, and a
--     player that logs out leaves all channels. That nobody logs in while another with the same guid
--     is online is taken from the login.
--   Positions: the operators of src/position.h, and `getNextPosition` and `getDirectionTo` of
--     src/tools.cpp. A coordinate is a `uint16_t` and wraps.
--
-- Not modelled: what is sent to clients for display; sockets, timers and locks; the database; Lua
-- and the data files; the map, creatures, combat and items, which depend on these; `queryMaxCount`
-- and `queryDestination` of src/container.cpp; the blocks in which src/fileloader.cpp caches a
-- file. The factor 2/3 of shared experience is computed by the source in floating point, which is
-- exact for levels below two to the power of 22; the model has whole numbers.
pub mod Prelude
pub mod WaitList
pub mod Ban
pub mod Network
pub mod Party
pub mod Scheduler
pub mod Positions
pub mod Container
pub mod WildcardTree
pub mod Progress
pub mod FileFormat
pub mod Chat
pub mod MapView
pub mod OnlinePlayers
pub mod Trade
