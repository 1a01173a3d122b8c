-- ===== src/Lib.antt =====
-- europa-neo: the simulation of the game, what its players see, and the matches of a server.
--
-- The program is a web game of two to four players on a square grid of cells. packages/engine advances
-- a world by ticks; packages/core has the types, the rule constants and the identities of players that
-- the other packages share; packages/fog cuts a world down to what a player sees; packages/matchmaking
-- keeps the matches of a server, starts an engine session when a match is full, and closes it.
--
-- The parts and their files:
--
-- Core/Types, Core/FlowRate, Core/PlayerId and Core/Rng are packages/core/src/types.ts, flow-rate.ts,
--   player-id.ts and rng.ts. A JavaScript number that a caller sends is a `Num`: an integer, or one for
--   which Number.isInteger fails.
-- Engine/Types is packages/engine/src/contracts/engine-types.ts and events.ts. The typed arrays of a
--   WorldState are lists of numbers, with the truncation of a write and the default 0 of a read written
--   out (Prelude/Arrays). A World has a `ref`, the identity of the object, since the table of pending
--   orders is keyed by it.
-- Engine/Registry is playerRegistry.ts (createPlayerRegistry, compareUtf16, indexOfId, requireIdAt).
-- Engine/Create is create.ts (createWorld): the world that a match starts with.
-- Engine/Validate is validate.ts (validateCommand), Engine/ApplyCommand is applyCommand.ts: an order is
--   validated and put into the queue of its world; a surrender takes effect at once.
-- Engine/Sort and Engine/Tick are tick.ts. `tick` leaves a finished match alone; otherwise it drains the
--   queue in its sorted order and runs the phases of packages/engine/src/resolution, in this order:
--   Engine/Production, Engine/Paratroop, Engine/Gun, Engine/Flow (with Engine/Pipes, the masks, and
--   Engine/Reserves, the floors), Engine/Combat (with Engine/Attrition), Engine/Capture, Engine/Decay and
--   Engine/Terminal. Each phase takes a state to a state; flow hands its committed flow to combat.
-- Engine/Run is the caller's view: a step relation of commands and ticks, and the runs made of them.
-- Engine/Valid has the invariant of a state. Engine/Read is read.ts, the accessors that fog uses.
--
-- Fog/Range, Fog/Mask, Fog/VisibleSet, Fog/EventsFilter and Fog/PlayerView are packages/fog/src/range.ts,
--   mask.ts, visibleSet.ts, eventsFilter.ts and playerView.ts with utils.ts. A view is computed from the
--   world, the events of a tick and the player alone: computePlayerView finds the player's byte, marks
--   the cells in range of the player's troops, decodes the marked cells and filters the events.
--
-- Matchmaking/OrderedMap is the Map of the language: a list of entries in the order of insertion.
-- Matchmaking/Types is the records of packages/matchmaking/src/internal (matchRecord.ts, seatRecord.ts,
--   playerSession.ts), of contracts/match-types.ts and of eventBus.ts. Matchmaking/Store is store.ts.
-- Matchmaking/EngineSession and Matchmaking/Results are engineSession.ts and results.ts. A session has
--   its own part of the table of pending orders, since no other session has its worlds.
-- Matchmaking/Lifecycle is matchLifecycle.ts: records of matches with their seats, the transitions
--   filling, running, finished, collected, the sweep of a renamed handle and the release of sessions.
-- Matchmaking/Rematch, Matchmaking/Lobby and Matchmaking/Forfeit are rematch.ts, lobby.ts and forfeit.ts.
-- Matchmaking/Handles is internal/textDefects.ts and internal/handleValidation.ts, Matchmaking/Identities
--   (with Naming, setHandle) is internal/identityRegistry.ts and internal/guestPlayerIdentity.ts: the guests
--   of a server and who holds which handle. The lower-case form of a handle is a parameter.
-- Matchmaking/Matchmaker is the state and the sweeps of matchmaker.ts (createMatchmaker); below it,
--   Starts has autoStart, Seats has createMatch and joinMatch, and Rollback and Thrown what a start
--   that fails leaves, Offers has the requests for a rematch and the votes, Leaving has leaveMatch and
--   the handlers of an expired seat and of the end of a match, Upkeep has listPublicMatches, stats and
--   close, Requests has the validation of the name in front of a create and a join. The code changes
--   the objects of its store in place; here an operation puts the changed record back. Strings are
--   lists of UTF-16 codes. The ids, tokens and seeds that the code draws and the readings of its clock
--   are arguments. The board generator of packages/terrain, the three calls of the server of
--   packages/networking at the start of a match (the record Server of Starts) and the listeners that
--   are told of the start, all of which may throw, are parameters; other calls of that server, whose
--   failure the code catches or which return nothing, are kept as a list, as are the events of the
--   bus, at which no listener is taken to throw but at a start.
--
-- Core/Examples, Engine/Examples, Fog/Examples and Matchmaking/Examples have concrete data and runs.
--
-- A thrown error is `none`, and Prelude/Throwing says of a call that it returns. Every loop of the code
-- runs over a range or over a list that is fixed when it starts, so each is a counted loop (Prelude/Loops,
-- Prelude/Grid) or a recursion on the list, and no fuel is needed, but for the decimal digits of a seed: a
-- seed below 2 ^ 32 has at most ten, which is the bound there. The sort is a stable insertion sort.
--
-- The counts of the model are natural numbers that the arrays truncate at 2 ^ 32 and 2 ^ 8. The bounds of
-- an invariant (four players, a capacity below 2 ^ 31, reserves below 100%) keep truncation from happening.
--
-- Not modelled: the older path of resolveCombat without committed flow, which only unit tests take; the
-- scratch buffers, which are zeroed before each use and are fresh arrays here; orders that are not of the
-- type Order, which hasRequiredFields refuses; serialization and replay; the hash of a view; terrain;
-- the matchmaker's validation of settings, what its listeners do, the links and log lines of its answers;
-- the lobby service; networking, the console and the style tokens.
pub mod Prelude
pub mod Core
pub mod Engine
pub mod Fog
pub mod Matchmaking
