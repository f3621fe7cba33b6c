-- ===== src/Lib.antt =====
-- Moon Miner, an asteroid mining game that is played over SSH: who a caller is, the store of saves,
-- the actor that owns an open save, the deterministic core of the game up to the end of a mining run,
-- and the limit on sessions.
--
-- The parts and how they interact. A terminal session (internal/server) is admitted by the session
-- limit, resolved to an account (internal/identity) and attached to a save, which the store
-- (internal/store) loads or creates. Each open save is owned by one actor (internal/game), which runs
-- the closures that sessions, timers and the manager hand it one after another, and writes the save
-- back to the store. An action of a session is a function of the simulation (internal/sim) on the
-- save's state, which reads the balance tables (internal/content) and either changes the state or is
-- refused with an error.
--
--   Common      tests, lists, integers, association lists and floating point numbers, for all parts
--   Content     internal/content: the tables as records, and their finders (ShipByID, GateBetween)
--   Identity/Text, Identity/Slots      identity.go: texts as bytes; SanitizeSlot, ResolveSlot
--   Identity/Accounts, Identity/Proxy  guest.go, identity.go, proxy.go: Validate, Bucket, Fingerprint,
--                                ParseProxiedUsername, EncodeProxiedUsername, guest names
--   Identity/Resolver            resolver.go: Resolve with its two branches, LoadProxyKeys
--   Store/Tables, Store, Store/Migrations  internal/store: the tables and the statements, store.go
--                                over them, and the loop of migrations.go
--   Store/Backing                the store as the one that the actor writes to
--   Sim/State, Sim/Errors        state.go, errors.go: the save and what can go wrong
--   Sim/Catalog, Sim/Loadout     slots.go: slot devices, what is fitted where, and its service
--   Sim/Condition, Sim/Tracks    ships.go: fuel, hull and their mirrors in the save; BuyShipTrack
--   Sim/Dice, Sim/Figures        rng.go: the seeds; slots.go, ships.go, derive.go: what mass, devices
--                                and tracks come to in a run, ConsumeFuel, TickBelt
--   Sim/Shipyard                 slots.go: InstallSlotDevice, StoreSlotDevice, SellSlotDevice,
--                                ReplaceSlotDeviceWithPurchase, InstallSlotDeviceFromInventory
--   Sim/Fleet                    ships.go: SwitchActiveShip, where a hull is sold; below it AcquireShip,
--                                grantStarterShip, respawnActiveShip
--   Sim/Market, Sim/Frontier     economy.go, derive.go, frontier.go: trade at the dock, ratings
--   Sim/Mining/Start, Tick, Abandon      run.go: Lock, Scan, TickRun, EmergencyResolve
--   Sim/Mining/Accounting, Escape, Outcome  run.go, frontier.go: what a run holds, BailOrDepart,
--                                AcceptTribute, resolveRun
--   Sim/Mining/Drill, Damage     run.go: tickMining, damage to the hull, the escape burn
--   Sim/Mining/Fight, Gunnery, Engagement, Odds, Weapons  combat.go, slots.go: the fight
--   Sim/Mining/Events, Points, Rocks     events.go, skillcheck.go, and the asteroids of belt.go
--   Game/Actor  internal/game/actor.go, and what session.go and manager.go run on the actor
--   Game/Steps  the order in which that may happen, as a step relation
--   Server/Limits                internal/server/limits.go
--   Scenarios   the theorems on small concrete data
--
-- How the code is rendered. An operation that mutates *State and returns an error is a function to
-- the new state with an optional error; the panics on a nil pointer and on a division by zero are the
-- errors nil_dereference and divide_by_zero. A step of a run answers that it goes on, that it ended
-- with an outcome, or that it panicked. The pointer to the run that such a step holds is passed along
-- beside the state and put back into it where the code has written through it.
-- A Go int is an unbounded integer, so overflow is not modelled; the snapshot counter, the tick
-- counter and the seeds of the generator keep their 64-bit wrap-around. A float64 is an element of a
-- carrier W with the operations of Common/Float as an interface, so that no theorem rests on an
-- invented rounding; `Whole` runs them on integers. A map with text keys is an association list, in
-- which an absent key reads as Go's zero value. A text that is taken apart (package identity) is the
-- list of its bytes, of which `range` reads runes as UTF-8.
--
-- What is not the repository's own is a parameter: math/rand and package math (Sim/Dice), the keys of
-- the SSH library with SHA-256 (Wire in Identity/Proxy), the file system and the parser of keys
-- (KeyFiles in Identity/Resolver/Keys). The SQL driver is a list of failures to come, one for each
-- statement; a statement that fails changes no table.
--
-- Fuel. LoadProxyKeys gets one round for each byte of the file. The search for a free ship name gets
-- one round for each ship of the hangar and one more. EmergencyResolve has the bound of the code,
-- 10,000 ticks. Every other loop runs over a list.
--
-- The actor is modelled one closure at a time, since its goroutine runs one to its end before the
-- next; the simulation and the store stand there as the interfaces Rules and Saves, and Store/Backing
-- fills the second.
--
-- Not modelled: the goroutines and channels that make the schedule, the map of actors in the
-- manager, opening a database and its pragmas, the generation of belts, departing and docking, jumps
-- and ferries, the migration of saves, the terminal interface, configuration and start-up.
pub mod Common
pub mod Content
pub mod Sim
pub mod Server
pub mod Game
pub mod Scenarios
pub mod Identity
pub mod Store
