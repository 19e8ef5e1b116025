-- ===== src/Lib.antt =====
-- Verification of the Volnix protocol, a chain of Cosmos SDK modules in Go (x/ident, x/lizenz,
-- x/anteil, x/consensus, x/governance). Each module keeps its parameters and its records in
-- key-value stores and changes them by messages; the modules call one another through keepers.
--
-- Files and the code they model:
--   Base          shared notation: Boolean tests, texts as lists of bytes, integers, and handlers
--                 (state passing with an error value).
--   Strconv       Go's ParseUint, ParseInt, FormatUint and FormatInt in base 10, written out, with
--                 the round trips that the tally needs; Trim: TrimSuffix and TrimSpace.
--   KvStore       one key prefix of a store: an association list in the order of its keys.
--   Host          float64, ParseFloat, ParseDuration and the float conversions as a parameter
--                 (Host); block time, clock, bech32 and the bank as what a call finds (Env).
--   Samples       a concrete Host and Env for the tests.
--   Lizenz        x/lizenz. Params: types/params.go. Types: types/types.go, types/errors.go and
--                 proto/volnix/lizenz/v1. Neighbours: the keeper interfaces of ident, consensus,
--                 anteil and the bank, as a parameter. Keeper: the licences of keeper/keeper.go with
--                 the 33% limit. Blocks: deactivation and BeginBlocker. Moa: MOA statuses and
--                 UpdateLizenzActivity. Messages: keeper/msg_server.go and TransferLizenz. The
--                 other modules below it are proofs.
--   Ident         x/ident. Types: types/account.go, types/params.go, types/errors.go and
--                 proto/volnix/ident/v1. Keeper: the accounts, identity hashes and migrations of
--                 keeper/keeper.go. Blocks: BeginBlocker and EndBlocker. Messages: MigrateRole and
--                 ChangeRole of keeper/msg_server.go. Migration, Renewal, Activity are proofs. The
--                 anteil keeper is a function that burns, filled in Tests by that of Anteil.
--   Anteil        x/anteil. Params: types/params.go. Types: types/types.go, types/errors.go and
--                 proto/volnix/anteil/v1. Keeper, Positions, Trades, Auctions, Distribution, Blocks:
--                 keeper/keeper.go (the orders; the positions; executeTrade; auctions and bids;
--                 DistributeAntToCitizens and BeginBlocker; EndBlocker). Engine, Market:
--                 keeper/economic_engine.go (matching and settlement; the market figures and the
--                 market maker). Messages: keeper/msg_server.go. The modules below Engine, Market,
--                 Trades, Auctions, Distribution and Invariant are proofs.
--   Consensus     x/consensus. Params: the parameter set, which governance reads and writes. Types:
--                 proto/volnix/consensus/v1 and types/errors.go. Auctions: the commits and reveals of
--                 the blind auctions in keeper/keeper.go. Selection: the draw, the end and the
--                 removal of auctions, and the part of EndBlocker on them. Rewards: the base reward and
--                 ProcessHalving. Distribution: CalculateRewardDistribution and
--                 DistributeBaseRewards. Messages: CommitBid and RevealBid of keeper/msg_server.go. Sealed,
--                 Lottery, Halving and Shares are proofs.
--   Governance    x/governance. Types: types/params.go, types/errors.go and the messages of
--                 proto/volnix/governance/v1. Governable: types/governable_params.go. Keeper:
--                 keeper/keeper.go (proposals, votes, counter, TallyVotes, isProposalPassed,
--                 CanExecuteProposal). Applier: keeper/parameter_applier.go. Messages:
--                 keeper/msg_server.go (SubmitProposal, Vote, ExecuteProposal). Genesis: genesis.go.
--                 Settings: the parameter sets as tables from names to values, a description that
--                 Parameters compares the applier with. The other modules below it are proofs, named
--                 for what they prove.
--
-- How the model reads the code. A handler takes the state and gives an outcome and the state; what
-- was written before an error stays written in the result, and the step relation of Reach takes
-- accepted messages only, because the SDK discards the writes of a failed transaction. A panic of
-- the SDK is the error `panic`. Marshal and Unmarshal are the identity, so each key prefix is a
-- typed store; iteration is in the order of the keys. Where x/lizenz logs the error of another
-- keeper and goes on, so does the model. Sums of uint64 are reduced modulo 2^64, and
-- amounts of the bank above that panic as Uint64 does;
-- sums of int64 wrap in two's complement. Instants and durations are integers of
-- nanoseconds with no bound, which holds as long as time.Duration does not overflow. Numbers of
-- proposals are uint64; the step of a submission is stated while the counter is below 2^64 - 1.
--
-- Loops are recursion on lists. Only the matching loop of the economic engine runs on fuel, one turn
-- for each order of both sides and one more: a turn fills an order, or fails, or leaves both orders
-- open, and then the next turn is refused because the pair has traded.
--
-- x/ident keeps what a failed migration of BeginBlocker wrote, as the code does. In x/anteil the
-- ident keeper is what GetAllVerifiedAccounts answers (Accounts); a call sees one
-- answer. sort.Slice is an argument of the matching, since it fixes no order of orders at one price.
-- In x/consensus SHA-256, the other keepers, rand.Uint64 and the order of a Go map are arguments. The chain of Sealed/Chain
-- takes refused bids too, with what they wrote. A timestamp of the bid history is read back through a
-- float, as JSON does.
-- The blocks of Invariant/Steps take refused calls too, with what they wrote, so they include the
-- runs in which the SDK discards those writes.
--
-- Not modelled: events and logging, queries, the command line, the application wiring, the
-- keeper of integration; of x/consensus the validators, the selection of block creators, the
-- average block time and genesis; of x/ident the providers, VerifyIdentity and genesis; of x/lizenz the reward tracker, GetMOACompliance and
-- genesis; of x/anteil the messages that answer with constants, genesis, and the constructors of
-- types.go that the keeper does not call.
pub mod Base
pub mod Strconv
pub mod KvStore
pub mod Host
pub mod Samples
pub mod Lizenz
pub mod Ident
pub mod Anteil
pub mod Consensus
pub mod Governance
