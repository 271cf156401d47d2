-- ===== src/Lib.antt =====
-- MFP, a toolkit for multi-function printers and scanners: a model of its command line package, of
-- its UUIDs, of its watch on the network's interfaces, of its discovery of devices, of its
-- validation of requests for a scan and of its units of length, with the theorems that make them
-- correct.
--
-- The parts and how they interact. A program of the toolkit describes its command line by a tree of
-- commands with options and parameters. `Verify` checks the description; `parse` reads the arguments
-- against it, collects the values of options and parameters in an `Invocation`, and hands what is
-- left to a sub-command. `Complete` goes through the arguments in the same way to propose how the
-- last one may continue. `Tokenize` makes arguments of a line that is typed. UUIDs name devices and
-- are independent of the rest. The monitor of the network takes snapshots of the addresses of all
-- interfaces, and tells its clients the events that lead from one snapshot to the next.
-- Backends of the discovery report units, their parameters and endpoints as events; the client keeps
-- them in a cache, where a new endpoint stays in staging for a second, and makes devices of them.
-- A request for a scan is validated against the capabilities of a scanner.
--
-- Which file models what:
--   Base           lists and tests on the native numbers; the outcomes of a Go call
--   Go             strings as lists of bytes, runes and UTF-8, maps, unicode.IsSpace, net/netip,
--                  the 64-bit int
--   Argv.Tokenize  argv/tokenize.go. `step` is one round of the loop of TokenizeEx, `run` the loop,
--                  `finish` what follows; Pieces is a grammar of lines after its
--                  documentation, without escapes of less than three octal digits
--   Argv.Model     the structs of argv/command.go, option.go, parameter.go and completion.go
--   Argv.Verify    Command.Verify (`verify`) and all that it calls, with argv/name.go
--   Argv.Invocation argv/invocation.go
--   Argv.Options   argv/parser.go: splitOptVal, findOption, appendOptVal (`append_opt_val`),
--                  handleShortOption, handleLongOption. `Parser` is the struct parser; each method
--                  that changes it gives back the new state
--   Argv.Params    argv/parser.go: paramsInfo, handleParameters. `assign` computes paramDescs
--   Argv.Parse     argv/parser.go: newParser, parse (`loop`, `finish`), handleSubCommand,
--                  buildByName, validateThings; FindSubCommand and ParseWithParent of
--                  argv/command.go
--   Argv.Strings   argv/str.go
--   Argv.Candidates completePostProcess and completePrepend of argv/parser.go, and CompleteStrings
--   Argv.Completion argv/parser.go: complete. `complete_round` is one round of its loop, which gives
--                  the result, goes on, or continues in a sub-command
--   Argv.Run       Run, RunWithParent and handler of argv/command.go, with argv/defauthandler.go
--   Uuid           util/uuid/uuid.go and vervar.go
--   Netstate.Addr  internal/netstate/netif.go and addr.go
--   Netstate.Snapshot internal/netstate/snapshot.go; `mark` is the loop over groups of addresses
--   Netstate.Sync  Sync of snapshot.go (`sync_from` is its loop) with the events of event.go;
--                  Protocol is what the documentation of Event promises to a receiver
--   Discovery.Collection discovery/endpoints.go and addrs.go: sorted slices, over any order
--   Discovery.Model discovery/unit.go, device.go, printer.go, scanner.go, service.go: the structs
--   Discovery.Merge discovery/output.go: genMergeUnitVariants and the functions next to it, with
--                  addrsFromEndpoints. A map is met in the order of insertion
--   Discovery.Export Device.Export of discovery/device.go
--   Discovery.Output discovery/output.go: Cached, Invalidate, Generate
--   Discovery.Cache discovery/cache.go, one function per method; the clock is an argument
--   Discovery.Client nextEvent of discovery/client.go, the events of event.go, and the steps that
--                  a client's cache can take
--   Abstract.Dimension abstract/dimension.go
--   Abstract.Bitset Union and Contains of util/generic/bitset.go
--   Abstract.Capabilities abstract/range.go, region.go, resolution.go, settingsprofile.go and the
--                  structs of capabilities
--   Abstract.Request ScannerRequest.Validate of abstract/scanrequest.go, one function for each
--                  parameter or group of parameters that it checks
--
-- Outcomes. A Go function that can fail gives a `Result`: a value, an error value, a panic (nil
-- callbacks that are called, indexes out of range, newParser on an invalid command), or `stuck`,
-- which means that the model ran out of fuel and is no behaviour of the program. Error values stand
-- for the messages that the program formats.
--
-- Loops. The loop of `parse` runs on fuel, one round more than there are arguments: each round takes
-- at least one. So does the loop of `complete`, whose rounds in a sub-command draw on the same fuel.
-- `RunWithParent` has the same fuel for sub-commands, each of which has fewer arguments.
-- `mark` has one round for each address, and takes at least one in a round.
-- The loops of UpperBoundDots and LowerBoundDots (`step_while`) have some rounds more than the
-- resolution, which is enough for lengths that are not negative and do not overflow: the number of
-- dots they start from is off by no more than the resolution and two.
-- All other loops are structural recursion on what they range over.
--
-- Data. Strings are lists of bytes, and ranging over one decodes its runes. A map is an association
-- list in the order of insertion; where the program ranges over a map, whose order Go leaves open,
-- the model meets the entries in that order. The map of option values, which is keyed by a pointer
-- to the option, is keyed by its place in the command. The parent and root pointers of an
-- Invocation are the list of the invocations above it.
--
-- Parameters of the model: url.Parse and netip.ParseAddr, what a handler does, unicode.IsLetter and unicode.IsDigit, the hash
-- functions, the reader of random bytes, and the callbacks of options and parameters.
--
-- Not modelled: validators, file names, Main and the help page of argv; the backends of the
-- discovery and the notifiers of internal/netstate, which talk to the network and the operating
-- system; the packages for protocols, images and Python, which are input and output for the most part.

pub mod Base
pub mod Go
pub mod Abstract
pub mod Argv
pub mod Discovery
pub mod Netstate
pub mod Uuid
