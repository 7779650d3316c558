-- ===== src/Lib.antt =====
-- A model of go-fuzz, the coverage-guided fuzzer for Go, and what holds of it.
--
-- A coordinator process keeps the corpus and the crashers on disk and hands inputs to worker
-- processes. A worker mutates inputs, runs the instrumented program under test on them, compares the
-- cover table and the comparison records that come back with what was seen before, and reports new
-- inputs and crashers. The parts and their files:
--
--   Defs         go-fuzz-defs/defs.go: limits and flags
--   Bytes        serialize16, serialize32, serialize64, deserialize64 of go-fuzz-dep/sonar.go, and
--                reverse, increment, decrement of go-fuzz/worker.go
--   Cover        go-fuzz/cover.go: compareCover, updateMaxCover, findNewCover, worseCover
--   Pcg          go-fuzz/internal/pcg/pcg.go: the random generator
--   Decimal      what the program uses of strconv and encoding/hex, and isHexString
--   Persistent   go-fuzz/persistent.go: artifacts keyed by their hash, with their directory
--   Types        the records that the processes exchange
--   Coordinator  go-fuzz/coordinator.go: Connect, NewInput, NewCrasher, Sync, the removal of dead workers
--   Sonar        go-fuzz-dep/sonar.go (Region) and go-fuzz/sonar.go (Sample, Site, Hints): comparison
--                records, and the inputs that processSonarData tests for them
--   Mutator      go-fuzz/mutator.go: the twenty mutations, their loop, and the choice of an input
--   Hub          go-fuzz/hub.go: the handlers of the loop, updateMaxCover and updateScores
--   Worker       go-fuzz/worker.go: minimizeInput, processCrasher, noteNewInput, noteCrasher,
--                testInputImpl and extractSuppression; the deterministic passes of smash (Smash), the
--                runs of a worker and smash as a whole (Session), triageInput (Triage)
--   Target       go-fuzz-dep/main.go: Main, read and write, the tested program's side of the pipes (Pipes,
--                Messages, Serves)
--   Testee       go-fuzz/testee.go: Testee and TestBinary, the worker's side (Restarts), the collection of
--                output (Output), and both sides together (Wire)
--   Versifier    go-fuzz/versifier/versifier.go: tokenize (Runes, Tokens), extractNumbers (Numbers),
--                structureBrackets, structureKeyValue and structureLines (Structure), structureLists
--                (Lists), structure, Visit and BuildVerse (Verse), Generate and Rhyme (Rhymes)
--   Base         shared notation, lists, words and outcomes
--   Tests        runs of the theorems at concrete inputs
--
-- State. Every stateful part is a record, and every operation a function from the state to the new
-- state and its result. A mutex of the source makes one operation one step. A byte string is a list
-- of numbers; machine words are natural numbers with their wrap-around written out. A call that can
-- panic, or end the program by log.Fatalf, returns an Outcome. The mutator's computations thread the
-- random generator. The versifier's nodes are a data type; a loop over its slices that rewrites them
-- around the index keeps the nodes below the index, nearest first, and those from the index on.
--
-- Fuel. parseSonarData runs on the length of its data, which is enough since a round takes at least
-- the header away. The draws that Uint32n rejects, the redraws of equal positions or digits and the
-- iterations of mutate depend on chance alone and have no bound in the source; their fuel is an
-- argument, and running out of it is an outcome apart from a panic. The binary search runs on the
-- length of the corpus. The loops of minimizeInput run on the length of the input, which is enough
-- since each round shortens the input or moves on.
--
-- tokenize runs on the length of the data. A pass of extractNumbers runs on the length of the slice, and
-- the passes on twice that length and one more, since each pass but the last lowers a weight of the
-- nodes that counts a term twice. structureLists runs on the length of the slice. The search for the
-- places of an operand in processSonarData runs on the length of the input and two more, and base-128
-- numbers on ten bytes. TestBinary.test runs two rounds of its loop, which is enough where a process that
-- was just started takes a request; the versifier's loops, which chance alone ends, and the depth of its
-- calls have fuel as the mutator's; read and write run on the list of what the system does.
--
-- Parameters. The hash (SHA-1), the %q format, the lines of bufio.Scanner, the clock and the generator's
-- seed are arguments, and so are the Unicode case mappings, the floating-point score of an input, and
-- the processes and pipes of the operating system with the functions under test. Session and Triage take
-- the runs of a test binary as functions; Wire shows that the protocol's answers are those of direct
-- calls. The compare-and-swap of the comparison region is one step.
--
-- Not modelled: the worker's loop and its periodic checks, the versifier's Print, the instrumentation of
-- go-fuzz-build, and code that only logs, serves HTTP, parses flags or calls the operating system.
mod Base
pub mod Defs
pub mod Bytes
pub mod Cover
pub mod Pcg
pub mod Decimal
pub mod Persistent
pub mod Types
pub mod Coordinator
pub mod Sonar
pub mod Mutator
pub mod Hub
pub mod Versifier
pub mod Worker
pub mod Tests
pub mod Target
pub mod Testee
