-- ===== src/Lib.antt =====
-- A model of vcltest, a test harness for VCL, the configuration language of the Varnish cache. A test
-- file names requests, mock backends and expectations; the harness starts the backends and Varnish,
-- runs the tests one after another, checks each response and, where a test fails, shows which blocks
-- of the VCL ran.
--
-- The parts and their files:
-- * Testspec (pkg/testspec): the contents of a test file. Loader has ApplyDefaults, validate, Load and
--   ResolveVCL. What the YAML decoder returns for each document is an input.
-- * Backend (pkg/backend/mock.go): the mock backend, its routes, failure modes and call counter. The
--   counter keeps 32 bits and is read as an int32.
-- * Assertion (pkg/assertion/assertion.go): Check with its four parts. Assertion/Meets describes the
--   expectations without running the check.
-- * Recorder (pkg/recorder): lines of varnishlog as messages (Recorder.antt), traces and executed lines
--   (Parser) and the varnishlog process (Process).
-- * Coverage (pkg/coverage): the block tree (Coverage.antt), its extraction from a parsed file
--   (Analyzer) and the matching of traced lines (Matcher).
-- * Runner (pkg/runner/runner.go): a test against the VCL that all tests share (Shared), the trace of a
--   test that failed (Trace), LoadVCL and UnloadVCL (Load), and RunTest, which starts backends and
--   loads a VCL for one test (Own). Host is what these call of Varnish and of the file system, and a
--   monad of actions that may fail; Effects lists the steps that an action takes. It uses Backend,
--   Assertion, Recorder, Coverage and Vclmod.
-- * Formatter (pkg/formatter/vcl_formatter.go): the display of a source with its lines or blocks
--   (Formatter.antt), and the message of a failed test (Message).
-- * Vclloader (pkg/vclloader): an address as host and port (Vclloader.antt), and the loader, which answers
--   each connection of varnishd by making it use its VCL (Load). What it asks for is the record Site.
-- * Events (pkg/events): the events of the stream between the processes, which Vclloader publishes.
-- * Harness (pkg/harness): the backends of a test file (Harness.antt), the loop over its tests (Run), and
--   Run itself from the test file to the end of the run (Lifecycle). What it asks for beyond Runner.Host
--   is the record Services; it uses Testspec, Recorder, Service and Runner.
-- * Vclmod (pkg/vclmod): the addresses of the mock backends put into the VCL and the check of the
--   names (Vclmod.antt), the pass that does both with loops of its own (OnePass), and the walk over included files (Includes), whose depth limit of 10 is the
--   bound of its recursion.
-- * Varnishadm (pkg/varnishadm): Exec of the mock server with its transactions of certificates
--   (Varnishadm.antt), their description (Store), a response as it is read from the connection
--   (Frame), parseVCLShow (Show), the other lists (Lists), and the commands with what they read from an
--   answer (Commands).
-- * Varnish (pkg/varnish): the arguments of varnishd, its working directory and its clock, which is the
--   time of a file. What the file system does is the record Disk.
-- * Service (pkg/service/manager.go): NewManager and the port that requests go to.
-- * Base (shared by all): lists, maps, integers, texts and headers.
--
-- How Go is read: a string is a list of bytes; an int is an unbounded integer, since nothing here
-- counts to 2^63 but a sum in parseVCLShow, and strconv.Atoi keeps its range check. A map is an
-- association list whose order stands for the order of a range loop. A pointer that may be nil is an Option, an error a value of a
-- data type, and a method that changes its receiver returns the new state. White space is that of
-- ASCII. Every loop runs over a list, so no fuel is used, but for the digits of a number, whose fuel
-- is one more than the number, for the walk over includes, whose fuel is the depth limit itself, and
-- for parseVCLShow, whose fuel is the length of its input, since each turn of its loop takes a byte.
--
-- What lies outside is a parameter: the VCL parser, the YAML decoder, Varnish with its clock and its
-- log, the format of a date, the HTTP client with its cookie jar, net/url and time.ParseDuration.
-- Runner.Outside is the record of those that a running test calls, Runner.Host of those that loading a
-- VCL calls.
--
-- Not modelled: processes and goroutines (varnishd in pkg/varnish, Start of pkg/service, pkg/cache), the
-- command line, the wording of messages, logging and waiting times, and, so far, the login of
-- pkg/varnishadm.
pub mod Base
pub mod Coverage
pub mod Events
pub mod Recorder
pub mod Testspec
pub mod Assertion
pub mod Backend
pub mod Formatter
pub mod Harness
pub mod Runner
pub mod Vclmod
pub mod Varnishadm
pub mod Vclloader
pub mod Varnish
pub mod Service
