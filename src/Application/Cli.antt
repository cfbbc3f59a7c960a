-- ===== src/Application/Cli.antt =====
-- packages/tui/src/application/cli.ts: from the arguments of the command line to one action, and the
-- arguments that the launcher passes on to the application. `Command` has the invocations and the
-- errors, `Distance` the suggestions, `Options` the readers of options, `Commands` and `Interactive`
-- the parsers of the commands, `Parse` the whole parser and `Forward` the forwarded arguments.
pub mod Command
pub mod Distance
pub mod Options
pub mod Commands
pub mod Interactive
pub mod Parse
pub mod Forward
pub mod RoundTrip
mod Tests
