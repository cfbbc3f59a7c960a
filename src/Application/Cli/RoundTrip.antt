-- ===== src/Application/Cli/RoundTrip.antt =====
-- The application reads the forwarded arguments as the launcher read the command line: `Reading` has
-- the loop over the options, `Leading` the tests that come before it.
pub mod Reading
pub mod Segments
pub mod Leading
pub mod Whole
