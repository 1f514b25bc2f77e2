-- ===== src/Language.antt =====
-- The text form of formulas: packages/domain/src/formula-language.ts.
pub mod Errors
pub mod Lexer
pub mod Parser
pub mod Printer
pub mod Scans
pub mod Printed
pub mod RoundTrip
pub mod Words
pub mod Literals
pub mod Calls
pub mod Shrinks
pub mod Consumes
pub mod Terminates
