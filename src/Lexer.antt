-- ===== src/Lexer.antt =====
-- src/lexer and src/token: the scanner. `Cursor` has the tokens and the cursor, `Scan` the lexer of each
-- kind of token and `lexer_next`, `Place` the cursor's invariant, `Span` what each token covers,
-- `Digits` what a digit is worth, `Value` what a literal is.
pub mod Cursor
pub mod Scan
pub mod Place
pub mod Span
pub mod Next
pub mod Digits
pub mod Value
