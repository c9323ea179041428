-- ===== src/Frontend/Lexer.antt =====
-- frontend/Lexer.cpp and frontend/UnicodeLetters.h: source text to raw tokens.
pub mod Letters
pub mod LetterLaws
pub mod Utf8
pub mod Utf8Laws
pub mod Chars
pub mod Cursor
pub mod State
pub mod Trivia
pub mod Words
pub mod Numbers
pub mod Quoted
pub mod Holes
pub mod Interpolated
pub mod Next
mod Tests
pub mod Progress
pub mod TriviaLaws
pub mod Lexed
pub mod WordsLaws
pub mod NumbersLaws
pub mod QuotedLaws
pub mod StringLaws
pub mod HolesLaws
pub mod InterpolatedLaws
pub mod NextLaws
pub mod Places
pub mod Source
pub mod Indents
