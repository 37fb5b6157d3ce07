-- ===== src/Formula.antt =====
-- exercises/exprlab: the formula field.
pub mod Outcome
pub mod Tokens
pub mod Tokenizer
pub mod Tree
pub mod Parser
pub mod Grammar
pub mod Stream
pub mod Eval
pub mod Sound
pub mod Correct
pub mod Nesting
