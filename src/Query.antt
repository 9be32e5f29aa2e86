-- ===== src/Query.antt =====
-- src/query/mod.rs: queries. A string is its UTF-8 bytes.
pub mod Parse
pub mod Shrinks
pub mod Ends
pub mod Digits
pub mod Print
pub mod Reads
pub mod RoundTrip
pub mod Macro
pub mod Positions
pub mod Placed
use cdoc.Prelude.{ℕ, List, Bytes, Option}
use cdoc.Mutation.{Segment}

pub data Filter : Type 0 where
  skip : ℕ → Filter
  take_n : ℕ → Filter
  after : Segment → Filter
  before : Segment → Filter

mutual
  pub data Select : Type 0 where
    select : Segment → Option Segment → List Filter → Selects → Select

  -- `Vec<Select>`
  pub data Selects : Type 0 where
    end : Selects
    entry : Select → Selects → Selects

pub record Query : Type 0 where
  pub selects : Selects

pub data QueryError : Type 0 where
  unexpected_char : ℕ → ℕ → QueryError
  unexpected_end : QueryError
  unknown_filter : Bytes → ℕ → QueryError
