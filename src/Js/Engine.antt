-- ===== src/Js/Engine.antt =====
-- The parts of the engine that are no code of the application: floating-point numbers, and the
-- lower case of characters beyond ASCII.
use Prim.Native.Char.{Char}
use Prim.Native.String.{String}
use mathlib.Core.Bool.{Bool}

pub record Runtime : Type 1 where
  pub Number : Type 0
  -- `===` and `<=` on numbers
  pub num_eq : Number → Number → Bool
  pub num_le : Number → Number → Bool
  pub is_finite : Number → Bool
  -- `Number(text)`, which also gives the numeric literals of the source, and `String(number)`
  pub number_of : String → Number
  pub number_text : Number → String
  -- the lower case of one character beyond ASCII
  pub lower_beyond : Char → String
