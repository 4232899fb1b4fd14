-- ===== src/Audio/Floats.antt =====
-- The floating-point numbers of crates/callora-audio and crates/callora-runtime: Rust's `f32` and `f64`
-- are left open, with the operations that the code uses. The theorems hold for every choice of these.
use callora.Base.{ℕ, Bool, List}

-- `level` is the root mean square of a frame's samples, and `mean` the loudness so far over its
-- time, of type `Wide`. `decay down old new` is one step of the background level.
pub record Floats : Type 1 where
  pub F : Type 0
  pub Wide : Type 0
  pub no_loudness : Wide
  pub less : F → F → Bool
  pub zero : F
  pub initial_floor : F
  pub at_least : F → F → Bool
  pub positive : F → Bool
  pub times : F → F → F
  pub raise : F → F
  pub larger : F → F → F
  pub decay : Bool → F → F → F
  pub level : List ℕ → F
  pub louder : Wide → F → ℕ → Wide
  pub mean : Wide → ℕ → F
