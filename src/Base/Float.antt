-- ===== src/Base/Float.antt =====
-- The floats of the program that are modelled as numbers: finite and not negative. Every such
-- double is a whole multiple of 2 ^ -1074, so it is kept as that multiple, and the comparisons of
-- Python are those of the numbers. `second` is the float 1.0; it stays shut.
use open_transcribe_mcp.Base.{ℕ, ◌*◌, ◌^◌}

abbrev pub Float : Type 0
Float = ℕ

unfoldable pub one : Float
one = 2 ^ 1074

-- float(n)
unfoldable pub of_int : ℕ → Float
of_int n = n * one
