-- ===== src/Shared/Ascii.antt =====
-- A string literal as the bytes that it has in ASCII.
use Prim.Native.Char.{code}
use Prim.Native.String.{String}
use mathlib.Core.List.{[], ◌∷◌}
use werewolfproxy.Shared.Bytes.{Bytes}

abbrev pub ascii : String → Bytes
ascii String.[] = []
ascii (String.◌∷◌ c s) = code c ∷ ascii s
