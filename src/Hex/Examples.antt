-- ===== src/Hex/Examples.antt =====
-- Runs of the hexadecimal spelling, and its theorem at a concrete input.
use open_relic.Prelude.{◌≡◌, refl, [], ◌∷◌, arith}
use open_relic.Prelude.Codes.{codes}
use open_relic.Prelude.Numbers.{hex_digit}
use open_relic.Hex.{to_hex, from_hex}
use open_relic.Hex.RoundTrip.{from_hex-to_hex}

to_hex_runs : to_hex (0 ∷ 10 ∷ 255 ∷ []) ≡ codes "000aff"
unfolding to_hex hex_digit
to_hex_runs = refl

from_hex_runs : from_hex (codes "000aFf") ≡ 0 ∷ 10 ∷ 255 ∷ []
unfolding from_hex
from_hex_runs = refl

from_hex-to_hex_example : from_hex (to_hex (0 ∷ 10 ∷ 255 ∷ [])) ≡ 0 ∷ 10 ∷ 255 ∷ []
from_hex-to_hex_example = from_hex-to_hex (0 ∷ 10 ∷ 255 ∷ []) (omega arith)
