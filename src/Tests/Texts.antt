-- ===== src/Tests/Texts.antt =====
-- Identifiers as texts, and frames.
use tewta.Base.{◌≡◌, refl, arith, [], ◌∷◌, ◌++◌}
use tewta.Base.Result.{ok}
use tewta.Frame.{frame, to_be_bytes}
use tewta.Peer.Text.{fmt, from_str}
use tewta.Peer.Text.RoundTrip.{from_str-fmt}
use tewta.Tests.Samples.{peer, peer-IsPeerId}

from_str-fmt_example : from_str (fmt (peer 0xA5) ++ b'!' ∷ []) ≡ ok (peer 0xA5)
from_str-fmt_example =
    from_str-fmt (peer 0xA5) (b'!' ∷ []) (peer-IsPeerId 0xA5 (omega arith)) (omega arith, tt)

framed : frame (1 ∷ 2 ∷ []) ≡ 0 ∷ 0 ∷ 0 ∷ 2 ∷ 1 ∷ 2 ∷ []
unfolding frame to_be_bytes
framed = refl
