-- ===== src/Parser/Tests.antt =====
-- Runs of the parser, and its theorems at concrete inputs.
use ice_coroutines.Base.{[], ◌∷◌, Bytes, codes, ◌≡◌, refl, pos}
use ice_coroutines.Error.{ErrorCode, native}
use ice_coroutines.Parser.{feed}
use ice_coroutines.Parser.Assembly.{Cut, fresh, view, cut, feed-cut}
use ice_coroutines.Parser.Run.{run-cut}

abbrev input : Bytes
input = codes "ab\r\n \nc\rd"

abbrev nothing : Cut
nothing = record { finished = []; current = [] }

cut-input :
    cut nothing input ≡ record { finished = codes "ab" ∷ codes "c" ∷ []; current = codes "d" }
unfolding cut
cut-input = refl

feed-cut_example : view (feed fresh input []).0 (feed fresh input []).1 ≡ cut nothing input
feed-cut_example = feed-cut input

abbrev reset : ErrorCode
reset = record { value = pos 104; category = native }

run-cut_example :
    view (run-cut input reset [] refl).0.parser (run-cut input reset [] refl).0.env
    ≡ cut nothing input
run-cut_example = (run-cut input reset [] refl).2
