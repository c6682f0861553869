-- ===== src/Ssm/Reason.antt =====
-- bacpypes3/apdu.py, class AbortReason: the reasons that the state machines give.
use bacpypes.Prelude.{ℕ}

abbrev pub other : ℕ
other = 0

abbrev pub invalid_apdu_in_this_state : ℕ
invalid_apdu_in_this_state = 2

abbrev pub segmentation_not_supported : ℕ
segmentation_not_supported = 4

abbrev pub apdu_too_long : ℕ
apdu_too_long = 11

abbrev pub server_timeout : ℕ
server_timeout = 64

abbrev pub no_response : ℕ
no_response = 65
