-- ===== src/Bridge/Ending.antt =====
-- rust/crates/h2ts-server/src/wslay.rs, bridge_with: the hook for the end of a bridge, in a whole run.
use h2ts.Common.{◌≡◌, ◌⊎◌, true, false, List, [], ◌∷◌, Option, some, none}
use h2ts.Bridge.Config.{CloseFrame, BridgeConfig, EndReason, Ended}
use h2ts.Bridge.Session.{Bridge}
use h2ts.Bridge.Steps.{Steps}

-- The frame that tells of an end: the peer's or our own close frame, or 1006 for a transport that
-- ended without one or failed, with the text of the error as its reason.
abbrev pub Tells : Ended → CloseFrame → Type 0
Tells (Ended.ok (EndReason.peer_close frame)) cf = cf ≡ frame
Tells (Ended.ok (EndReason.local_close frame)) cf = cf ≡ frame
Tells (Ended.ok EndReason.abnormal) cf = (cf.code ≡ 1006) × (cf.reason ≡ [])
Tells (Ended.failed text) cf = (cf.code ≡ 1006) × (cf.reason ≡ text)

-- The frames that the hook was called with, for a bridge that runs or has ended.
abbrev pub IsReported : BridgeConfig → Option Ended → List CloseFrame → Type 0
IsReported cfg none frames = frames ≡ []
IsReported cfg (some r) frames =
    ((cfg.on_close ≡ false) × (frames ≡ []))
    ⊎ ((cfg.on_close ≡ true) × ((cf : CloseFrame) × (frames ≡ cf ∷ []) × Tells r cf))
