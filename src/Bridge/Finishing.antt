-- ===== src/Bridge/Finishing.antt =====
-- Both directions at once, up to where nothing waits any more.
use cwusb.Reader.State.{Reader}
use cwusb.Reader.Loop
use cwusb.Bridge.System.{System}
