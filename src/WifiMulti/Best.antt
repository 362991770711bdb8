-- ===== src/WifiMulti/Best.antt =====
-- The network that `WiFiMulti` chooses.
use jedge.Base.{◌≡◌, true, ◌||◌, List, some, ap}
use jedge.WifiMulti.Wifi.{Ap, Network}
use jedge.WifiMulti.ApList.{find_ap, Best, has_passphrase}

-- A network whose name is in the list, and that is open or has a passphrase there.
pub record IsEligible (aps : List Ap) (f : Network) : Type 0 where
  pub ap : Ap
  pub known : find_ap f.ssid aps ≡ some ap
  pub usable : (f.is_open || has_passphrase ap) ≡ true

-- The choice of a network.
abbrev pub from_network : Ap → Network → Best
from_network e f = record { network = some e; db = f.rssi; bssid = f.bssid; channel = f.channel }
