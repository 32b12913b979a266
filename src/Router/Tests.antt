-- ===== src/Router/Tests.antt =====
-- A concrete MAC address of internal/router.
use air_fi.Base.{◌≡◌, refl}
use air_fi.Base.Bytes.{Bytes, codes}
use air_fi.Router.Mac.{remove, separators_removed, with_colons, normalize_mac_address}

abbrev mac : Bytes
mac = codes "AA-BB-CC-00-11-22"

normalized : normalize_mac_address mac ≡ codes "aa:bb:cc:00:11:22"
unfolding normalize_mac_address separators_removed with_colons remove
normalized = refl
