-- ===== src/Net/Runs.antt =====
-- Tests of `pick_physical_interface`, src/common/socket_util.cpp.
use audio_router.Prelude.{◌≡◌, refl, true, false, List, [], ◌∷◌, ℕ}
use audio_router.Prelude.Text.{chars, starts_with}
use audio_router.Net.{
  NetworkInterfaceInfo, is_physical, is_virtual, is_usable, starts_with_any, first_name, or_else,
  pick_physical_interface,
}

abbrev iface : List ℕ → NetworkInterfaceInfo
iface name = record {
  name = name;
  ip_address = chars "10.0.0.2";
  is_up = true;
  is_loopback = false;
}

-- The wireless card stands in front of the Ethernet card, and is taken.
wireless_first :
    pick_physical_interface
      (iface (chars "tun0") ∷ iface (chars "wlan0") ∷ iface (chars "eth0") ∷ [])
    ≡ chars "wlan0"
unfolding pick_physical_interface or_else first_name is_physical is_usable is_virtual
    starts_with_any starts_with
wireless_first = refl
