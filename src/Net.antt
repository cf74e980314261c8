-- ===== src/Net.antt =====
-- `UdpSocket::pick_physical_interface` of src/common/socket_util.cpp: the interface that the client binds
-- its socket to. The list of the interfaces, which the system gives, is an argument.
mod Runs
use audio_router.Prelude.{
  ℕ, ◌≡◌, refl, arith, Bool, true, false, not, ◌&&◌, ◌||◌, List, [], ◌∷◌, Option, none, some, ◌⊎◌,
  inl, inr, if◌then◌else◌, if_elim,
}
use audio_router.Prelude.Text.{chars, same_text, starts_with}

pub record NetworkInterfaceInfo : Type 0 where
  pub name : List ℕ
  pub ip_address : List ℕ
  pub is_up : Bool
  pub is_loopback : Bool

unfoldable pub starts_with_any : List ℕ → List (List ℕ) → Bool
starts_with_any name [] = false
starts_with_any name (p ∷ ps) = starts_with name p || starts_with_any name ps

abbrev pub virtual_prefixes : List (List ℕ)
virtual_prefixes =
    chars "lo"
    ∷ chars "tun"
    ∷ chars "tap"
    ∷ chars "ppp"
    ∷ chars "rmnet"
    ∷ chars "dum"
    ∷ chars "sit"
    ∷ chars "gre"
    ∷ chars "vti"
    ∷ chars "ip6tnl"
    ∷ chars "ip_vti"
    ∷ chars "wlan"
    ∷ chars "wifi"
    ∷ []

unfoldable pub is_virtual : List ℕ → Bool
unfolding starts_with_any
is_virtual name =
    starts_with_any name virtual_prefixes
    && not (starts_with name (chars "wlan") || starts_with name (chars "wifi"))

unfoldable pub is_usable : NetworkInterfaceInfo → Bool
is_usable i = not i.is_loopback && i.is_up

unfoldable pub is_physical : NetworkInterfaceInfo → Bool
unfolding is_usable is_virtual
is_physical i = is_usable i && not (is_virtual i.name)

unfoldable pub has_address : NetworkInterfaceInfo → Bool
unfolding is_usable
has_address i = is_usable i && not (same_text i.ip_address (chars "0.0.0.0"))

-- A loop that returns at the first interface that passes.
unfoldable pub first_name :
    (NetworkInterfaceInfo → Bool) → List NetworkInterfaceInfo → Option (List ℕ)
first_name test [] = none
first_name test (i ∷ is) = let later = first_name test is in if test i then some i.name else later

unfoldable pub or_else : Option (List ℕ) → List ℕ → List ℕ
or_else none other = other
or_else (some name) other = name

unfoldable pub pick_physical_interface : List NetworkInterfaceInfo → List ℕ
unfolding first_name or_else is_physical has_address
pick_physical_interface ifaces =
    or_else (first_name is_physical ifaces) (or_else (first_name has_address ifaces) [])

-- No interface passes, or one that passes has the name.
abbrev pub None : (NetworkInterfaceInfo → Bool) → List NetworkInterfaceInfo → Type 0
None test [] = Unit {0}
None test (i ∷ is) = (test i ≡ false) × None test is

abbrev pub IsNamed : (NetworkInterfaceInfo → Bool) → List ℕ → List NetworkInterfaceInfo → Type 0
IsNamed test name [] = ⊥
IsNamed test name (i ∷ is) = ((test i ≡ true) × (name ≡ i.name)) ⊎ IsNamed test name is

first_name-cases :
    (test : NetworkInterfaceInfo → Bool) (is : List NetworkInterfaceInfo)
    → ((first_name test is ≡ none) × None test is)
      ⊎ ((name : List ℕ) × (first_name test is ≡ some name) × IsNamed test name is)
unfolding first_name
first_name-cases test [] = inl (refl, tt)
first_name-cases test (i ∷ is) = ground (arith, first_name-cases test is)

-- The name belongs to a physical interface where there is one, else to any one with an address, and it
-- is empty where there is none of either: a tunnel is never preferred to a usable network card.
pub pick_physical_interface-IsNamed :
    (ifaces : List NetworkInterfaceInfo)
    → let name = pick_physical_interface ifaces in
      IsNamed is_physical name ifaces
      ⊎ (None is_physical ifaces × IsNamed has_address name ifaces)
      ⊎ (None is_physical ifaces × None has_address ifaces × (name ≡ []))
unfolding pick_physical_interface or_else
pick_physical_interface-IsNamed ifaces = elim (first_name-cases is_physical ifaces) [
  | inr (n, e, k) ↦ rw e (inl k)
  | inl (e, k) ↦ elim (first_name-cases has_address ifaces) [
    | inr (n, f, h) ↦ rw (e, f) (inr (inl (k, h)))
    | inl (f, h) ↦ rw (e, f) (inr (inr (k, h, refl)))
  ]
]
