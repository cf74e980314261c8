-- ===== src/Client/Args.antt =====
-- The command line of src/client/main.cpp. `std::stoi` and `std::stoul` are parameters, which give nothing
-- where they throw.
pub mod Read
use Prim.Native.String.{String}
use audio_router.Prelude.{
  ℕ, ◌-◌, ◌%◌, ◌^◌, ◌<◌, ◌≡◌, refl, ap, sym, ◌∙◌, arith, Bool, true, false, not, ◌&&◌, ◌||◌, List,
  [], ◌∷◌, ◌++◌, Option, none, some, if◌then◌else◌,
}
use native.Mathlib.Nat.{mod-eq_of_lt}
use audio_router.Prelude.Int.{ℤ, pos, negsuc}
use audio_router.Prelude.Text.{chars, same_text}

-- The options of `ClientConfig` that have a flag, and the two local variables.
pub record Options : Type 0 where
  pub server_ip : List ℕ
  pub server_port : ℕ  -- uint16_t
  pub device_name : List ℕ
  pub termux_segment_ms : ℕ  -- uint32_t
  pub target_latency_ms : ℕ  -- uint32_t
  pub bind_iface : List ℕ
  pub usb_mode : Bool
  pub auto_discover : Bool
  pub use_dummy_player : Bool
  pub verbose : Bool
  pub list_devs : Bool
  pub latency_explicit : Bool

pub data Flag : Type 0 where
  verbose_flag list_flag usb_flag discover_flag dummy_flag : Flag

pub data Value : Type 0 where
  server_value port_value device_value segment_value latency_value bind_value : Value

pub data Kind : Type 0 where
  help unknown : Kind
  flag : Flag → Kind
  value : Value → Kind

-- The program goes on with options, prints its usage, refuses an argument, or ends by an exception.
pub data Parsed : Type 0 where
  parsed : Options → Parsed
  usage unknown_option invalid_segment throws : Parsed

abbrev is_one : List ℕ → String → String → Bool
is_one arg short long = same_text arg (chars short) || same_text arg (chars long)

unfoldable pub kind : List ℕ → Kind
kind arg =
    if is_one arg "-h" "--help"
    then help
    else if same_text arg (chars "--list-devices")
    then flag list_flag
    else if is_one arg "-v" "--verbose"
    then flag verbose_flag
    else if is_one arg "-s" "--server"
    then value server_value
    else if is_one arg "-p" "--port"
    then value port_value
    else if is_one arg "-d" "--device"
    then value device_value
    else if is_one arg "-T" "--termux-segment"
    then value segment_value
    else if is_one arg "-l" "--latency"
    then value latency_value
    else if is_one arg "-b" "--bind"
    then value bind_value
    else if is_one arg "-u" "--usb"
    then flag usb_flag
    else if same_text arg (chars "--discover")
    then flag discover_flag
    else if same_text arg (chars "--dummy")
    then flag dummy_flag
    else unknown

unfoldable pub set_flag : Flag → Options → Options
set_flag verbose_flag o = record o { verbose = true }
set_flag list_flag o = record o { list_devs = true }
set_flag usb_flag o = record o { usb_mode = true }
set_flag discover_flag o = record o { auto_discover = true }
set_flag dummy_flag o = record o { use_dummy_player = true }

-- The casts to `uint16_t` and `uint32_t`
abbrev pub cast : (bits : ℕ) → ℤ → ℕ
cast bits (pos n) = n % 2 ^ bits
cast bits (negsuc n) = 2 ^ bits - 1 - n % 2 ^ bits

module _ (stoi : List ℕ → Option ℤ) (stoul : List ℕ → Option ℕ) where
  unfoldable pub set_value : Value → List ℕ → Options → Parsed
  set_value server_value v o = parsed record o { server_ip = v }
  set_value device_value v o = parsed record o { device_name = v }
  set_value bind_value v o = parsed record o { bind_iface = v }
  set_value port_value v o = elim (stoi v) [
    | none ↦ throws
    | some n ↦ parsed record o { server_port = cast 16 n }
  ]
  set_value segment_value v o = elim (stoul v) [
    | none ↦ invalid_segment
    | some n ↦ parsed record o { termux_segment_ms = n % 2 ^ 32 }
  ]
  set_value latency_value v o = elim (stoi v) [
    | none ↦ throws
    | some n ↦ parsed record o { target_latency_ms = cast 32 n; latency_explicit = true }
  ]

  -- Behind the loop: the USB tunnel has a larger target of its own.
  unfoldable pub finish : Options → Options
  finish o =
      if o.usb_mode && not o.latency_explicit then record o { target_latency_ms = 100 } else o

  -- The loop over `argv`. A flag waits for its value; without one it is unknown.
  unfoldable pub parse_loop : List (List ℕ) → Option Value → Options → Parsed
  unfolding kind set_flag set_value finish
  parse_loop [] none o = parsed (finish o)
  parse_loop [] (some w) o = unknown_option
  parse_loop (arg ∷ rest) (some w) o = elim (set_value w arg o) [
    | parsed q ↦ parse_loop rest none q
    | usage ↦ usage
    | unknown_option ↦ unknown_option
    | invalid_segment ↦ invalid_segment
    | throws ↦ throws
  ]
  parse_loop (arg ∷ rest) none o = elim (kind arg) [
    | help ↦ usage
    | unknown ↦ unknown_option
    | flag f ↦ parse_loop rest none (set_flag f o)
    | value w ↦ parse_loop rest (some w) o
  ]

abbrev pub no_options : Options
no_options = record {
  server_ip = chars "127.0.0.1";
  server_port = 44100;
  device_name = chars "default";
  termux_segment_ms = 0;
  target_latency_ms = 35;
  bind_iface = [];
  usb_mode = false;
  auto_discover = false;
  use_dummy_player = false;
  verbose = false;
  list_devs = false;
  latency_explicit = false;
}

-- The arguments that ask for some options, given a printer of numbers.
module _ (show : ℕ → List ℕ) where
  abbrev pub values : Options → List (List ℕ) → List (List ℕ)
  values o rest =
      chars "-s"
      ∷ o.server_ip
      ∷ chars "-p"
      ∷ show o.server_port
      ∷ chars "-d"
      ∷ o.device_name
      ∷ chars "-T"
      ∷ show o.termux_segment_ms
      ∷ chars "-l"
      ∷ show o.target_latency_ms
      ∷ chars "-b"
      ∷ o.bind_iface
      ∷ rest

  abbrev pub when : Bool → String → List (List ℕ) → List (List ℕ)
  when on name rest = if on then chars name ∷ rest else rest

  abbrev pub command_line : Options → List (List ℕ)
  command_line o = values o (
      when o.usb_mode "-u" (
        when o.auto_discover "--discover" (
          when o.use_dummy_player "--dummy"
            (when o.verbose "-v" (when o.list_devs "--list-devices" [])))))
