-- ===== src/Client/Args/Read.antt =====
-- What the command line of src/client/main.cpp can ask for.
use audio_router.Prelude.{
  ℕ, ◌%◌, ◌^◌, ◌<◌, ◌≡◌, refl, ap, ◌∙◌, arith, Bool, true, false, ◌||◌, List, [], ◌∷◌, Option, none,
  some,
}
use native.Mathlib.Nat.{mod-eq_of_lt}
use audio_router.Prelude.Int.{ℤ, pos}
use audio_router.Prelude.Text.{chars, same_text}
use audio_router.Client.Args.{
  Options, Value, Parsed, port_value, segment_value, latency_value, parsed, invalid_segment, throws,
  kind, set_flag, cast, set_value, finish, parse_loop, no_options, values, when, command_line,
}

or_false : (b : Bool) → b || false ≡ b
or_false true = refl
or_false false = refl

module _ (stoi : List ℕ → Option ℤ) (stoul : List ℕ → Option ℕ) (show : ℕ → List ℕ)
    (reads_int : (n : ℕ) → n < 2 ^ 31 → stoi (show n) ≡ some (pos n))
    (reads_long : (n : ℕ) → n < 2 ^ 64 → stoul (show n) ≡ some n) where
  -- A flag that is on, and one that is off, leaves the others to the rest.
  flags-parsed :
      (usb discover dummy verbose listed : Bool) (o : Options)
      → o.latency_explicit ≡ true
      → parse_loop stoi stoul
          (when show usb "-u" (
            when show discover "--discover" (
              when show dummy "--dummy"
                (when show verbose "-v" (when show listed "--list-devices" [])))))
          none
          o
        ≡ parsed record o {
          usb_mode = usb || o.usb_mode;
          auto_discover = discover || o.auto_discover;
          use_dummy_player = dummy || o.use_dummy_player;
          verbose = verbose || o.verbose;
          list_devs = listed || o.list_devs;
        }
  unfolding parse_loop kind set_flag finish same_text
  flags-parsed usb discover dummy verbose listed o e = ground arith

  value-parsed :
      (w : Value) (v : List ℕ) (rest : List (List ℕ)) (o q : Options)
      → set_value stoi stoul w v o ≡ parsed q
      → parse_loop stoi stoul (v ∷ rest) (some w) o ≡ parse_loop stoi stoul rest none q
  unfolding parse_loop
  value-parsed w v rest o q e = ground (arith, e)

  set_value-port :
      (n : ℕ) (o : Options)
      → n < 2 ^ 16
      → set_value stoi stoul port_value (show n) o ≡ parsed record o { server_port = n }
  unfolding set_value
  set_value-port n o l =
      ap
        (λ r. elim r as (λ _. Parsed) [
          | none ↦ throws
          | some v ↦ parsed record o { server_port = cast 16 v }
        ])
        (reads_int n (omega arith))
      ∙ ap (λ k. parsed record o { server_port = k }) (mod-eq_of_lt l)

  set_value-segment :
      (n : ℕ) (o : Options)
      → n < 2 ^ 32
      → set_value stoi stoul segment_value (show n) o ≡ parsed record o { termux_segment_ms = n }
  unfolding set_value
  set_value-segment n o l =
      ap
        (λ r. elim r as (λ _. Parsed) [
          | none ↦ invalid_segment
          | some v ↦ parsed record o { termux_segment_ms = v % 2 ^ 32 }
        ])
        (reads_long n (omega arith))
      ∙ ap (λ k. parsed record o { termux_segment_ms = k }) (mod-eq_of_lt l)

  set_value-latency :
      (n : ℕ) (o : Options)
      → n < 2 ^ 31
      → set_value stoi stoul latency_value (show n) o
        ≡ parsed record o { target_latency_ms = n; latency_explicit = true }
  unfolding set_value
  set_value-latency n o l =
      ap
        (λ r. elim r as (λ _. Parsed) [
          | none ↦ throws
          | some v ↦ parsed record o { target_latency_ms = cast 32 v; latency_explicit = true }
        ])
        (reads_int n l)
      ∙ ap (λ k. parsed record o { target_latency_ms = k; latency_explicit = true })
          (mod-eq_of_lt {n = n} {m = 2 ^ 32} (omega arith))

  values-parsed :
      (o p : Options) (rest : List (List ℕ))
      → o.server_port < 2 ^ 16
      → o.termux_segment_ms < 2 ^ 32
      → o.target_latency_ms < 2 ^ 31
      → parse_loop stoi stoul (values show o rest) none p
        ≡ parse_loop stoi stoul rest none (record p {
          server_ip = o.server_ip;
          server_port = o.server_port;
          device_name = o.device_name;
          termux_segment_ms = o.termux_segment_ms;
          target_latency_ms = o.target_latency_ms;
          bind_iface = o.bind_iface;
          latency_explicit = true;
        })
  unfolding parse_loop kind set_value same_text
  values-parsed o p rest a b c =
      let later = chars "-b" ∷ o.bind_iface ∷ rest in
      let latency = chars "-l" ∷ show o.target_latency_ms ∷ later in
      let segment = chars "-d" ∷ o.device_name ∷ chars "-T" ∷ show o.termux_segment_ms ∷ latency in
      let p1 : Options = record p { server_ip = o.server_ip } in
      let p2 : Options = record p1 { server_port = o.server_port } in
      let p3 : Options = record p2 { device_name = o.device_name } in
      let p4 : Options = record p3 { termux_segment_ms = o.termux_segment_ms } in
      let p5 : Options = record p4 {
        target_latency_ms = o.target_latency_ms;
        latency_explicit = true;
      } in
      value-parsed port_value (show o.server_port) segment p1 p2 (set_value-port o.server_port p1 a)
      ∙ value-parsed segment_value (show o.termux_segment_ms) latency p3 p4
          (set_value-segment o.termux_segment_ms p3 b)
      ∙ value-parsed latency_value (show o.target_latency_ms) later p4 p5
          (set_value-latency o.target_latency_ms p4 c)

  -- Where the library's functions read what is printed, every choice of options can be written as a
  -- command line: the loop over it yields these options, with the latency marked as chosen.
  pub parse_loop-command_line :
      (o : Options)
      → o.server_port < 2 ^ 16
      → o.termux_segment_ms < 2 ^ 32
      → o.target_latency_ms < 2 ^ 31
      → parse_loop stoi stoul (command_line show o) none no_options
        ≡ parsed record o { latency_explicit = true }
  parse_loop-command_line o a b c =
      values-parsed o no_options _ a b c
      ∙ flags-parsed o.usb_mode o.auto_discover o.use_dummy_player o.verbose o.list_devs _ refl
      ∙ rw
          (
            or_false o.usb_mode,
            or_false o.auto_discover,
            or_false o.use_dummy_player,
            or_false o.verbose,
            or_false o.list_devs,
          )
          refl
