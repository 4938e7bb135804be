-- ===== src/Cli/Args.antt =====
-- crates/mempooloracle/examples/cli_tool.rs: the arguments of the tool. An error is the message that is
-- printed before the usage, and ends the process.
pub mod Chosen
pub mod Parsed
use Prim.Native.String.{String, ◌++◌ as str_append, len, slice}
use Prim.Native.Char.{code}
use text.Mathlib.Text.{◌==◌ as str_eq, starts_with}
use bulkmail.Prelude.{
  ℕ, ◌+◌, ◌-◌, ◌*◌, ltb, leb, ◌==◌, List, [], ◌∷◌, ◌++◌, Bool, true, false, ◌&&◌, if◌then◌else◌,
  Option, none, some, Result, ok, err, u64_mod,
}

pub data DataSource : Type 0 where
  live : String → DataSource
  p2p : String → List String → Bool → DataSource
  simulated : DataSource

pub record CliArgs : Type 0 where
  pub duration_secs : ℕ
  pub source : DataSource

-- The variables of `parse_args`.
pub record Flags : Type 0 where
  pub duration_secs : ℕ
  pub ws_url : Option String
  pub simulate : Bool
  pub p2p : Bool
  pub chain : String
  pub bootnodes : List String
  pub discovery_v4 : Bool

-- A text's characters as numbers.
abbrev codes : String → List ℕ
codes String.[] = []
codes (String.◌∷◌ c s) = code c ∷ codes s

-- `parse::<u64>`: digits after at most one plus sign, at least one of them, of a number that fits.
unfoldable pub parse_digits : List ℕ → ℕ → Option ℕ
parse_digits [] n = some n
parse_digits (c ∷ cs) n =
    let rest = parse_digits cs (n * 10 + (c - b'0')) in
    if leb b'0' c && leb c b'9' && ltb (n * 10 + (c - b'0')) u64_mod then rest else none

abbrev unsigned : List ℕ → List ℕ
unsigned [] = []
unsigned (c ∷ cs) = if c == b'+' then cs else c ∷ cs

abbrev digits_of : List ℕ → Option ℕ
digits_of [] = none
digits_of (c ∷ cs) = parse_digits (c ∷ cs) 0

unfoldable pub parse_u64 : String → Option ℕ
unfolding parse_digits
parse_u64 s = digits_of (unsigned (codes s))

-- The options with a value, and the form of an argument.
pub data Opt : Type 0 where
  duration : Opt
  ws_url : Opt
  chain : Opt
  bootnode : Opt

pub data Form : Type 0 where
  inline : Opt → String → Form
  takes_value : Opt → Form
  simulate : Form
  p2p : Form
  disable_discovery_v4 : Form
  unrecognized : Form

abbrev pub strip_prefix : String → String → Option String
strip_prefix s t = if starts_with s t then some (slice s (len t) (len s)) else none

-- The tests of the loop, in their order.
abbrev pub opt_form : Opt → String → String → String → Form → Form
opt_form o arg prefix name otherwise = elim (strip_prefix arg prefix) [
  | some value ↦ inline o value
  | none ↦ if str_eq arg name then takes_value o else otherwise
]

unfoldable pub form_of : String → Form
form_of arg = opt_form Opt.duration arg "--duration=" "--duration" (
    opt_form Opt.ws_url arg "--ws-url=" "--ws-url" (
      if str_eq arg "--simulate"
      then simulate
      else if str_eq arg "--p2p"
      then p2p
      else opt_form Opt.chain arg "--chain=" "--chain" (
          opt_form Opt.bootnode arg "--bootnode=" "--bootnode"
            (if str_eq arg "--disable-discovery-v4" then disable_discovery_v4 else unrecognized))))

abbrev name_of : Opt → String
name_of Opt.duration = "--duration"
name_of Opt.ws_url = "--ws-url"
name_of Opt.chain = "--chain"
name_of Opt.bootnode = "--bootnode"

-- `parse_duration_value`
unfoldable pub parse_duration_value : String → Result String ℕ
unfolding parse_u64
parse_duration_value value = elim (parse_u64 value) [
  | some n ↦ ok n
  | none ↦ err (str_append "invalid duration value: " value)
]

unfoldable pub set_option : Opt → String → Flags → Result String Flags
unfolding parse_duration_value
set_option Opt.duration value f = elim (parse_duration_value value) [
  | ok n ↦ ok (record f { duration_secs = n })
  | err why ↦ err why
]
set_option Opt.ws_url value f = ok (record f { ws_url = some value })
set_option Opt.chain value f = ok (record f { chain = value })
set_option Opt.bootnode value f = ok (record f { bootnodes = f.bootnodes ++ value ∷ [] })

abbrev pub set_form : Form → Flags → Flags
set_form simulate f = record f { simulate = true }
set_form p2p f = record f { p2p = true }
set_form disable_discovery_v4 f = record f { discovery_v4 = false }
set_form (inline o value) f = f
set_form (takes_value o) f = f
set_form unrecognized f = f

abbrev pub and_then {ℓ} :
    {A : Type ℓ} → Result String Flags → (Flags → Result String A) → Result String A
and_then (ok f) k = k f
and_then (err why) k = err why

-- A turn of the loop at `arg`; `rest` goes on after it, and `skip` after the argument that follows it,
-- if there is one.
unfoldable pub parse_arg :
    Form
    → String
    → (Flags → Result String Flags)
    → Option (Flags → Result String Flags) × String
    → Flags
    → Result String Flags
unfolding set_option
parse_arg (inline o value) arg rest skip f = and_then (set_option o value f) rest
parse_arg (takes_value o) arg rest (none, value) f =
    err (str_append "missing value for " (name_of o))
parse_arg (takes_value o) arg rest (some skip, value) f = and_then (set_option o value f) skip
parse_arg simulate arg rest skip f = rest (set_form simulate f)
parse_arg p2p arg rest skip f = rest (set_form p2p f)
parse_arg disable_discovery_v4 arg rest skip f = rest (set_form disable_discovery_v4 f)
parse_arg unrecognized arg rest skip f = err (str_append "unrecognized argument: " arg)

unfoldable pub parse_loop : List String → Flags → Result String Flags
unfolding parse_arg form_of
parse_loop [] f = ok f
parse_loop (arg ∷ []) f = parse_arg (form_of arg) arg (parse_loop []) (none, "") f
parse_loop (arg ∷ next ∷ args) f =
    parse_arg (form_of arg) arg (parse_loop (next ∷ args)) (some (parse_loop args), next) f

-- The choice of a source, by `(simulate, p2p, ws_url)`.
unfoldable pub source_of : Bool → Bool → Option String → Flags → Result String DataSource
source_of true false (some url) f = err "choose either --simulate or --ws-url, not both"
source_of true true url f = err "choose exactly one data source: --simulate, --ws-url, or --p2p"
source_of false true (some url) f =
    err "choose exactly one data source: --simulate, --ws-url, or --p2p"
source_of true false none f = ok DataSource.simulated
source_of false true none f = ok (DataSource.p2p f.chain f.bootnodes f.discovery_v4)
source_of false false (some url) f = ok (DataSource.live url)
source_of false false none f =
    err "missing data source: provide --ws-url <url>, use --p2p, or use --simulate"

abbrev pub env_url : Option String → Option String → Option String
env_url (some url) eth = some url
env_url none eth = eth

abbrev pub no_flags : Option String → Flags
no_flags url = record {
  duration_secs = 30;
  ws_url = url;
  simulate = false;
  p2p = false;
  chain = "mainnet";
  bootnodes = [];
  discovery_v4 = true;
}

abbrev pub cli_args : Flags → Result String DataSource → Result String CliArgs
cli_args f (ok source) = ok (record { duration_secs = f.duration_secs; source = source })
cli_args f (err why) = err why

-- The environment's MEMPOOLORACLE_WS_URL and ETH_WS_URL, and the arguments after the program's name.
unfoldable pub parse_args : Option String → Option String → List String → Result String CliArgs
unfolding parse_loop source_of
parse_args mempooloracle_ws_url eth_ws_url args =
    and_then (parse_loop args (no_flags (env_url mempooloracle_ws_url eth_ws_url)))
      (λ f. cli_args f (source_of f.simulate f.p2p f.ws_url f))
