-- ===== src/Cli/Args/Chosen.antt =====
-- crates/mempooloracle/examples/cli_tool.rs: which source the tool may choose.
use Prim.Native.String.{String}
use bulkmail.Prelude.{
  ℕ, ◌≡◌, refl, List, [], ◌∷◌, Bool, true, false, Option, none, some, Result, ok, err,
}
use bulkmail.Cli.Args.{
  DataSource, CliArgs, Flags, Opt, Form, inline, takes_value, simulate, p2p, disable_discovery_v4,
  unrecognized, form_of, set_option, set_form, parse_arg, parse_loop, parse_args,
  parse_duration_value, and_then, source_of, cli_args, env_url, no_flags,
}

abbrev HasUrl : Flags → Type 0
HasUrl f = (url : String) × (f.ws_url ≡ some url)

-- Flags with a URL, if there is no error.
abbrev Stays : Result String Flags → Type 0
Stays (ok f) = HasUrl f
Stays (err why) = Unit {0}

set_option-Stays : (o : Opt) (value : String) (f : Flags) → HasUrl f → Stays (set_option o value f)
unfolding set_option
set_option-Stays Opt.duration value f h = given (parse_duration_value value)
  where
    given :
        (r : Result String ℕ)
        → Stays (elim r [ ok n ↦ ok (record f { duration_secs = n }) | err why ↦ err why ])
    given (ok n) = h
    given (err why) = tt
set_option-Stays Opt.ws_url value f h = (value, refl)
set_option-Stays Opt.chain value f h = h
set_option-Stays Opt.bootnode value f h = h

and_then-Stays :
    (r : Result String Flags) (k : Flags → Result String Flags)
    → Stays r
    → ((f : Flags) → HasUrl f → Stays (k f))
    → Stays (and_then r k)
and_then-Stays (ok f) k h g = g f h
and_then-Stays (err why) k h g = tt

-- What goes on after a turn keeps a URL.
abbrev GoesOn : (Flags → Result String Flags) → Type 0
GoesOn k = (f : Flags) → HasUrl f → Stays (k f)

abbrev Skips : Option (Flags → Result String Flags) × String → Type 0
Skips (none, value) = Unit {0}
Skips (some k, value) = GoesOn k

parse_arg-Stays :
    (form : Form) (arg : String) (rest : Flags → Result String Flags)
    (skip : Option (Flags → Result String Flags) × String)
    → GoesOn rest
    → Skips skip
    → GoesOn (parse_arg form arg rest skip)
unfolding parse_arg
parse_arg-Stays (inline o value) arg rest skip g k f h =
    and_then-Stays (set_option o value f) rest (set_option-Stays o value f h) g
parse_arg-Stays (takes_value o) arg rest (none, value) g k f h = tt
parse_arg-Stays (takes_value o) arg rest (some skip, value) g k f h =
    and_then-Stays (set_option o value f) skip (set_option-Stays o value f h) k
parse_arg-Stays simulate arg rest skip g k f h = g (set_form simulate f) h
parse_arg-Stays p2p arg rest skip g k f h = g (set_form p2p f) h
parse_arg-Stays disable_discovery_v4 arg rest skip g k f h = g (set_form disable_discovery_v4 f) h
parse_arg-Stays unrecognized arg rest skip g k f h = tt

parse_loop-Stays : (args : List String) → GoesOn (parse_loop args)
unfolding parse_loop
parse_loop-Stays [] f h = h
parse_loop-Stays (arg ∷ []) f h =
    parse_arg-Stays (form_of arg) arg (parse_loop []) (none, "") (parse_loop-Stays []) tt f h
parse_loop-Stays (arg ∷ next ∷ args) f h =
    parse_arg-Stays (form_of arg) arg (parse_loop (next ∷ args)) (some (parse_loop args), next)
      (parse_loop-Stays (next ∷ args)) (parse_loop-Stays args) f h

-- A URL leaves the one source that reads it.
abbrev pub OnlyLive : Result String CliArgs → Type 0
OnlyLive (ok a) = (url : String) × (a.source ≡ DataSource.live url)
OnlyLive (err why) = Unit {0}

source_of-OnlyLive :
    (simulate p2p : Bool) (url : Option String) (f : Flags) (u : String)
    → url ≡ some u
    → OnlyLive (cli_args f (source_of simulate p2p url f))
unfolding source_of
source_of-OnlyLive true true url f u h = tt
source_of-OnlyLive s p none f u h = absurd (cc)
source_of-OnlyLive true false (some url) f u h = tt
source_of-OnlyLive false true (some url) f u h = tt
source_of-OnlyLive false false (some url) f u h = (url, refl)

-- Where a variable of the environment has a URL, the tool either stops with an error or runs over a
-- live node, whatever its arguments: it is never simulated and never peer-to-peer.
pub parse_args-env :
    (mempooloracle_ws_url eth_ws_url : Option String) (url : String) (args : List String)
    → env_url mempooloracle_ws_url eth_ws_url ≡ some url
    → OnlyLive (parse_args mempooloracle_ws_url eth_ws_url args)
unfolding parse_args
parse_args-env mempooloracle_ws_url eth_ws_url url args h =
    let start = no_flags (env_url mempooloracle_ws_url eth_ws_url) in
    parsed (parse_loop args start) (parse_loop-Stays args start (url, h))
  where
    parsed :
        (r : Result String Flags)
        → Stays r
        → OnlyLive (and_then r (λ f. cli_args f (source_of f.simulate f.p2p f.ws_url f)))
    parsed (ok f) (u, e) = source_of-OnlyLive f.simulate f.p2p f.ws_url f u e
    parsed (err why) e = tt
