-- ===== src/Cli/Args/Parsed.antt =====
-- crates/mempooloracle/examples/cli_tool.rs: the arguments that say what is to be parsed.
use Prim.Native.String.{String}
use mathlib.Core.List.{append_assoc, append-nil}
use bulkmail.Prelude.{
  ℕ, ◌≡◌, refl, sym, ap, ◌∙◌, List, [], ◌∷◌, ◌++◌, Bool, true, false, none, some, ok,
}
use bulkmail.Cli.Args.{
  DataSource, Flags, form_of, parse_arg, parse_loop, parse_args, set_option, source_of, no_flags,
  parse_u64, parse_duration_value, cli_args,
}

abbrev bootnode_args : List String → List String
bootnode_args [] = []
bootnode_args (node ∷ nodes) = "--bootnode" ∷ node ∷ bootnode_args nodes

abbrev discovery_args : Bool → List String → List String
discovery_args true args = args
discovery_args false args = "--disable-discovery-v4" ∷ args

-- The arguments that ask for a source, and those that also ask for a duration, given as a text.
abbrev pub source_args : DataSource → List String
source_args (DataSource.live url) = "--ws-url" ∷ url ∷ []
source_args (DataSource.p2p chain bootnodes discovery_v4) =
    "--p2p" ∷ "--chain" ∷ chain ∷ discovery_args discovery_v4 (bootnode_args bootnodes)
source_args DataSource.simulated = "--simulate" ∷ []

abbrev pub to_args : String → DataSource → List String
to_args duration source = "--duration" ∷ duration ∷ source_args source

parse_loop-bootnode_args :
    (nodes : List String) (f : Flags)
    → parse_loop (bootnode_args nodes) f ≡ ok (record f { bootnodes = f.bootnodes ++ nodes })
unfolding parse_loop parse_arg form_of set_option
parse_loop-bootnode_args [] f =
    ap (λ ns. ok (record f { bootnodes = ns })) (sym (append-nil f.bootnodes))
parse_loop-bootnode_args (node ∷ nodes) f =
    parse_loop-bootnode_args nodes (record f { bootnodes = f.bootnodes ++ node ∷ [] })
    ∙ ap (λ ns. ok (record f { bootnodes = ns })) (append_assoc f.bootnodes (node ∷ []) nodes)

parse_loop-disable :
    (args : List String) (f : Flags)
    → parse_loop ("--disable-discovery-v4" ∷ args) f
      ≡ parse_loop args (record f { discovery_v4 = false })
unfolding parse_loop parse_arg form_of
parse_loop-disable [] f = refl
parse_loop-disable (arg ∷ args) f = refl

parse_loop-discovery_args :
    (discovery_v4 : Bool) (nodes : List String) (f : Flags)
    → parse_loop
        (discovery_args discovery_v4 (bootnode_args nodes))
        (record f { bootnodes = []; discovery_v4 = true })
      ≡ ok (record f { bootnodes = nodes; discovery_v4 = discovery_v4 })
parse_loop-discovery_args true nodes f =
    parse_loop-bootnode_args nodes (record f { bootnodes = []; discovery_v4 = true })
parse_loop-discovery_args false nodes f =
    parse_loop-disable (bootnode_args nodes) (record f { bootnodes = []; discovery_v4 = true })
    ∙ parse_loop-bootnode_args nodes (record f { bootnodes = []; discovery_v4 = false })

parse_duration_value-ok :
    (text : String) (n : ℕ) → parse_u64 text ≡ some n → parse_duration_value text ≡ ok n
unfolding parse_duration_value
parse_duration_value-ok text n h = rw (parse_duration_value, h) refl

-- The flags that the source's arguments leave.
abbrev source_flags : DataSource → Flags → Flags
source_flags (DataSource.live url) f = record f { ws_url = some url }
source_flags (DataSource.p2p chain bootnodes discovery_v4) f = record f {
  p2p = true;
  chain = chain;
  bootnodes = bootnodes;
  discovery_v4 = discovery_v4;
}
source_flags DataSource.simulated f = record f { simulate = true }

parse_loop-to_args :
    (text : String) (n : ℕ) (source : DataSource)
    → parse_u64 text ≡ some n
    → parse_loop (to_args text source) (no_flags none)
      ≡ ok (source_flags source (record (no_flags none) { duration_secs = n }))
unfolding parse_loop parse_arg form_of set_option
parse_loop-to_args text n (DataSource.live url) h =
    rw (parse_loop, parse_arg, form_of, set_option, parse_duration_value-ok text n h) refl
parse_loop-to_args text n DataSource.simulated h =
    rw (parse_loop, parse_arg, form_of, set_option, parse_duration_value-ok text n h) refl
parse_loop-to_args text n (DataSource.p2p chain bootnodes discovery_v4) h =
    rw (parse_loop, parse_arg, form_of, set_option, parse_duration_value-ok text n h)
      (parse_loop-discovery_args discovery_v4 bootnodes
        (record (no_flags none) { duration_secs = n; p2p = true; chain = chain }))

-- With neither variable of the environment set, the arguments that give a duration, as a text of a `u64`,
-- and ask for a source are parsed as that duration and that source.
pub parse_args-to_args :
    (text : String) (n : ℕ) (source : DataSource)
    → parse_u64 text ≡ some n
    → parse_args none none (to_args text source)
      ≡ ok (record { duration_secs = n; source = source })
unfolding parse_args source_of
parse_args-to_args text n source h =
    rw (parse_args, parse_loop-to_args text n source h) (chosen source)
  where
    chosen :
        (s : DataSource)
        → cli_args (source_flags s (record (no_flags none) { duration_secs = n })) (
            source_of
              (source_flags s (record (no_flags none) { duration_secs = n })).simulate
              (source_flags s (record (no_flags none) { duration_secs = n })).p2p
              (source_flags s (record (no_flags none) { duration_secs = n })).ws_url
              (source_flags s (record (no_flags none) { duration_secs = n })))
          ≡ ok (record { duration_secs = n; source = s })
    chosen (DataSource.live url) = refl
    chosen (DataSource.p2p chain bootnodes discovery_v4) = refl
    chosen DataSource.simulated = refl
