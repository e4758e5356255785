-- ===== src/Node/Entry.antt =====
-- The node's entry points: node/src/main.rs, and its build script node/build.rs.
use paseo_node.Base.{Option}
use paseo_node.Node.Command.{Subcommand, Environment, Cli, run}

-- `command::run()`, which the subcommand that clap has parsed is given to
abbrev pub main : (env : Environment) → Option Subcommand → Cli env (Unit {0})
main env sub = run env sub

-- The build script: `generate_cargo_keys` of substrate_build_script_utils writes the keys that
-- cargo reads, to the build's output.
abbrev pub build_main {ℓ} : {Output : Type ℓ} → (Output → Output) → Output → Output
build_main generate_cargo_keys output = generate_cargo_keys output
