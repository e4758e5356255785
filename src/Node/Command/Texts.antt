-- ===== src/Node/Command/Texts.antt =====
-- The texts of `SubstrateCli for Cli` in node/src/command.rs.
use Prim.Native.String.{String}
use paseo_node.Base.{ℕ}

-- The variables that are set when the node is compiled.
pub record BuildVariables : Type 0 where
  pub substrate_cli_impl_version : String
  pub cargo_pkg_description : String
  pub cargo_pkg_authors : String

pub record SubstrateCli : Type 0 where
  pub impl_name : String
  pub impl_version : String
  pub description : String
  pub author : String
  pub support_url : String
  pub copyright_start_year : ℕ

abbrev pub substrate_cli : BuildVariables → SubstrateCli
substrate_cli env = record {
  impl_name = "Paseo Unified Node";
  impl_version = env.substrate_cli_impl_version;
  description = env.cargo_pkg_description;
  author = env.cargo_pkg_authors;
  support_url = "https://github.com/prodigalwon";
  copyright_start_year = 2025;
}
