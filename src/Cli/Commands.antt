-- ===== src/Cli/Commands.antt =====
-- cli/cli.go: the flags and the commands of the program, without their texts of usage.
pub mod Reached
use gpgfs.Base.{Bool, true, false, Option, none, some, List, [], ◌∷◌}
use gpgfs.Std.Strings.{Str, codes}

-- The kinds of flags that the program has.
pub data FlagKind : Type 0 where
  string_flag string_slice_flag duration_flag bool_flag : FlagKind

pub record Flag : Type 0 where
  pub kind : FlagKind
  pub name : Str
  pub aliases : List Str
  pub required : Bool
  pub value : Option Str
  pub env_vars : List Str

-- The functions that the commands call.
pub data Action : Type 0 where
  config_show_default config_show config_validate config_push : Action
  key_convert message_encrypt message_decrypt mount : Action

-- A list of commands: the name, the aliases, the action, the flags and the subcommands of the first
-- one, and the rest.
pub data Commands : Type 0 where
  no_command : Commands
  command :
      (name : Str) (aliases : List Str)
      → Option Action
      → List Flag
      → (subcommands rest : Commands) → Commands

abbrev optional : Str → Str → Str → Flag
optional name alias value = record {
  kind = string_flag;
  name = name;
  aliases = alias ∷ [];
  required = false;
  value = some value;
  env_vars = [];
}

abbrev required : Str → Str → Flag
required name alias = record {
  kind = string_flag;
  name = name;
  aliases = alias ∷ [];
  required = true;
  value = none;
  env_vars = [];
}

abbrev switch : FlagKind → Str → Flag
switch kind name = record {
  kind = kind;
  name = name;
  aliases = [];
  required = false;
  value = none;
  env_vars = [];
}

abbrev pub flags : List Flag
flags =
    record {
      kind = string_flag;
      name = codes "log-level";
      aliases = codes "l" ∷ [];
      required = false;
      value = none;
      env_vars = [];
    }
    ∷ record {
      kind = string_slice_flag;
      name = codes "config";
      aliases = codes "c" ∷ [];
      required = false;
      value = some (codes "config.yml");
      env_vars = codes "GPGFS_CONFIG" ∷ [];
    }
    ∷ switch duration_flag (codes "duration")
    ∷ switch bool_flag (codes "profile")
    ∷ switch bool_flag (codes "trace")
    ∷ []

-- `-` stands for the standard streams.
abbrev input_output : List Flag
input_output =
    optional (codes "input") (codes "i") (codes "-")
    ∷ optional (codes "output") (codes "o") (codes "-")
    ∷ []

abbrev config_commands : Commands
config_commands =
    command (codes "show-default") (codes "sd" ∷ []) (some config_show_default) [] no_command (
      command (codes "show") (codes "s" ∷ []) (some config_show) [] no_command (
        command (codes "validate") (codes "v" ∷ []) (some config_validate) [] no_command
          (command (codes "push") (codes "p" ∷ []) (some config_push) [] no_command no_command)))

abbrev key_commands : Commands
key_commands =
    command (codes "convert") (codes "c" ∷ []) (some key_convert)
      (optional (codes "type") (codes "t") (codes "public") ∷ input_output) no_command no_command

abbrev message_commands : Commands
message_commands =
    command (codes "encrypt") (codes "e" ∷ []) (some message_encrypt)
      (required (codes "key") (codes "k") ∷ input_output) no_command
      (command (codes "decrypt") (codes "e" ∷ []) (some message_decrypt)
        (required (codes "key") (codes "k") ∷ input_output) no_command no_command)

abbrev pub commands : Commands
commands = command (codes "config") (codes "c" ∷ []) none [] config_commands (
    command (codes "key") (codes "k" ∷ []) none [] key_commands (
      command (codes "message") (codes "m" ∷ []) none [] message_commands (
        command (codes "mount") (codes "m" ∷ []) (some mount)
          (required (codes "source") (codes "s") ∷ required (codes "target") (codes "t") ∷ [])
          no_command no_command)))
