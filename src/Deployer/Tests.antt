-- ===== src/Deployer/Tests.antt =====
-- The theorem on deployer/deployer.c on a file with two commands and a line without its end.
use wsn_test_platform.Shared.{some, [], ◌∷◌, ◌≡◌, refl, arith}
use wsn_test_platform.Protocol.{Bytes}
use wsn_test_platform.Deployer.Config.{read_commands}
use wsn_test_platform.Deployer.Commands.{IsCommand, script, read_commands-script}

-- "ls"
abbrev list_files : Bytes
list_files = b'l' ∷ b's' ∷ []

list_files-IsCommand : IsCommand list_files
list_files-IsCommand = (((refl, refl, refl), ((refl, refl, refl), tt)), omega arith, omega arith)

read_commands-script_example :
    read_commands (script (list_files ∷ list_files ∷ []) (b'x' ∷ [])) [] []
    ≡ some ((b'l' ∷ b's' ∷ 13 ∷ 10 ∷ []) ∷ (b'l' ∷ b's' ∷ 13 ∷ 10 ∷ []) ∷ [])
read_commands-script_example =
    read_commands-script (list_files ∷ list_files ∷ []) [] (b'x' ∷ [])
      (list_files-IsCommand, (list_files-IsCommand, tt)) ((refl, refl, refl), tt) (omega arith)
