-- ===== src/Deployer/Main.antt =====
-- deployer/main.c: the program around the deployer. What it prints and logs goes through the streams of
-- the logger.
use wsn_test_platform.Shared.{
  ℕ, Bool, true, Option, none, some, List, [], ◌∷◌, ◌++◌, ret_ok, Run, ok, fault, out_of_fuel, Cmd,
  pure, and_then, ◌>>=◌, ◌>>◌, codes,
}
use wsn_test_platform.Protocol.{Bytes}
use wsn_test_platform.Logger.{LogStreams, Logger, logger_init, logger_close, logger_printf}
use wsn_test_platform.Deployer.{
  Deployer, Machine, Clients, DeployerEventContext, DeployerEventResult, deployer_event_init,
  deployer_event_target_start, deployer_event_ftp_connect, deployer_event_ftp_login,
  deployer_event_ftp_set_type, deployer_event_ftp_put_file, deployer_event_ftp_close,
  deployer_event_telnet_connect, deployer_event_telnet_login, deployer_event_telnet_command,
  deployer_event_telnet_close, deployer_event_target_end, deployer_event_result_init,
  deployer_event_result_success, deployer_event_result_fail, deployer_do_deploy,
}
use wsn_test_platform.Deployer.Config.{Json, Files}
use wsn_test_platform.Deployer.Setup.{deployer_create, deployer_init, deployer_destroy}

abbrev pub conf_default_file : Bytes
conf_default_file = codes "deployer.conf"

-- `out`
abbrev pub out : DeployerEventResult → Bytes
out deployer_event_result_init = []
out deployer_event_result_success = codes "[success]"
out deployer_event_result_fail = codes "[failed]"

-- "%s" of a text, or of NULL
abbrev pub text_of : Option Bytes → Bytes
text_of none = codes "(null)"
text_of (some text) = text

abbrev ruler : Bytes
ruler = codes "==================================================\n"

abbrev target_line : DeployerEventContext → Bytes
target_line ctx = codes "target: " ++ (text_of ctx.target ++ codes "\n")

abbrev result_line : Bytes → DeployerEventContext → Bytes
result_line title ctx = title ++ (out ctx.result ++ codes "\n")

module _ {V : Type 0} (streams : LogStreams V) where
  -- `printf`
  unfoldable pub print : Bytes → Cmd (Logger V) (Unit {0})
  print text s =
      ok tt
        (record { s_log_file = s.s_log_file; world = streams.vfprintf streams.stdout text s.world })

  unfoldable pub deployer_event_cb : DeployerEventContext → Cmd (Logger V) (Unit {0})
  unfolding print
  deployer_event_cb ctx = elim ctx.event [
    | deployer_event_target_start ↦ (do
      print ruler
      logger_printf streams ruler
      print (target_line ctx)
      logger_printf streams (target_line ctx))
    | deployer_event_ftp_connect ↦ print (result_line (codes "--> FTP connect ") ctx)
    | deployer_event_ftp_login ↦ print (result_line (codes "--> FTP login ") ctx)
    | deployer_event_ftp_set_type ↦ print (result_line (codes "--> FTP set type ") ctx)
    | deployer_event_ftp_put_file ↦
        print (result_line (codes "--> FTP put file " ++ (text_of ctx.file ++ codes " ")) ctx)
    | deployer_event_ftp_close ↦ print (result_line (codes "--> FTP close ") ctx)
    | deployer_event_telnet_connect ↦ print (result_line (codes "--> Telnet connect ") ctx)
    | deployer_event_telnet_login ↦ print (result_line (codes "--> Telnet login ") ctx)
    | deployer_event_telnet_command ↦ print (result_line (codes "--> Telnet command ") ctx)
    | deployer_event_telnet_close ↦ print (result_line (codes "--> Telnet close ") ctx)
    | deployer_event_target_end ↦ print (result_line (codes "RESULT: ") ctx)
    | deployer_event_init ↦ pure tt
  ]

-- Which of the blocks of `deployer_create` memory is given for
pub record Memory : Type 0 where
  pub object : Bool
  pub uploader : Bool
  pub commander : Bool
  pub list : Bool
  pub context : Bool

-- A part of the program that works on the deployer, and what is made of its end
abbrev pub on_machine : {W A B : Type 0} → Run (Machine W) A → (A → Deployer → Cmd W B) → Run W B
on_machine (ok a m) use_it = use_it a m.thiz m.world
on_machine fault use_it = fault
on_machine out_of_fuel use_it = out_of_fuel

module _ {V J : Type 0} (streams : LogStreams V) (json : Json J) (files : Files (Logger V))
    (sys : Clients (Logger V)) (parse : Bytes → Option J) where
  -- What `main` does with the deployer that it has: its exit status, 1 if the set-up fails.
  unfoldable pub with_deployer : Bytes → Deployer → Cmd (Logger V) ℕ
  unfolding deployer_init deployer_do_deploy deployer_destroy logger_close
  with_deployer conf_file_name deployer s =
      on_machine
        (deployer_init json files parse (some conf_file_name)
          (record { thiz = deployer; world = s }))
        (λ (ret, exists) deployer s. elim ret as (λ r. Run (Logger V) ℕ) [
          | ret_ok ↦
              on_machine (deployer_do_deploy sys (record { thiz = deployer; world = s }))
                (λ _ deployer s.
                  and_then (logger_close streams (deployer_destroy json files (some deployer) s))
                    (λ _. pure 0))
          | other ↦ ok 1 s
        ])

  abbrev if_created : Bytes → Option (Option Deployer) → Cmd (Logger V) ℕ
  if_created conf_file_name none = λ s. fault
  if_created conf_file_name (some none) = pure 1
  if_created conf_file_name (some (some deployer)) = with_deployer conf_file_name deployer

  -- `main` after its arguments: `block` is what the memory of the deployer holds. The callback that it
  -- registers is `event_cb` of `sys`.
  unfoldable pub run_deployer : Deployer → Memory → Bytes → Cmd (Logger V) ℕ
  unfolding with_deployer logger_init deployer_create
  run_deployer block memory conf_file_name = do
    ret ← logger_init streams (some (codes "deployer.log"))
    elim ret [
      | ret_ok ↦ if_created conf_file_name (
          deployer_create block true memory.object memory.uploader memory.commander memory.list
            memory.context)
      | other ↦ pure 1
    ]

  -- `main`, by its arguments after the program's name
  unfoldable pub deployer_main : Deployer → Memory → List Bytes → Cmd (Logger V) ℕ
  unfolding run_deployer
  deployer_main block memory [] = run_deployer block memory conf_default_file
  deployer_main block memory (conf_file_name ∷ []) = run_deployer block memory conf_file_name
  deployer_main block memory (a ∷ b ∷ rest) = pure 1
