-- ===== src/Deployer/Setup.antt =====
-- The life of the object of deployer/deployer.c: its creation, its set-up from the configuration, and
-- its release.
use wsn_test_platform.Shared.{
  ℕ, Bool, true, false, not, ◌||◌, Option, none, some, List, [], ◌∷◌, Ret, ret_ok, ret_fail,
  ret_invalid_params, ok, Cmd, pure, ◌>>=◌, if◌then◌else◌,
}
use wsn_test_platform.Protocol.{Bytes}
use wsn_test_platform.Deployer.{Deployer, Machine, deployer_event_init, deployer_event_result_init}
use wsn_test_platform.Deployer.Config.{
  Json, Files, strdup, call, deployer_parse_ftp, deployer_parse_telnet,
  deployer_parse_deploy_targets, deployer_parse_deploy_files,
}

module _ {J W : Type 0} (json : Json J) (files : Files W) where
  -- The next parser runs on RET_OK only.
  abbrev pub and_parse : Cmd (Machine W) Ret → Cmd (Machine W) Ret → Cmd (Machine W) Ret
  and_parse first second = do ret ← first; elim ret [ ret_ok ↦ second | other ↦ pure other ]

  unfoldable pub close_files : List (Option ℕ) → W → W
  close_files [] w = w
  close_files (none ∷ fds) w = close_files fds w
  close_files (some fd ∷ fds) w = close_files fds (files.close fd w)

  -- `deployer_destroy`: what is left of the world; NULL is `none`.
  unfoldable pub deployer_destroy : Option Deployer → W → W
  unfolding close_files
  deployer_destroy none w = w
  deployer_destroy (some thiz) w = elim thiz.deploy_file_list [
    | none ↦ w
    | some fds ↦ close_files fds w
  ]

  -- The answer, and whether the object still exists: a failure destroys it.
  unfoldable pub deployer_parse_config_file : J → Cmd (Machine W) (Ret × Bool)
  unfolding deployer_parse_ftp deployer_parse_telnet deployer_parse_deploy_targets
      deployer_parse_deploy_files deployer_destroy
  deployer_parse_config_file root = do
    ret ← and_parse (deployer_parse_ftp json files root) (
        and_parse (deployer_parse_telnet json files root) (
          and_parse (deployer_parse_deploy_targets json files root)
            (deployer_parse_deploy_files json files root)))
    elim ret [
      | ret_ok ↦ pure (ret_ok, true)
      | other ↦ λ m.
          ok (ret_fail, false)
            (record { thiz = m.thiz; world = deployer_destroy (some m.thiz) m.world })
    ]

  -- `cJSON_Parse` is the first argument. The file is read whole.
  unfoldable pub deployer_init : (Bytes → Option J) → Option Bytes → Cmd (Machine W) (Ret × Bool)
  unfolding deployer_parse_config_file
  deployer_init parse none = pure (ret_invalid_params, true)
  deployer_init parse (some conf_file_name) = do
    opened ← call json files (files.fopen conf_file_name)
    elim opened [
      | none ↦ pure (ret_fail, true)
      | some conf_buffer ↦ elim (parse (strdup conf_buffer)) [
        | none ↦ pure (ret_fail, true)
        | some root ↦ deployer_parse_config_file root
      ]
    ]

-- `deployer_create` with what the block holds and whether there is a callback, and memory for the
-- object, the uploader, the commander, the list and the context. A failure in the middle releases a
-- context that has no value yet, a fault; the count of the targets keeps what the block held.
unfoldable pub deployer_create :
    Deployer → Bool → Bool → Bool → Bool → Bool → Bool → Option (Option Deployer)
deployer_create block event_cb object uploader commander list context =
    if not event_cb || not object
    then some none
    else if not uploader || not commander || not list
    then none
    else if not context
    then some none
    else some (
        some (record {
          ftp_username = none;
          ftp_password = none;
          telnet_username = none;
          telnet_password = none;
          telnet_command_list = [];
          deploy_target_count = block.deploy_target_count;
          deploy_target_list = none;
          deploy_file_count = 0;
          deploy_file_list = none;
          event_cb_ctx = record {
            event = deployer_event_init;
            result = deployer_event_result_init;
            target = none;
            file = none;
            command = none;
          };
        }))
