-- ===== src/Deployer/Events/Telnet.antt =====
-- The events of the steps over telnet.
use wsn_test_platform.Shared.{
  ℕ, Option, some, List, [], ◌∷◌, refl, sym, append-nil, Ret, ret_ok, ret_oom, ret_stop,
  ret_invalid_params, ret_fail, Cmd, pure, ◌>>=◌, ◌>>◌, Ends, ended, Ends-and_then, Ends-mono,
}
use wsn_test_platform.Protocol.{Bytes}
use wsn_test_platform.Deployer.{
  deployer_event_telnet_login, deployer_event_telnet_command, deployer_event_telnet_close, Deployer,
  Machine, Clients, call, get, update_ctx, step, visit_commands, telnet_steps,
}
use wsn_test_platform.Deployer.Events.Telling.{
  telnet_plan, Told, finished, IsQuiet, Same-trans, Same, Tells, call-Same, step-Tells, call-Tells,
}

module _ {W : Type 0} (sys : Clients W) (told : W → Told) (is : IsQuiet sys told) where
  line-Same :
      (command : Bytes) (k : Ret → Cmd (Machine W) Ret) (m : Machine W)
      → ((answer : Ret) (t : Machine W) → Ends (λ _ u. Same sys told is t u) (k answer t))
      → Ends
          (λ _ u. Same sys told is m u)
          ((update_ctx sys (λ ctx. record ctx { command = some command })
              >> (call sys (sys.telnet_commander_send_one_line command) >>= k))
            m)
  line-Same command k m h =
      Ends-and_then k
        (call-Same sys told is (sys.telnet_commander_send_one_line command) _
          (is.telnet_line command _))
        (λ answer t same. Ends-mono (h answer t) (λ _ u later.
          Same-trans sys told is
            (record {
              files = same.files;
              event = same.event;
              result = same.result;
              telling = same.telling;
            })
            later))

  visit_commands-Same :
      (commands : List Bytes) (ret : Ret) (m : Machine W)
      → Ends (λ _ t. Same sys told is m t) (visit_commands sys commands ret m)
  unfolding visit_commands
  visit_commands-Same [] ret m =
      ended (record { files = refl; event = refl; result = refl; telling = refl })
  visit_commands-Same (command ∷ commands) ret_ok m =
      line-Same command (visit_commands sys commands) m (visit_commands-Same commands)
  visit_commands-Same (command ∷ commands) ret_oom m =
      line-Same command (visit_commands sys commands) m (visit_commands-Same commands)
  visit_commands-Same (command ∷ commands) ret_stop m =
      ended (record { files = refl; event = refl; result = refl; telling = refl })
  visit_commands-Same (command ∷ commands) ret_invalid_params m =
      line-Same command (visit_commands sys commands) m (visit_commands-Same commands)
  visit_commands-Same (command ∷ commands) ret_fail m =
      line-Same command (visit_commands sys commands) m (visit_commands-Same commands)

  abbrev close_stage : Cmd (Machine W) Ret
  close_stage =
      step sys deployer_event_telnet_close (call sys sys.telnet_commander_close) (pure ret_ok)

  abbrev command_stage : Deployer → Cmd (Machine W) Ret
  command_stage t =
      step sys deployer_event_telnet_command (visit_commands sys t.telnet_command_list ret_ok)
        close_stage

  abbrev login : Deployer → Cmd W Ret
  login t = sys.telnet_commander_login t.telnet_username t.telnet_password

  abbrev login_stage : Deployer → Cmd (Machine W) Ret
  login_stage t = step sys deployer_event_telnet_login (call sys (login t)) (command_stage t)

  close_stage-Tells :
      (fds : List (Option ℕ)) → Tells sys told is fds (deployer_event_telnet_close ∷ []) close_stage
  close_stage-Tells fds =
      call-Tells sys told is fds _ [] sys.telnet_commander_close (pure ret_ok) is.telnet_close
        (λ m ready. ended ([], sym (append-nil (told m.world)), finished, ready.1))

  login_stage-Tells :
      (fds : List (Option ℕ)) (t : Deployer)
      → Tells sys told is fds
          (deployer_event_telnet_login
            ∷ (deployer_event_telnet_command ∷ (deployer_event_telnet_close ∷ [])))
          (login_stage t)
  login_stage-Tells fds t =
      call-Tells sys told is fds _ _ (login t) (command_stage t)
        (is.telnet_login t.telnet_username t.telnet_password)
        (step-Tells sys told is fds _ _ (visit_commands sys t.telnet_command_list ret_ok)
          close_stage (visit_commands-Same t.telnet_command_list ret_ok) (close_stage-Tells fds))

  pub telnet_steps-Tells :
      (fds : List (Option ℕ)) (ip : Bytes) → Tells sys told is fds telnet_plan (telnet_steps sys ip)
  unfolding telnet_steps
  telnet_steps-Tells fds ip =
      call-Tells sys told is fds _ _ (sys.telnet_commander_connect ip) (get sys >>= login_stage)
        (is.telnet_connect ip) (λ m ready. login_stage-Tells fds m.thiz m ready)
