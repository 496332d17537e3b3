-- ===== src/Deployer/Events.antt =====
-- deployer/deployer.c: the events that a deployment tells, in their order.
pub mod Telling
mod Telnet
mod Files
use wsn_test_platform.Shared.{
  ℕ, Option, none, some, List, [], ◌∷◌, ◌++◌, ◌≡◌, refl, sym, ap, append_assoc, append-nil, ◌∙◌,
  subst, Ret, ret_ok, ret_oom, ret_stop, ret_invalid_params, ret_fail, fault, Cmd, pure, ◌>>=◌,
  ◌>>◌, Ends, ended, Ends-and_then, Ends-mono, ◌==◌, if◌then◌else◌, length, replicate,
}
use wsn_test_platform.Protocol.{Bytes}
use wsn_test_platform.Deployer.{
  DeployerEvent, deployer_event_ftp_connect, deployer_event_ftp_login, deployer_event_ftp_set_type,
  deployer_event_ftp_put_file, DeployerEventResult, deployer_event_result_success,
  deployer_event_result_fail, DeployerEventContext, Deployer, Machine, Clients, set_event,
  set_result, call, get, update_ctx, step, put_files, telnet_steps, close_ftp, with_files,
  deployer_do_one_target, target_loop, result_of, deployer_do_deploy, deployer_event_target_start,
  deployer_event_target_end,
}
use wsn_test_platform.Deployer.Events.Telling.{
  rest_plan, target_plan, Told, IsTold, IsQuiet, Goes, Tells, heard_as, call-Tells,
}
use wsn_test_platform.Deployer.Events.Files.{put_files-Tells, rest-Tells}

-- How the end of a target is told
abbrev pub end_result : Ret → DeployerEventResult
end_result ret_ok = deployer_event_result_success
end_result ret_oom = deployer_event_result_fail
end_result ret_stop = deployer_event_result_fail
end_result ret_invalid_params = deployer_event_result_fail
end_result ret_fail = deployer_event_result_fail

-- What is told of the targets, with the plan that they share
pub data IsDeployed (plan : List DeployerEvent) : List (Option Bytes) → Told → Type 0 where
  no_more : IsDeployed plan [] []
  passed_over :
      {targets : List (Option Bytes)} {told : Told}
      → IsDeployed plan targets told
      → IsDeployed plan (none ∷ targets) told
  deployed :
      {target : Bytes} {targets : List (Option Bytes)} {before : DeployerEventResult}
      {one told : Told} (ret : Ret)
      → IsTold plan ret one
      → IsDeployed plan targets told
      → IsDeployed plan (some target ∷ targets) (
          (deployer_event_target_start, before)
          ∷ (one ++ ((deployer_event_target_end, end_result ret) ∷ told)))

module _ {W : Type 0} (sys : Clients W) (told : W → Told) (is : IsQuiet sys told) where
  with_files-some :
      (fds : List (Option ℕ)) (t : Deployer) (use_files : List (Option ℕ) → Cmd (Machine W) Ret)
      → t.deploy_file_list ≡ some fds
      → with_files sys t use_files ≡ use_files fds
  with_files-some fds t use_files h =
      ap
        (λ o. elim o as (λ x. Cmd (Machine W) Ret) [
          | some fds ↦ use_files fds
          | none ↦ if t.deploy_file_count == 0 then use_files [] else (λ m. fault)
        ])
        h

  abbrev put_stage : Bytes → Deployer → Cmd (Machine W) Ret
  put_stage ip t = do
    update_ctx sys (set_event deployer_event_ftp_put_file)
    with_files sys t (λ fds. put_files sys fds (close_ftp sys >> telnet_steps sys ip))

  put_stage-Tells :
      (fds : List (Option ℕ)) (ip : Bytes) (t : Deployer)
      → t.deploy_file_list ≡ some fds
      → Tells sys told is fds
          (replicate (length fds) deployer_event_ftp_put_file ++ rest_plan)
          (put_stage ip t)
  put_stage-Tells fds ip t h m ready =
      let next = close_ftp sys >> telnet_steps sys ip in
      let m1 : Machine W = record {
        thiz = record m.thiz {
          event_cb_ctx = set_event deployer_event_ftp_put_file m.thiz.event_cb_ctx;
        };
        world = m.world;
      } in
      subst
        (λ command.
          Ends
            (Goes sys told is fds (replicate (length fds) deployer_event_ftp_put_file ++ rest_plan)
              (told m.world))
            (command m1))
        (sym (with_files-some fds t (λ fds. put_files sys fds next) h))
        (put_files-Tells sys told is fds fds rest_plan next m1 (rest-Tells sys told is fds ip) ready
          refl)

  abbrev ftp_login_stage : Bytes → Deployer → Cmd (Machine W) Ret
  ftp_login_stage ip t =
      step sys deployer_event_ftp_login
        (call sys (sys.ftp_uploader_login t.ftp_username t.ftp_password))
        (step sys deployer_event_ftp_set_type (call sys sys.ftp_uploader_set_binary_mode)
          (put_stage ip t))

  ftp_login_stage-Tells :
      (fds : List (Option ℕ)) (ip : Bytes) (t : Deployer)
      → t.deploy_file_list ≡ some fds
      → Tells sys told is fds
          (deployer_event_ftp_login
            ∷ (deployer_event_ftp_set_type
                ∷ (replicate (length fds) deployer_event_ftp_put_file ++ rest_plan)))
          (ftp_login_stage ip t)
  ftp_login_stage-Tells fds ip t h =
      call-Tells sys told is fds _ _ (sys.ftp_uploader_login t.ftp_username t.ftp_password)
        (step sys deployer_event_ftp_set_type (call sys sys.ftp_uploader_set_binary_mode)
          (put_stage ip t))
        (is.ftp_login t.ftp_username t.ftp_password)
        (call-Tells sys told is fds _ _ sys.ftp_uploader_set_binary_mode (put_stage ip t)
          is.ftp_binary (put_stage-Tells fds ip t h))

  -- The deployment of one target: the events of its plan in their order, one for each file, each with
  -- success and RET_OK at the end, or up to the first that fails, told as a failure, and no more. What
  -- was told before stays in front, and the files stay what they are.
  pub deployer_do_one_target-IsTold :
      (fds : List (Option ℕ)) (ip_address : Bytes) (m : Machine W)
      → m.thiz.deploy_file_list ≡ some fds
      → Ends
          (λ ret t.
            (more : Told) × (told t.world ≡ told m.world ++ more)
            × IsTold (target_plan fds) ret more
            × (t.thiz.deploy_file_list ≡ some fds))
          (deployer_do_one_target sys ip_address m)
  unfolding deployer_do_one_target
  deployer_do_one_target-IsTold fds ip_address m h =
      call-Tells sys told is fds deployer_event_ftp_connect _ (sys.ftp_uploader_connect ip_address)
        (get sys >>= ftp_login_stage ip_address) (is.ftp_connect ip_address)
        (λ m ready. ftp_login_stage-Tells fds ip_address m.thiz ready.1 m ready)
        (record {
          thiz = record m.thiz {
            event_cb_ctx = set_result deployer_event_result_success m.thiz.event_cb_ctx;
          };
          world = m.world;
        })
        (refl, h)

  result_of-end_result : (ret : Ret) → result_of sys ret ≡ end_result ret
  result_of-end_result ret_ok = refl
  result_of-end_result ret_oom = refl
  result_of-end_result ret_stop = refl
  result_of-end_result ret_invalid_params = refl
  result_of-end_result ret_fail = refl

  -- The loop over the targets
  target_loop-IsDeployed :
      (fds : List (Option ℕ)) (targets : List (Option Bytes)) (m : Machine W)
      → m.thiz.deploy_file_list ≡ some fds
      → Ends
          (λ _ t.
            (more : Told) × (told t.world ≡ told m.world ++ more)
            × IsDeployed (target_plan fds) targets more)
          (target_loop sys targets m)
  unfolding target_loop
  target_loop-IsDeployed fds [] m h = ended ([], sym (append-nil (told m.world)), no_more)
  target_loop-IsDeployed fds (none ∷ targets) m h =
      Ends-mono (target_loop-IsDeployed fds targets m h)
        (λ _ t (more, g, d). (more, g, passed_over d))
  target_loop-IsDeployed fds (some target ∷ targets) m h =
      let ctx : DeployerEventContext = record m.thiz.event_cb_ctx {
        target = some target;
        event = deployer_event_target_start;
      } in
      let started : Machine W = record {
        thiz = record m.thiz { event_cb_ctx = ctx };
        world = sys.event_cb ctx m.world;
      } in
      Ends-and_then _ (deployer_do_one_target-IsTold fds target started h) (λ ret t (one, g, d, k).
        Ends-mono (target_loop-IsDeployed fds targets _ k) (λ _ u (more, f, e). (
          (deployer_event_target_start, m.thiz.event_cb_ctx.result)
              ∷ (one ++ ((deployer_event_target_end, end_result ret) ∷ more)),
          f
              ∙ ap (λ xs. xs ++ more)
                  (heard_as sys told is _ t.world deployer_event_target_end (end_result ret) refl
                      (result_of-end_result ret)
                    ∙ ap (λ xs. xs ++ ((deployer_event_target_end, end_result ret) ∷ []))
                        (g ∙ ap (λ xs. xs ++ one) (is.heard ctx m.world)))
              ∙ simp append_assoc,
          deployed ret d e,
        )))

  -- Whatever the clients answer, as long as each of their calls comes back, the deployment tells for each target that has an
  -- address, in their order: its start, then the events of its plan, one for each file, up to the first
  -- that fails, and its end with the result: success if RET_OK was answered, failure otherwise. A target
  -- that fails does not keep the next from being deployed. What was told before stays in front.
  pub deployer_do_deploy-IsDeployed :
      (fds : List (Option ℕ)) (targets : List (Option Bytes)) (m : Machine W)
      → m.thiz.deploy_file_list ≡ some fds
      → m.thiz.deploy_target_list ≡ some targets
      → Ends
          (λ _ t.
            (more : Told) × (told t.world ≡ told m.world ++ more)
            × IsDeployed (target_plan fds) targets more)
          (deployer_do_deploy sys m)
  unfolding deployer_do_deploy
  deployer_do_deploy-IsDeployed fds targets m h g =
      subst
        (λ o.
          Ends
            (λ _ t.
              (more : Told) × (told t.world ≡ told m.world ++ more)
              × IsDeployed (target_plan fds) targets more)
            ((elim o as (λ x. Cmd (Machine W) (Unit {0})) [
              | some targets ↦ target_loop sys targets
              | none ↦ if m.thiz.deploy_target_count == 0 then pure tt else (λ m. fault)
            ])
              m))
        (sym g) (target_loop-IsDeployed fds targets m h)
