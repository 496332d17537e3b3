-- ===== src/Deployer/Events/Files.antt =====
-- The events of the files, and of what follows them.
use wsn_test_platform.Shared.{
  ℕ, Option, none, List, [], ◌∷◌, ◌++◌, ◌≡◌, refl, ap, append_assoc, ◌∙◌, Ret, fault, Cmd, pure,
  ◌>>◌, Ends, ended, faulted, Ends-and_then, Ends-mono, Ends-if, Ends-option, ltb, length,
  replicate,
}
use wsn_test_platform.Protocol.{Bytes}
use wsn_test_platform.Deployer.{
  DeployerEvent, deployer_event_ftp_put_file, deployer_event_ftp_close,
  deployer_event_result_success, Machine, Clients, deploy_name, last_part, path_max_length,
  put_files, telnet_steps, close_ftp,
}
use wsn_test_platform.Deployer.Events.Telling.{
  rest_plan, Told, succeeded, IsQuiet, Same-trans, Same, Goes, Ready, Tells, call-Same, heard_as,
  after_step-Goes, Goes-Same,
}
use wsn_test_platform.Deployer.Events.Telnet.{telnet_steps-Tells}

module _ {W : Type 0} (sys : Clients W) (told : W → Told) (is : IsQuiet sys told) where
  deploy_name-Same :
      (fd : Option ℕ) (m : Machine W) → Ends (λ _ t. Same sys told is m t) (deploy_name sys fd m)
  unfolding deploy_name
  deploy_name-Same fd m =
      let same : Same sys told is m
          (record { thiz = m.thiz; world = (sys.readlink fd m.world).1 }) =
        record { files = refl; event = refl; result = refl; telling = is.name_read fd m.world } in
      Ends-option (sys.readlink fd m.world).0 _ _ _ (λ e. ended same)
        (λ name e.
          Ends-if (ltb (length name) path_max_length) (pure (last_part name [] none)) (λ m. fault)
            (record { thiz = m.thiz; world = (sys.readlink fd m.world).1 }) (λ b. ended same)
            (λ b. faulted))

  -- The files, and then the rest of the plan
  pub put_files-Tells :
      (list : List (Option ℕ)) (fds : List (Option ℕ)) (plan : List DeployerEvent)
      (next : Cmd (Machine W) Ret) (m : Machine W)
      → Tells sys told is list plan next
      → Ready sys told is list m
      → m.thiz.event_cb_ctx.event ≡ deployer_event_ftp_put_file
      → Ends
          (Goes sys told is list
            (replicate (length fds) deployer_event_ftp_put_file ++ plan)
            (told m.world))
          (put_files sys fds next m)
  unfolding put_files
  put_files-Tells list [] plan next m n ready he = n m ready
  put_files-Tells list (fd ∷ fds) plan next m n (hr, hf) he =
      Ends-and_then _ (deploy_name-Same fd m) (λ name t same.
        let t2 : Machine W = record {
          thiz = record t.thiz { event_cb_ctx = record t.thiz.event_cb_ctx { file = name } };
          world = sys.lseek_start fd t.world;
        } in
        let step2 : Same sys told is t t2 = record {
          files = refl;
          event = refl;
          result = refl;
          telling = is.rewound fd t.world;
        } in
        Ends-and_then _
          (call-Same sys told is (sys.ftp_uploader_put fd name) t2 (is.ftp_put fd name t2.world))
          (λ ret u last.
            let all : Same sys told is m u =
              Same-trans sys told is same (Same-trans sys told is step2 last) in
            Goes-Same sys told is all (
              after_step-Goes sys told is list deployer_event_ftp_put_file _
                (put_files sys fds next) ret u
                (λ w.
                  put_files-Tells list fds plan next (record { thiz = u.thiz; world = w }) n
                    (all.result ∙ hr, all.files ∙ hf) (all.event ∙ he))
                (all.files ∙ hf) (all.event ∙ he) (all.result ∙ hr))))

  close_ftp-Goes :
      (fds : List (Option ℕ)) (m : Machine W)
      → Ready sys told is fds m
      → Ends
          (λ _ t.
            (told t.world
              ≡ told m.world ++ ((deployer_event_ftp_close, deployer_event_result_success) ∷ []))
            × Ready sys told is fds t)
          (close_ftp sys m)
  unfolding close_ftp
  close_ftp-Goes fds m (hr, hf) =
      Ends-and_then _ (call-Same sys told is sys.ftp_uploader_close _ (is.ftp_close m.world))
        (λ _ t same. ended (
          heard_as sys told is _ t.world deployer_event_ftp_close deployer_event_result_success
                same.event (same.result ∙ hr)
              ∙ ap (λ xs. xs ++ ((deployer_event_ftp_close, deployer_event_result_success) ∷ []))
                  same.telling,
          (same.result ∙ hr, same.files ∙ hf),
        ))

  pub rest-Tells :
      (fds : List (Option ℕ)) (ip : Bytes)
      → Tells sys told is fds rest_plan (close_ftp sys >> telnet_steps sys ip)
  rest-Tells fds ip m ready = Ends-and_then _ (close_ftp-Goes fds m ready) (λ _ t (e, ready).
      Ends-mono (telnet_steps-Tells sys told is fds ip t ready) (λ ret u (more, g, d, k). (
        (deployer_event_ftp_close, deployer_event_result_success) ∷ more,
        g ∙ ap (λ xs. xs ++ more) e ∙ append_assoc (told m.world) _ more,
        succeeded d,
        k,
      )))
