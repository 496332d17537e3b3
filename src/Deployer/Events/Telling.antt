-- ===== src/Deployer/Events/Telling.antt =====
-- What the deployment of a target tells by its events, and the steps that tell one event each.
use wsn_test_platform.Shared.{
  ℕ, Option, some, List, [], ◌∷◌, ◌++◌, ◌≡◌, ◌≢◌, refl, ap, ap₂, append_assoc, ◌∙◌, Ret, ret_ok,
  ret_oom, ret_stop, ret_invalid_params, ret_fail, Run, Cmd, Ends, ended, faulted, Ends-and_then,
  Ends-mono, length, replicate, arith,
}
use wsn_test_platform.Protocol.{Bytes}
use wsn_test_platform.Deployer.{
  DeployerEvent, deployer_event_ftp_connect, deployer_event_ftp_login, deployer_event_ftp_set_type,
  deployer_event_ftp_put_file, deployer_event_ftp_close, deployer_event_telnet_connect,
  deployer_event_telnet_login, deployer_event_telnet_command, deployer_event_telnet_close,
  DeployerEventResult, deployer_event_result_success, deployer_event_result_fail,
  DeployerEventContext, Machine, Clients, lift, call, fail, after_step, step,
}

abbrev pub Told : Type 0
Told = List (DeployerEvent × DeployerEventResult)

-- What is told of a plan of events, and the answer: each of them succeeds, or one fails and it is the
-- last.
pub data IsTold : List DeployerEvent → Ret → Told → Type 0 where
  finished : IsTold [] ret_ok []
  succeeded :
      {e : DeployerEvent} {plan : List DeployerEvent} {ret : Ret} {told : Told}
      → IsTold plan ret told
      → IsTold (e ∷ plan) ret ((e, deployer_event_result_success) ∷ told)
  failed :
      {e : DeployerEvent} {plan : List DeployerEvent} {ret : Ret}
      → ret ≢ ret_ok
      → IsTold (e ∷ plan) ret ((e, deployer_event_result_fail) ∷ [])

-- The clients end and tell nothing themselves; the callback hears the event and its result.
pub record IsQuiet {W : Type 0} (sys : Clients W) (told : W → Told) : Type 0 where
  pub ftp_connect :
      (ip : Bytes) (w : W) → Ends (λ _ t. told t ≡ told w) (sys.ftp_uploader_connect ip w)
  pub ftp_login :
      (u p : Option Bytes) (w : W) → Ends (λ _ t. told t ≡ told w) (sys.ftp_uploader_login u p w)
  pub ftp_binary : (w : W) → Ends (λ _ t. told t ≡ told w) (sys.ftp_uploader_set_binary_mode w)
  pub ftp_put :
      (fd : Option ℕ) (name : Option Bytes) (w : W)
      → Ends (λ _ t. told t ≡ told w) (sys.ftp_uploader_put fd name w)
  pub ftp_close : (w : W) → Ends (λ _ t. told t ≡ told w) (sys.ftp_uploader_close w)
  pub telnet_connect :
      (ip : Bytes) (w : W) → Ends (λ _ t. told t ≡ told w) (sys.telnet_commander_connect ip w)
  pub telnet_login :
      (u p : Option Bytes) (w : W)
      → Ends (λ _ t. told t ≡ told w) (sys.telnet_commander_login u p w)
  pub telnet_line :
      (line : Bytes) (w : W)
      → Ends (λ _ t. told t ≡ told w) (sys.telnet_commander_send_one_line line w)
  pub telnet_close : (w : W) → Ends (λ _ t. told t ≡ told w) (sys.telnet_commander_close w)
  pub name_read : (fd : Option ℕ) (w : W) → told (sys.readlink fd w).1 ≡ told w
  pub rewound : (fd : Option ℕ) (w : W) → told (sys.lseek_start fd w) ≡ told w
  pub heard :
      (ctx : DeployerEventContext) (w : W)
      → told (sys.event_cb ctx w) ≡ told w ++ ((ctx.event, ctx.result) ∷ [])

abbrev pub telnet_plan : List DeployerEvent
telnet_plan =
    deployer_event_telnet_connect
    ∷ (deployer_event_telnet_login
        ∷ (deployer_event_telnet_command ∷ (deployer_event_telnet_close ∷ [])))

abbrev pub rest_plan : List DeployerEvent
rest_plan = deployer_event_ftp_close ∷ telnet_plan

-- The events of the deployment of one target with `fds` for its files, in their order
abbrev pub target_plan : List (Option ℕ) → List DeployerEvent
target_plan fds =
    deployer_event_ftp_connect
    ∷ (deployer_event_ftp_login
        ∷ (deployer_event_ftp_set_type
            ∷ (replicate (length fds) deployer_event_ftp_put_file ++ rest_plan)))

module _ {W : Type 0} (sys : Clients W) (told : W → Told) (is : IsQuiet sys told) where
  -- A part of the steps that leaves the machine's event, result and telling as they are
  pub record Same (m t : Machine W) : Type 0 where
    pub files : t.thiz.deploy_file_list ≡ m.thiz.deploy_file_list
    pub event : t.thiz.event_cb_ctx.event ≡ m.thiz.event_cb_ctx.event
    pub result : t.thiz.event_cb_ctx.result ≡ m.thiz.event_cb_ctx.result
    pub telling : told t.world ≡ told m.world

  pub Same-trans : {m t u : Machine W} → Same m t → Same t u → Same m u
  Same-trans a b = record {
    files = b.files ∙ a.files;
    event = b.event ∙ a.event;
    result = b.result ∙ a.result;
    telling = b.telling ∙ a.telling;
  }

  -- What is told of a plan from a telling on; the files are still `fds`.
  abbrev pub Goes : List (Option ℕ) → List DeployerEvent → Told → Ret → Machine W → Type 0
  Goes fds plan log ret t =
      (more : Told) × (told t.world ≡ log ++ more)
      × IsTold plan ret more
      × (t.thiz.deploy_file_list ≡ some fds)

  -- A machine whose result is a success, and whose files are `fds`
  abbrev pub Ready : List (Option ℕ) → Machine W → Type 0
  Ready fds m =
      (m.thiz.event_cb_ctx.result ≡ deployer_event_result_success)
      × (m.thiz.deploy_file_list ≡ some fds)

  -- From such a machine a command tells a plan.
  abbrev pub Tells : List (Option ℕ) → List DeployerEvent → Cmd (Machine W) Ret → Type 0
  Tells fds plan command =
      (m : Machine W) → Ready fds m → Ends (Goes fds plan (told m.world)) (command m)

  lift-Same :
      {A : Type 0} (r : Run W A) (m : Machine W)
      → Ends (λ _ t. told t ≡ told m.world) r
      → Ends (λ _ t. Same m t) (lift sys r m.thiz)
  lift-Same r m (ended h) =
      ended (record { files = refl; event = refl; result = refl; telling = h })
  lift-Same r m faulted = faulted

  pub call-Same :
      {A : Type 0} (f : Cmd W A) (m : Machine W)
      → Ends (λ _ t. told t ≡ told m.world) (f m.world)
      → Ends (λ _ t. Same m t) (call sys f m)
  call-Same f m h = lift-Same (f m.world) m h

  pub heard_as :
      (ctx : DeployerEventContext) (w : W) (e : DeployerEvent) (r : DeployerEventResult)
      → ctx.event ≡ e
      → ctx.result ≡ r
      → told (sys.event_cb ctx w) ≡ told w ++ ((e, r) ∷ [])
  heard_as ctx w e r he hr = is.heard ctx w ∙ ap₂ (λ a b. told w ++ ((a, b) ∷ [])) he hr

  fail-IsTold :
      (fds : List (Option ℕ)) (e : DeployerEvent) (plan : List DeployerEvent) (ret : Ret)
      (m : Machine W)
      → ret ≢ ret_ok
      → m.thiz.deploy_file_list ≡ some fds
      → m.thiz.event_cb_ctx.event ≡ e
      → Ends (Goes fds (e ∷ plan) (told m.world)) (fail sys ret m)
  unfolding fail
  fail-IsTold fds e plan ret m n hf he = ended (
    (e, deployer_event_result_fail) ∷ [],
    heard_as _ m.world e deployer_event_result_fail he refl,
    failed n,
    hf,
  )

  -- After a step whose event is `e`: on RET_OK it is told and the plan goes on.
  pub after_step-Goes :
      (fds : List (Option ℕ)) (e : DeployerEvent) (plan : List DeployerEvent)
      (next : Cmd (Machine W) Ret) (ret : Ret) (m : Machine W)
      → ((w : W) → Ends (Goes fds plan (told w)) (next (record { thiz = m.thiz; world = w })))
      → m.thiz.deploy_file_list ≡ some fds
      → m.thiz.event_cb_ctx.event ≡ e
      → m.thiz.event_cb_ctx.result ≡ deployer_event_result_success
      → Ends (Goes fds (e ∷ plan) (told m.world)) (after_step sys next ret m)
  unfolding after_step
  after_step-Goes fds e plan next ret_ok m n hf he hr = Ends-mono (n _) (λ ret t (more, g, d, k). (
    (e, deployer_event_result_success) ∷ more,
    g
        ∙ ap (λ xs. xs ++ more) (heard_as _ m.world e deployer_event_result_success he hr)
        ∙ append_assoc (told m.world) ((e, deployer_event_result_success) ∷ []) more,
    succeeded d,
    k,
  ))
  after_step-Goes fds e plan next ret_oom m n hf he hr =
      fail-IsTold fds e plan ret_oom m (λ z. grind arith) hf he
  after_step-Goes fds e plan next ret_stop m n hf he hr =
      fail-IsTold fds e plan ret_stop m (λ z. grind arith) hf he
  after_step-Goes fds e plan next ret_invalid_params m n hf he hr =
      fail-IsTold fds e plan ret_invalid_params m (λ z. grind arith) hf he
  after_step-Goes fds e plan next ret_fail m n hf he hr =
      fail-IsTold fds e plan ret_fail m (λ z. grind arith) hf he

  -- What goes on from a telling that is the same
  pub Goes-Same :
      {m t : Machine W} {fds : List (Option ℕ)} {plan : List DeployerEvent}
      {r : Run (Machine W) Ret}
      → Same m t
      → Ends (Goes fds plan (told t.world)) r
      → Ends (Goes fds plan (told m.world)) r
  Goes-Same same run =
      Ends-mono run (λ _ u (more, g, d, k). (more, g ∙ ap (λ xs. xs ++ more) same.telling, d, k))

  -- A step whose operation ends and leaves the event, the result and the telling as they are
  pub step-Tells :
      (fds : List (Option ℕ)) (e : DeployerEvent) (plan : List DeployerEvent)
      (operation next : Cmd (Machine W) Ret)
      → ((m : Machine W) → Ends (λ _ t. Same m t) (operation m))
      → Tells fds plan next
      → Tells fds (e ∷ plan) (step sys e operation next)
  step-Tells fds e plan operation next o n m (hr, hf) = Ends-and_then _ (o _) (λ ret t same.
      Goes-Same same (
        after_step-Goes fds e plan next ret t
          (λ w. n (record { thiz = t.thiz; world = w }) (same.result ∙ hr, same.files ∙ hf))
          (same.files ∙ hf) same.event (same.result ∙ hr)))

  -- A step that is one call of a client
  pub call-Tells :
      (fds : List (Option ℕ)) (e : DeployerEvent) (plan : List DeployerEvent) (f : Cmd W Ret)
      (next : Cmd (Machine W) Ret)
      → ((w : W) → Ends (λ _ t. told t ≡ told w) (f w))
      → Tells fds plan next
      → Tells fds (e ∷ plan) (step sys e (call sys f) next)
  call-Tells fds e plan f next h n =
      step-Tells fds e plan (call sys f) next (λ m. call-Same f m (h m.world)) n
