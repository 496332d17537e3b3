-- ===== src/Deployer.antt =====
-- deployer/deployer.c: the deployment of files and commands to a list of boards. The clients of
-- deployer/ftp_uploader.c and deployer/telnet_commander.c are an interface, and the list of commands
-- is its data, by the theorems on common/dlist.c. Pointers that may be NULL are an `Option`.
pub mod Config
pub mod Setup
pub mod Commands
pub mod Events
pub mod Main
mod Tests
use wsn_test_platform.Shared.{
  ℕ, zero, suc, ◌+◌, ◌/◌, ◌%◌, Bool, true, false, not, ◌&&◌, Option, none, some, List, [], ◌∷◌,
  ◌++◌, Ret, ret_ok, ret_oom, ret_stop, ret_invalid_params, ret_fail, Run, ok, fault, out_of_fuel,
  Cmd, pure, and_then, ◌>>=◌, ◌>>◌, ◌==◌, ltb, leb, if◌then◌else◌, length,
}
use wsn_test_platform.Protocol.{Bytes}

pub data DeployerEvent : Type 0 where
  deployer_event_init deployer_event_target_start deployer_event_ftp_connect
        deployer_event_ftp_login deployer_event_ftp_set_type deployer_event_ftp_put_file
        deployer_event_ftp_close deployer_event_telnet_connect deployer_event_telnet_login
        deployer_event_telnet_command deployer_event_telnet_close deployer_event_target_end :
      DeployerEvent

pub data DeployerEventResult : Type 0 where
  deployer_event_result_init deployer_event_result_success deployer_event_result_fail :
      DeployerEventResult

pub record DeployerEventContext : Type 0 where
  pub event : DeployerEvent
  pub result : DeployerEventResult
  pub target : Option Bytes
  pub file : Option Bytes
  pub command : Option Bytes

-- A descriptor of -1 is `none`. The lists are `none` before they are allocated.
pub record Deployer : Type 0 where
  pub ftp_username : Option Bytes
  pub ftp_password : Option Bytes
  pub telnet_username : Option Bytes
  pub telnet_password : Option Bytes
  pub telnet_command_list : List Bytes
  pub deploy_target_count : ℕ
  pub deploy_target_list : Option (List (Option Bytes))
  pub deploy_file_count : ℕ
  pub deploy_file_list : Option (List (Option ℕ))
  pub event_cb_ctx : DeployerEventContext

pub record Machine (W : Type 0) : Type 0 where
  pub thiz : Deployer
  pub world : W

abbrev pub path_max_length : ℕ
path_max_length = 4096

-- What the deployment calls: the two clients, the system, and the user's callback. A telnet client that
-- ends the whole process, with exit(1), does not come back: its run is `fault`, and nothing of the
-- deployment follows it.
pub record Clients (W : Type 0) : Type 0 where
  pub ftp_uploader_connect : Bytes → Cmd W Ret
  pub ftp_uploader_login : Option Bytes → Option Bytes → Cmd W Ret
  pub ftp_uploader_set_binary_mode : Cmd W Ret
  pub ftp_uploader_put : Option ℕ → Option Bytes → Cmd W Ret
  pub ftp_uploader_close : Cmd W Ret
  pub telnet_commander_connect : Bytes → Cmd W Ret
  pub telnet_commander_login : Option Bytes → Option Bytes → Cmd W Ret
  pub telnet_commander_send_one_line : Bytes → Cmd W Ret
  pub telnet_commander_close : Cmd W Ret
  -- the path of an open file, `none` if `readlink` fails
  pub readlink : Option ℕ → W → Option Bytes × W
  pub lseek_start : Option ℕ → W → W
  pub event_cb : DeployerEventContext → W → W
  -- "default_deploy_name_%d" with the descriptor
  pub default_name : Option ℕ → Bytes

-- The last part of a path that is not empty, as `strtok_r` with "/" finds it: the part that is being
-- read, and the last one so far
unfoldable pub last_part : Bytes → Bytes → Option Bytes → Option Bytes
last_part [] part found = elim part [ [] ↦ found | c ∷ cs ↦ some (c ∷ cs) ]
last_part (c ∷ path) part found =
    let same = last_part path (part ++ (c ∷ [])) found in
    let next = last_part path [] (elim part [ [] ↦ found | d ∷ ds ↦ some (d ∷ ds) ]) in
    if c == b'/' then next else same

abbrev pub set_event : DeployerEvent → DeployerEventContext → DeployerEventContext
set_event e ctx = record ctx { event = e }

abbrev pub set_result : DeployerEventResult → DeployerEventContext → DeployerEventContext
set_result r ctx = record ctx { result = r }

module _ {W : Type 0} (sys : Clients W) where
  -- A call of a client, which acts on the world alone
  abbrev pub lift : {A : Type 0} → Run W A → Deployer → Run (Machine W) A
  lift (ok a w) t = ok a (record { thiz = t; world = w })
  lift fault t = fault
  lift out_of_fuel t = out_of_fuel

  abbrev pub call : {A : Type 0} → Cmd W A → Cmd (Machine W) A
  call f m = lift (f m.world) m.thiz

  abbrev pub get : Cmd (Machine W) Deployer
  get m = ok m.thiz m

  abbrev pub update_ctx : (DeployerEventContext → DeployerEventContext) → Cmd (Machine W) (Unit {0})
  update_ctx f m =
      ok tt
        (record { thiz = record m.thiz { event_cb_ctx = f m.thiz.event_cb_ctx }; world = m.world })

  -- `thiz->event_cb(thiz->event_cb_ctx, …)`
  abbrev pub notify : Cmd (Machine W) (Unit {0})
  notify m = ok tt (record { thiz = m.thiz; world = sys.event_cb m.thiz.event_cb_ctx m.world })

  -- `fail:`
  unfoldable pub fail : Ret → Cmd (Machine W) Ret
  fail ret = do update_ctx (set_result deployer_event_result_fail); notify; pure ret

  -- The answer of a step: on RET_OK its event is told and the code goes on.
  unfoldable pub after_step : Cmd (Machine W) Ret → Ret → Cmd (Machine W) Ret
  unfolding fail
  after_step next ret_ok = do notify; next
  after_step next ret_oom = fail ret_oom
  after_step next ret_stop = fail ret_stop
  after_step next ret_invalid_params = fail ret_invalid_params
  after_step next ret_fail = fail ret_fail

  abbrev pub step : DeployerEvent → Cmd (Machine W) Ret → Cmd (Machine W) Ret → Cmd (Machine W) Ret
  step e operation next = do update_ctx (set_event e); ret ← operation; after_step next ret

  -- The name of an open file: a path that fills the buffer leaves no room for the NUL.
  unfoldable pub deploy_name : Option ℕ → Cmd (Machine W) (Option Bytes)
  unfolding last_part
  deploy_name fd = do
    path ← call (λ w. ok (sys.readlink fd w).0 (sys.readlink fd w).1)
    elim path [
      | none ↦ pure (some (sys.default_name fd))
      | some path_name ↦
          if ltb (length path_name) path_max_length
          then pure (last_part path_name [] none)
          else (λ m. fault)
    ]

  -- The loop over the files, and then the rest
  unfoldable pub put_files : List (Option ℕ) → Cmd (Machine W) Ret → Cmd (Machine W) Ret
  unfolding after_step deploy_name
  put_files [] next = next
  put_files (fd ∷ fds) next = do
    name ← deploy_name fd
    call (λ w. ok tt (sys.lseek_start fd w))
    update_ctx (λ ctx. record ctx { file = name })
    ret ← call (sys.ftp_uploader_put fd name)
    after_step (put_files fds next) ret

  -- `dlist_foreach` with `visit_telnet_command_list`: it stops at RET_STOP only, and the last answer
  -- counts.
  unfoldable pub visit_commands : List Bytes → Ret → Cmd (Machine W) Ret
  visit_commands [] ret = pure ret
  visit_commands (command ∷ commands) ret_stop = pure ret_stop
  visit_commands (command ∷ commands) ret = do
    update_ctx (λ ctx. record ctx { command = some command })
    answer ← call (sys.telnet_commander_send_one_line command)
    visit_commands commands answer

  -- Steps 5 to 8
  unfoldable pub telnet_steps : Bytes → Cmd (Machine W) Ret
  unfolding after_step visit_commands
  telnet_steps ip_address =
      step deployer_event_telnet_connect (call (sys.telnet_commander_connect ip_address)) (do
        t ← get
        step deployer_event_telnet_login
            (call (sys.telnet_commander_login t.telnet_username t.telnet_password))
            (step deployer_event_telnet_command (visit_commands t.telnet_command_list ret_ok)
              (step deployer_event_telnet_close (call sys.telnet_commander_close) (pure ret_ok))))

  -- Step 4: the answer of the closing is not looked at.
  unfoldable pub close_ftp : Cmd (Machine W) (Unit {0})
  close_ftp = do
    update_ctx (λ ctx. record ctx { event = deployer_event_ftp_close; file = none })
    call sys.ftp_uploader_close
    notify

  -- The files that are counted; without a list of them the loop reads through NULL.
  abbrev pub with_files : Deployer → (List (Option ℕ) → Cmd (Machine W) Ret) → Cmd (Machine W) Ret
  with_files t use_files = elim t.deploy_file_list [
    | some fds ↦ use_files fds
    | none ↦ if t.deploy_file_count == 0 then use_files [] else (λ m. fault)
  ]

  unfoldable pub deployer_do_one_target : Bytes → Cmd (Machine W) Ret
  unfolding after_step put_files telnet_steps close_ftp
  deployer_do_one_target ip_address = do
    update_ctx (set_result deployer_event_result_success)
    step deployer_event_ftp_connect (call (sys.ftp_uploader_connect ip_address)) (do
      t ← get
      step deployer_event_ftp_login (call (sys.ftp_uploader_login t.ftp_username t.ftp_password)) (
          step deployer_event_ftp_set_type (call sys.ftp_uploader_set_binary_mode) (do
            update_ctx (set_event deployer_event_ftp_put_file)
            with_files t (λ fds. put_files fds (do close_ftp; telnet_steps ip_address)))))

  abbrev pub result_of : Ret → DeployerEventResult
  result_of ret_ok = deployer_event_result_success
  result_of other = deployer_event_result_fail

  -- The loop over the targets; one without an address is passed over.
  unfoldable pub target_loop : List (Option Bytes) → Cmd (Machine W) (Unit {0})
  unfolding deployer_do_one_target
  target_loop [] = pure tt
  target_loop (none ∷ targets) = target_loop targets
  target_loop (some target ∷ targets) = do
    update_ctx (λ ctx. record ctx { target = some target; event = deployer_event_target_start })
    notify
    ret ← deployer_do_one_target target
    update_ctx (λ ctx. record ctx { event = deployer_event_target_end; result = result_of ret })
    notify
    target_loop targets

  unfoldable pub deployer_do_deploy : Cmd (Machine W) (Unit {0})
  unfolding target_loop
  deployer_do_deploy = do
    t ← get
    elim t.deploy_target_list [
      | some targets ↦ target_loop targets
      | none ↦ if t.deploy_target_count == 0 then pure tt else (λ m. fault)
    ]
