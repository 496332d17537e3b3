-- ===== src/Deployer/Config.antt =====
-- The configuration of deployer/deployer.c: the parsers, and the creation and release of the object.
-- cJSON is a parameter, and `strdup` has the memory that it needs.
use wsn_test_platform.Shared.{
  ℕ, zero, suc, ◌+◌, Bool, true, false, not, Option, none, some, List, [], ◌∷◌, ◌++◌, Ret, ret_ok,
  ret_fail, ok, fault, Cmd, pure, ◌>>=◌, ◌>>◌, ◌==◌, ltb, if◌then◌else◌, length, replicate,
}
use wsn_test_platform.Protocol.{Bytes}
use wsn_test_platform.HexParser.Scan.{c_string}
use wsn_test_platform.Deployer.{Deployer, Machine}

abbrev pub command_buffer_size : ℕ
command_buffer_size = 100

-- "ftp"
abbrev pub conf_json_ftp : Bytes
conf_json_ftp = b'f' ∷ b't' ∷ b'p' ∷ []

-- "username"
abbrev pub conf_json_ftp_username : Bytes
conf_json_ftp_username = b'u' ∷ b's' ∷ b'e' ∷ b'r' ∷ b'n' ∷ b'a' ∷ b'm' ∷ b'e' ∷ []

-- "password"
abbrev pub conf_json_ftp_password : Bytes
conf_json_ftp_password = b'p' ∷ b'a' ∷ b's' ∷ b's' ∷ b'w' ∷ b'o' ∷ b'r' ∷ b'd' ∷ []

-- "telnet"
abbrev pub conf_json_telnet : Bytes
conf_json_telnet = b't' ∷ b'e' ∷ b'l' ∷ b'n' ∷ b'e' ∷ b't' ∷ []

-- "username"
abbrev pub conf_json_telnet_username : Bytes
conf_json_telnet_username = b'u' ∷ b's' ∷ b'e' ∷ b'r' ∷ b'n' ∷ b'a' ∷ b'm' ∷ b'e' ∷ []

-- "password"
abbrev pub conf_json_telnet_password : Bytes
conf_json_telnet_password = b'p' ∷ b'a' ∷ b's' ∷ b's' ∷ b'w' ∷ b'o' ∷ b'r' ∷ b'd' ∷ []

-- "command file"
abbrev pub conf_json_telnet_command : Bytes
conf_json_telnet_command =
    b'c' ∷ b'o' ∷ b'm' ∷ b'm' ∷ b'a' ∷ b'n' ∷ b'd' ∷ 32 ∷ b'f' ∷ b'i' ∷ b'l' ∷ b'e' ∷ []

-- "deploy targets"
abbrev pub conf_json_deploy_targets : Bytes
conf_json_deploy_targets =
    b'd' ∷ b'e' ∷ b'p' ∷ b'l' ∷ b'o' ∷ b'y' ∷ 32 ∷ b't' ∷ b'a' ∷ b'r' ∷ b'g' ∷ b'e' ∷ b't' ∷ b's'
    ∷ []

-- "deploy files"
abbrev pub conf_json_deploy_files : Bytes
conf_json_deploy_files =
    b'd' ∷ b'e' ∷ b'p' ∷ b'l' ∷ b'o' ∷ b'y' ∷ 32 ∷ b'f' ∷ b'i' ∷ b'l' ∷ b'e' ∷ b's' ∷ []

-- The values of cJSON: a missing item is `none`, and so is the text of a value that is not a string.
pub record Json (J : Type 0) : Type 0 where
  pub get_object_item : J → Bytes → Option J
  pub get_array_size : J → ℕ
  pub get_array_item : J → ℕ → Option J
  pub valuestring : J → Option Bytes

-- What the parsers ask of the system
pub record Files (W : Type 0) : Type 0 where
  -- the bytes of a file that `fopen` opens for reading
  pub fopen : Bytes → W → Option Bytes × W
  pub open_read_only : Bytes → W → Option ℕ × W
  pub close : ℕ → W → W
  pub malloc : ℕ → W → Bool × W

-- `strdup`: the text up to the first NUL, or all of the buffer in front of its own
abbrev pub strdup : Bytes → Bytes
strdup text = elim (c_string (text ++ (0 ∷ []))) [ none ↦ text | some string ↦ string ]

-- The loop over the command file, with what the buffer holds and the commands so far. A byte of 255
-- is taken for the end of the file, and a write past the buffer is a fault.
unfoldable pub read_commands : Bytes → Bytes → List Bytes → Option (List Bytes)
read_commands [] buffer commands = some commands
read_commands (c ∷ rest) buffer commands =
    let empty = read_commands rest [] commands in
    let whole = read_commands rest [] (commands ++ (strdup (buffer ++ (13 ∷ 10 ∷ [])) ∷ [])) in
    let longer = read_commands rest (buffer ++ (c ∷ [])) commands in
    if c == 255
    then some commands
    else if c == 10
    then (if length buffer == 0
        then empty
        else if ltb (length buffer + 2) command_buffer_size
        then whole
        else none)
    else if ltb (length buffer) command_buffer_size
    then longer
    else none

module _ {J W : Type 0} (json : Json J) (files : Files W) where
  abbrev pub set_thiz : (Deployer → Deployer) → Cmd (Machine W) (Unit {0})
  set_thiz f m = ok tt (record { thiz = f m.thiz; world = m.world })

  -- A step of the system alone
  abbrev pub call : {A : Type 0} → (W → A × W) → Cmd (Machine W) A
  call f m = ok (f m.world).0 (record { thiz = m.thiz; world = (f m.world).1 })

  -- `strdup(item->valuestring)`: without a text it reads through NULL.
  abbrev pub text_of : J → Cmd (Machine W) Bytes
  text_of item m = elim (json.valuestring item) [ none ↦ fault | some text ↦ ok text m ]

  -- An item that has to be there
  abbrev pub required : J → Bytes → (J → Cmd (Machine W) Ret) → Cmd (Machine W) Ret
  required section name use_item = elim (json.get_object_item section name) [
    | none ↦ pure ret_fail
    | some item ↦ use_item item
  ]

  -- A password is the empty text where it is not there.
  abbrev pub password_of : Option J → Cmd (Machine W) Bytes
  password_of none = pure []
  password_of (some item) = text_of item

  unfoldable pub deployer_parse_ftp : J → Cmd (Machine W) Ret
  deployer_parse_ftp root = required root conf_json_ftp (λ ftp.
      required ftp conf_json_ftp_username (λ item. do
        username ← text_of item
        set_thiz (λ t. record t { ftp_username = some username })
        password ← password_of (json.get_object_item ftp conf_json_ftp_password)
        set_thiz (λ t. record t { ftp_password = some password })
        pure ret_ok))

  -- From the command file on; it stays open.
  unfoldable pub parse_commands : J → Cmd (Machine W) Ret
  unfolding read_commands
  parse_commands item = do
    name ← text_of item
    opened ← call (files.fopen name)
    elim opened [
      | none ↦ pure ret_fail
      | some bytes ↦ λ m. elim (read_commands bytes [] m.thiz.telnet_command_list) [
        | none ↦ fault
        | some commands ↦
            ok ret_ok
              (record { thiz = record m.thiz { telnet_command_list = commands }; world = m.world })
      ]
    ]

  unfoldable pub deployer_parse_telnet : J → Cmd (Machine W) Ret
  unfolding parse_commands
  deployer_parse_telnet root = required root conf_json_telnet (λ telnet.
      required telnet conf_json_telnet_username (λ item. do
        username ← text_of item
        set_thiz (λ t. record t { telnet_username = some username })
        password ← password_of (json.get_object_item telnet conf_json_telnet_password)
        set_thiz (λ t. record t { telnet_password = some password })
        required telnet conf_json_telnet_command parse_commands))

  -- The addresses of the items `i`, `i + 1`, … of an array, one for each round left
  unfoldable pub read_targets : ℕ → J → ℕ → Cmd (Machine W) (List (Option Bytes))
  read_targets zero targets i = pure []
  read_targets (suc k) targets i = elim (json.get_array_item targets i) [
    | none ↦ (do rest ← read_targets k targets (i + 1); pure (none ∷ rest))
    | some item ↦ (do
      address ← text_of item
      rest ← read_targets k targets (i + 1)
      pure (some address ∷ rest))
  ]

  unfoldable pub deployer_parse_deploy_targets : J → Cmd (Machine W) Ret
  unfolding read_targets
  deployer_parse_deploy_targets root = required root conf_json_deploy_targets (λ targets. do
    set_thiz (λ t. record t { deploy_target_count = json.get_array_size targets })
    if json.get_array_size targets == 0 then pure ret_fail else (do
      memory ← call (files.malloc (json.get_array_size targets))
      if not memory then pure ret_fail else (do
        addresses ← read_targets (json.get_array_size targets) targets 0
        set_thiz (λ t. record t { deploy_target_list = some addresses })
        pure ret_ok)))

  -- The files from item `i` on, `k` of them: the descriptors, with -1 behind the first file that
  -- cannot be opened, and whether there was none
  unfoldable pub open_files : ℕ → J → ℕ → Cmd (Machine W) (List (Option ℕ) × Bool)
  open_files zero list i = pure ([], true)
  open_files (suc k) list i = elim (json.get_array_item list i) [
    | none ↦ (do rest ← open_files k list (i + 1); pure (none ∷ rest.0, rest.1))
    | some item ↦ (do
      name ← text_of item
      opened ← call (files.open_read_only name)
      elim opened [
        | none ↦ pure (replicate (suc k) none, false)
        | some fd ↦ do rest ← open_files k list (i + 1); pure (some fd ∷ rest.0, rest.1)
      ])
  ]

  unfoldable pub deployer_parse_deploy_files : J → Cmd (Machine W) Ret
  unfolding open_files
  deployer_parse_deploy_files root = required root conf_json_deploy_files (λ list. do
    set_thiz (λ t. record t { deploy_file_count = json.get_array_size list })
    if json.get_array_size list == 0 then pure ret_fail else (do
      memory ← call (files.malloc (json.get_array_size list))
      if not memory then pure ret_fail else (do
        opened ← open_files (json.get_array_size list) list 0
        set_thiz (λ t. record t { deploy_file_list = some opened.0 })
        if opened.1 then pure ret_ok else pure ret_fail)))
