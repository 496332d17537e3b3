-- ===== src/FtpUploader/Tests.antt =====
-- The theorems on deployer/ftp_uploader.c on two replies to PASV.
use wsn_test_platform.Shared.{[], ◌∷◌, ret_ok, ret_oom, ok, fault, ◌≡◌, ◌⊎◌, refl, arith}
use wsn_test_platform.Protocol.{Bytes}
use wsn_test_platform.FtpUploader.Replies.{ftp_uploader_parse_passive_port}
use wsn_test_platform.FtpUploader.Steps.{decimal, passive_reply}
use wsn_test_platform.FtpUploader.Address.{ftp_uploader_parse_passive_port-address}
use wsn_test_platform.FtpUploader.Unclosed.{ftp_uploader_parse_passive_port-unclosed}

-- "10"
abbrev ten : Bytes
ten = b'1' ∷ b'0' ∷ []

-- "10.10.10.10"
abbrev address : Bytes
address = b'1' ∷ b'0' ∷ b'.' ∷ b'1' ∷ b'0' ∷ b'.' ∷ b'1' ∷ b'0' ∷ b'.' ∷ b'1' ∷ b'0' ∷ []

ftp_uploader_parse_passive_port-address_example :
    ftp_uploader_parse_passive_port
      (passive_reply (b'2' ∷ 32 ∷ []) ten ten ten ten ten ten (46 ∷ []) [])
    ≡ ok ret_ok (address, 2570)
unfolding decimal
ftp_uploader_parse_passive_port-address_example =
    ftp_uploader_parse_passive_port-address (b'2' ∷ 32 ∷ []) ten ten ten ten ten ten (46 ∷ []) []
      (refl, (refl, tt)) ((refl, (refl, tt)), omega arith) ((refl, (refl, tt)), omega arith)
      ((refl, (refl, tt)), omega arith) ((refl, (refl, tt)), omega arith)
      ((refl, (refl, tt)), omega arith, omega arith) ((refl, (refl, tt)), omega arith, omega arith)
      (refl, tt)

ftp_uploader_parse_passive_port-unclosed_example :
    (ftp_uploader_parse_passive_port (b'(' ∷ b'1' ∷ 0 ∷ []) ≡ fault)
    ⊎ (ftp_uploader_parse_passive_port (b'(' ∷ b'1' ∷ 0 ∷ []) ≡ ok ret_oom ([], 0))
ftp_uploader_parse_passive_port-unclosed_example =
    ftp_uploader_parse_passive_port-unclosed (b'(' ∷ b'1' ∷ 0 ∷ []) (refl, (refl, (refl, tt)))
